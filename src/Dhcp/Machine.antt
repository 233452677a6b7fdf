-- ===== src/Dhcp/Machine.antt =====
-- dhcp.c: DHCP_run(), check_DHCP_timeout(), check_DHCP_leasedIP() and DHCP_stop().
pub mod Reachable
pub mod Sending
use x_wizchip_io_library_dri.Base.{
  ℕ, zero, suc, ◌+◌, ◌/◌, ◌%◌, ◌^◌, ◌==◌, ltb, not, ◌&&◌, if◌then◌else◌, Bool, true, false, Option,
  none, some, List, [], ◌∷◌, ◌++◌, get_or,
}
use x_wizchip_io_library_dri.Dns.Name.{Parsed, ok, too_long, outside, no_fuel, ◌>>=◌}
use x_wizchip_io_library_dri.Dhcp.Options.{Learned, Arrived, parse_dhcp_msg, same_bytes}
use x_wizchip_io_library_dri.Dhcp.State.{
  Dhcp, DhcpState, state_init, state_discover, state_request, state_leased, state_rerequest,
  state_stop, DhcpRet, dhcp_failed, dhcp_running, dhcp_ip_changed, dhcp_ip_leased, dhcp_stopped,
  Call, open_socket, ip_assign, ip_update, ip_conflict, close_socket, limit_rcr, restore_rcr,
  wait_ticks, send_to, max_dhcp_retry, dhcp_wait_time, infinite_leasetime, zero_ip,
  reset_dhcp_timeout,
}
use x_wizchip_io_library_dri.Dhcp.Messages.{
  send_dhcp_discover, send_dhcp_request, send_dhcp_decline,
}

-- A result: what is returned, the variables behind it, and the calls.
pub record Step : Type 0 where
  pub ret : DhcpRet
  pub dhcp : Dhcp
  pub calls : List Call

abbrev pub step : DhcpRet → Dhcp → List Call → Step
step ret d calls = record { ret = ret; dhcp = d; calls = calls }

-- A DISCOVER or REQUEST, with the state that a step goes on from.
abbrev discovers : Dhcp → Dhcp × List Call
discovers d = let (d', call) = send_dhcp_discover d in (d', call ∷ [])

abbrev requests : Dhcp → Dhcp × List Call
requests d = (d, send_dhcp_request d ∷ [])

-- The first switch of check_DHCP_timeout(): what is sent once more.
unfoldable pub resend : DhcpState → Dhcp → Dhcp × List Call
resend state_discover d = discovers d
resend state_request d = requests d
resend state_rerequest d = requests d
resend _ d = (d, [])

-- The second switch.
unfoldable pub give_up : DhcpState → Dhcp → Step
give_up state_discover d = step dhcp_failed (record d { dhcp_state = state_init }) []
give_up state_request d =
    let (d', calls) = discovers d in
    step dhcp_running (record d' { dhcp_state = state_discover }) calls
give_up state_rerequest d =
    let (d', calls) = discovers d in
    step dhcp_running (record d' { dhcp_state = state_discover }) calls
give_up _ d = step dhcp_running d []

unfoldable pub check_dhcp_timeout : Dhcp → Step
check_dhcp_timeout d =
    let (d', calls) = resend d.dhcp_state d in
    let over = give_up d.dhcp_state d in
    if ltb d.dhcp_retry_count max_dhcp_retry
    then (if ltb d.dhcp_tick_next d.dhcp_tick_1s
        then step dhcp_running
            (record d' {
              dhcp_tick_1s = 0;
              dhcp_tick_next = dhcp_wait_time;
              dhcp_retry_count = d.dhcp_retry_count + 1;
            })
            calls
        else step dhcp_running d [])
    else step over.ret (reset_dhcp_timeout over.dhcp) over.calls

-- "CHECK_IP_CONFLICT"
abbrev probe : List ℕ
probe = 67 ∷ 72 ∷ 69 ∷ 67 ∷ 75 ∷ 95 ∷ 73 ∷ 80 ∷ 95 ∷ 67 ∷ 79 ∷ 78 ∷ 70 ∷ 76 ∷ 73 ∷ 67 ∷ 84 ∷ []

-- The calls of check_DHCP_leasedIP(), whose result is `unique`: whether the sendto() of the probe
-- returned SOCKERR_TIMEOUT. The ticks that the wait takes are reset behind it.
unfoldable pub check_dhcp_leased_ip : Bool → Dhcp → List Call
check_dhcp_leased_ip unique d =
    limit_rcr
    ∷ send_to d.allocated_ip 5000 probe
    ∷ restore_rcr
    ∷ (if unique then [] else send_dhcp_decline d ∷ wait_ticks ∷ [])

-- The switch of DHCP_run(), with the type of the message that arrived and its `yiaddr`; `unique` is
-- what check_DHCP_leasedIP() returns.
unfoldable pub run_state : DhcpState → ℕ → List ℕ → Bool → Dhcp → Step
run_state state_init type yiaddr unique d =
    let (d', calls) = discovers (record d { allocated_ip = zero_ip }) in
    step dhcp_running (record d' { dhcp_state = state_discover }) calls
run_state state_discover type yiaddr unique d =
    let d' = record d { allocated_ip = yiaddr } in
    if type == 2
    then step dhcp_running (record d' { dhcp_state = state_request }) (requests d').1
    else check_dhcp_timeout d
run_state state_request type yiaddr unique d =
    if type == 5
    then (if unique
        then step dhcp_running (record (reset_dhcp_timeout d) { dhcp_state = state_leased })
            (check_dhcp_leased_ip true d ++ ip_assign ∷ [])
        else step dhcp_running (record (reset_dhcp_timeout d) { dhcp_state = state_init })
            (check_dhcp_leased_ip false d ++ ip_conflict ∷ []))
    else if type == 6
    then step dhcp_running (record (reset_dhcp_timeout d) { dhcp_state = state_discover }) []
    else check_dhcp_timeout d
run_state state_leased type yiaddr unique d =
    let d' = record d { old_ip = d.allocated_ip; dhcp_xid = (d.dhcp_xid + 1) % 2 ^ 32 } in
    if not (d.learned.lease_time == infinite_leasetime)
      && ltb (d.learned.lease_time / 2) d.dhcp_tick_1s
    then step dhcp_ip_leased (record (reset_dhcp_timeout d') { dhcp_state = state_rerequest })
        (requests d').1
    else step dhcp_ip_leased d []
run_state state_rerequest type yiaddr unique d =
    if type == 5
    then (if same_bytes d.old_ip d.allocated_ip
        then step dhcp_ip_leased (record (reset_dhcp_timeout d) { dhcp_state = state_leased }) []
        else step dhcp_ip_changed (record (reset_dhcp_timeout d) { dhcp_state = state_leased })
            (ip_update ∷ []))
    else if type == 6
    then step dhcp_ip_leased (record (reset_dhcp_timeout d) { dhcp_state = state_discover }) []
    else check_dhcp_timeout d
run_state state_stop type yiaddr unique d = step dhcp_running d []

-- The type of what arrived, and what is learned from it.
unfoldable pub receive : List ℕ → Option Arrived → Learned → Parsed (ℕ × Learned)
receive chaddr none learned = ok (0, learned)
receive chaddr (some m) learned = parse_dhcp_msg chaddr m learned

-- `pDHCPMSG->yiaddr`; the buffer holds a whole RIP_MSG.
unfoldable pub yiaddr_of : Option Arrived → List ℕ
yiaddr_of none = zero_ip
yiaddr_of (some m) =
    get_or m.bytes 16 0 ∷ get_or m.bytes 17 0 ∷ get_or m.bytes 18 0 ∷ get_or m.bytes 19 0 ∷ []

-- `udp`: Sn_SR is SOCK_UDP. If not, the socket is opened first.
unfoldable pub dhcp_run : Bool → Option Arrived → Bool → Dhcp → Parsed Step
dhcp_run udp arrived unique d = elim d.dhcp_state [
  | state_stop ↦ ok (step dhcp_stopped d [])
  | _ ↦ (do
    r ← receive d.chaddr arrived d.learned
    let s = run_state d.dhcp_state r.0 (yiaddr_of arrived) unique (record d { learned = r.1 })
    ok (record s { calls = (if udp then [] else open_socket ∷ []) ++ s.calls }))
]

unfoldable pub dhcp_stop : Dhcp → Step
dhcp_stop d = step dhcp_stopped (record d { dhcp_state = state_stop }) (close_socket ∷ [])
