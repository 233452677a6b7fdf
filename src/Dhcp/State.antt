-- ===== src/Dhcp/State.antt =====
-- dhcp.c: the variables of the client, and the calls that leave it.
use x_wizchip_io_library_dri.Base.{ℕ, ◌+◌, ◌%◌, ◌^◌, List, [], ◌∷◌}
use x_wizchip_io_library_dri.Dhcp.Options.{Learned}

pub data DhcpState : Type 0 where
  state_init state_discover state_request state_leased state_rerequest state_stop : DhcpState

-- What DHCP_run() returns.
pub data DhcpRet : Type 0 where
  dhcp_failed dhcp_running dhcp_ip_assign dhcp_ip_changed dhcp_ip_leased dhcp_stopped : DhcpRet

-- The calls with an effect outside, in the order in which they are made. `send_to` is sendto() with
-- the address, the port and the bytes; `limit_rcr` and `restore_rcr` are setRCR() around the probe of
-- check_DHCP_leasedIP(), `wait_ticks` the loop behind it that waits for the timer.
pub data Call : Type 0 where
  open_socket ip_assign ip_update ip_conflict close_socket : Call
  limit_rcr restore_rcr wait_ticks : Call
  send_to : List ℕ → ℕ → List ℕ → Call

-- The file-scope variables.
pub record Dhcp : Type 0 where
  pub dhcp_socket : ℕ
  pub dhcp_state : DhcpState
  pub dhcp_retry_count : ℕ
  pub dhcp_tick_1s : ℕ
  pub dhcp_tick_next : ℕ
  pub dhcp_xid : ℕ
  pub chaddr : List ℕ
  pub allocated_ip : List ℕ
  pub old_ip : List ℕ
  pub learned : Learned

abbrev pub max_dhcp_retry : ℕ
max_dhcp_retry = 2

abbrev pub dhcp_wait_time : ℕ
dhcp_wait_time = 10

-- INFINITE_LEASETIME
abbrev pub infinite_leasetime : ℕ
infinite_leasetime = 0xFFFF_FFFF

abbrev pub zero_ip : List ℕ
zero_ip = 0 ∷ 0 ∷ 0 ∷ 0 ∷ []

-- The initial values.
abbrev pub dhcp_start : Dhcp
dhcp_start = record {
  dhcp_socket = 0;
  dhcp_state = state_init;
  dhcp_retry_count = 0;
  dhcp_tick_1s = 0;
  dhcp_tick_next = dhcp_wait_time;
  dhcp_xid = 0;
  chaddr = 0 ∷ 0 ∷ 0 ∷ 0 ∷ 0 ∷ 0 ∷ [];
  allocated_ip = zero_ip;
  old_ip = zero_ip;
  learned = record {
    sip = zero_ip;
    real_sip = zero_ip;
    allocated_sn = zero_ip;
    allocated_gw = zero_ip;
    allocated_dns = zero_ip;
    lease_time = infinite_leasetime;
  };
}

unfoldable pub reset_dhcp_timeout : Dhcp → Dhcp
reset_dhcp_timeout d = record d {
  dhcp_tick_1s = 0;
  dhcp_tick_next = dhcp_wait_time;
  dhcp_retry_count = 0;
}

unfoldable pub dhcp_time_handler : Dhcp → Dhcp
dhcp_time_handler d = record d { dhcp_tick_1s = (d.dhcp_tick_1s + 1) % 2 ^ 32 }
