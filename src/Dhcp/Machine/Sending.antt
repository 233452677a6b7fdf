-- ===== src/Dhcp/Machine/Sending.antt =====
-- What the machine sends, and the sizes of the addresses it keeps.
use x_wizchip_io_library_dri.Base.{
  ℕ, ◌≡◌, refl, ◌/◌, ◌==◌, ltb, not, ◌&&◌, if◌then◌else◌, Bool, true, false, Option, none, some,
  List, [], ◌∷◌, ◌++◌, length, All, All-append, Bool-cases, inl, inr,
}
use x_wizchip_io_library_dri.Dns.Name.{ok, ◌>>=◌}
use x_wizchip_io_library_dri.Dns.Name.Bounds.{Ends, Ends->>=}
use x_wizchip_io_library_dri.Dhcp.Options.{Learned, Arrived, same_bytes}
use x_wizchip_io_library_dri.Dhcp.Options.Bounds.{IsLearned, parse_dhcp_msg-Ends}
use x_wizchip_io_library_dri.Dhcp.State.{
  Dhcp, DhcpState, state_init, state_discover, state_request, state_leased, state_rerequest,
  state_stop, reset_dhcp_timeout, dhcp_stopped, open_socket, zero_ip,
}
use x_wizchip_io_library_dri.Dhcp.Messages.Sent.{
  IsSized, IsSent, send_dhcp_discover-IsSent, send_dhcp_request-IsSent, send_dhcp_decline-IsSent,
}
use x_wizchip_io_library_dri.Dhcp.Machine.{
  Step, step, resend, give_up, check_dhcp_timeout, check_dhcp_leased_ip, run_state, receive,
  yiaddr_of, dhcp_run,
}

-- recvfrom() gives the four bytes of the sender's address.
abbrev pub HasSender : Option Arrived → Type 0
HasSender none = Unit {0}
HasSender (some m) = length m.svr_addr ≡ 4

abbrev pub Sends : Step → Type 0
Sends s = IsSized s.dhcp × All IsSent s.calls

resend-IsSent :
    (st : DhcpState) (d : Dhcp) → IsSized d → IsSized (resend st d).0 × All IsSent (resend st d).1
unfolding resend
resend-IsSent state_init d h = (h, tt)
resend-IsSent state_discover d h =
    let (sized, sent) = send_dhcp_discover-IsSent d h in (sized, (sent, tt))
resend-IsSent state_request d h = (h, (send_dhcp_request-IsSent d h, tt))
resend-IsSent state_leased d h = (h, tt)
resend-IsSent state_rerequest d h = (h, (send_dhcp_request-IsSent d h, tt))
resend-IsSent state_stop d h = (h, tt)

-- The fields that the sizes are about.
abbrev same_sizes :
    (d d' : Dhcp)
    → d'.chaddr ≡ d.chaddr
    → d'.allocated_ip ≡ d.allocated_ip
    → d'.learned ≡ d.learned
    → IsSized d
    → IsSized d'
same_sizes d d' e e1 e2 h = record {
  chaddr = rw e h.chaddr;
  allocated_ip = rw e1 h.allocated_ip;
  learned = rw e2 h.learned;
}

give_up-Sends : (st : DhcpState) (d : Dhcp) → IsSized d → Sends (give_up st d)
unfolding give_up
give_up-Sends state_init d h = (h, tt)
give_up-Sends state_discover d h = (same_sizes d _ refl refl refl h, tt)
give_up-Sends state_request d h =
    let (sized, sent) = send_dhcp_discover-IsSent d h in
    (same_sizes _ _ refl refl refl sized, (sent, tt))
give_up-Sends state_leased d h = (h, tt)
give_up-Sends state_rerequest d h =
    let (sized, sent) = send_dhcp_discover-IsSent d h in
    (same_sizes _ _ refl refl refl sized, (sent, tt))
give_up-Sends state_stop d h = (h, tt)

reset-IsSized : (d : Dhcp) → IsSized d → IsSized (reset_dhcp_timeout d)
unfolding reset_dhcp_timeout
reset-IsSized d h = same_sizes d _ refl refl refl h

check_dhcp_timeout-Sends : (d : Dhcp) → IsSized d → Sends (check_dhcp_timeout d)
unfolding check_dhcp_timeout
check_dhcp_timeout-Sends d h =
    let (sized, sent) = resend-IsSent d.dhcp_state d h in
    let over = give_up-Sends d.dhcp_state d h in
    elim (Bool-cases (ltb d.dhcp_retry_count 2)) [
      | inr spent ↦ rw (spent, check_dhcp_timeout) (reset-IsSized _ over.0, over.1)
      | inl more ↦ elim (Bool-cases (ltb d.dhcp_tick_next d.dhcp_tick_1s)) [
        | inl due ↦ rw (more, due, check_dhcp_timeout) (same_sizes _ _ refl refl refl sized, sent)
        | inr waiting ↦ rw (more, waiting, check_dhcp_timeout) (h, tt)
      ]
    ]

check_dhcp_leased_ip-IsSent :
    (unique : Bool) (d : Dhcp) → IsSized d → All IsSent (check_dhcp_leased_ip unique d)
unfolding check_dhcp_leased_ip
check_dhcp_leased_ip-IsSent true d h = (tt, ((h.allocated_ip, inr (refl, refl)), (tt, tt)))
check_dhcp_leased_ip-IsSent false d h =
    (tt, ((h.allocated_ip, inr (refl, refl)), (tt, (send_dhcp_decline-IsSent d h, (tt, tt)))))

-- With an address of four bytes allocated.
allocates :
    (d : Dhcp) (ip : List ℕ) → length ip ≡ 4 → IsSized d → IsSized (record d { allocated_ip = ip })
allocates d ip e h = record { chaddr = h.chaddr; allocated_ip = e; learned = h.learned }

run_state-Sends :
    (st : DhcpState) (type : ℕ) (yiaddr : List ℕ) (unique : Bool) (d : Dhcp)
    → length yiaddr ≡ 4
    → IsSized d
    → Sends (run_state st type yiaddr unique d)
unfolding run_state reset_dhcp_timeout
run_state-Sends state_init type yiaddr unique d four h =
    let (sized, sent) =
      send_dhcp_discover-IsSent (record d { allocated_ip = zero_ip })
        (allocates d zero_ip refl h) in
    (same_sizes _ _ refl refl refl sized, (sent, tt))
run_state-Sends state_discover type yiaddr unique d four h = elim (Bool-cases (type == 2)) [
  | inr other ↦ rw (other, run_state) (check_dhcp_timeout-Sends d h)
  | inl offer ↦
      let sized = allocates d yiaddr four h in
      rw (offer, run_state)
        (same_sizes _ _ refl refl refl sized, (send_dhcp_request-IsSent _ sized, tt))
]
run_state-Sends state_request type yiaddr unique d four h = elim (Bool-cases (type == 5)) [
  | inl ack ↦ elim (Bool-cases unique) [
    | inl free ↦
        rw (ack, free, run_state)
          (
            same_sizes d _ refl refl refl h,
            All-append IsSent _ _ (check_dhcp_leased_ip-IsSent true d h) (tt, tt),
          )
    | inr taken ↦
        rw (ack, taken, run_state)
          (
            same_sizes d _ refl refl refl h,
            All-append IsSent _ _ (check_dhcp_leased_ip-IsSent false d h) (tt, tt),
          )
  ]
  | inr no_ack ↦ elim (Bool-cases (type == 6)) [
    | inl nak ↦ rw (no_ack, nak, run_state) (same_sizes d _ refl refl refl h, tt)
    | inr other ↦ rw (no_ack, other, run_state) (check_dhcp_timeout-Sends d h)
  ]
]
run_state-Sends state_leased type yiaddr unique d four h =
    elim (Bool-cases (
      not (d.learned.lease_time == 0xFFFF_FFFF) && ltb (d.learned.lease_time / 2) d.dhcp_tick_1s)) [
        | inr lasts ↦ rw (lasts, run_state) (h, tt)
        | inl half_over ↦
            rw (half_over, run_state)
              (
                same_sizes d _ refl refl refl h,
                (send_dhcp_request-IsSent _ (same_sizes d _ refl refl refl h), tt),
              )
      ]
run_state-Sends state_rerequest type yiaddr unique d four h = elim (Bool-cases (type == 5)) [
  | inl ack ↦ elim (Bool-cases (same_bytes d.old_ip d.allocated_ip)) [
    | inl same ↦ rw (ack, same, run_state) (same_sizes d _ refl refl refl h, tt)
    | inr new ↦ rw (ack, new, run_state) (same_sizes d _ refl refl refl h, (tt, tt))
  ]
  | inr no_ack ↦ elim (Bool-cases (type == 6)) [
    | inl nak ↦ rw (no_ack, nak, run_state) (same_sizes d _ refl refl refl h, tt)
    | inr other ↦ rw (no_ack, other, run_state) (check_dhcp_timeout-Sends d h)
  ]
]
run_state-Sends state_stop type yiaddr unique d four h = (h, tt)

receive-Ends :
    (chaddr : List ℕ) (arrived : Option Arrived) (l : Learned)
    → HasSender arrived
    → IsLearned l
    → Ends (λ r. IsLearned r.1) (receive chaddr arrived l)
unfolding receive
receive-Ends chaddr none l four h = h
receive-Ends chaddr (some m) l four h = parse_dhcp_msg-Ends chaddr m l four h

length-yiaddr_of : (arrived : Option Arrived) → length (yiaddr_of arrived) ≡ 4
unfolding yiaddr_of
length-yiaddr_of none = refl
length-yiaddr_of (some m) = refl

opens : (udp : Bool) → All IsSent (if udp then [] else open_socket ∷ [])
opens true = tt
opens false = (tt, tt)

-- If the addresses of the client have their sizes, and what arrived has a sender: DHCP_run() ends,
-- and where it stays inside the message, the addresses have their sizes again, and whatever it sent
-- is a message of 548 bytes to port 67 or the probe of 17 bytes to port 5000.
pub dhcp_run-Sends :
    (udp : Bool) (arrived : Option Arrived) (unique : Bool) (d : Dhcp)
    → HasSender arrived
    → IsSized d
    → Ends Sends (dhcp_run udp arrived unique d)
unfolding dhcp_run
dhcp_run-Sends udp arrived unique d four h = go d.dhcp_state
  where
    runs : Ends Sends (
        receive d.chaddr arrived d.learned >>= λ r.
        let s =
          run_state d.dhcp_state r.0 (yiaddr_of arrived) unique (record d { learned = r.1 }) in
        ok (record s { calls = (if udp then [] else open_socket ∷ []) ++ s.calls }))
    runs =
        Ends->>= _ Sends (receive d.chaddr arrived d.learned) _
          (receive-Ends d.chaddr arrived d.learned four h.learned)
          λ r l.
            let sized : IsSized (record d { learned = r.1 }) = record {
              chaddr = h.chaddr;
              allocated_ip = h.allocated_ip;
              learned = l;
            } in
            let (after, sent) =
              run_state-Sends d.dhcp_state r.0 (yiaddr_of arrived) unique
                (record d { learned = r.1 }) (length-yiaddr_of arrived) sized in
            (after, All-append IsSent _ _ (opens udp) sent)

    go :
        (st : DhcpState)
        → Ends Sends (elim st [
          | state_stop ↦ ok (step dhcp_stopped d [])
          | _ ↦
              (receive d.chaddr arrived d.learned >>= λ r.
              let s =
                run_state d.dhcp_state r.0
                  (yiaddr_of arrived)
                  unique
                  (record d { learned = r.1 }) in
              ok (record s { calls = (if udp then [] else open_socket ∷ []) ++ s.calls }))
        ])
    go state_stop = (h, tt)
    go state_init = runs
    go state_discover = runs
    go state_request = runs
    go state_leased = runs
    go state_rerequest = runs
