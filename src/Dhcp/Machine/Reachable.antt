-- ===== src/Dhcp/Machine/Reachable.antt =====
-- The states that the DHCP client can get to.
use x_wizchip_io_library_dri.Base.{
  ℕ, ◌≤◌, ◌≡◌, ◌≢◌, refl, ◌/◌, ◌==◌, ltb, not, ◌&&◌, if◌then◌else◌, Bool, true, false, Option, List,
  [], ◌∷◌, ◌++◌, length, arith, Bool-cases, inl, inr,
}
use x_wizchip_io_library_dri.Dns.Name.{Parsed, ok, too_long, outside, no_fuel, ◌>>=◌}
use x_wizchip_io_library_dri.Dhcp.Options.{Learned, Arrived, same_bytes}
use x_wizchip_io_library_dri.Dhcp.State.{
  Dhcp, DhcpState, state_init, state_discover, state_request, state_leased, state_rerequest,
  state_stop, dhcp_ip_changed, dhcp_start, reset_dhcp_timeout, dhcp_time_handler, dhcp_stopped,
  open_socket,
}
use x_wizchip_io_library_dri.Dhcp.Messages.{send_dhcp_discover}
use x_wizchip_io_library_dri.Dhcp.Init.{init_dhcp}
use x_wizchip_io_library_dri.Dhcp.Machine.{
  Step, resend, give_up, check_dhcp_timeout, run_state, receive, yiaddr_of, step, dhcp_run,
  dhcp_stop,
}

-- The client's variables after DHCP_init(), runs of DHCP_run(), ticks of the timer, and DHCP_stop().
pub data Reachable : Dhcp → Type 0 where
  started : Reachable dhcp_start
  ticked : {d : Dhcp} → Reachable d → Reachable (dhcp_time_handler d)
  inited :
      {d : Dhcp} (socket : ℕ) (mac : List ℕ)
      → length mac ≡ 6
      → Reachable d
      → Reachable (init_dhcp socket mac d)
  stopped : {d : Dhcp} → Reachable d → Reachable (dhcp_stop d).dhcp
  ran :
      {d : Dhcp} (udp : Bool) (arrived : Option Arrived) (unique : Bool) (s : Step)
      → Reachable d
      → dhcp_run udp arrived unique d ≡ ok s
      → Reachable s.dhcp

-- While a lease is extended the old address is the allocated one; the retries are bounded.
pub record IsDhcp (d : Dhcp) : Type 0 where
  pub extends : d.dhcp_state ≡ state_rerequest → d.old_ip ≡ d.allocated_ip
  pub retries : d.dhcp_retry_count ≤ 2

same_bytes_refl : (xs : List ℕ) → same_bytes xs xs ≡ true
unfolding same_bytes
same_bytes_refl [] = refl
same_bytes_refl (x ∷ xs) = ground (arith, same_bytes_refl xs)

abbrev StepOk : Step → Type 0
StepOk s = IsDhcp s.dhcp × (s.ret ≢ dhcp_ip_changed)

give_up-StepOk : (st : DhcpState) (d : Dhcp) → d.dhcp_state ≡ st → IsDhcp d → StepOk (give_up st d)
unfolding give_up send_dhcp_discover
give_up-StepOk state_init d e h = (h, λ f. ground arith)
give_up-StepOk state_discover d e h =
    (record { extends = λ f. ground arith; retries = h.retries }, λ f. ground arith)
give_up-StepOk state_request d e h =
    (record { extends = λ f. ground arith; retries = h.retries }, λ f. ground arith)
give_up-StepOk state_leased d e h = (h, λ f. ground arith)
give_up-StepOk state_rerequest d e h =
    (record { extends = λ f. ground arith; retries = h.retries }, λ f. ground arith)
give_up-StepOk state_stop d e h = (h, λ f. ground arith)

reset-IsDhcp : (d : Dhcp) → IsDhcp d → IsDhcp (reset_dhcp_timeout d)
unfolding reset_dhcp_timeout
reset-IsDhcp d h = record { extends = h.extends; retries = omega arith }

resend-IsDhcp : (st : DhcpState) (d : Dhcp) → IsDhcp d → IsDhcp (resend st d).0
unfolding resend send_dhcp_discover
resend-IsDhcp state_init d h = h
resend-IsDhcp state_discover d h = record { extends = h.extends; retries = h.retries }
resend-IsDhcp state_request d h = h
resend-IsDhcp state_leased d h = h
resend-IsDhcp state_rerequest d h = h
resend-IsDhcp state_stop d h = h

check_dhcp_timeout-StepOk : (d : Dhcp) → IsDhcp d → StepOk (check_dhcp_timeout d)
unfolding check_dhcp_timeout
check_dhcp_timeout-StepOk d h = elim (Bool-cases (ltb d.dhcp_retry_count 2)) [
  | inl more ↦ elim (Bool-cases (ltb d.dhcp_tick_next d.dhcp_tick_1s)) [
    | inl over ↦
        rw (more, over, check_dhcp_timeout)
          (
            record { extends = (resend-IsDhcp d.dhcp_state d h).extends; retries = ground arith },
            λ f. ground arith,
          )
    | inr waiting ↦ rw (more, waiting, check_dhcp_timeout) (h, λ f. ground arith)
  ]
  | inr over ↦
      let (ok_dhcp, ok_ret) = give_up-StepOk d.dhcp_state d refl h in
      rw (over, check_dhcp_timeout) (reset-IsDhcp _ ok_dhcp, ok_ret)
]

reset-retries : (d : Dhcp) → (reset_dhcp_timeout d).dhcp_retry_count ≤ 2
unfolding reset_dhcp_timeout
reset-retries d = omega arith

run_state-StepOk :
    (st : DhcpState) (type : ℕ) (yiaddr : List ℕ) (unique : Bool) (d : Dhcp)
    → d.dhcp_state ≡ st
    → IsDhcp d
    → StepOk (run_state st type yiaddr unique d)
unfolding run_state reset_dhcp_timeout send_dhcp_discover
run_state-StepOk state_init type yiaddr unique d e h =
    (record { extends = λ f. ground arith; retries = h.retries }, λ f. ground arith)
run_state-StepOk state_discover type yiaddr unique d e h = elim (Bool-cases (type == 2)) [
  | inl offer ↦
      rw (offer, run_state)
        (record { extends = λ f. ground arith; retries = h.retries }, λ f. ground arith)
  | inr other ↦ rw (other, run_state) (check_dhcp_timeout-StepOk d h)
]
run_state-StepOk state_request type yiaddr true d e h = elim (Bool-cases (type == 5)) [
  | inl ack ↦
      rw (ack, run_state)
        (record { extends = λ f. ground arith; retries = reset-retries d }, λ f. ground arith)
  | inr no_ack ↦ elim (Bool-cases (type == 6)) [
    | inl nak ↦
        rw (no_ack, nak, run_state)
          (record { extends = λ f. ground arith; retries = reset-retries d }, λ f. ground arith)
    | inr other ↦ rw (no_ack, other, run_state) (check_dhcp_timeout-StepOk d h)
  ]
]
run_state-StepOk state_request type yiaddr false d e h = elim (Bool-cases (type == 5)) [
  | inl ack ↦
      rw (ack, run_state)
        (record { extends = λ f. ground arith; retries = reset-retries d }, λ f. ground arith)
  | inr no_ack ↦ elim (Bool-cases (type == 6)) [
    | inl nak ↦
        rw (no_ack, nak, run_state)
          (record { extends = λ f. ground arith; retries = reset-retries d }, λ f. ground arith)
    | inr other ↦ rw (no_ack, other, run_state) (check_dhcp_timeout-StepOk d h)
  ]
]
run_state-StepOk state_leased type yiaddr unique d e h =
    elim (Bool-cases (
      not (d.learned.lease_time == 0xFFFF_FFFF) && ltb (d.learned.lease_time / 2) d.dhcp_tick_1s)) [
        | inl half_over ↦
            rw (half_over, run_state)
              (record { extends = λ f. refl; retries = reset-retries d }, λ f. ground arith)
        | inr lasts ↦ rw (lasts, run_state) (h, λ f. ground arith)
      ]
run_state-StepOk state_rerequest type yiaddr unique d e h = elim (Bool-cases (type == 5)) [
  | inl ack ↦
      let same : same_bytes d.old_ip d.allocated_ip ≡ true =
        rw (h.extends e) (same_bytes_refl d.allocated_ip) in
      rw (ack, same, run_state)
        (record { extends = λ f. ground arith; retries = reset-retries d }, λ f. ground arith)
  | inr no_ack ↦ elim (Bool-cases (type == 6)) [
    | inl nak ↦
        rw (no_ack, nak, run_state)
          (record { extends = λ f. ground arith; retries = reset-retries d }, λ f. ground arith)
    | inr other ↦ rw (no_ack, other, run_state) (check_dhcp_timeout-StepOk d h)
  ]
]
run_state-StepOk state_stop type yiaddr unique d e h = (h, λ f. ground arith)

-- Where a run gives a step, its variables and its result are in order.
abbrev IfOk : Parsed Step → Type 0
IfOk (ok s) = StepOk s
IfOk too_long = Unit {0}
IfOk outside = Unit {0}
IfOk no_fuel = Unit {0}

IfOk->>= :
    (m : Parsed (ℕ × Learned)) (f : ℕ × Learned → Parsed Step)
    → ((r : ℕ × Learned) → IfOk (f r))
    → IfOk (m >>= f)
IfOk->>= (ok r) f h = h r
IfOk->>= too_long f h = tt
IfOk->>= outside f h = tt
IfOk->>= no_fuel f h = tt

learns : (d : Dhcp) (l : Learned) → IsDhcp d → IsDhcp (record d { learned = l })
learns d l h = record { extends = h.extends; retries = h.retries }

dhcp_run-IfOk :
    (udp : Bool) (arrived : Option Arrived) (unique : Bool) (d : Dhcp)
    → IsDhcp d
    → IfOk (dhcp_run udp arrived unique d)
unfolding dhcp_run
dhcp_run-IfOk udp arrived unique d h = go d.dhcp_state refl
  where
    go :
        (st : DhcpState)
        → d.dhcp_state ≡ st
        → IfOk (elim st [
          | state_stop ↦ ok (step dhcp_stopped d [])
          | _ ↦
              (receive d.chaddr arrived d.learned >>= λ r.
              ok
                (record (run_state d.dhcp_state r.0
                  (yiaddr_of arrived)
                  unique
                  (record d { learned = r.1 })) {
                    calls =
                        (if udp then [] else open_socket ∷ [])
                        ++ (run_state d.dhcp_state r.0
                            (yiaddr_of arrived)
                            unique
                            (record d { learned = r.1 })).calls;
                  }))
        ])
    go state_stop e = (h, λ f. ground arith)
    go state_init e =
        IfOk->>= (receive d.chaddr arrived d.learned) _
          λ r. run_state-StepOk d.dhcp_state r.0 (yiaddr_of arrived) unique _ refl (learns d r.1 h)
    go state_discover e =
        IfOk->>= (receive d.chaddr arrived d.learned) _
          λ r. run_state-StepOk d.dhcp_state r.0 (yiaddr_of arrived) unique _ refl (learns d r.1 h)
    go state_request e =
        IfOk->>= (receive d.chaddr arrived d.learned) _
          λ r. run_state-StepOk d.dhcp_state r.0 (yiaddr_of arrived) unique _ refl (learns d r.1 h)
    go state_leased e =
        IfOk->>= (receive d.chaddr arrived d.learned) _
          λ r. run_state-StepOk d.dhcp_state r.0 (yiaddr_of arrived) unique _ refl (learns d r.1 h)
    go state_rerequest e =
        IfOk->>= (receive d.chaddr arrived d.learned) _
          λ r. run_state-StepOk d.dhcp_state r.0 (yiaddr_of arrived) unique _ refl (learns d r.1 h)

Reachable-IsDhcp : (d : Dhcp) → Reachable d → IsDhcp d
unfolding dhcp_time_handler dhcp_stop init_dhcp
Reachable-IsDhcp d started = record { extends = λ e. refl; retries = omega arith }
Reachable-IsDhcp d (ticked {d = e} r) =
    let h : IsDhcp e = Reachable-IsDhcp e r in record { extends = h.extends; retries = h.retries }
Reachable-IsDhcp d (inited {d = e} socket mac len r) =
    let h : IsDhcp e = Reachable-IsDhcp e r in
    record { extends = λ f. ground arith; retries = reset-retries e }
Reachable-IsDhcp d (stopped {d = e} r) =
    let h : IsDhcp e = Reachable-IsDhcp e r in
    record { extends = λ f. ground arith; retries = h.retries }
Reachable-IsDhcp d (ran {d = e} udp arrived unique s r is_step) =
    (rw is_step at (dhcp_run-IfOk udp arrived unique e (Reachable-IsDhcp e r))).0

-- From variables that DHCP_init(), DHCP_run(), ticks of the timer and DHCP_stop() lead to, a run that stays
-- inside its message does not return DHCP_IP_CHANGED, and leaves at most 2 retries counted.
pub dhcp_run-unchanged :
    (udp : Bool) (arrived : Option Arrived) (unique : Bool) (d : Dhcp) (s : Step)
    → Reachable d
    → dhcp_run udp arrived unique d ≡ ok s
    → (s.ret ≢ dhcp_ip_changed) × (s.dhcp.dhcp_retry_count ≤ 2)
dhcp_run-unchanged udp arrived unique d s r is_step =
    let h : StepOk s = rw is_step at (dhcp_run-IfOk udp arrived unique d (Reachable-IsDhcp d r)) in
    (h.1, h.0.retries)
