-- ===== src/Dns/Client/Silence.antt =====
-- DNS_run() with a server that does not answer.
use x_wizchip_io_library_dri.Base.{
  ℕ, zero, suc, ◌+◌, ◌-◌, ◌*◌, ◌%◌, ◌^◌, ◌<◌, ◌≤◌, ◌≡◌, ◌⊎◌, ◌∙◌, refl, ◌==◌, if◌then◌else◌, true,
  none, some, List, [], ◌∷◌, All, arith, inl, inr,
}
use x_wizchip_io_library_dri.Base.Int.{ℤ, pos, is_negative}
use x_wizchip_io_library_dri.Chip.{Chip, World, M}
use x_wizchip_io_library_dri.Chip.Rules.{Returns, Meets->>=, Meets-mono}
use x_wizchip_io_library_dri.W5500.Regs.{get_sn_mr}
use x_wizchip_io_library_dri.W5500.Buffers.{get_sn_rx_rsr}
use x_wizchip_io_library_dri.Socket.State.Rules.{check_socknum_then, return_if_then, branch_then}
use x_wizchip_io_library_dri.Socket.State.Progress.{Answers, polling_ends}
use x_wizchip_io_library_dri.Socket.Open.{close}
use x_wizchip_io_library_dri.Socket.Open.Progress.{close-Returns}
use x_wizchip_io_library_dri.Socket.Udp.{sendto}
use x_wizchip_io_library_dri.Dns.Client.{
  Timer, dns_time_handler, Timeout, timed_out, retry, not_over, check_dns_timeout, elapse, Run,
  dns_pass, dns_wait, ipport_domain,
}

module _ (c : Chip) (polls sn : ℕ) (buf addr : List ℕ) (port : ℕ) where
  -- For a socket number below 8, sendto() of no bytes returns an error; the notes are as before and
  -- the chip is as the reading of Sn_MR leaves it.
  sendto-no_data :
      (w : World c.State)
      → sn < 8
      → Returns
          (λ r w'.
            (is_negative r ≡ true) × (w'.driver ≡ w.driver) × (w'.chip ≡ (get_sn_mr c sn w.chip).1))
          (sendto c polls sn buf 0 addr port w)
  unfolding sendto
  sendto-no_data w small =
      let P : ℤ → World c.State → Type 0 = λ r w'.
        (is_negative r ≡ true) × (w'.driver ≡ w.driver) × (w'.chip ≡ (get_sn_mr c sn w.chip).1) in
      check_socknum_then _ P sn _ w small (
        return_if_then _ P _ _ _ _ (refl, refl, refl)
          λ _. return_if_then _ P _ _ _ _ (refl, refl, refl) λ no. absurd (ground arith))

-- The timer between two passes.
abbrev pub IsTimer : Timer → Type 0
IsTimer t = (t.dns_1s_tick < 3) × (t.retry_count ≤ 2)

-- The passes with a tick that are left before the last timeout.
abbrev pub passes_left : Timer → ℕ
passes_left t = (2 - t.retry_count) * 3 + (3 - t.dns_1s_tick)

-- The passes in which the timer ran.
abbrev pub ticking : List ℕ → ℕ
ticking [] = 0
ticking (n ∷ ns) = (if n == 0 then 0 else 1) + ticking ns

elapse_lem :
    (n : ℕ) (t : Timer)
    → t.dns_1s_tick + n < 2 ^ 32
    → elapse n t ≡ record t { dns_1s_tick = t.dns_1s_tick + n }
unfolding elapse dns_time_handler
elapse_lem zero t h = let e : t.dns_1s_tick + 0 ≡ t.dns_1s_tick = omega arith in rw e refl
elapse_lem (suc n) t h =
    let e : (t.dns_1s_tick + 1) % 2 ^ 32 ≡ t.dns_1s_tick + 1 = omega arith in
    let f : t.dns_1s_tick + 1 + n ≡ t.dns_1s_tick + suc n = omega arith in
    elapse_lem n (dns_time_handler t) (omega arith) ∙ rw (e, f) refl

check_lem :
    (n : ℕ) (t : Timer)
    → IsTimer t
    → n < 2 ^ 31
    → ((check_dns_timeout (elapse n t)).0 ≡ timed_out)
      ⊎ (IsTimer (check_dns_timeout (elapse n t)).1
          × (passes_left (check_dns_timeout (elapse n t)).1 + (if n == 0 then 0 else 1)
              ≤ passes_left t))
unfolding check_dns_timeout
check_lem n t h small = rw (elapse_lem n t (omega arith)) (ground arith)

-- DNS_run() has given up: its result is 0, without an address.
abbrev pub GivenUp : {S : Type 0} → Run → World S → Type 0
GivenUp r w = (r.ret ≡ pos 0) × (r.ip_from_dns ≡ none)

module _ (c : Chip) (polls sn : ℕ) (small : sn < 8) (answers : Answers c polls sn)
    (silent : (s : c.State) → (t : c.State) × (get_sn_rx_rsr c polls sn s ≡ some (0, t))) where
  dns_pass-GivenUp :
      (dns_ip : List ℕ) (out : Timeout) (buf : List ℕ) (again : M c.State Run) (w : World c.State)
      → (out ≡ timed_out) ⊎ ((v : World c.State) → Returns GivenUp (again v))
      → Returns GivenUp (dns_pass c polls sn dns_ip out 0 buf again w)
  unfolding dns_pass
  dns_pass-GivenUp dns_ip timed_out buf again w h = Meets->>= _ GivenUp (close c polls sn) _ w (
      Meets-mono _ _ _ (close c polls sn w) (λ r v _. (refl, refl))
        (close-Returns c polls sn small answers w))
  dns_pass-GivenUp dns_ip retry buf again w (inr more) =
      Meets->>= _ GivenUp (sendto c polls sn buf 0 dns_ip ipport_domain) _ w (
        Meets-mono _ _ _ (sendto c polls sn buf 0 dns_ip ipport_domain w) (λ r v _. more v)
          (sendto-no_data c polls sn buf dns_ip ipport_domain w small))
  dns_pass-GivenUp dns_ip retry buf again w (inl e) = absurd (ground arith)
  dns_pass-GivenUp dns_ip not_over buf again w (inr more) = more w
  dns_pass-GivenUp dns_ip not_over buf again w (inl e) = absurd (ground arith)

  -- On a chip that answers but has received nothing, from a timer that has less than 3 seconds and at
  -- most 2 retries, the loop of DNS_run() returns 0 without an address, once the timer has run in as
  -- many passes as are left, 2^31 times at most in each.
  pub dns_wait-GivenUp :
      (dns_ip : List ℕ) (ns : List ℕ) (t : Timer) (buf : List ℕ) (w : World c.State)
      → IsTimer t
      → All (λ n. n < 2 ^ 31) ns
      → passes_left t ≤ ticking ns
      → Returns GivenUp (dns_wait c polls sn dns_ip ns t buf w)
  unfolding dns_wait
  dns_wait-GivenUp dns_ip [] t buf w timer ticks enough = absurd (omega arith)
  dns_wait-GivenUp dns_ip (n ∷ ns) t buf w timer (tick, ticks) enough =
      polling_ends GivenUp (get_sn_rx_rsr c polls sn) _ w (let (s, e) = silent w.chip in (0, s, e))
        λ len s e.
          branch_then _ GivenUp _ _ _ _
            (λ empty.
              let none_left : len ≡ 0 = ground arith in
              rw none_left (
                dns_pass-GivenUp dns_ip (check_dns_timeout (elapse n t)).0 buf
                  (dns_wait c polls sn dns_ip ns (check_dns_timeout (elapse n t)).1 buf)
                  (record w { chip = s })
                  (elim (check_lem n t timer tick) [
                    | inl over ↦ inl over
                    | inr (timer', fewer) ↦ inr (λ v.
                        dns_wait-GivenUp dns_ip ns (check_dns_timeout (elapse n t)).1 buf v timer'
                          ticks (omega arith))
                  ])))
            λ some_bytes. let (s', e') = silent w.chip in absurd (ground arith)
