-- ===== src/Tests/ToyAnswers.antt =====
-- The chip of the tests answers.
use x_wizchip_io_library_dri.Base.{
  ℕ, ◌≡◌, refl, sym, ap, ◌∙◌, ◌==◌, ◌-◌, ◌*◌, ◌%◌, arith, Bool, false, not, some, Option,
  Bool-cases, inl, inr, none,
}
use x_wizchip_io_library_dri.W5500.Regs.{read16, get_sn_sr, get_sn_cr, set_sn_cr, set_sn_ir, sn_reg}
use x_wizchip_io_library_dri.W5500.Buffers.{get_sn_rx_rsr, get_sn_tx_fsr, read_stable}
use x_wizchip_io_library_dri.Socket.Codes.{cr_close, cr_open, sock_closed}
use x_wizchip_io_library_dri.Socket.State.{wait_while}
use x_wizchip_io_library_dri.Socket.State.Rules.{Commanded}
use x_wizchip_io_library_dri.Socket.State.Progress.{Answers}
use x_wizchip_io_library_dri.Tests.{toy_chip, deaf, Memory}

last : Option (Unit {0} × Memory) → Memory → Memory
last none d = d
last (some (a, t)) d = t

module _ (hears : Bool) where
  taken :
      (cmd : ℕ) (s : Memory)
      → Commanded (toy_chip hears) 5 1 cmd s (set_sn_cr (toy_chip hears) 1 cmd s)
  unfolding wait_while get_sn_cr set_sn_cr sn_reg
  taken cmd s = refl

  after :
      (cmd : ℕ) (s t : Memory)
      → Commanded (toy_chip hears) 5 1 cmd s t
      → set_sn_cr (toy_chip hears) 1 cmd s ≡ t
  unfolding last
  after cmd s t e = ap (λ o. last o s) (sym (taken cmd s) ∙ e)

  closes_at :
      (s : Memory)
      → (u : Memory) × (wait_while
            (get_sn_sr (toy_chip hears) 1)
            (λ v. not (v == sock_closed))
            5
            (set_sn_ir (toy_chip hears) 1 0xFF (set_sn_cr (toy_chip hears) 1 cr_close s))
          ≡ some (tt, u))
  unfolding wait_while get_sn_sr set_sn_ir set_sn_cr sn_reg
  closes_at s = (set_sn_ir (toy_chip hears) 1 0xFF (set_sn_cr (toy_chip hears) 1 cr_close s), refl)

  opens_at :
      (s : Memory)
      → (u : Memory) × (wait_while
            (get_sn_sr (toy_chip hears) 1)
            (λ v. v == sock_closed)
            5
            (set_sn_cr (toy_chip hears) 1 cr_open s)
          ≡ some (tt, u))
  unfolding wait_while get_sn_sr set_sn_cr sn_reg
  opens_at s =
      let e : ((0x22 - 15 * (s 0x28 % 2)) % 256 == sock_closed) ≡ false = ground arith in
      (set_sn_cr (toy_chip hears) 1 cr_open s, rw (e, wait_while) refl)

  settles :
      (a : ℕ) (s : Memory)
      → (v : ℕ) × (t : Memory) × (read_stable (toy_chip hears) 5 a 0 s ≡ some (v, t))
  unfolding read_stable read16
  settles a s = elim (Bool-cases ((read16 (toy_chip hears) a s).0 == 0)) [
    | inl e ↦ (0, s, rw (e, read_stable) (ground arith))
    | inr e ↦ ((read16 (toy_chip hears) a s).0, s, rw (e, read_stable) (ground arith))
  ]

  pub toy_chip-Answers : Answers (toy_chip hears) 5 1
  unfolding get_sn_rx_rsr get_sn_tx_fsr
  toy_chip-Answers = record {
    some_polls = omega arith;
    takes = λ cmd s. (_, taken cmd s);
    closes = λ s t e. rw (sym (after cr_close s t e)) (closes_at s);
    opens = λ s t e. rw (sym (after cr_open s t e)) (opens_at s);
    shows_free = λ s. settles _ s;
    shows_received = λ s. settles _ s;
  }

-- Nothing is heard.
pub deaf_silent : (s : Memory) → (t : Memory) × (get_sn_rx_rsr deaf 5 1 s ≡ some (0, t))
unfolding get_sn_rx_rsr read_stable read16 sn_reg
deaf_silent s = (s, refl)
