-- ===== src/Socket/State/Progress.antt =====
-- A chip that answers: what the waiting loops rely on to end.
use x_wizchip_io_library_dri.Base.{ℕ, ◌<◌, ◌≡◌, not, ◌==◌, Option, some}
use x_wizchip_io_library_dri.Chip.{Chip, World, M, ◌>>=◌, ◌>>◌, polling}
use x_wizchip_io_library_dri.Chip.Rules.{Returns, Meets->>=, polling-Returns}
use x_wizchip_io_library_dri.W5500.Regs.{get_sn_cr, set_sn_cr, get_sn_sr, set_sn_ir}
use x_wizchip_io_library_dri.W5500.Buffers.{get_sn_tx_fsr, get_sn_rx_rsr}
use x_wizchip_io_library_dri.Socket.Codes.{cr_close, cr_open, sock_closed}
use x_wizchip_io_library_dri.Socket.State.{wait_while, command}
use x_wizchip_io_library_dri.Socket.State.Rules.{Commanded}

-- Within `polls` readings the chip takes a command of socket `sn`, has closed it after CLOSE, has
-- opened it after OPEN, and shows the same size twice.
pub record Answers (c : Chip) (polls sn : ℕ) : Type 0 where
  pub some_polls : 0 < polls
  pub takes : (cmd : ℕ) (s : c.State) → (t : c.State) × Commanded c polls sn cmd s t
  pub closes :
      (s t : c.State)
      → Commanded c polls sn cr_close s t
      → (u : c.State) × (wait_while
            (get_sn_sr c sn)
            (λ v. not (v == sock_closed))
            polls
            (set_sn_ir c sn 0xFF t)
          ≡ some (tt, u))
  pub opens :
      (s t : c.State)
      → Commanded c polls sn cr_open s t
      → (u : c.State) × (wait_while (get_sn_sr c sn) (λ v. v == sock_closed) polls t ≡ some (tt, u))
  pub shows_free :
      (s : c.State) → (v : ℕ) × (t : c.State) × (get_sn_tx_fsr c polls sn s ≡ some (v, t))
  pub shows_received :
      (s : c.State) → (v : ℕ) × (t : c.State) × (get_sn_rx_rsr c polls sn s ≡ some (v, t))

module _ (c : Chip) (polls sn : ℕ) (answers : Answers c polls sn) where
  pub command_ends :
      (cmd : ℕ) {A : Type 0} (P : A → World c.State → Type 0) (k : M c.State A) (w : World c.State)
      → ((t : c.State) → Commanded c polls sn cmd w.chip t → Returns P (k (record w { chip = t })))
      → Returns P ((command c polls sn cmd >> k) w)
  unfolding command
  command_ends cmd P k w h =
      let (t, e) = answers.takes cmd w.chip in
      Meets->>= _ P (command c polls sn cmd) (λ _. k) w
        (polling-Returns _ (λ _ w'. Returns P (k w'))
          (wait_while (get_sn_cr c sn) (λ v. not (v == 0)) polls)
          (record w { chip = set_sn_cr c sn cmd w.chip }) tt t e (h t e))

-- A loop on the chip that ends.
pub polling_ends :
    {A B S : Type 0} (P : B → World S → Type 0) (f : S → Option (A × S)) (k : A → M S B)
    (w : World S)
    → ((a : A) × (t : S) × (f w.chip ≡ some (a, t)))
    → ((a : A) (t : S) → f w.chip ≡ some (a, t) → Returns P (k a (record w { chip = t })))
    → Returns P ((polling f >>= k) w)
polling_ends P f k w (a, t, e) h =
    Meets->>= _ P (polling f) k w
      (polling-Returns _ (λ a w'. Returns P (k a w')) f w a t e (h a t e))
