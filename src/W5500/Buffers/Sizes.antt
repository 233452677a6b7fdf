-- ===== src/W5500/Buffers/Sizes.antt =====
-- How much the buffer routines move.
use x_wizchip_io_library_dri.Base.{ℕ, ◌≡◌, ◌==◌, length, All, arith, Bool-cases, inl, inr}
use x_wizchip_io_library_dri.Chip.{Chip, IsByte}
use x_wizchip_io_library_dri.W5500.Regs.{get_sn_mr}
use x_wizchip_io_library_dri.W5500.Buffers.{wiz_recv_data}

module _ (c : Chip) (sn : ℕ) where
  pub length-wiz_recv_data : (n : ℕ) (s : c.State) → length (wiz_recv_data c sn n s).0 ≡ n
  unfolding wiz_recv_data
  length-wiz_recv_data n s = elim (Bool-cases (n == 0)) [
    | inl e ↦ rw e (ground arith)
    | inr e ↦ rw e (c.length-read_buf _ n _)
  ]

  pub wiz_recv_data-IsByte : (n : ℕ) (s : c.State) → All IsByte (wiz_recv_data c sn n s).0
  unfolding wiz_recv_data
  wiz_recv_data-IsByte n s = elim (Bool-cases (n == 0)) [
    | inl e ↦ rw e tt
    | inr e ↦ rw e (c.read_buf-IsByte _ n _)
  ]

  pub get_sn_mr-IsByte : (s : c.State) → IsByte (get_sn_mr c sn s).0
  unfolding get_sn_mr
  get_sn_mr-IsByte s = c.read-IsByte _ s
