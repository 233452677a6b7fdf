-- ===== src/Socket/Open/Closing.antt =====
-- What close() leaves behind.
use x_wizchip_io_library_dri.Base.{ℕ, ◌<◌, ◌≡◌, refl, ◌≢◌, ◌==◌, not, arith}
use x_wizchip_io_library_dri.Base.Bits.{bit, clear_bit, bit-clear_bit}
use x_wizchip_io_library_dri.Base.Int.{ℤ}
use x_wizchip_io_library_dri.Chip.{Chip, Driver, World}
use x_wizchip_io_library_dri.Chip.Rules.{Safe}
use x_wizchip_io_library_dri.W5500.Regs.{get_sn_sr}
use x_wizchip_io_library_dri.Socket.Codes.{sock_ok, sock_closed, cr_close}
use x_wizchip_io_library_dri.Socket.State.{update}
use x_wizchip_io_library_dri.Socket.State.Rules.{
  check_socknum_then, command_then, set_remained_then, set_pack_info_then, wait_while_then,
}
use x_wizchip_io_library_dri.Socket.Open.{close}

-- Nothing is kept of socket `sn`.
pub record IsCleared (sn : ℕ) (d : Driver) : Type 0 where
  pub blocking : bit sn d.sock_io_mode ≡ 0
  pub not_sending : bit sn d.sock_is_sending ≡ 0
  pub nothing_remains : d.sock_remained_size sn ≡ 0
  pub completed : d.sock_pack_info sn ≡ 0

-- Two states of the driver agree on socket `j`.
pub record Agree (j : ℕ) (d e : Driver) : Type 0 where
  pub io_mode : bit j d.sock_io_mode ≡ bit j e.sock_io_mode
  pub is_sending : bit j d.sock_is_sending ≡ bit j e.sock_is_sending
  pub remained_size : d.sock_remained_size j ≡ e.sock_remained_size j
  pub pack_info : d.sock_pack_info j ≡ e.sock_pack_info j

-- The driver without its notes on socket `sn`.
abbrev pub forget : ℕ → Driver → Driver
forget sn d = record d {
  sock_io_mode = clear_bit sn d.sock_io_mode;
  sock_is_sending = clear_bit sn d.sock_is_sending;
  sock_remained_size = update d.sock_remained_size sn 0;
  sock_pack_info = update d.sock_pack_info sn 0;
}

pub forget-IsCleared : (sn : ℕ) (d : Driver) → sn < 8 → IsCleared sn (forget sn d)
forget-IsCleared sn d h = ground (
  arith,
  bit-clear_bit sn sn d.sock_io_mode (omega arith) (omega arith),
  bit-clear_bit sn sn d.sock_is_sending (omega arith) (omega arith),
)

pub forget-Agree : (sn j : ℕ) (d : Driver) → sn < 8 → j < 8 → j ≢ sn → Agree j (forget sn d) d
forget-Agree sn j d h hj ne = ground (
  arith,
  bit-clear_bit j sn d.sock_io_mode (omega arith) (omega arith),
  bit-clear_bit j sn d.sock_is_sending (omega arith) (omega arith),
)

module _ (c : Chip) (polls sn : ℕ) where
  -- The chip as its state register was last read, and then it was SOCK_CLOSED.
  abbrev pub SeenClosed : c.State → Type 0
  SeenClosed s' = (s : c.State) × ((get_sn_sr c sn s).0 ≡ sock_closed) × ((get_sn_sr c sn s).1 ≡ s')

  abbrev pub Closed : World c.State → ℤ → World c.State → Type 0
  Closed w r w' = (r ≡ sock_ok) × (w'.driver ≡ forget sn w.driver) × SeenClosed w'.chip

  pub close-Closed : (w : World c.State) → sn < 8 → Safe (Closed w) (close c polls sn w)
  unfolding close
  close-Closed w small = check_socknum_then _ (Closed w) sn _ w small (
      command_then c polls sn cr_close (Closed w) _ w λ s _.
        set_remained_then _ (Closed w) sn 0 _ _ small (
          set_pack_info_then _ (Closed w) sn 0 _ _ small (
            wait_while_then (get_sn_sr c sn) (λ v. not (v == sock_closed)) (Closed w) polls _ _
              λ t (u, stop, last). (refl, refl, (u, ground arith, last)))))
