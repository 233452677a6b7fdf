-- ===== src/Socket/State.antt =====
-- The variables of socket.c, the argument checks and the waiting loops that its calls share.
pub mod Rules
pub mod Progress
use x_wizchip_io_library_dri.Base.{
  ℕ, zero, suc, ◌-◌, ◌*◌, ◌^◌, ◌==◌, ltb, if◌then◌else◌, Bool, true, false, not, Option, none, some,
  List, bit_and, bit_or,
}
use x_wizchip_io_library_dri.Base.Bits.{clear_bit, set_bit}
use x_wizchip_io_library_dri.Base.Int.{ℤ}
use x_wizchip_io_library_dri.Chip.{
  Chip, Driver, World, M, pure, ◌>>=◌, ◌>>◌, polling, to_chip, done, fault,
}
use x_wizchip_io_library_dri.W5500.Regs.{get_sn_cr, set_sn_cr}
use x_wizchip_io_library_dri.Socket.Codes.{wizchip_sock_num, sockerr_socknum, sock_any_port_num}

-- The initial values of the file-scope variables.
abbrev pub driver_init : Driver
driver_init = record {
  sock_any_port = sock_any_port_num;
  sock_io_mode = 0;
  sock_is_sending = 0;
  sock_remained_size = λ n. 0;
  sock_pack_info = λ n. 0;
}

abbrev pub update : (ℕ → ℕ) → ℕ → ℕ → ℕ → ℕ
update f i v j = if j == i then v else f j

-- `x & mask` as a condition
abbrev pub has : ℕ → ℕ → Bool
has x mask = not (bit_and x mask == 0)

-- sock_io_mode & (1 << sn)
abbrev pub is_nonblock : ℕ → Driver → Bool
is_nonblock sn d = has d.sock_io_mode (2 ^ sn)

module _ {S : Type 0} where
  -- CHECK_SOCKNUM
  unfoldable pub check_socknum : ℕ → M S ℤ → M S ℤ
  check_socknum sn k = if ltb wizchip_sock_num sn then pure sockerr_socknum else k

  -- `if (test) return code;`
  unfoldable pub return_if : Bool → ℤ → M S ℤ → M S ℤ
  return_if test code k = if test then pure code else k

  -- `if (test) ... else ...` between two computations
  unfoldable pub branch : {A : Type 0} → Bool → M S A → M S A → M S A
  branch test m k = if test then m else k

  -- The arrays have wizchip_sock_num entries: an index outside is a fault.
  unfoldable pub set_remained : ℕ → ℕ → M S (Unit {0})
  set_remained sn v w =
      if ltb sn wizchip_sock_num
      then done tt (record w {
        driver = record w.driver { sock_remained_size = update w.driver.sock_remained_size sn v };
      })
      else fault

  unfoldable pub get_remained : ℕ → M S ℕ
  get_remained sn w =
      if ltb sn wizchip_sock_num then done (w.driver.sock_remained_size sn) w else fault

  unfoldable pub set_pack_info : ℕ → ℕ → M S (Unit {0})
  set_pack_info sn v w =
      if ltb sn wizchip_sock_num
      then done tt (record w {
        driver = record w.driver { sock_pack_info = update w.driver.sock_pack_info sn v };
      })
      else fault

  unfoldable pub get_pack_info : ℕ → M S ℕ
  get_pack_info sn w =
      if ltb sn wizchip_sock_num then done (w.driver.sock_pack_info sn) w else fault

  -- sock_io_mode &= ~(1 << sn)
  unfoldable pub clear_io_mode : ℕ → M S (Unit {0})
  clear_io_mode sn w =
      done tt (record w {
        driver = record w.driver { sock_io_mode = clear_bit sn w.driver.sock_io_mode };
      })

  unfoldable pub or_io_mode : ℕ → M S (Unit {0})
  or_io_mode v w =
      done tt
        (record w { driver = record w.driver { sock_io_mode = bit_or w.driver.sock_io_mode v } })

  -- sock_is_sending &= ~(1 << sn) and sock_is_sending |= (1 << sn)
  unfoldable pub clear_is_sending : ℕ → M S (Unit {0})
  clear_is_sending sn w = done tt (record w {
    driver = record w.driver { sock_is_sending = clear_bit sn w.driver.sock_is_sending };
  })

  unfoldable pub set_is_sending : ℕ → M S (Unit {0})
  set_is_sending sn w = done tt (record w {
    driver = record w.driver { sock_is_sending = set_bit sn w.driver.sock_is_sending };
  })

  -- while (busy(get())) ;
  unfoldable pub wait_while : (S → ℕ × S) → (ℕ → Bool) → ℕ → S → Option (Unit {0} × S)
  wait_while get busy zero s = none
  wait_while get busy (suc polls) s = elim (busy (get s).0) [
    | true ↦ wait_while get busy polls (get s).1
    | false ↦ some (tt, (get s).1)
  ]

module _ (c : Chip) (polls : ℕ) where
  -- setSn_CR(sn, cmd); while (getSn_CR(sn));
  unfoldable pub command : ℕ → ℕ → M c.State (Unit {0})
  command sn cmd = do
    to_chip (set_sn_cr c sn cmd)
    polling (wait_while (get_sn_cr c sn) (λ v. not (v == 0)) polls)
