-- ===== src/Socket/Open.antt =====
-- socket() and close().
pub mod Closing
pub mod Opening
pub mod Flags
pub mod Progress
use x_wizchip_io_library_dri.Base.{
  ℕ, ◌+◌, ◌*◌, ◌%◌, ◌^◌, ◌==◌, if◌then◌else◌, Bool, true, not, ◌&&◌, ◌||◌, Option, none, some, List,
  [], ◌∷◌, bit_and, bit_or,
}
use x_wizchip_io_library_dri.Base.Int.{ℤ, pos}
use x_wizchip_io_library_dri.Chip.{Chip, M, pure, ◌>>=◌, ◌>>◌, polling, on_chip, to_chip, done}
use x_wizchip_io_library_dri.W5500.Regs.{get_sipr, get_sn_sr, set_sn_mr, set_sn_port, set_sn_ir}
use x_wizchip_io_library_dri.Socket.Codes.{
  sockerr_sockinit, sockerr_sockmode, sockerr_sockflag, sock_ok, mr_tcp, mr_udp, mr_ipraw,
  mr_macraw, sf_io_nonblock, sf_tcp_nodelay, sf_igmp_ver2, sf_multi_enable, sf_uni_block, cr_open,
  cr_close, sock_closed, pack_completed, sock_any_port_num,
}
use x_wizchip_io_library_dri.Socket.State.{
  has, check_socknum, set_remained, set_pack_info, clear_io_mode, or_io_mode, clear_is_sending,
  wait_while, command,
}

-- taddr == 0: the four bytes read into it are 0.
abbrev pub all_zero : List ℕ → Bool
all_zero [] = true
all_zero (x ∷ xs) = x == 0 && all_zero xs

-- The second switch of socket(), and the test on 0x04 before it.
unfoldable pub flag_error : ℕ → ℕ → Option ℤ
flag_error protocol flag =
    if has flag 0x04
    then some sockerr_sockflag
    else if not (flag == 0)
    then (if protocol == mr_tcp
        then (if bit_and flag (bit_or sf_tcp_nodelay sf_io_nonblock) == 0
            then some sockerr_sockflag
            else none)
        else if protocol == mr_udp
        then (if has flag sf_igmp_ver2 && bit_and flag sf_multi_enable == 0
            then some sockerr_sockflag
            else if has flag sf_uni_block && bit_and flag sf_multi_enable == 0
            then some sockerr_sockflag
            else none)
        else none)
    else none

abbrev pub or_return : {S : Type 0} → Option ℤ → M S ℤ → M S ℤ
or_return none k = k
or_return (some code) k = pure code

module _ {S : Type 0} where
  -- port = sock_any_port++; if (sock_any_port == 0xFFF0) sock_any_port = SOCK_ANY_PORT_NUM;
  unfoldable pub take_any_port : M S ℕ
  take_any_port w =
      let next = (w.driver.sock_any_port + 1) % 2 ^ 16 in
      done w.driver.sock_any_port (record w {
        driver = record w.driver {
          sock_any_port = if next == 0xFFF0 then sock_any_port_num else next;
        };
      })

  unfoldable pub choose_port : ℕ → M S ℕ
  unfolding take_any_port
  choose_port port = if port == 0 then take_any_port else pure port

module _ (c : Chip) (polls : ℕ) where
  unfoldable pub close : ℕ → M c.State ℤ
  unfolding clear_io_mode clear_is_sending
  close sn = check_socknum sn do
    command c polls sn cr_close
    to_chip (set_sn_ir c sn 0xFF)
    clear_io_mode sn
    clear_is_sending sn
    set_remained sn 0
    set_pack_info sn 0
    polling (wait_while (get_sn_sr c sn) (λ v. not (v == sock_closed)) polls)
    pure sock_ok

  -- The first switch of socket().
  unfoldable pub protocol_error : ℕ → M c.State (Option ℤ)
  protocol_error protocol =
      if protocol == mr_tcp
      then (do
        taddr ← on_chip (get_sipr c)
        pure (if all_zero taddr then some sockerr_sockinit else none))
      else if protocol == mr_udp || protocol == mr_macraw || protocol == mr_ipraw
      then pure none
      else pure (some sockerr_sockmode)

  -- From `setSn_CR(sn, Sn_CR_OPEN)` on.
  unfoldable pub open_command : ℕ → ℕ → M c.State ℤ
  unfolding clear_io_mode or_io_mode clear_is_sending
  open_command sn flag = do
    command c polls sn cr_open
    clear_io_mode sn
    or_io_mode (bit_and flag sf_io_nonblock * 2 ^ sn)
    clear_is_sending sn
    set_remained sn 0
    set_pack_info sn pack_completed
    polling (wait_while (get_sn_sr c sn) (λ v. v == sock_closed) polls)
    pure (pos sn)

  -- From `close(sn)` on.
  unfoldable pub socket_open : ℕ → ℕ → ℕ → ℕ → M c.State ℤ
  unfolding choose_port
  socket_open sn protocol port flag = do
    _ ← close sn
    to_chip (set_sn_mr c sn (bit_or protocol (bit_and flag 0xF0)))
    port' ← choose_port port
    to_chip (set_sn_port c sn port')
    open_command sn flag

  unfoldable pub socket : ℕ → ℕ → ℕ → ℕ → M c.State ℤ
  socket sn protocol port flag = check_socknum sn do
    err ← protocol_error protocol
    or_return err (or_return (flag_error protocol flag) (socket_open sn protocol port flag))
