-- ===== src/Socket/Options.antt =====
-- ctlsocket(), setsockopt() and getsockopt().
pub mod IoMode
use x_wizchip_io_library_dri.Base.{
  ℕ, zero, suc, ◌/◌, ◌%◌, ◌^◌, ◌==◌, ltb, if◌then◌else◌, Bool, true, false, not, Option, none, some,
  List, bit_and,
}
use x_wizchip_io_library_dri.Base.Bits.{set_bit}
use x_wizchip_io_library_dri.Base.Int.{ℤ}
use x_wizchip_io_library_dri.Chip.{
  Chip, M, pure, done, ◌>>=◌, ◌>>◌, polling, on_chip, to_chip, get_driver,
}
use x_wizchip_io_library_dri.W5500.Regs.{
  get_sn_sr, get_sn_cr, set_sn_cr, get_sn_ir, set_sn_ir, get_sn_imr, set_sn_imr, get_sn_mr,
  get_sn_tx_max, get_sn_rx_max, get_sn_ttl, set_sn_ttl, get_sn_tos, set_sn_tos, get_sn_mssr,
  set_sn_mssr, get_sn_dipr, set_sn_dipr, get_sn_dport, set_sn_dport, get_sn_kpalvtr, set_sn_kpalvtr,
}
use x_wizchip_io_library_dri.W5500.Buffers.{get_sn_tx_fsr, get_sn_rx_rsr}
use x_wizchip_io_library_dri.Socket.Codes.{
  wizchip_sock_num, sockerr_socknum, sockerr_sockmode, sockerr_sockopt, sockerr_arg,
  sockerr_timeout, sock_ok, mr_tcp, cr_send_keep, ir_timeout,
}
use x_wizchip_io_library_dri.Socket.State.{
  has, check_socknum, return_if, clear_io_mode, get_remained, get_pack_info,
}
use x_wizchip_io_library_dri.Socket.Tcp.{check_mode}

pub data CtlsockType : Type 0 where
  cs_set_iomode cs_get_iomode cs_get_maxtxbuf cs_get_maxrxbuf : CtlsockType
  cs_clr_interrupt cs_get_interrupt cs_set_intmask cs_get_intmask : CtlsockType

pub data SockoptType : Type 0 where
  so_flag so_ttl so_tos so_mss so_destip so_destport : SockoptType
  so_keepalivesend so_keepaliveauto so_sendbuf so_recvbuf : SockoptType
  so_status so_remainsize so_packinfo : SockoptType

-- What `arg` points at: a number, or an address.
pub data Arg : Type 0 where
  num : ℕ → Arg
  ip : List ℕ → Arg

-- What setsockopt() reads through `arg`.
abbrev pub SetArg : SockoptType → Type 0
SetArg so_destip = List ℕ
SetArg _ = ℕ

abbrev pub sik_all : ℕ
sik_all = 0x1F

module _ {S : Type 0} where
  -- sock_io_mode |= (1 << sn)
  unfoldable pub set_io_mode : ℕ → M S (Unit {0})
  set_io_mode sn w =
      done tt
        (record w { driver = record w.driver { sock_io_mode = set_bit sn w.driver.sock_io_mode } })

  -- `*arg = v;` behind a step that reads `v`
  abbrev pub gives : M S ℕ → M S (ℤ × Option Arg)
  gives m = do v ← m; pure (sock_ok, some (num v))

  abbrev pub answer : ℤ → M S (ℤ × Option Arg)
  answer code = pure (code, none)

module _ (c : Chip) (polls : ℕ) where
  -- The result, and what is written to `*arg`; `arg` is what `*arg` holds before.
  unfoldable pub ctlsocket : ℕ → CtlsockType → ℕ → M c.State (ℤ × Option Arg)
  unfolding set_io_mode clear_io_mode
  ctlsocket sn cstype arg =
      if ltb wizchip_sock_num sn then answer sockerr_socknum else elim cstype [
        | cs_set_iomode ↦
            if arg == 1
            then (do set_io_mode sn; answer sock_ok)
            else if arg == 0
            then (do clear_io_mode sn; answer sock_ok)
            else answer sockerr_arg
        | cs_get_iomode ↦ (do
          d ← get_driver
          gives (pure (bit_and (d.sock_io_mode / 2 ^ sn) 0x0001)))
        | cs_get_maxtxbuf ↦ (do v ← on_chip (get_sn_tx_max c sn); gives (pure (v % 2 ^ 16)))
        | cs_get_maxrxbuf ↦ (do v ← on_chip (get_sn_rx_max c sn); gives (pure (v % 2 ^ 16)))
        | cs_clr_interrupt ↦
            if ltb sik_all arg
            then answer sockerr_arg
            else (do to_chip (set_sn_ir c sn arg); answer sock_ok)
        | cs_get_interrupt ↦ gives (on_chip (get_sn_ir c sn))
        | cs_set_intmask ↦
            if ltb sik_all arg
            then answer sockerr_arg
            else (do to_chip (set_sn_imr c sn arg); answer sock_ok)
        | cs_get_intmask ↦ gives (on_chip (get_sn_imr c sn))
      ]

  -- while (getSn_CR(sn) != 0) if (getSn_IR(sn) & Sn_IR_TIMEOUT) ...; `true`: timed out.
  unfoldable pub keepalive_wait : ℕ → ℕ → c.State → Option (Bool × c.State)
  keepalive_wait zero sn s = none
  keepalive_wait (suc n) sn s =
      let (cr, s1) = get_sn_cr c sn s in
      elim (cr == 0) [
        | true ↦ some (false, s1)
        | false ↦
            let (ir, s2) = get_sn_ir c sn s1 in
            elim (has ir ir_timeout) [
              | true ↦ some (true, set_sn_ir c sn ir_timeout s2)
              | false ↦ keepalive_wait n sn s2
            ]
      ]

  -- case SO_KEEPALIVESEND
  unfoldable pub send_keepalive : ℕ → M c.State ℤ
  unfolding check_mode
  send_keepalive sn = do
    tcp ← check_mode c polls sn mr_tcp
    return_if (not tcp) sockerr_sockmode do
      timer ← on_chip (get_sn_kpalvtr c sn)
      return_if (not (timer == 0)) sockerr_sockopt do
        to_chip (set_sn_cr c sn cr_send_keep)
        timed_out ← polling (keepalive_wait polls sn)
        pure (if timed_out then sockerr_timeout else sock_ok)

  unfoldable pub setsockopt : ℕ → (sotype : SockoptType) → SetArg sotype → M c.State ℤ
  unfolding check_mode send_keepalive
  setsockopt sn so_ttl v = check_socknum sn do to_chip (set_sn_ttl c sn (v % 256)); pure sock_ok
  setsockopt sn so_tos v = check_socknum sn do to_chip (set_sn_tos c sn (v % 256)); pure sock_ok
  setsockopt sn so_mss v = check_socknum sn do to_chip (set_sn_mssr c sn (v % 2 ^ 16)); pure sock_ok
  setsockopt sn so_destip a = check_socknum sn do to_chip (set_sn_dipr c sn a); pure sock_ok
  setsockopt sn so_destport v =
      check_socknum sn do to_chip (set_sn_dport c sn (v % 2 ^ 16)); pure sock_ok
  setsockopt sn so_keepalivesend _ = check_socknum sn (send_keepalive sn)
  setsockopt sn so_keepaliveauto v = check_socknum sn do
    tcp ← check_mode c polls sn mr_tcp
    return_if (not tcp) sockerr_sockmode do to_chip (set_sn_kpalvtr c sn (v % 256)); pure sock_ok
  setsockopt sn _ _ = check_socknum sn (pure sockerr_arg)

  unfoldable pub getsockopt : ℕ → SockoptType → M c.State (ℤ × Option Arg)
  unfolding check_mode
  getsockopt sn sotype = if ltb wizchip_sock_num sn then answer sockerr_socknum else elim sotype [
    | so_flag ↦ gives (do mr ← on_chip (get_sn_mr c sn); pure (bit_and mr 0xF0))
    | so_ttl ↦ gives (on_chip (get_sn_ttl c sn))
    | so_tos ↦ gives (on_chip (get_sn_tos c sn))
    | so_mss ↦ gives (on_chip (get_sn_mssr c sn))
    | so_destip ↦ (do a ← on_chip (get_sn_dipr c sn); pure (sock_ok, some (ip a)))
    | so_destport ↦ gives (on_chip (get_sn_dport c sn))
    | so_keepaliveauto ↦ (do
      tcp ← check_mode c polls sn mr_tcp
      if not tcp then answer sockerr_sockmode else gives (on_chip (get_sn_kpalvtr c sn)))
    | so_sendbuf ↦ gives (polling (get_sn_tx_fsr c polls sn))
    | so_recvbuf ↦ gives (polling (get_sn_rx_rsr c polls sn))
    | so_status ↦ gives (on_chip (get_sn_sr c sn))
    | so_remainsize ↦ (do
      mr ← on_chip (get_sn_mr c sn)
      gives (if has mr mr_tcp then polling (get_sn_rx_rsr c polls sn) else get_remained sn))
    | so_packinfo ↦ (do
      mr ← on_chip (get_sn_mr c sn)
      if mr == mr_tcp then answer sockerr_sockmode else gives (get_pack_info sn))
    | so_keepalivesend ↦ answer sockerr_sockopt
  ]
