-- ===== src/Socket/Udp.antt =====
-- sendto() and recvfrom().
pub mod Accounting
pub mod Receiving
pub mod Progress
use x_wizchip_io_library_dri.Base.{
  ℕ, zero, suc, ◌+◌, ◌-◌, ◌*◌, ◌%◌, ◌^◌, ◌==◌, ltb, leb, if◌then◌else◌, Bool, true, false, not,
  ◌&&◌, ◌||◌, Option, none, some, List, [], get_or, take, bit_and, bit_or,
}
use x_wizchip_io_library_dri.Base.Int.{ℤ, pos}
use x_wizchip_io_library_dri.Chip.{
  Chip, M, pure, ◌>>=◌, ◌>>◌, polling, on_chip, to_chip, get_driver,
}
use x_wizchip_io_library_dri.W5500.Regs.{
  get_sn_sr, get_sn_ir, set_sn_ir, set_sn_dipr, set_sn_dport, get_sn_tx_max, get_sn_mr,
}
use x_wizchip_io_library_dri.W5500.Buffers.{
  get_sn_tx_fsr, get_sn_rx_rsr, wiz_send_data, wiz_recv_data, wiz_recv_ignore,
}
use x_wizchip_io_library_dri.Socket.Codes.{
  wizchip_sock_num, sockerr_socknum, sockerr_sockmode, sockerr_sockclosed, sockerr_sockstatus,
  sockerr_datalen, sockerr_timeout, sockerr_ipinvalid, sockerr_portzero, sockfatal_packlen,
  sock_busy, mr_udp, mr_macraw, mr_ipraw, cr_send, cr_recv, ir_sendok, ir_timeout, sock_udp,
  sock_ipraw, sock_macraw, sock_closed, pack_first, pack_remained, pack_completed,
}
use x_wizchip_io_library_dri.Socket.State.{
  has, is_nonblock, check_socknum, return_if, branch, command, get_remained, set_remained,
  get_pack_info, set_pack_info,
}
use x_wizchip_io_library_dri.Socket.Open.{close}
use x_wizchip_io_library_dri.Socket.Tcp.{ip_value, limited, Waited, ready, would_block, broken}

abbrev pub is_datagram_mode : ℕ → Bool
is_datagram_mode mr =
    bit_and mr 0x0F == mr_udp || bit_and mr 0x0F == mr_macraw || bit_and mr 0x0F == mr_ipraw

-- What recvfrom() gives its caller: the result, the bytes in `buf`, and `*addr` and `*port` where
-- it writes them.
pub record Received : Type 0 where
  pub ret : ℤ
  pub bytes : List ℕ
  pub addr : Option (List ℕ)
  pub port : Option ℕ

abbrev pub nothing : ℤ → Received
nothing code = record { ret = code; bytes = []; addr = none; port = none }

module _ (c : Chip) (polls : ℕ) where
  unfoldable pub sendto_wait : ℕ → ℕ → ℕ → Bool → c.State → Option (Waited × c.State)
  sendto_wait zero sn len nonblock s = none
  sendto_wait (suc n) sn len nonblock s = elim (get_sn_tx_fsr c polls sn s) [
    | none ↦ none
    | some (freesize, s1) ↦
        let (sr, s2) = get_sn_sr c sn s1 in
        elim (sr == sock_closed) [
          | true ↦ some (broken, s2)
          | false ↦ elim (nonblock && ltb freesize len) [
            | true ↦ some (would_block, s2)
            | false ↦ elim (leb len freesize) [
              | true ↦ some (ready freesize, s2)
              | false ↦ sendto_wait n sn len nonblock s2
            ]
          ]
        ]
  ]

  -- The loop after the command: `true` on Sn_IR_SENDOK, `false` on Sn_IR_TIMEOUT.
  unfoldable pub sent_wait : ℕ → ℕ → c.State → Option (Bool × c.State)
  sent_wait zero sn s = none
  sent_wait (suc n) sn s =
      let (ir, s1) = get_sn_ir c sn s in
      elim (has ir ir_sendok) [
        | true ↦ some (true, set_sn_ir c sn ir_sendok s1)
        | false ↦ elim (has ir ir_timeout) [
          | true ↦ some (false, set_sn_ir c sn ir_timeout s1)
          | false ↦ sent_wait n sn s1
        ]
      ]

  -- (getSn_MR(sn) & Sn_MR_MACRAW) != Sn_MR_MACRAW, read only where the test before it holds
  unfoldable pub unless_macraw : Bool → ℕ → M c.State Bool
  unless_macraw false sn = pure false
  unless_macraw true sn = do
    mr ← on_chip (get_sn_mr c sn)
    pure (not (bit_and mr mr_macraw == mr_macraw))

  -- Behind the first loop.
  unfoldable pub sendto_after : ℕ → List ℕ → ℕ → Waited → M c.State ℤ
  sendto_after sn buf n broken = pure sockerr_sockclosed
  sendto_after sn buf n would_block = pure sock_busy
  sendto_after sn buf n (ready _) = do
    to_chip (wiz_send_data c sn buf n)
    command c polls sn cr_send
    sent ← polling (sent_wait polls sn)
    pure (if sent then pos n else sockerr_timeout)

  -- From `setSn_DIPR(sn, addr)` on.
  unfoldable pub sendto_data : ℕ → List ℕ → ℕ → List ℕ → ℕ → M c.State ℤ
  unfolding sendto_after
  sendto_data sn buf len addr port = do
    to_chip (set_sn_dipr c sn addr)
    to_chip (set_sn_dport c sn port)
    tx_max ← on_chip (get_sn_tx_max c sn)
    d ← get_driver
    room ← polling (sendto_wait polls sn (limited len tx_max) (is_nonblock sn d))
    sendto_after sn buf (limited len tx_max) room

  unfoldable pub sendto : ℕ → List ℕ → ℕ → List ℕ → ℕ → M c.State ℤ
  unfolding unless_macraw sendto_data
  sendto sn buf len addr port = check_socknum sn do
    mr ← on_chip (get_sn_mr c sn)
    return_if (not (is_datagram_mode mr)) sockerr_sockmode (
        return_if (len == 0) sockerr_datalen do
          no_addr ← unless_macraw (ip_value addr 0 == 0) sn
          return_if no_addr sockerr_ipinvalid do
            no_port ← unless_macraw (port == 0) sn
            return_if no_port sockerr_portzero do
              sr ← on_chip (get_sn_sr c sn)
              return_if (not (sr == sock_macraw) && not (sr == sock_udp) && not (sr == sock_ipraw))
                  sockerr_sockstatus (sendto_data sn buf len addr port))

  unfoldable pub recvfrom_wait : ℕ → ℕ → Bool → c.State → Option (Waited × c.State)
  recvfrom_wait zero sn nonblock s = none
  recvfrom_wait (suc n) sn nonblock s = elim (get_sn_rx_rsr c polls sn s) [
    | none ↦ none
    | some (pack_len, s1) ↦
        let (sr, s2) = get_sn_sr c sn s1 in
        elim (sr == sock_closed) [
          | true ↦ some (broken, s2)
          | false ↦ elim (nonblock && pack_len == 0) [
            | true ↦ some (would_block, s2)
            | false ↦ elim (pack_len == 0) [
              | true ↦ recvfrom_wait n sn nonblock s2
              | false ↦ some (ready pack_len, s2)
            ]
          ]
        ]
  ]

  -- wiz_recv_data(sn, head, n); setSn_CR(sn, Sn_CR_RECV); while (getSn_CR(sn));
  unfoldable pub read_head : ℕ → ℕ → M c.State (List ℕ)
  read_head sn n = do head ← on_chip (wiz_recv_data c sn n); command c polls sn cr_recv; pure head

  -- The data, the command, and the account of what remains of the packet.
  unfoldable pub deliver : ℕ → ℕ → Option (List ℕ) → Option ℕ → M c.State Received
  deliver sn len addr port = do
    remained ← get_remained sn
    let pack_len = if ltb len remained then len else remained
    bytes ← on_chip (wiz_recv_data c sn pack_len)
    command c polls sn cr_recv
    set_remained sn ((remained + 2 ^ 16 - pack_len) % 2 ^ 16)
    left ← get_remained sn
    info ← get_pack_info sn
    set_pack_info sn (if left == 0 then pack_completed else bit_or info pack_remained)
    pure (record { ret = pos pack_len; bytes = bytes; addr = addr; port = port })

  -- case Sn_MR_UDP: address, port and length stand before the data.
  unfoldable pub recvfrom_udp : ℕ → ℕ → M c.State Received
  recvfrom_udp sn len = do
    remained ← get_remained sn
    branch (remained == 0)
        (do
          head ← read_head sn 8
          set_remained sn (get_or head 6 0 * 256 + get_or head 7 0)
          set_pack_info sn pack_first
          deliver sn len (some (take 4 head)) (some (get_or head 4 0 * 256 + get_or head 5 0)))
        (deliver sn len none none)

  -- case Sn_MR_MACRAW: the length counts its own two bytes.
  unfoldable pub recvfrom_macraw : ℕ → ℕ → M c.State Received
  recvfrom_macraw sn len = do
    remained ← get_remained sn
    branch (remained == 0)
        (do
          head ← read_head sn 2
          let size = (get_or head 0 0 * 256 + get_or head 1 0 + 2 ^ 16 - 2) % 2 ^ 16
          set_remained sn size
          branch (ltb 1514 size) (do _ ← close c polls sn; pure (nothing sockfatal_packlen))
              (do set_pack_info sn pack_first; deliver sn len none none))
        (deliver sn len none none)

  -- case Sn_MR_IPRAW: address and length.
  unfoldable pub recvfrom_ipraw : ℕ → ℕ → M c.State Received
  recvfrom_ipraw sn len = do
    remained ← get_remained sn
    branch (remained == 0)
        (do
          head ← read_head sn 6
          set_remained sn (get_or head 4 0 * 256 + get_or head 5 0)
          set_pack_info sn pack_first
          deliver sn len (some (take 4 head)) none)
        (deliver sn len none none)

  -- default: the packet is dropped.
  unfoldable pub recvfrom_other : ℕ → ℕ → M c.State Received
  recvfrom_other sn pack_len = do
    to_chip (wiz_recv_ignore c sn pack_len)
    set_remained sn pack_len
    command c polls sn cr_recv
    set_remained sn ((pack_len + 2 ^ 16 - pack_len) % 2 ^ 16)
    set_pack_info sn pack_completed
    pure (record { ret = pos pack_len; bytes = []; addr = none; port = none })

  -- The switch on `mr & 0x07`.
  unfoldable pub recvfrom_mode : ℕ → ℕ → ℕ → ℕ → M c.State Received
  recvfrom_mode sn mr len pack_len = branch (bit_and mr 0x07 == mr_udp) (recvfrom_udp sn len) (
      branch (bit_and mr 0x07 == mr_macraw) (recvfrom_macraw sn len)
        (branch (bit_and mr 0x07 == mr_ipraw) (recvfrom_ipraw sn len) (recvfrom_other sn pack_len)))

  -- Behind the loop.
  unfoldable pub recvfrom_after : ℕ → ℕ → ℕ → Waited → M c.State Received
  recvfrom_after sn mr len broken = pure (nothing sockerr_sockclosed)
  recvfrom_after sn mr len would_block = pure (nothing sock_busy)
  recvfrom_after sn mr len (ready pack_len) = recvfrom_mode sn mr len pack_len

  unfoldable pub recvfrom : ℕ → ℕ → M c.State Received
  recvfrom sn len = branch (ltb wizchip_sock_num sn) (pure (nothing sockerr_socknum)) do
    mr ← on_chip (get_sn_mr c sn)
    branch (not (is_datagram_mode mr)) (pure (nothing sockerr_sockmode)) (
        branch (len == 0) (pure (nothing sockerr_datalen)) do
          remained ← get_remained sn
          branch (remained == 0)
              (do
                d ← get_driver
                arrived ← polling (recvfrom_wait polls sn (is_nonblock sn d))
                recvfrom_after sn mr len arrived)
              (recvfrom_mode sn mr len 0))
