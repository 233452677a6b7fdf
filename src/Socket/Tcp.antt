-- ===== src/Socket/Tcp.antt =====
-- listen(), connect(), disconnect(), send() and recv().
pub mod Sending
pub mod Receiving
pub mod Progress
use x_wizchip_io_library_dri.Base.{
  ℕ, zero, suc, ◌+◌, ◌*◌, ◌%◌, ◌^◌, ◌==◌, ltb, leb, if◌then◌else◌, Bool, true, false, not, ◌&&◌,
  ◌||◌, Option, none, some, List, [], ◌∷◌, bit_and,
}
use x_wizchip_io_library_dri.Base.Int.{ℤ, pos}
use x_wizchip_io_library_dri.Chip.{
  Chip, M, pure, ◌>>=◌, ◌>>◌, polling, on_chip, to_chip, get_driver,
}
use x_wizchip_io_library_dri.W5500.Regs.{
  get_sn_sr, get_sn_ir, set_sn_ir, set_sn_dipr, set_sn_dport, get_sn_tx_max, get_sn_rx_max,
  get_sn_mr,
}
use x_wizchip_io_library_dri.W5500.Buffers.{
  get_sn_tx_fsr, get_sn_rx_rsr, wiz_send_data, wiz_recv_data,
}
use x_wizchip_io_library_dri.Socket.Codes.{
  wizchip_sock_num, sockerr_socknum, sockerr_sockinit, sockerr_sockmode, sockerr_sockclosed,
  sockerr_sockstatus, sockerr_datalen, sockerr_timeout, sockerr_ipinvalid, sockerr_portzero,
  sock_ok, sock_busy, mr_tcp, cr_listen, cr_connect, cr_discon, cr_send, cr_recv, ir_sendok,
  ir_timeout, sock_init, sock_listen, sock_established, sock_close_wait, sock_closed,
}
use x_wizchip_io_library_dri.Socket.State.{
  has, is_nonblock, check_socknum, return_if, branch, clear_is_sending, set_is_sending, command,
}
use x_wizchip_io_library_dri.Socket.Open.{close}

-- taddr = (taddr << 8) + addr[i], in a uint32_t
unfoldable pub ip_value : List ℕ → ℕ → ℕ
ip_value [] taddr = taddr
ip_value (x ∷ xs) taddr = ip_value xs ((taddr * 256 + x) % 2 ^ 32)

-- `if (len > freesize) len = freesize;` with a uint16_t freesize
unfoldable pub limited : ℕ → ℕ → ℕ
limited len size = let free = size % 2 ^ 16 in if ltb free len then free else len

-- How a loop that waits for room or for data ends.
pub data Waited : Type 0 where
  ready : ℕ → Waited
  would_block broken : Waited

module _ (c : Chip) (polls : ℕ) where
  -- CHECK_SOCKMODE(mode)
  unfoldable pub check_mode : ℕ → ℕ → M c.State Bool
  check_mode sn mode = do mr ← on_chip (get_sn_mr c sn); pure (bit_and mr 0x0F == mode)

  unfoldable pub listen : ℕ → M c.State ℤ
  unfolding check_mode
  listen sn = check_socknum sn do
    tcp ← check_mode sn mr_tcp
    return_if (not tcp) sockerr_sockmode do
      sr ← on_chip (get_sn_sr c sn)
      return_if (not (sr == sock_init)) sockerr_sockinit do
        command c polls sn cr_listen
        sr' ← on_chip (get_sn_sr c sn)
        branch (not (sr' == sock_listen)) (do _ ← close c polls sn; pure sockerr_sockclosed)
            (pure sock_ok)

  -- while (getSn_SR(sn) != SOCK_ESTABLISHED) { ... }
  unfoldable pub connect_wait : ℕ → ℕ → c.State → Option (ℤ × c.State)
  connect_wait zero sn s = none
  connect_wait (suc n) sn s =
      let (sr, s1) = get_sn_sr c sn s in
      elim (sr == sock_established) [
        | true ↦ some (sock_ok, s1)
        | false ↦
            let (ir, s2) = get_sn_ir c sn s1 in
            elim (has ir ir_timeout) [
              | true ↦ some (sockerr_timeout, set_sn_ir c sn ir_timeout s2)
              | false ↦
                  let (sr', s3) = get_sn_sr c sn s2 in
                  elim (sr' == sock_closed) [
                    | true ↦ some (sockerr_sockclosed, s3)
                    | false ↦ connect_wait n sn s3
                  ]
            ]
      ]

  unfoldable pub connect : ℕ → List ℕ → ℕ → M c.State ℤ
  unfolding check_mode
  connect sn addr port = check_socknum sn do
    tcp ← check_mode sn mr_tcp
    return_if (not tcp) sockerr_sockmode do
      sr ← on_chip (get_sn_sr c sn)
      return_if (not (sr == sock_init)) sockerr_sockinit (
          return_if (ip_value addr 0 == 0xFFFF_FFFF || ip_value addr 0 == 0) sockerr_ipinvalid (
            return_if (port == 0) sockerr_portzero do
              to_chip (set_sn_dipr c sn addr)
              to_chip (set_sn_dport c sn port)
              command c polls sn cr_connect
              d ← get_driver
              branch (is_nonblock sn d) (pure sock_busy) (polling (connect_wait polls sn))))

  -- while (getSn_SR(sn) != SOCK_CLOSED) if (getSn_IR(sn) & Sn_IR_TIMEOUT) ...; `true`: timed out.
  unfoldable pub disconnect_wait : ℕ → ℕ → c.State → Option (Bool × c.State)
  disconnect_wait zero sn s = none
  disconnect_wait (suc n) sn s =
      let (sr, s1) = get_sn_sr c sn s in
      elim (sr == sock_closed) [
        | true ↦ some (false, s1)
        | false ↦
            let (ir, s2) = get_sn_ir c sn s1 in
            elim (has ir ir_timeout) [ true ↦ some (true, s2) | false ↦ disconnect_wait n sn s2 ]
      ]

  unfoldable pub disconnect : ℕ → M c.State ℤ
  unfolding check_mode clear_is_sending
  disconnect sn = check_socknum sn do
    tcp ← check_mode sn mr_tcp
    return_if (not tcp) sockerr_sockmode do
      command c polls sn cr_discon
      clear_is_sending sn
      d ← get_driver
      return_if (is_nonblock sn d) sock_busy do
        timed_out ← polling (disconnect_wait polls sn)
        branch timed_out (do _ ← close c polls sn; pure sockerr_timeout) (pure sock_ok)

  -- The loop of send() that waits for `len` bytes of room.
  unfoldable pub send_wait : ℕ → ℕ → ℕ → Bool → c.State → Option (Waited × c.State)
  send_wait zero sn len nonblock s = none
  send_wait (suc n) sn len nonblock s = elim (get_sn_tx_fsr c polls sn s) [
    | none ↦ none
    | some (freesize, s1) ↦
        let (sr, s2) = get_sn_sr c sn s1 in
        elim (not (sr == sock_established) && not (sr == sock_close_wait)) [
          | true ↦ some (broken, s2)
          | false ↦ elim (nonblock && ltb freesize len) [
            | true ↦ some (would_block, s2)
            | false ↦ elim (leb len freesize) [
              | true ↦ some (ready freesize, s2)
              | false ↦ send_wait n sn len nonblock s2
            ]
          ]
        ]
  ]

  -- Behind that loop: `n` bytes go out where there is room.
  unfoldable pub send_after : ℕ → List ℕ → ℕ → Waited → M c.State ℤ
  unfolding set_is_sending
  send_after sn buf n broken = do _ ← close c polls sn; pure sockerr_sockstatus
  send_after sn buf n would_block = pure sock_busy
  send_after sn buf n (ready _) = do
    to_chip (wiz_send_data c sn buf n)
    command c polls sn cr_send
    set_is_sending sn
    pure (pos n)

  -- From `freesize = getSn_TxMAX(sn)` on.
  unfoldable pub send_data : ℕ → List ℕ → ℕ → M c.State ℤ
  unfolding send_after
  send_data sn buf len = do
    tx_max ← on_chip (get_sn_tx_max c sn)
    d ← get_driver
    room ← polling (send_wait polls sn (limited len tx_max) (is_nonblock sn d))
    send_after sn buf (limited len tx_max) room

  unfoldable pub send : ℕ → List ℕ → ℕ → M c.State ℤ
  unfolding check_mode clear_is_sending send_data
  send sn buf len = check_socknum sn do
    tcp ← check_mode sn mr_tcp
    return_if (not tcp) sockerr_sockmode (
        return_if (len == 0) sockerr_datalen do
          sr ← on_chip (get_sn_sr c sn)
          return_if (not (sr == sock_established) && not (sr == sock_close_wait)) sockerr_sockstatus
              do
                d ← get_driver
                branch (has d.sock_is_sending (2 ^ sn))
                    (do
                      ir ← on_chip (get_sn_ir c sn)
                      branch (has ir ir_sendok)
                          (do
                            to_chip (set_sn_ir c sn ir_sendok)
                            clear_is_sending sn
                            send_data sn buf len)
                          (branch (has ir ir_timeout)
                            (do _ ← close c polls sn; pure sockerr_timeout) (pure sock_busy)))
                    (send_data sn buf len))

  -- The loop of recv(). In SOCK_CLOSE_WAIT with nothing received it gives up once all is sent.
  unfoldable pub recv_wait : ℕ → ℕ → Bool → c.State → Option (Waited × c.State)
  recv_wait zero sn nonblock s = none
  recv_wait (suc n) sn nonblock s = elim (get_sn_rx_rsr c polls sn s) [
    | none ↦ none
    | some (recvsize, s1) ↦
        let (sr, s2) = get_sn_sr c sn s1 in
        let again : c.State → Option (Waited × c.State) = λ t. elim (nonblock && recvsize == 0) [
          | true ↦ some (would_block, t)
          | false ↦ elim (recvsize == 0) [
            | true ↦ recv_wait n sn nonblock t
            | false ↦ some (ready recvsize, t)
          ]
        ] in
        elim (sr == sock_established) [
          | true ↦ again s2
          | false ↦ elim (sr == sock_close_wait) [
            | false ↦ some (broken, s2)
            | true ↦ elim (recvsize == 0) [
              | false ↦ some (ready recvsize, s2)
              | true ↦ elim (get_sn_tx_fsr c polls sn s2) [
                | none ↦ none
                | some (freesize, s3) ↦
                    let (tx_max, s4) = get_sn_tx_max c sn s3 in
                    elim (freesize == tx_max) [ true ↦ some (broken, s4) | false ↦ again s4 ]
              ]
            ]
          ]
        ]
  ]

  -- Behind that loop: at most `len` of the bytes that arrived are taken.
  unfoldable pub recv_after : ℕ → ℕ → Waited → M c.State (ℤ × List ℕ)
  recv_after sn len broken = do _ ← close c polls sn; pure (sockerr_sockstatus, [])
  recv_after sn len would_block = pure (sock_busy, [])
  recv_after sn len (ready recvsize) = do
    let n = limited len recvsize
    bytes ← on_chip (wiz_recv_data c sn n)
    command c polls sn cr_recv
    pure (pos n, bytes)

  -- The result, and the bytes put into the caller's buffer.
  unfoldable pub recv : ℕ → ℕ → M c.State (ℤ × List ℕ)
  unfolding check_mode recv_after
  recv sn len = branch (ltb wizchip_sock_num sn) (pure (sockerr_socknum, [])) do
    tcp ← check_mode sn mr_tcp
    branch (not tcp) (pure (sockerr_sockmode, [])) (
        branch (len == 0) (pure (sockerr_datalen, [])) do
          rx_max ← on_chip (get_sn_rx_max c sn)
          d ← get_driver
          arrived ← polling (recv_wait polls sn (is_nonblock sn d))
          recv_after sn (limited len rx_max) arrived)
