-- ===== src/W5500/Buffers.antt =====
-- w5500.c: the 16-bit size registers, and data to and from the socket buffers.
pub mod Sizes
use x_wizchip_io_library_dri.Base.{
  ℕ, zero, suc, ◌+◌, ◌*◌, ◌%◌, ◌^◌, ◌==◌, if◌then◌else◌, Option, none, some, List, [], Bool, true,
  false, take, length,
}
use x_wizchip_io_library_dri.Chip.{Chip}
use x_wizchip_io_library_dri.W5500.Regs.{
  sn_tx_fsr, sn_rx_rsr, read16, get_sn_tx_wr, set_sn_tx_wr, get_sn_rx_rd, set_sn_rx_rd,
  wizchip_txbuf_block, wizchip_rxbuf_block,
}

module _ (c : Chip) where
  open c use {State, read, write, read_buf, write_buf}

  -- do { ... } while (val != val1): the register is read until two readings in a row agree, or the
  -- first of them is the old `val`. `val` starts at 0 and keeps its value when `val1` is 0.
  unfoldable pub read_stable : ℕ → ℕ → ℕ → State → Option (ℕ × State)
  read_stable zero a val s = none
  read_stable (suc polls) a val s =
      let (val1, s1) = read16 c a s in
      elim (val1 == 0) [
        | true ↦ elim (val == val1) [ true ↦ some (val, s1) | false ↦ read_stable polls a val s1 ]
        | false ↦
            let (val', s2) = read16 c a s1 in
            elim (val' == val1) [ true ↦ some (val', s2) | false ↦ read_stable polls a val' s2 ]
      ]

  unfoldable pub get_sn_tx_fsr : ℕ → ℕ → State → Option (ℕ × State)
  get_sn_tx_fsr polls sn = read_stable polls (sn_tx_fsr sn) 0

  unfoldable pub get_sn_rx_rsr : ℕ → ℕ → State → Option (ℕ × State)
  get_sn_rx_rsr polls sn = read_stable polls (sn_rx_rsr sn) 0

  -- The address in a socket's buffer: ((uint32_t)ptr << 8) + (block << 3).
  abbrev pub buffer_addr : ℕ → ℕ → ℕ
  buffer_addr ptr block = ptr * 256 + block * 8

  -- `data` is what the caller's pointer shows; its first `len` bytes go out.
  unfoldable pub wiz_send_data : ℕ → List ℕ → ℕ → State → State
  wiz_send_data sn bytes len s =
      if len == 0
      then s
      else let (ptr, s1) = get_sn_tx_wr c sn s in
        set_sn_tx_wr c sn ((ptr + len) % 2 ^ 16)
          (write_buf (buffer_addr ptr (wizchip_txbuf_block sn)) (take len bytes) s1)

  unfoldable pub wiz_recv_data : ℕ → ℕ → State → List ℕ × State
  wiz_recv_data sn len s =
      if len == 0
      then ([], s)
      else let (ptr, s1) = get_sn_rx_rd c sn s in
        let (bytes, s2) = read_buf (buffer_addr ptr (wizchip_rxbuf_block sn)) len s1 in
        (bytes, set_sn_rx_rd c sn ((ptr + len) % 2 ^ 16) s2)

  unfoldable pub wiz_recv_ignore : ℕ → ℕ → State → State
  wiz_recv_ignore sn len s =
      let (ptr, s1) = get_sn_rx_rd c sn s in set_sn_rx_rd c sn ((ptr + len) % 2 ^ 16) s1
