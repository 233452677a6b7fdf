-- ===== src/W5500/Spi/Transparent.antt =====
-- The buffer routines over the SPI bus and over the cells of the chip.
use x_wizchip_io_library_dri.Base.{
  ℕ, ◌+◌, ◌*◌, ◌/◌, ◌%◌, ◌<◌, ◌≤◌, ◌≡◌, refl, ap, subst, ◌∙◌, false, List, [], length, length-take,
  take, arith, ◌==◌, Bool-cases, inl, inr,
}
use x_wizchip_io_library_dri.Chip.{Chip, IsByte}
use x_wizchip_io_library_dri.W5500.Regs.{
  read16, write16, sn_reg, sn_tx_wr, sn_rx_rd, get_sn_tx_wr, set_sn_tx_wr, get_sn_rx_rd,
  set_sn_rx_rd, wizchip_rxbuf_block, wizchip_offset_inc,
}
use x_wizchip_io_library_dri.W5500.Buffers.{wiz_send_data, wiz_recv_data, buffer_addr}
use x_wizchip_io_library_dri.W5500.Spi.{SpiBus}
use x_wizchip_io_library_dri.W5500.Spi.Device.{
  Bursts, Cells, Slave, IsAddress, block_of, offset_of, load_each, store_each, cells_chip,
}
use x_wizchip_io_library_dri.W5500.Spi.Frames.{spi_chip}
use x_wizchip_io_library_dri.W5500.Spi.Refinement.{spi-Refines}

-- Two chips that agree on every access to a 24-bit address.
record Agree (c d : Chip) : Type 1 where
  pub Rel : c.State → d.State → Type 0
  pub reads :
      (a : ℕ) (s : c.State) (t : d.State)
      → IsAddress a
      → Rel s t
      → ((c.read a s).0 ≡ (d.read a t).0) × Rel (c.read a s).1 (d.read a t).1
  pub writes :
      (a v : ℕ) (s : c.State) (t : d.State)
      → IsAddress a
      → Rel s t
      → Rel (c.write a v s) (d.write a v t)
  pub reads_buf :
      (a n : ℕ) (s : c.State) (t : d.State)
      → IsAddress a
      → Rel s t
      → ((c.read_buf a n s).0 ≡ (d.read_buf a n t).0)
        × Rel (c.read_buf a n s).1 (d.read_buf a n t).1
  pub writes_buf :
      (a : ℕ) (xs : List ℕ) (s : c.State) (t : d.State)
      → IsAddress a
      → Rel s t
      → Rel (c.write_buf a xs s) (d.write_buf a xs t)

module _ (c d : Chip) (agree : Agree c d) where
  open agree use {Rel}

  read16_agrees :
      (a : ℕ) (s : c.State) (t : d.State)
      → IsAddress a
      → IsAddress (wizchip_offset_inc a 1)
      → Rel s t
      → ((read16 c a s).0 ≡ (read16 d a t).0) × Rel (read16 c a s).1 (read16 d a t).1
  unfolding read16
  read16_agrees a s t ok ok' rel =
      let (hi, rel1) = agree.reads a s t ok rel in
      let (lo, rel2) = agree.reads (wizchip_offset_inc a 1) _ _ ok' rel1 in (rw (hi, lo) refl, rel2)

  write16_agrees :
      (a v : ℕ) (s : c.State) (t : d.State)
      → IsAddress a
      → IsAddress (wizchip_offset_inc a 1)
      → Rel s t
      → Rel (write16 c a v s) (write16 d a v t)
  unfolding write16
  write16_agrees a v s t ok ok' rel =
      agree.writes (wizchip_offset_inc a 1) (v % 256) _ _ ok'
        (agree.writes a (v / 256 % 256) s t ok rel)

  read16_small : (a : ℕ) (t : d.State) → (read16 d a t).0 < 65536
  unfolding read16
  read16_small a t =
      let h = d.read-IsByte a t in
      let l = d.read-IsByte (wizchip_offset_inc a 1) (d.read a t).1 in omega (arith)

  module _ (sn : ℕ) (small : sn < 8) where
    sn_reg-IsAddress : (offset : ℕ) → offset < 256 → IsAddress (sn_reg offset sn)
    unfolding sn_reg
    sn_reg-IsAddress offset h = (omega arith, omega arith)

    sn_reg_inc-IsAddress :
        (offset : ℕ) → offset < 255 → IsAddress (wizchip_offset_inc (sn_reg offset sn) 1)
    unfolding sn_reg
    sn_reg_inc-IsAddress offset h = (omega arith, omega arith)

    wiz_send_data_agrees :
        (bytes : List ℕ) (len : ℕ) (s : c.State) (t : d.State)
        → Rel s t
        → Rel (wiz_send_data c sn bytes len s) (wiz_send_data d sn bytes len t)
    unfolding wiz_send_data get_sn_tx_wr set_sn_tx_wr
    wiz_send_data_agrees bytes len s t rel =
        let ok = sn_reg-IsAddress 0x24 (omega arith) in
        let ok' = sn_reg_inc-IsAddress 0x24 (omega arith) in
        let (ptr, rel1) = read16_agrees (sn_tx_wr sn) s t ok ok' rel in
        let bound = read16_small (sn_tx_wr sn) t in
        elim (Bool-cases (len == 0)) [
          | inl e ↦ rw e rel
          | inr e ↦
              rw (e, ptr)
                (write16_agrees (sn_tx_wr sn) _ _ _ ok ok'
                  (agree.writes_buf _ (take len bytes) _ _ (omega arith, omega arith) rel1))
        ]

    wiz_recv_data_agrees :
        (len : ℕ) (s : c.State) (t : d.State)
        → Rel s t
        → ((wiz_recv_data c sn len s).0 ≡ (wiz_recv_data d sn len t).0)
          × Rel (wiz_recv_data c sn len s).1 (wiz_recv_data d sn len t).1
    unfolding wiz_recv_data get_sn_rx_rd set_sn_rx_rd
    wiz_recv_data_agrees len s t rel =
        let ok = sn_reg-IsAddress 0x28 (omega arith) in
        let ok' = sn_reg_inc-IsAddress 0x28 (omega arith) in
        let (ptr, rel1) = read16_agrees (sn_rx_rd sn) s t ok ok' rel in
        let bound = read16_small (sn_rx_rd sn) t in
        elim (Bool-cases (len == 0)) [
          | inl e ↦ rw e (refl, rel)
          | inr e ↦
              let (bytes, rel2) =
                agree.reads_buf
                  (buffer_addr d (read16 d (sn_rx_rd sn) t).0 (wizchip_rxbuf_block sn)) len _ _
                  (omega arith, omega arith) rel1 in
              rw (e, ptr) (bytes, write16_agrees (sn_rx_rd sn) _ _ _ ok ok' rel2)
        ]

-- What a chip with socket blocks of the datasheet is to do: the 16-bit register at an offset of the
-- socket's register block, high byte first.
module _ (cells : Cells) (sn : ℕ) where
  abbrev pub load_word : ℕ → cells.Mem → ℕ × cells.Mem
  load_word offset m =
      let (hi, m1) = cells.load (1 + 4 * sn) offset m in
      let (lo, m2) = cells.load (1 + 4 * sn) (offset + 1) m1 in (hi * 256 + lo, m2)

  abbrev pub store_word : ℕ → ℕ → cells.Mem → cells.Mem
  store_word offset v m =
      cells.store (1 + 4 * sn) (offset + 1) (v % 256) (cells.store (1 + 4 * sn) offset (v / 256) m)

  -- The bytes go to the transmit block from Sn_TX_WR on, which is moved behind them.
  abbrev pub sent_to : List ℕ → cells.Mem → cells.Mem
  sent_to bytes m =
      let (from, m1) = load_word 0x24 m in
      store_word 0x24 ((from + length bytes) % 65536) (store_each cells (2 + 4 * sn) from bytes m1)

  -- The bytes come from the receive block from Sn_RX_RD on, which is moved behind them.
  abbrev pub received_from : ℕ → cells.Mem → List ℕ × cells.Mem
  received_from n m =
      let (from, m1) = load_word 0x28 m in
      let (bytes, m2) = load_each cells (3 + 4 * sn) from n m1 in
      (bytes, store_word 0x28 ((from + n) % 65536) m2)

module _ (cells : Cells) (sn : ℕ) (small : sn < 8) where
  register_lem :
      (offset : ℕ)
      → offset < 255
      → (block_of (sn_reg offset sn) ≡ 1 + 4 * sn)
        × (offset_of (sn_reg offset sn) ≡ offset)
        × (block_of (wizchip_offset_inc (sn_reg offset sn) 1) ≡ 1 + 4 * sn)
        × (offset_of (wizchip_offset_inc (sn_reg offset sn) 1) ≡ offset + 1)
  unfolding sn_reg
  register_lem offset h = (omega arith, omega arith, omega arith, omega arith)

  buffer_lem :
      (from block : ℕ)
      → from < 65536
      → block < 32
      → (block_of (from * 256 + block * 8) ≡ block) × (offset_of (from * 256 + block * 8) ≡ from)
  buffer_lem from block h k = (omega arith, omega arith)

  read16_lem :
      (offset : ℕ) (m : cells.Mem)
      → offset < 255
      → read16 (cells_chip cells) (sn_reg offset sn) m ≡ load_word cells sn offset m
  unfolding read16
  read16_lem offset m h = let (b1, o1, b2, o2) = register_lem offset h in rw (b1, o1, b2, o2) refl

  write16_lem :
      (offset v : ℕ) (m : cells.Mem)
      → offset < 255
      → v < 65536
      → write16 (cells_chip cells) (sn_reg offset sn) v m ≡ store_word cells sn offset v m
  unfolding write16
  write16_lem offset v m h k =
      let (b1, o1, b2, o2) = register_lem offset h in
      let high : v / 256 % 256 ≡ v / 256 = omega arith in rw (b1, o1, b2, o2, high) refl

  load_word_small : (offset : ℕ) (m : cells.Mem) → (load_word cells sn offset m).0 < 65536
  load_word_small offset m =
      let h = cells.load-IsByte (1 + 4 * sn) offset m in
      let l = cells.load-IsByte (1 + 4 * sn) (offset + 1) (cells.load (1 + 4 * sn) offset m).1 in
      omega arith

  wiz_send_data-cells :
      (bytes : List ℕ) (len : ℕ) (m : cells.Mem)
      → 0 < len
      → len ≤ length bytes
      → wiz_send_data (cells_chip cells) sn bytes len m ≡ sent_to cells sn (take len bytes) m
  unfolding wiz_send_data get_sn_tx_wr set_sn_tx_wr
  wiz_send_data-cells bytes len m some_bytes fits =
      let e : (len == 0) ≡ false = ground arith in
      let from = (load_word cells sn 0x24 m).0 in
      let (b, o) = buffer_lem from (2 + 4 * sn) (load_word_small 0x24 m) (omega arith) in
      let size : length (take len bytes) ≡ len = omega (arith, length-take len bytes) in
      rw (e, read16_lem 0x24 m (omega arith), b, o, size)
        (write16_lem 0x24 ((from + len) % 65536) _ (omega arith) (omega arith))

  wiz_recv_data-cells :
      (len : ℕ) (m : cells.Mem)
      → 0 < len
      → wiz_recv_data (cells_chip cells) sn len m ≡ received_from cells sn len m
  unfolding wiz_recv_data get_sn_rx_rd set_sn_rx_rd
  wiz_recv_data-cells len m some_bytes =
      let e : (len == 0) ≡ false = ground arith in
      let from = (load_word cells sn 0x28 m).0 in
      let (b, o) = buffer_lem from (3 + 4 * sn) (load_word_small 0x28 m) (omega arith) in
      let loaded = load_each cells (3 + 4 * sn) from len (load_word cells sn 0x28 m).1 in
      rw (e, read16_lem 0x28 m (omega arith), b, o)
        (ap (λ t. (loaded.0, t))
          (write16_lem 0x28 ((from + len) % 65536) loaded.1 (omega arith) (omega arith)))

-- On a bus whose chip speaks the frames of the datasheet and holds `m`, with bursts as good as bytes and
-- bytes read, for a socket 0 to 7 and a length that is not 0 and at most the number of the caller's
-- bytes: wiz_send_data() stores that many of them in the transmit block from Sn_TX_WR on, high byte
-- first, and moves it behind them in 16 bits; wiz_recv_data() gives the bytes of the receive block from
-- Sn_RX_RD on and moves that.
pub wiz_data-Refines :
    (b : SpiBus) (cells : Cells) (slave : Slave b cells) (bursts : Bursts b)
    (bytes_read : (s : b.State) → IsByte (b.read_byte s).0) (sn : ℕ) (bytes : List ℕ) (len : ℕ)
    (s : b.State) (m : cells.Mem)
    → sn < 8
    → 0 < len
    → len ≤ length bytes
    → slave.Idle s m
    → (let c = spi_chip b bursts bytes_read in
        slave.Idle (wiz_send_data c sn bytes len s) (sent_to cells sn (take len bytes) m)
        × ((wiz_recv_data c sn len s).0 ≡ (received_from cells sn len m).0)
        × slave.Idle (wiz_recv_data c sn len s).1 (received_from cells sn len m).1)
wiz_data-Refines b cells slave bursts bytes_read sn bytes len s m small some_bytes fits idle =
    let c = spi_chip b bursts bytes_read in
    let agree : Agree c (cells_chip cells) = record {
      Rel = slave.Idle;
      reads = λ a s t ok rel. (spi-Refines b cells slave bursts a 0 0 [] s t ok rel).0;
      reads_buf = λ a n s t ok rel. (spi-Refines b cells slave bursts a n 0 [] s t ok rel).1;
      writes = λ a v s t ok rel. (spi-Refines b cells slave bursts a 0 v [] s t ok rel).2;
      writes_buf = λ a xs s t ok rel. (spi-Refines b cells slave bursts a 0 0 xs s t ok rel).3;
    } in
    let (same, after) = wiz_recv_data_agrees c (cells_chip cells) agree sn small len s m idle in
    let sent = wiz_send_data_agrees c (cells_chip cells) agree sn small bytes len s m idle in
    let to_cells = wiz_send_data-cells cells sn small bytes len m some_bytes fits in
    let from_cells = wiz_recv_data-cells cells sn small len m some_bytes in
    (
      subst (slave.Idle (wiz_send_data c sn bytes len s)) to_cells sent,
      same ∙ ap (λ r. r.0) from_cells,
      subst (λ (r : List ℕ × cells.Mem). slave.Idle (wiz_recv_data c sn len s).1 r.1) from_cells
          after,
    )
