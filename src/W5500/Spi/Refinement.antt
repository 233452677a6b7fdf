-- ===== src/W5500/Spi/Refinement.antt =====
-- The routines over the bus against the cells of the chip behind it.
use x_wizchip_io_library_dri.Base.{
  ℕ, zero, suc, ◌+◌, ◌*◌, ◌/◌, ◌%◌, ◌≡◌, refl, List, [], ◌∷◌, bit_or, arith, ap, ◌∙◌, get_or,
}
use x_wizchip_io_library_dri.Base.Bits.{bit_or-zero, bit_or-four}
use x_wizchip_io_library_dri.W5500.Spi.{
  SpiBus, write_each, read_each, begin, spi_header, w5500_spi_read, w5500_spi_write,
  w5500_spi_vdm_op, wizchip_read, wizchip_write, wizchip_read_buf, wizchip_write_buf,
}
use x_wizchip_io_library_dri.W5500.Spi.Device.{
  Bursts, Cells, Slave, load_each, store_each, IsAddress, block_of, offset_of,
}
use x_wizchip_io_library_dri.W5500.Spi.Frames.{
  wizchip_write_buf_frame, wizchip_read_buf_frame, wizchip_write_frame, wizchip_read_frame,
}

subst3 :
    {M : Type 0} (P : ℕ → ℕ → ℕ → M → Type 0) {a a' o o' f f' : ℕ} {m : M}
    → a ≡ a'
    → o ≡ o'
    → f ≡ f'
    → P a' o' f' m
    → P a o f m
subst3 P e e1 e2 p = rw (e, e1, e2) p

module _ (b : SpiBus) (cells : Cells) (slave : Slave b cells) where
  open slave use {Idle, InFrame}

  frame_of_read :
      (addr : ℕ) (s : b.State) (m : cells.Mem)
      → IsAddress addr
      → Idle s m
      → InFrame
          (write_each b
            (spi_header (bit_or addr (bit_or w5500_spi_read w5500_spi_vdm_op)))
            (begin b s))
          (block_of addr)
          0
          (offset_of addr)
          m
  unfolding write_each spi_header
  frame_of_read addr s m (small, aligned) idle =
      let t = slave.takes_header s m (addr / 65536 % 256) (addr / 256 % 256) (addr % 256) idle in
      let block : block_of addr ≡ addr % 256 / 8 = omega arith in
      let op : 0 ≡ addr % 256 % 8 = omega arith in
      let offset : offset_of addr ≡ addr / 65536 % 256 * 256 + addr / 256 % 256 = omega arith in
      rw bit_or-zero (subst3 (InFrame _) block op offset t)

  frame_of_write :
      (addr : ℕ) (s : b.State) (m : cells.Mem)
      → IsAddress addr
      → Idle s m
      → InFrame
          (write_each b
            (spi_header (bit_or addr (bit_or w5500_spi_write w5500_spi_vdm_op)))
            (begin b s))
          (block_of addr)
          4
          (offset_of addr)
          m
  unfolding write_each spi_header
  frame_of_write addr s m (small, aligned) idle =
      let a = addr + 4 in
      let t = slave.takes_header s m (a / 65536 % 256) (a / 256 % 256) (a % 256) idle in
      let block : block_of addr ≡ a % 256 / 8 = omega arith in
      let op : 4 ≡ a % 256 % 8 = omega arith in
      let offset : offset_of addr ≡ a / 65536 % 256 * 256 + a / 256 % 256 = omega arith in
      rw (bit_or-four addr aligned) (subst3 (InFrame _) block op offset t)

  write_each_stores :
      (xs : List ℕ) (s : b.State) (m : cells.Mem) (block offset : ℕ)
      → InFrame s block 4 offset m
      → (after : ℕ) × InFrame (write_each b xs s) block 4 after (store_each cells block offset xs m)
  unfolding write_each store_each
  write_each_stores [] s m block offset frame = (offset, frame)
  write_each_stores (x ∷ xs) s m block offset frame =
      write_each_stores xs (b.write_byte x s) (cells.store block offset x m) block
        ((offset + 1) % 65536) (slave.takes_byte s m block offset x frame)

  read_each_loads :
      (n : ℕ) (s : b.State) (m : cells.Mem) (block offset : ℕ)
      → InFrame s block 0 offset m
      → ((read_each b n s).0 ≡ (load_each cells block offset n m).0)
        × ((after : ℕ) × InFrame
              (read_each b n s).1
              block
              0
              after
              (load_each cells block offset n m).1)
  unfolding read_each load_each
  read_each_loads zero s m block offset frame = (refl, (offset, frame))
  read_each_loads (suc n) s m block offset frame =
      let (same, frame') = slave.gives_byte s m block offset frame in
      let (sames, rest) =
        read_each_loads n (b.read_byte s).1 (cells.load block offset m).1 block
          ((offset + 1) % 65536) frame' in
      (rw (same, sames) refl, rest)

  -- WIZCHIP_READ_BUF gives what the cells hold from the address on.
  wizchip_read_buf_lem :
      (bursts : Bursts b) (addr n : ℕ) (s : b.State) (m : cells.Mem)
      → IsAddress addr
      → Idle s m
      → (let spec = load_each cells (block_of addr) (offset_of addr) n m in
          ((wizchip_read_buf b addr n s).0 ≡ spec.0) × Idle (wizchip_read_buf b addr n s).1 spec.1)
  wizchip_read_buf_lem bursts addr n s m small idle =
      let (same, (after, frame)) = read_each_loads n _ m _ _ (frame_of_read addr s m small idle) in
      rw (wizchip_read_buf_frame b bursts) (same, slave.ends _ _ _ _ _ frame)

  wizchip_read_lem :
      (bursts : Bursts b) (addr : ℕ) (s : b.State) (m : cells.Mem)
      → IsAddress addr
      → Idle s m
      → (let spec = cells.load (block_of addr) (offset_of addr) m in
          ((wizchip_read b addr s).0 ≡ spec.0) × Idle (wizchip_read b addr s).1 spec.1)
  unfolding read_each
  wizchip_read_lem bursts addr s m small idle =
      let (same, frame) = slave.gives_byte _ m _ _ (frame_of_read addr s m small idle) in
      let (value, state) = wizchip_read_frame b bursts addr s in
      (ap (λ xs. get_or xs 0 0) value ∙ same, rw state (slave.ends _ _ _ _ _ frame))

  wizchip_write_buf_lem :
      (bursts : Bursts b) (addr : ℕ) (xs : List ℕ) (s : b.State) (m : cells.Mem)
      → IsAddress addr
      → Idle s m
      → Idle
          (wizchip_write_buf b addr xs s)
          (store_each cells (block_of addr) (offset_of addr) xs m)
  wizchip_write_buf_lem bursts addr xs s m small idle =
      let (after, frame) = write_each_stores xs _ m _ _ (frame_of_write addr s m small idle) in
      rw (wizchip_write_buf_frame b bursts) (slave.ends _ _ _ _ _ frame)

  wizchip_write_lem :
      (bursts : Bursts b) (addr v : ℕ) (s : b.State) (m : cells.Mem)
      → IsAddress addr
      → Idle s m
      → Idle (wizchip_write b addr v s) (cells.store (block_of addr) (offset_of addr) v m)
  unfolding store_each
  wizchip_write_lem bursts addr v s m small idle =
      let (after, frame) =
        write_each_stores (v ∷ []) _ m _ _ (frame_of_write addr s m small idle) in
      rw (wizchip_write_frame b bursts) (slave.ends _ _ _ _ _ frame)

  -- On a bus whose chip speaks the frames of the datasheet and holds `m`, and whose burst functions, if
  -- any, carry their bytes one by one, at a 24-bit address with its low three bits clear: WIZCHIP_READ
  -- and WIZCHIP_READ_BUF give what the chip holds at the block and the offset of the address,
  -- WIZCHIP_WRITE and WIZCHIP_WRITE_BUF store their bytes there, the offset counting up in 16 bits;
  -- after each of them the chip is idle and holds the result.
  pub spi-Refines :
      (bursts : Bursts b) (addr n v : ℕ) (xs : List ℕ) (s : b.State) (m : cells.Mem)
      → IsAddress addr
      → Idle s m
      → (let block = block_of addr in
          let offset = offset_of addr in
          let one = cells.load block offset m in
          let many = load_each cells block offset n m in
          (((wizchip_read b addr s).0 ≡ one.0) × Idle (wizchip_read b addr s).1 one.1)
          × (((wizchip_read_buf b addr n s).0 ≡ many.0)
              × Idle (wizchip_read_buf b addr n s).1 many.1)
          × Idle (wizchip_write b addr v s) (cells.store block offset v m)
          × Idle (wizchip_write_buf b addr xs s) (store_each cells block offset xs m))
  spi-Refines bursts addr n v xs s m small idle = (
    wizchip_read_lem bursts addr s m small idle,
    wizchip_read_buf_lem bursts addr n s m small idle,
    wizchip_write_lem bursts addr v s m small idle,
    wizchip_write_buf_lem bursts addr xs s m small idle,
  )
