-- ===== src/W5500/Spi/Device.antt =====
-- What the driver relies on behind the SPI bus: the chip's side of a frame, and burst functions that
-- carry the bytes they are given.
use x_wizchip_io_library_dri.Base.{
  ℕ, zero, suc, ◌+◌, ◌*◌, ◌/◌, ◌%◌, ◌≡◌, ◌<◌, refl, ap, length, All, some, List, [], ◌∷◌,
}
use x_wizchip_io_library_dri.Chip.{Chip, IsByte}
use x_wizchip_io_library_dri.W5500.Spi.{SpiBus, write_each, read_each}

-- A burst is as good as the bytes one by one.
pub record Bursts (b : SpiBus) : Type 0 where
  pub write_burst-write_each :
      (wb : List ℕ → b.State → b.State)
      → b.write_burst ≡ some wb
      → (xs : List ℕ) (s : b.State) → wb xs s ≡ write_each b xs s
  pub read_burst-read_each :
      (rb : ℕ → b.State → List ℕ × b.State)
      → b.read_burst ≡ some rb
      → (n : ℕ) (s : b.State) → rb n s ≡ read_each b n s

-- The cells of a chip, by block and offset; a read may change it.
pub record Cells : Type 1 where
  pub Mem : Type 0
  pub load : ℕ → ℕ → Mem → ℕ × Mem
  pub store : ℕ → ℕ → ℕ → Mem → Mem
  pub load-IsByte : (block offset : ℕ) (m : Mem) → IsByte (load block offset m).0

-- The slave of the datasheet, in variable length mode. `Idle s m`: the chip is not selected and holds
-- `m`. `InFrame s block op offset m`: it has received a header of the block and the operation, and the
-- next byte goes to or comes from `offset`, which the chip then counts up in 16 bits.
pub record Slave (b : SpiBus) (cells : Cells) : Type 1 where
  pub Idle : b.State → cells.Mem → Type 0
  pub InFrame : b.State → ℕ → ℕ → ℕ → cells.Mem → Type 0
  pub takes_header :
      (s : b.State) (m : cells.Mem) (high low control : ℕ)
      → Idle s m
      → InFrame
          (b.write_byte control
            (b.write_byte low (b.write_byte high (b.select (b.critical_enter s)))))
          (control / 8)
          (control % 8)
          (high * 256 + low)
          m
  pub takes_byte :
      (s : b.State) (m : cells.Mem) (block offset v : ℕ)
      → InFrame s block 4 offset m
      → InFrame (b.write_byte v s) block 4 ((offset + 1) % 65536) (cells.store block offset v m)
  pub gives_byte :
      (s : b.State) (m : cells.Mem) (block offset : ℕ)
      → InFrame s block 0 offset m
      → ((b.read_byte s).0 ≡ (cells.load block offset m).0)
        × InFrame (b.read_byte s).1 block 0 ((offset + 1) % 65536) (cells.load block offset m).1
  pub ends :
      (s : b.State) (m : cells.Mem) (block op offset : ℕ)
      → InFrame s block op offset m
      → Idle (b.critical_exit (b.deselect s)) m

-- The accesses of the driver as the chip means them.
module _ (cells : Cells) where
  unfoldable pub load_each : ℕ → ℕ → ℕ → cells.Mem → List ℕ × cells.Mem
  load_each block offset zero m = ([], m)
  load_each block offset (suc n) m =
      let (x, m1) = cells.load block offset m in
      let (xs, m2) = load_each block ((offset + 1) % 65536) n m1 in (x ∷ xs, m2)

  pub length-load_each :
      (block offset n : ℕ) (m : cells.Mem) → length (load_each block offset n m).0 ≡ n
  unfolding load_each
  length-load_each block offset zero m = refl
  length-load_each block offset (suc n) m =
      ap suc (length-load_each block ((offset + 1) % 65536) n (cells.load block offset m).1)

  pub load_each-IsByte :
      (block offset n : ℕ) (m : cells.Mem) → All IsByte (load_each block offset n m).0
  unfolding load_each
  load_each-IsByte block offset zero m = tt
  load_each-IsByte block offset (suc n) m = (
    cells.load-IsByte block offset m,
    load_each-IsByte block ((offset + 1) % 65536) n (cells.load block offset m).1,
  )

  unfoldable pub store_each : ℕ → ℕ → List ℕ → cells.Mem → cells.Mem
  store_each block offset [] m = m
  store_each block offset (x ∷ xs) m =
      store_each block ((offset + 1) % 65536) xs (cells.store block offset x m)

-- (offset << 8) + (block << 3), in 24 bits
abbrev pub IsAddress : ℕ → Type 0
IsAddress addr = (addr < 16777216) × (addr % 8 ≡ 0)

abbrev pub block_of : ℕ → ℕ
block_of addr = addr / 8 % 32

abbrev pub offset_of : ℕ → ℕ
offset_of addr = addr / 256 % 65536

-- The cells themselves as the chip of the other modules.
abbrev pub cells_chip : Cells → Chip
cells_chip cells = record {
  State = cells.Mem;
  read = λ addr. cells.load (block_of addr) (offset_of addr);
  write = λ addr. cells.store (block_of addr) (offset_of addr);
  read_buf = λ addr. load_each cells (block_of addr) (offset_of addr);
  write_buf = λ addr. store_each cells (block_of addr) (offset_of addr);
  read-IsByte = λ addr. cells.load-IsByte (block_of addr) (offset_of addr);
  length-read_buf = λ addr. length-load_each cells (block_of addr) (offset_of addr);
  read_buf-IsByte = λ addr. load_each-IsByte cells (block_of addr) (offset_of addr);
}
