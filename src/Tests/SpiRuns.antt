-- ===== src/Tests/SpiRuns.antt =====
-- The bus of a chip with memory cells, and accesses over it.
use x_wizchip_io_library_dri.Base.{
  ℕ, ◌+◌, ◌*◌, ◌/◌, ◌%◌, ◌≡◌, ◌==◌, ◌&&◌, if◌then◌else◌, refl, ap, sym, ◌∙◌, arith, none, some,
  List, [], ◌∷◌,
}
use x_wizchip_io_library_dri.Chip.{IsByte}
use x_wizchip_io_library_dri.W5500.Buffers.{wiz_send_data, wiz_recv_data}
use x_wizchip_io_library_dri.W5500.Spi.Frames.{spi_chip}
use x_wizchip_io_library_dri.W5500.Spi.Transparent.{sent_to, received_from, wiz_data-Refines}
use x_wizchip_io_library_dri.W5500.Spi.{
  SpiBus, write_each, wizchip_read, wizchip_write, wizchip_read_buf, wizchip_write_buf,
}
use x_wizchip_io_library_dri.W5500.Spi.Device.{Bursts, Cells, Slave, load_each, store_each}
use x_wizchip_io_library_dri.W5500.Spi.Refinement.{spi-Refines}

abbrev Store : Type 0
Store = ℕ → ℕ → ℕ

abbrev cells : Cells
cells = record {
  Mem = Store;
  load = λ block offset m. (m block offset % 256, m);
  store = λ block offset v m b o. if b == block && o == offset then v else m b o;
  load-IsByte = λ block offset m. omega arith;
}

-- Selected, the chip takes the three bytes of a header, then data.
data Wire : Type 0 where
  idle : Store → Wire
  header : List ℕ → Store → Wire
  in_frame : ℕ → ℕ → ℕ → Store → Wire

abbrev wire_select : Wire → Wire
wire_select (idle m) = header [] m
wire_select (header xs m) = header xs m
wire_select (in_frame block op offset m) = in_frame block op offset m

abbrev wire_deselect : Wire → Wire
wire_deselect (idle m) = idle m
wire_deselect (header xs m) = idle m
wire_deselect (in_frame block op offset m) = idle m

abbrev wire_write : ℕ → Wire → Wire
wire_write v (idle m) = idle m
wire_write v (header [] m) = header (v ∷ []) m
wire_write v (header (x ∷ []) m) = header (x ∷ v ∷ []) m
wire_write v (header (x ∷ y ∷ zs) m) = in_frame (v / 8) (v % 8) (x * 256 + y) m
wire_write v (in_frame block op offset m) =
    in_frame block op ((offset + 1) % 65536) (if op == 4 then cells.store block offset v m else m)

abbrev wire_read : Wire → ℕ × Wire
wire_read (idle m) = (0, idle m)
wire_read (header xs m) = (0, header xs m)
wire_read (in_frame block op offset m) =
    (m block offset % 256, in_frame block op ((offset + 1) % 65536) m)

abbrev wire_burst : List ℕ → Wire → Wire
wire_burst [] s = s
wire_burst (x ∷ xs) s = wire_burst xs (wire_write x s)

-- A bus with a burst function for writing only, as WIZCHIP_WRITE allows.
abbrev wire : SpiBus
wire = record {
  State = Wire;
  critical_enter = λ s. s;
  critical_exit = λ s. s;
  select = wire_select;
  deselect = wire_deselect;
  write_byte = wire_write;
  read_byte = wire_read;
  write_burst = some wire_burst;
  read_burst = none;
}

wire_burst_bytes : (xs : List ℕ) (s : Wire) → wire_burst xs s ≡ write_each wire xs s
unfolding write_each
wire_burst_bytes [] s = refl
wire_burst_bytes (x ∷ xs) s = wire_burst_bytes xs (wire_write x s)

wire-Bursts : Bursts wire
wire-Bursts = record {
  write_burst-write_each =
      λ wb e xs s. ap (λ o. elim o [ none ↦ s | some w ↦ w xs s ]) (sym e) ∙ wire_burst_bytes xs s;
  read_burst-read_each = λ rb e n s. absurd (ground arith);
}

abbrev wire-Slave : Slave wire cells
wire-Slave = record {
  Idle = λ s m. s ≡ idle m;
  InFrame = λ s block op offset m. s ≡ in_frame block op offset m;
  takes_header = λ s m high low control e. rw e refl;
  takes_byte = λ s m block offset v e. rw e refl;
  gives_byte = λ s m block offset e. rw e (refl, refl);
  ends = λ s m block op offset e. rw e refl;
}

abbrev zeros : Store
zeros block offset = 0

-- Sn_DPORT of socket 1: 0x1010 in block 5
abbrev dport : ℕ
dport = 0x10 * 256 + 5 * 8

spi-Refines_example :
    (((wizchip_read wire dport (idle zeros)).0 ≡ 0)
      × ((wizchip_read wire dport (idle zeros)).1 ≡ idle zeros))
    × (((wizchip_read_buf wire dport 2 (idle zeros)).0 ≡ (load_each cells 5 16 2 zeros).0)
        × ((wizchip_read_buf wire dport 2 (idle zeros)).1 ≡ idle (load_each cells 5 16 2 zeros).1))
    × (wizchip_write wire dport 7 (idle zeros) ≡ idle (cells.store 5 16 7 zeros))
    × (wizchip_write_buf wire dport (19 ∷ 136 ∷ []) (idle zeros)
        ≡ idle (store_each cells 5 16 (19 ∷ 136 ∷ []) zeros))
spi-Refines_example =
    spi-Refines wire cells wire-Slave wire-Bursts dport 2 7 (19 ∷ 136 ∷ []) (idle zeros) zeros
      (omega arith, refl) refl

wire_read-IsByte : (s : Wire) → IsByte (wire_read s).0
wire_read-IsByte (idle m) = omega arith
wire_read-IsByte (header xs m) = omega arith
wire_read-IsByte (in_frame block op offset m) = omega arith

wiz_data-Refines_example :
    (let c = spi_chip wire wire-Bursts wire_read-IsByte in
      (wiz_send_data c 1 (19 ∷ 136 ∷ []) 2 (idle zeros)
        ≡ idle (sent_to cells 1 (19 ∷ 136 ∷ []) zeros))
      × ((wiz_recv_data c 1 2 (idle zeros)).0 ≡ (received_from cells 1 2 zeros).0)
      × ((wiz_recv_data c 1 2 (idle zeros)).1 ≡ idle (received_from cells 1 2 zeros).1))
wiz_data-Refines_example =
    wiz_data-Refines wire cells wire-Slave wire-Bursts wire_read-IsByte 1 (19 ∷ 136 ∷ []) 2
      (idle zeros) zeros (omega arith) (omega arith) (omega arith) refl
