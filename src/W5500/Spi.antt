-- ===== src/W5500/Spi.antt =====
-- w5500.c: the four routines that carry a register access over the SPI bus.
--
-- The functions that the user registers (WIZCHIP.CRIS, WIZCHIP.CS, WIZCHIP.IF.SPI) are a parameter.
pub mod Device
pub mod Frames
pub mod Refinement
pub mod Transparent
use x_wizchip_io_library_dri.Base.{
  ℕ, zero, suc, ◌*◌, ◌/◌, ◌%◌, ◌≡◌, Option, none, some, List, [], ◌∷◌, ◌++◌, All, length, bit_or,
}
use x_wizchip_io_library_dri.Chip.{IsByte}

pub record SpiBus : Type 1 where
  pub State : Type 0
  pub critical_enter : State → State
  pub critical_exit : State → State
  pub select : State → State
  pub deselect : State → State
  pub write_byte : ℕ → State → State
  pub read_byte : State → ℕ × State
  -- A burst function that is not registered is a null pointer.
  pub write_burst : Option (List ℕ → State → State)
  pub read_burst : Option (ℕ → State → List ℕ × State)

-- spi_data, of the address with its operation
unfoldable pub spi_header : ℕ → List ℕ
spi_header addr = addr / 65536 % 256 ∷ addr / 256 % 256 ∷ addr % 256 ∷ []

abbrev pub w5500_spi_vdm_op : ℕ
w5500_spi_vdm_op = 0x00

abbrev pub w5500_spi_read : ℕ
w5500_spi_read = 0x00 * 4

abbrev pub w5500_spi_write : ℕ
w5500_spi_write = 0x01 * 4

abbrev pub both : {A B : Type 0} → Option A → Option B → Option (A × B)
both none o = none
both (some a) none = none
both (some a) (some b) = some (a, b)

module _ (b : SpiBus) where
  open b use {
    State, critical_enter, critical_exit, select, deselect, write_byte, read_byte, write_burst,
    read_burst,
  }

  -- One call of _write_byte for each byte, and so many calls of _read_byte.
  unfoldable pub write_each : List ℕ → State → State
  write_each [] s = s
  write_each (x ∷ xs) s = write_each xs (write_byte x s)

  unfoldable pub read_each : ℕ → State → List ℕ × State
  read_each zero s = ([], s)
  read_each (suc n) s = let (x, s1) = read_byte s in let (xs, s2) = read_each n s1 in (x ∷ xs, s2)

  abbrev pub begin : State → State
  begin s = select (critical_enter s)

  abbrev pub finish : State → State
  finish s = critical_exit (deselect s)

  unfoldable pub wizchip_read : ℕ → State → ℕ × State
  wizchip_read addr s =
      let header = spi_header (bit_or addr (bit_or w5500_spi_read w5500_spi_vdm_op)) in
      let s1 : State = elim (both read_burst write_burst) [
        | none ↦ write_each header (begin s)
        | some (rb, wb) ↦ wb header (begin s)
      ] in
      let (ret, s2) = read_byte s1 in (ret, finish s2)

  unfoldable pub wizchip_write : ℕ → ℕ → State → State
  wizchip_write addr v s =
      let header = spi_header (bit_or addr (bit_or w5500_spi_write w5500_spi_vdm_op)) in
      finish (elim write_burst [
        | none ↦ write_byte v (write_each header (begin s))
        | some wb ↦ wb (header ++ (v ∷ [])) (begin s)
      ])

  unfoldable pub wizchip_read_buf : ℕ → ℕ → State → List ℕ × State
  wizchip_read_buf addr len s =
      let header = spi_header (bit_or addr (bit_or w5500_spi_read w5500_spi_vdm_op)) in
      let r : List ℕ × State = elim (both read_burst write_burst) [
        | none ↦ read_each len (write_each header (begin s))
        | some (rb, wb) ↦ rb len (wb header (begin s))
      ] in
      (r.0, finish r.1)

  unfoldable pub wizchip_write_buf : ℕ → List ℕ → State → State
  wizchip_write_buf addr bytes s =
      let header = spi_header (bit_or addr (bit_or w5500_spi_write w5500_spi_vdm_op)) in
      finish (elim write_burst [
        | none ↦ write_each bytes (write_each header (begin s))
        | some wb ↦ wb bytes (wb header (begin s))
      ])
