-- ===== src/W5500/Regs.antt =====
-- The registers of w5500.h that the library uses, and the macros that read and write them.
-- An address is (offset << 8) + (block << 3).
use x_wizchip_io_library_dri.Base.{ℕ, ◌+◌, ◌*◌, ◌/◌, ◌%◌, List, bit_and, take}
use x_wizchip_io_library_dri.Chip.{Chip}

-- (offset << 8) + (WIZCHIP_SREG_BLOCK(N) << 3)
unfoldable pub sn_reg : ℕ → ℕ → ℕ
sn_reg offset sn = offset * 256 + (1 + 4 * sn) * 8

abbrev pub wizchip_txbuf_block : ℕ → ℕ
wizchip_txbuf_block sn = 2 + 4 * sn

abbrev pub wizchip_rxbuf_block : ℕ → ℕ
wizchip_rxbuf_block sn = 3 + 4 * sn

-- WIZCHIP_OFFSET_INC(ADDR, N)
abbrev pub wizchip_offset_inc : ℕ → ℕ → ℕ
wizchip_offset_inc a n = a + n * 256

abbrev pub sn_mr : ℕ → ℕ
sn_mr = sn_reg 0x00

abbrev pub sn_cr : ℕ → ℕ
sn_cr = sn_reg 0x01

abbrev pub sn_ir : ℕ → ℕ
sn_ir = sn_reg 0x02

abbrev pub sn_sr : ℕ → ℕ
sn_sr = sn_reg 0x03

abbrev pub sn_port : ℕ → ℕ
sn_port = sn_reg 0x04

abbrev pub sn_dipr : ℕ → ℕ
sn_dipr = sn_reg 0x0c

abbrev pub sn_dport : ℕ → ℕ
sn_dport = sn_reg 0x10

abbrev pub sn_mssr : ℕ → ℕ
sn_mssr = sn_reg 0x12

abbrev pub sn_tos : ℕ → ℕ
sn_tos = sn_reg 0x15

abbrev pub sn_ttl : ℕ → ℕ
sn_ttl = sn_reg 0x16

abbrev pub sn_rxbuf_size : ℕ → ℕ
sn_rxbuf_size = sn_reg 0x1e

abbrev pub sn_txbuf_size : ℕ → ℕ
sn_txbuf_size = sn_reg 0x1f

abbrev pub sn_tx_fsr : ℕ → ℕ
sn_tx_fsr = sn_reg 0x20

abbrev pub sn_tx_wr : ℕ → ℕ
sn_tx_wr = sn_reg 0x24

abbrev pub sn_rx_rsr : ℕ → ℕ
sn_rx_rsr = sn_reg 0x26

abbrev pub sn_rx_rd : ℕ → ℕ
sn_rx_rd = sn_reg 0x28

abbrev pub sn_imr : ℕ → ℕ
sn_imr = sn_reg 0x2c

abbrev pub sn_kpalvtr : ℕ → ℕ
sn_kpalvtr = sn_reg 0x2f

abbrev pub sipr : ℕ
sipr = 0x0f * 256

module _ (c : Chip) where
  open c use {State, read, write, read_buf, write_buf}

  -- A uint16_t register is two bytes, the high one first.
  unfoldable pub read16 : ℕ → State → ℕ × State
  read16 a s =
      let (hi, s1) = read a s in
      let (lo, s2) = read (wizchip_offset_inc a 1) s1 in (hi * 256 + lo, s2)

  unfoldable pub write16 : ℕ → ℕ → State → State
  write16 a v s = write (wizchip_offset_inc a 1) (v % 256) (write a (v / 256 % 256) s)

  unfoldable pub get_sn_mr : ℕ → State → ℕ × State
  get_sn_mr sn = read (sn_mr sn)

  unfoldable pub set_sn_mr : ℕ → ℕ → State → State
  set_sn_mr sn v = write (sn_mr sn) (v % 256)

  unfoldable pub get_sn_cr : ℕ → State → ℕ × State
  get_sn_cr sn = read (sn_cr sn)

  unfoldable pub set_sn_cr : ℕ → ℕ → State → State
  set_sn_cr sn v = write (sn_cr sn) (v % 256)

  unfoldable pub get_sn_ir : ℕ → State → ℕ × State
  get_sn_ir sn s = let (v, s1) = read (sn_ir sn) s in (bit_and v 0x1F, s1)

  unfoldable pub set_sn_ir : ℕ → ℕ → State → State
  set_sn_ir sn v = write (sn_ir sn) (bit_and v 0x1F)

  unfoldable pub get_sn_imr : ℕ → State → ℕ × State
  get_sn_imr sn s = let (v, s1) = read (sn_imr sn) s in (bit_and v 0x1F, s1)

  unfoldable pub set_sn_imr : ℕ → ℕ → State → State
  set_sn_imr sn v = write (sn_imr sn) (bit_and v 0x1F)

  unfoldable pub get_sn_sr : ℕ → State → ℕ × State
  get_sn_sr sn = read (sn_sr sn)

  unfoldable pub set_sn_port : ℕ → ℕ → State → State
  set_sn_port sn = write16 (sn_port sn)

  unfoldable pub get_sn_dipr : ℕ → State → List ℕ × State
  get_sn_dipr sn = read_buf (sn_dipr sn) 4

  unfoldable pub set_sn_dipr : ℕ → List ℕ → State → State
  set_sn_dipr sn addr = write_buf (sn_dipr sn) (take 4 addr)

  unfoldable pub get_sn_dport : ℕ → State → ℕ × State
  get_sn_dport sn = read16 (sn_dport sn)

  unfoldable pub set_sn_dport : ℕ → ℕ → State → State
  set_sn_dport sn = write16 (sn_dport sn)

  unfoldable pub get_sn_mssr : ℕ → State → ℕ × State
  get_sn_mssr sn = read16 (sn_mssr sn)

  unfoldable pub set_sn_mssr : ℕ → ℕ → State → State
  set_sn_mssr sn = write16 (sn_mssr sn)

  unfoldable pub get_sn_tos : ℕ → State → ℕ × State
  get_sn_tos sn = read (sn_tos sn)

  unfoldable pub set_sn_tos : ℕ → ℕ → State → State
  set_sn_tos sn v = write (sn_tos sn) (v % 256)

  unfoldable pub get_sn_ttl : ℕ → State → ℕ × State
  get_sn_ttl sn = read (sn_ttl sn)

  unfoldable pub set_sn_ttl : ℕ → ℕ → State → State
  set_sn_ttl sn v = write (sn_ttl sn) (v % 256)

  unfoldable pub get_sn_kpalvtr : ℕ → State → ℕ × State
  get_sn_kpalvtr sn = read (sn_kpalvtr sn)

  unfoldable pub set_sn_kpalvtr : ℕ → ℕ → State → State
  set_sn_kpalvtr sn v = write (sn_kpalvtr sn) (v % 256)

  unfoldable pub get_sn_tx_wr : ℕ → State → ℕ × State
  get_sn_tx_wr sn = read16 (sn_tx_wr sn)

  unfoldable pub set_sn_tx_wr : ℕ → ℕ → State → State
  set_sn_tx_wr sn = write16 (sn_tx_wr sn)

  unfoldable pub get_sn_rx_rd : ℕ → State → ℕ × State
  get_sn_rx_rd sn = read16 (sn_rx_rd sn)

  unfoldable pub set_sn_rx_rd : ℕ → ℕ → State → State
  set_sn_rx_rd sn = write16 (sn_rx_rd sn)

  -- ((uint16_t)getSn_RXBUF_SIZE(sn)) << 10, an int
  unfoldable pub get_sn_rx_max : ℕ → State → ℕ × State
  get_sn_rx_max sn s = let (v, s1) = read (sn_rxbuf_size sn) s in (v * 1024, s1)

  unfoldable pub get_sn_tx_max : ℕ → State → ℕ × State
  get_sn_tx_max sn s = let (v, s1) = read (sn_txbuf_size sn) s in (v * 1024, s1)

  unfoldable pub get_sipr : State → List ℕ × State
  get_sipr = read_buf sipr 4
