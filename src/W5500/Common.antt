-- ===== src/W5500/Common.antt =====
-- The common registers of w5500.h (the block 0) that the configuration uses, and their macros.
use x_wizchip_io_library_dri.Base.{ℕ, ◌*◌, ◌%◌, List, bit_and, take}
use x_wizchip_io_library_dri.Chip.{Chip}
use x_wizchip_io_library_dri.W5500.Regs.{read16, write16, sn_rxbuf_size, sn_txbuf_size, sipr}

abbrev pub mr : ℕ
mr = 0x00 * 256

abbrev pub gar : ℕ
gar = 0x01 * 256

abbrev pub subr : ℕ
subr = 0x05 * 256

abbrev pub shar : ℕ
shar = 0x09 * 256

abbrev pub intlevel : ℕ
intlevel = 0x13 * 256

abbrev pub ir : ℕ
ir = 0x15 * 256

abbrev pub imr : ℕ
imr = 0x16 * 256

abbrev pub sir : ℕ
sir = 0x17 * 256

abbrev pub simr : ℕ
simr = 0x18 * 256

abbrev pub rtr : ℕ
rtr = 0x19 * 256

abbrev pub rcr : ℕ
rcr = 0x1b * 256

abbrev pub phycfgr : ℕ
phycfgr = 0x2e * 256

module _ (c : Chip) where
  open c use {State, read, write, read_buf, write_buf}

  unfoldable pub get_mr : State → ℕ × State
  get_mr = read mr

  unfoldable pub set_mr : ℕ → State → State
  set_mr v = write mr (v % 256)

  unfoldable pub get_gar : State → List ℕ × State
  get_gar = read_buf gar 4

  unfoldable pub set_gar : List ℕ → State → State
  set_gar xs = write_buf gar (take 4 xs)

  unfoldable pub get_subr : State → List ℕ × State
  get_subr = read_buf subr 4

  unfoldable pub set_subr : List ℕ → State → State
  set_subr xs = write_buf subr (take 4 xs)

  unfoldable pub get_shar : State → List ℕ × State
  get_shar = read_buf shar 6

  unfoldable pub set_shar : List ℕ → State → State
  set_shar xs = write_buf shar (take 6 xs)

  unfoldable pub set_sipr : List ℕ → State → State
  set_sipr xs = write_buf sipr (take 4 xs)

  unfoldable pub get_intlevel : State → ℕ × State
  get_intlevel = read16 c intlevel

  unfoldable pub set_intlevel : ℕ → State → State
  set_intlevel = write16 c intlevel

  unfoldable pub get_ir : State → ℕ × State
  get_ir s = let (v, s1) = read ir s in (bit_and v 0xF0, s1)

  unfoldable pub set_ir : ℕ → State → State
  set_ir v = write ir (bit_and v 0xF0)

  unfoldable pub get_imr : State → ℕ × State
  get_imr = read imr

  unfoldable pub set_imr : ℕ → State → State
  set_imr v = write imr (v % 256)

  unfoldable pub get_sir : State → ℕ × State
  get_sir = read sir

  unfoldable pub get_simr : State → ℕ × State
  get_simr = read simr

  unfoldable pub set_simr : ℕ → State → State
  set_simr v = write simr (v % 256)

  unfoldable pub get_rtr : State → ℕ × State
  get_rtr = read16 c rtr

  unfoldable pub set_rtr : ℕ → State → State
  set_rtr = write16 c rtr

  unfoldable pub get_rcr : State → ℕ × State
  get_rcr = read rcr

  unfoldable pub set_rcr : ℕ → State → State
  set_rcr v = write rcr (v % 256)

  unfoldable pub get_phycfgr : State → ℕ × State
  get_phycfgr = read phycfgr

  unfoldable pub set_phycfgr : ℕ → State → State
  set_phycfgr v = write phycfgr (v % 256)

  unfoldable pub set_sn_rxbuf_size : ℕ → ℕ → State → State
  set_sn_rxbuf_size sn v = write (sn_rxbuf_size sn) (v % 256)

  unfoldable pub set_sn_txbuf_size : ℕ → ℕ → State → State
  set_sn_txbuf_size sn v = write (sn_txbuf_size sn) (v % 256)
