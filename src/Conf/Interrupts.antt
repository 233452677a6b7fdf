-- ===== src/Conf/Interrupts.antt =====
-- wizchip_conf.c: the interrupts of the chip and their mask.
pub mod Masks
use x_wizchip_io_library_dri.Base.{
  ℕ, zero, suc, ◌+◌, ◌-◌, ◌*◌, ◌/◌, ◌%◌, ◌^◌, ◌==◌, if◌then◌else◌, bit_and,
}
use x_wizchip_io_library_dri.Chip.{Chip}
use x_wizchip_io_library_dri.W5500.Regs.{set_sn_ir}
use x_wizchip_io_library_dri.W5500.Common.{
  get_ir, set_ir, get_sir, get_imr, set_imr, get_simr, set_simr,
}

module _ (c : Chip) where
  open c use {State}

  -- The loop over the sockets from `8 - left` on.
  unfoldable pub clear_sockets : ℕ → ℕ → State → State
  clear_sockets zero sir s = s
  clear_sockets (suc left) sir s =
      let ir = 8 - suc left in
      clear_sockets left sir (if bit_and sir (2 ^ ir) == 0 then s else set_sn_ir c ir 0xff s)

  unfoldable pub wizchip_clrinterrupt : ℕ → State → State
  wizchip_clrinterrupt intr s = clear_sockets 8 (intr % 65536 / 256) (set_ir c (intr % 256) s)

  unfoldable pub wizchip_getinterrupt : State → ℕ × State
  wizchip_getinterrupt s =
      let (ir, s1) = get_ir c s in let (sir, s2) = get_sir c s1 in (sir * 256 + ir, s2)

  unfoldable pub wizchip_setinterruptmask : ℕ → State → State
  wizchip_setinterruptmask intr s = set_simr c (intr % 65536 / 256) (set_imr c (intr % 256) s)

  unfoldable pub wizchip_getinterruptmask : State → ℕ × State
  wizchip_getinterruptmask s =
      let (imr, s1) = get_imr c s in let (simr, s2) = get_simr c s1 in (simr * 256 + imr, s2)
