-- ===== src/Conf/Phy.antt =====
-- wizchip_conf.c: the PHY of the W5500, behind the register PHYCFGR.

pub mod Modes
use x_wizchip_io_library_dri.Base.{
  ℕ, ◌*◌, ◌-◌, ◌==◌, if◌then◌else◌, bit_and, bit_or, ◌||◌, Bool, true, false, not, ◌&&◌,
}
use x_wizchip_io_library_dri.Base.Int.{ℤ, pos, negsuc}
use x_wizchip_io_library_dri.Chip.{Chip}
use x_wizchip_io_library_dri.W5500.Common.{get_phycfgr, set_phycfgr}
use x_wizchip_io_library_dri.Conf.{WizPhyConf}

abbrev pub phy_confby_hw : ℕ
phy_confby_hw = 0

abbrev pub phy_confby_sw : ℕ
phy_confby_sw = 1

abbrev pub phy_mode_manual : ℕ
phy_mode_manual = 0

abbrev pub phy_mode_autonego : ℕ
phy_mode_autonego = 1

abbrev pub phy_speed_10 : ℕ
phy_speed_10 = 0

abbrev pub phy_speed_100 : ℕ
phy_speed_100 = 1

abbrev pub phy_duplex_half : ℕ
phy_duplex_half = 0

abbrev pub phy_duplex_full : ℕ
phy_duplex_full = 1

abbrev pub phy_link_off : ℕ
phy_link_off = 0

abbrev pub phy_link_on : ℕ
phy_link_on = 1

abbrev pub phy_power_norm : ℕ
phy_power_norm = 0

abbrev pub phy_power_down : ℕ
phy_power_down = 1

-- ~(1<<7), of which a uint8_t keeps the low byte
abbrev pub phycfgr_rst : ℕ
phycfgr_rst = 0x7F

abbrev pub phycfgr_opmd : ℕ
phycfgr_opmd = 0x40

abbrev pub phycfgr_opmdc_alla : ℕ
phycfgr_opmdc_alla = 7 * 8

abbrev pub phycfgr_opmdc_pdown : ℕ
phycfgr_opmdc_pdown = 6 * 8

abbrev pub phycfgr_opmdc_100fa : ℕ
phycfgr_opmdc_100fa = 4 * 8

abbrev pub phycfgr_opmdc_100f : ℕ
phycfgr_opmdc_100f = 3 * 8

abbrev pub phycfgr_opmdc_100h : ℕ
phycfgr_opmdc_100h = 2 * 8

abbrev pub phycfgr_opmdc_10f : ℕ
phycfgr_opmdc_10f = 1 * 8

abbrev pub phycfgr_opmdc_10h : ℕ
phycfgr_opmdc_10h = 0 * 8

abbrev pub phycfgr_dpx_full : ℕ
phycfgr_dpx_full = 4

abbrev pub phycfgr_spd_100 : ℕ
phycfgr_spd_100 = 2

abbrev pub phycfgr_lnk_on : ℕ
phycfgr_lnk_on = 1

-- `tmp & mask` as a condition
abbrev pub any_bit : ℕ → ℕ → Bool
any_bit tmp mask = not (bit_and tmp mask == 0)

-- The byte that wizphy_setphyconf() writes.
unfoldable pub phyconf_byte : WizPhyConf → ℕ
phyconf_byte conf =
    let by =
      if conf.by == phy_confby_sw then bit_or 0 phycfgr_opmd else bit_and 0 (0xFF - phycfgr_opmd) in
    bit_or by (
      if conf.mode == phy_mode_autonego
      then phycfgr_opmdc_alla
      else if conf.duplex == phy_duplex_full
      then (if conf.speed == phy_speed_100 then phycfgr_opmdc_100f else phycfgr_opmdc_10f)
      else (if conf.speed == phy_speed_100 then phycfgr_opmdc_100h else phycfgr_opmdc_10h))

-- What wizphy_getphyconf() makes of the byte it reads.
unfoldable pub phyconf_of : ℕ → WizPhyConf
phyconf_of tmp =
    let opmdc = bit_and tmp phycfgr_opmdc_alla in
    record {
      by = if any_bit tmp phycfgr_opmd then phy_confby_sw else phy_confby_hw;
      mode =
          if opmdc == phycfgr_opmdc_alla || opmdc == phycfgr_opmdc_100fa
          then phy_mode_autonego
          else phy_mode_manual;
      speed =
          if opmdc == phycfgr_opmdc_100fa
            || opmdc == phycfgr_opmdc_100f
            || opmdc == phycfgr_opmdc_100h
          then phy_speed_100
          else phy_speed_10;
      duplex =
          if opmdc == phycfgr_opmdc_100fa
            || opmdc == phycfgr_opmdc_100f
            || opmdc == phycfgr_opmdc_10f
          then phy_duplex_full
          else phy_duplex_half;
    }

module _ (c : Chip) where
  open c use {State}

  unfoldable pub wizphy_getphylink : State → ℕ × State
  wizphy_getphylink s =
      let (tmp, s1) = get_phycfgr c s in
      (if any_bit tmp phycfgr_lnk_on then phy_link_on else phy_link_off, s1)

  unfoldable pub wizphy_getphypmode : State → ℕ × State
  wizphy_getphypmode s =
      let (tmp, s1) = get_phycfgr c s in
      (
        if bit_and tmp phycfgr_opmdc_alla == phycfgr_opmdc_pdown
            then phy_power_down
            else phy_power_norm,
        s1,
      )

  unfoldable pub wizphy_reset : State → State
  wizphy_reset s =
      let (tmp, s1) = get_phycfgr c s in
      let s2 = set_phycfgr c (bit_and tmp phycfgr_rst) s1 in
      let (tmp', s3) = get_phycfgr c s2 in set_phycfgr c (bit_or tmp' (0xFF - phycfgr_rst)) s3

  unfoldable pub wizphy_setphyconf : WizPhyConf → State → State
  wizphy_setphyconf conf s = wizphy_reset (set_phycfgr c (phyconf_byte conf) s)

  unfoldable pub wizphy_getphyconf : State → WizPhyConf × State
  wizphy_getphyconf s = let (tmp, s1) = get_phycfgr c s in (phyconf_of tmp, s1)

  -- by and mode keep their values.
  unfoldable pub wizphy_getphystat : WizPhyConf → State → WizPhyConf × State
  wizphy_getphystat conf s =
      let (tmp, s1) = get_phycfgr c s in
      (
        record conf {
          duplex = if any_bit tmp phycfgr_dpx_full then phy_duplex_full else phy_duplex_half;
          speed = if any_bit tmp phycfgr_spd_100 then phy_speed_100 else phy_speed_10;
        },
        s1,
      )

  unfoldable pub wizphy_setphypmode : ℕ → State → ℤ × State
  wizphy_setphypmode pmode s =
      let (tmp, s1) = get_phycfgr c s in
      if bit_and tmp phycfgr_opmd == 0
      then (negsuc 0, s1)
      else let opmdc =
          if pmode == phy_power_down then phycfgr_opmdc_pdown else phycfgr_opmdc_alla in
        let s2 = set_phycfgr c (bit_or (bit_and tmp (0xFF - phycfgr_opmdc_alla)) opmdc) s1 in
        let (tmp', s3) = get_phycfgr c (wizphy_reset s2) in
        (if any_bit tmp' opmdc then pos 0 else negsuc 0, s3)
