-- ===== src/Conf/Net.antt =====
-- wizchip_conf.c: the addresses of the host, the mode and the timeouts, and the software reset.
pub mod Kept
use x_wizchip_io_library_dri.Base.{
  ℕ, ◌+◌, ◌-◌, ◌*◌, ◌/◌, ◌%◌, ◌==◌, if◌then◌else◌, List, [], ◌∷◌, bit_and, bit_or, take,
}
use x_wizchip_io_library_dri.Base.Int.{ℤ, pos, negsuc}
use x_wizchip_io_library_dri.Chip.{Chip}
use x_wizchip_io_library_dri.W5500.Regs.{get_sipr}
use x_wizchip_io_library_dri.W5500.Common.{
  get_shar, set_shar, get_gar, set_gar, get_subr, set_subr, set_sipr, get_mr, set_mr, get_rcr,
  set_rcr, get_rtr, set_rtr,
}
use x_wizchip_io_library_dri.Conf.{WizNetInfo, WizNetTimeout, Network}

abbrev pub mr_rst : ℕ
mr_rst = 0x80

-- NM_WAKEONLAN | NM_PPPOE | NM_PINGBLOCK | NM_FORCEARP, of (1<<5), (1<<3), (1<<4) and (1<<1)
abbrev pub netmodes : ℕ
netmodes = 0x20 + 0x08 + 0x10 + 0x02

module _ (c : Chip) where
  open c use {State}

  unfoldable pub wizchip_sw_reset : State → State
  wizchip_sw_reset s =
      let (mac, s1) = get_shar c s in
      let (gw, s2) = get_gar c s1 in
      let (sn, s3) = get_subr c s2 in
      let (sip, s4) = get_sipr c s3 in
      let s5 = set_mr c mr_rst s4 in
      let (delay, s6) = get_mr c s5 in
      set_sipr c sip (set_subr c sn (set_gar c gw (set_shar c mac s6)))

  unfoldable pub wizchip_setnetinfo : WizNetInfo → Network State → Network State
  wizchip_setnetinfo info n = record {
    chip = set_sipr c info.ip (set_subr c info.sn (set_gar c info.gw (set_shar c info.mac n.chip)));
    dns = take 4 info.dns;
    dhcp = info.dhcp;
  }

  unfoldable pub wizchip_getnetinfo : Network State → WizNetInfo × Network State
  wizchip_getnetinfo n =
      let (mac, s1) = get_shar c n.chip in
      let (gw, s2) = get_gar c s1 in
      let (sn, s3) = get_subr c s2 in
      let (ip, s4) = get_sipr c s3 in
      (
        record { mac = mac; ip = ip; sn = sn; gw = gw; dns = take 4 n.dns; dhcp = n.dhcp },
        record n { chip = s4 },
      )

  -- netmode_type is an enumeration of at most 32 bits.
  unfoldable pub wizchip_setnetmode : ℕ → State → ℤ × State
  wizchip_setnetmode netmode s =
      let (mr, s1) = get_mr c s in
      if bit_and netmode (0xFFFFFFFF - netmodes) == 0
      then (pos 0, set_mr c (bit_or mr (netmode % 256)) s1)
      else (negsuc 0, s)

  unfoldable pub wizchip_getnetmode : State → ℕ × State
  wizchip_getnetmode = get_mr c

  unfoldable pub wizchip_settimeout : WizNetTimeout → State → State
  wizchip_settimeout nettime s = set_rtr c nettime.time_100us (set_rcr c nettime.retry_cnt s)

  unfoldable pub wizchip_gettimeout : State → WizNetTimeout × State
  wizchip_gettimeout s =
      let (retry, s1) = get_rcr c s in
      let (time, s2) = get_rtr c s1 in (record { retry_cnt = retry; time_100us = time }, s2)
