-- ===== src/Conf/Control.antt =====
-- wizchip_conf.c: ctlwizchip() and ctlnetwork(), which choose the function by a code.
use x_wizchip_io_library_dri.Base.{ℕ, Option, none, some, List, [], ◌∷◌, ◌++◌, take, drop}
use x_wizchip_io_library_dri.Base.Int.{ℤ, pos, negsuc}
use x_wizchip_io_library_dri.Chip.{Chip}
use x_wizchip_io_library_dri.W5500.Common.{get_intlevel, set_intlevel}
use x_wizchip_io_library_dri.Conf.{WizNetInfo, WizNetTimeout, WizPhyConf, Network}
use x_wizchip_io_library_dri.Conf.Net.{
  wizchip_sw_reset, wizchip_setnetinfo, wizchip_getnetinfo, wizchip_setnetmode, wizchip_getnetmode,
  wizchip_settimeout, wizchip_gettimeout,
}
use x_wizchip_io_library_dri.Conf.Phy.{
  wizphy_reset, wizphy_setphyconf, wizphy_getphyconf, wizphy_setphypmode, wizphy_getphypmode,
  wizphy_getphylink,
}
use x_wizchip_io_library_dri.Conf.Interrupts.{
  wizchip_clrinterrupt, wizchip_getinterrupt, wizchip_setinterruptmask, wizchip_getinterruptmask,
}
use x_wizchip_io_library_dri.Conf.Init.{wizchip_init}
use x_wizchip_io_library_dri.Conf.Callbacks.{Wizchip}

-- ctlwizchip_type, each with what its `arg` carries in. The array of CW_INIT_WIZCHIP has 16 entries.
pub data CtlwizchipType : Type 0 where
  cw_reset_wizchip : CtlwizchipType
  cw_init_wizchip : Option (List ℕ) → CtlwizchipType
  cw_get_interrupt : CtlwizchipType
  cw_clr_interrupt : ℕ → CtlwizchipType
  cw_set_intrmask : ℕ → CtlwizchipType
  cw_get_intrmask : CtlwizchipType
  cw_set_intrtime : ℕ → CtlwizchipType
  cw_get_intrtime : CtlwizchipType
  cw_get_id : CtlwizchipType
  cw_reset_phy : CtlwizchipType
  cw_set_phyconf : WizPhyConf → CtlwizchipType
  cw_get_phyconf : CtlwizchipType
  cw_get_phystatus : CtlwizchipType
  cw_set_phypowmode : ℕ → CtlwizchipType
  cw_get_phypowmode : CtlwizchipType
  cw_get_phylink : CtlwizchipType
  -- Any other code.
  cw_other : CtlwizchipType

-- What is written through `arg`.
pub data Written : Type 0 where
  nothing : Written
  value : ℕ → Written
  bytes : List ℕ → Written
  phyconf : WizPhyConf → Written
  netinfo : WizNetInfo → Written
  nettime : WizNetTimeout → Written

pub data CtlnetworkType : Type 0 where
  cn_set_netinfo : WizNetInfo → CtlnetworkType
  cn_get_netinfo : CtlnetworkType
  cn_set_netmode : ℕ → CtlnetworkType
  cn_get_netmode : CtlnetworkType
  cn_set_timeout : WizNetTimeout → CtlnetworkType
  cn_get_timeout : CtlnetworkType
  cn_other : CtlnetworkType

-- The pointers that CW_INIT_WIZCHIP passes on, `arg` and `arg + 8`.
abbrev pub init_tx : Option (List ℕ) → Option (List ℕ)
init_tx none = none
init_tx (some sizes) = some (take 8 sizes)

abbrev pub init_rx : Option (List ℕ) → Option (List ℕ)
init_rx none = none
init_rx (some sizes) = some (take 8 (drop 8 sizes))

module _ (c : Chip) where
  open c use {State}

  abbrev Done : Type 0
  Done = Option (ℤ × Written × (Wizchip × State))

  -- The functions of the chip alone, by how they return.
  abbrev sets : Wizchip → State → Done
  sets w s = some (pos 0, nothing, (w, s))

  abbrev gets : Wizchip → ℕ × State → Done
  gets w (v, s) = some (pos 0, value v, (w, s))

  -- The result of wizphy_getphypmode() and wizphy_getphylink() is 0 or 1, so never -1 as an int8_t.
  unfoldable pub ctlwizchip : CtlwizchipType → Wizchip × State → Done
  ctlwizchip cw_reset_wizchip (w, s) = sets w (wizchip_sw_reset c s)
  ctlwizchip (cw_init_wizchip sizes) (w, s) =
      elim (wizchip_init c (init_tx sizes) (init_rx sizes) (w, s)) [
        | none ↦ none
        | some (ret, after) ↦ some (ret, nothing, after)
      ]
  ctlwizchip cw_get_interrupt (w, s) = gets w (wizchip_getinterrupt c s)
  ctlwizchip (cw_clr_interrupt intr) (w, s) = sets w (wizchip_clrinterrupt c intr s)
  ctlwizchip (cw_set_intrmask intr) (w, s) = sets w (wizchip_setinterruptmask c intr s)
  ctlwizchip cw_get_intrmask (w, s) = gets w (wizchip_getinterruptmask c s)
  ctlwizchip (cw_set_intrtime time) (w, s) = sets w (set_intlevel c time s)
  ctlwizchip cw_get_intrtime (w, s) = gets w (get_intlevel c s)
  ctlwizchip cw_get_id (w, s) = some (pos 0, bytes (take 5 w.id ++ (0 ∷ [])), (w, s))
  ctlwizchip cw_reset_phy (w, s) = sets w (wizphy_reset c s)
  ctlwizchip (cw_set_phyconf conf) (w, s) = sets w (wizphy_setphyconf c conf s)
  ctlwizchip cw_get_phyconf (w, s) =
      let (conf, s1) = wizphy_getphyconf c s in some (pos 0, phyconf conf, (w, s1))
  ctlwizchip cw_get_phystatus (w, s) = sets w s
  ctlwizchip (cw_set_phypowmode pmode) (w, s) =
      let (ret, s1) = wizphy_setphypmode c pmode s in some (ret, nothing, (w, s1))
  ctlwizchip cw_get_phypowmode (w, s) = gets w (wizphy_getphypmode c s)
  ctlwizchip cw_get_phylink (w, s) = gets w (wizphy_getphylink c s)
  ctlwizchip cw_other (w, s) = some (negsuc 0, nothing, (w, s))

  -- A change of the chip alone.
  abbrev within : Network State → State → Network State
  within n s = record n { chip = s }

  unfoldable pub ctlnetwork : CtlnetworkType → Network State → ℤ × Written × Network State
  ctlnetwork (cn_set_netinfo info) n = (pos 0, nothing, wizchip_setnetinfo c info n)
  ctlnetwork cn_get_netinfo n = let (info, n1) = wizchip_getnetinfo c n in (pos 0, netinfo info, n1)
  ctlnetwork (cn_set_netmode mode) n =
      let (ret, s) = wizchip_setnetmode c mode n.chip in (ret, nothing, within n s)
  ctlnetwork cn_get_netmode n =
      let (mode, s) = wizchip_getnetmode c n.chip in (pos 0, value mode, within n s)
  ctlnetwork (cn_set_timeout t) n = (pos 0, nothing, within n (wizchip_settimeout c t n.chip))
  ctlnetwork cn_get_timeout n =
      let (t, s) = wizchip_gettimeout c n.chip in (pos 0, nettime t, within n s)
  ctlnetwork cn_other n = (negsuc 0, nothing, n)
