-- ===== src/Conf/Phy/Modes.antt =====
-- The modes of the PHY, through PHYCFGR and the reset that follows each change.
use x_wizchip_io_library_dri.Base.{
  ℕ, ◌+◌, ◌*◌, ◌/◌, ◌%◌, ◌-◌, ◌<◌, ◌≤◌, ◌⊎◌, ◌≡◌, refl, ap, ◌∙◌, ◌==◌, if◌then◌else◌, ltb, Bool,
  true, false, not, ◌&&◌, ◌||◌, bit_and, bit_or, arith, Bool-cases, inl, inr, ==_iff,
}
use x_wizchip_io_library_dri.Base.Int.{pos, negsuc}
use x_wizchip_io_library_dri.Base.Bits.{all_below, all_below_sound, agree_below}
use x_wizchip_io_library_dri.Chip.{Chip, IsByte}
use x_wizchip_io_library_dri.W5500.Common.{phycfgr, get_phycfgr, set_phycfgr}
use x_wizchip_io_library_dri.Conf.{WizPhyConf}
use x_wizchip_io_library_dri.Conf.Steady.{SteadyPhy}
use x_wizchip_io_library_dri.Conf.Phy.{
  phyconf_byte, phyconf_of, wizphy_reset, wizphy_setphyconf, wizphy_getphyconf, wizphy_setphypmode,
  wizphy_getphypmode, any_bit,
}

-- Bits 3 to 6.
abbrev modes : ℕ → ℕ
modes v = v / 8 % 16

abbrev same_mode : (ℕ → ℕ) → ℕ → Bool
same_mode f v = f v == f (modes v * 8)

-- What is read of PHYCFGR depends on these bits only.
by_modes :
    (f : ℕ → ℕ) → all_below 256 (same_mode f) ≡ true → (v : ℕ) → v < 256 → f v ≡ f (modes v * 8)
by_modes f e v h = (==_iff _ _).0 (all_below_sound 256 (same_mode f) v e h)

phyconf_of-modes : (v : ℕ) → v < 256 → phyconf_of v ≡ phyconf_of (modes v * 8)
unfolding phyconf_of all_below
phyconf_of-modes v h =
    let by = by_modes (λ v. (phyconf_of v).by) refl v h in
    let mode = by_modes (λ v. (phyconf_of v).mode) refl v h in
    let speed = by_modes (λ v. (phyconf_of v).speed) refl v h in
    let duplex = by_modes (λ v. (phyconf_of v).duplex) refl v h in
    λ i. record { by = by i; mode = mode i; speed = speed i; duplex = duplex i }

-- The reset writes the bits back.
modes_low : (v : ℕ) → v < 256 → modes (bit_and v 0x7F % 256) ≡ modes v
unfolding all_below
modes_low = agree_below 256 (λ v. modes (bit_and v 0x7F % 256)) modes refl

modes_high : (v : ℕ) → v < 256 → modes (bit_or v 0x80 % 256) ≡ modes v
unfolding all_below
modes_high = agree_below 256 (λ v. modes (bit_or v 0x80 % 256)) modes refl

-- A configuration with its values 0 or 1; with negotiation the speed and the duplex are not kept.
abbrev pub flag : ℕ → ℕ
flag v = if v == 1 then 1 else 0

abbrev pub kept_conf : WizPhyConf → WizPhyConf
kept_conf conf = record {
  by = flag conf.by;
  mode = flag conf.mode;
  speed = if conf.mode == 1 then 0 else flag conf.speed;
  duplex = if conf.mode == 1 then 0 else flag conf.duplex;
}

-- The two by their flags: by software, negotiation, 100 Mbit/s, full duplex.
abbrev byte_of_flags : Bool → Bool → Bool → Bool → ℕ
byte_of_flags b m s d =
    bit_or (if b then bit_or 0 0x40 else bit_and 0 (0xFF - 0x40)) (
      if m then 7 * 8 else if d then (if s then 3 * 8 else 1 * 8) else (if s then 2 * 8 else 0 * 8))

abbrev kept_of_flags : Bool → Bool → Bool → Bool → WizPhyConf
kept_of_flags b m s d = record {
  by = if b then 1 else 0;
  mode = if m then 1 else 0;
  speed = if m then 0 else if s then 1 else 0;
  duplex = if m then 0 else if d then 1 else 0;
}

flags_lem :
    (b m s d : Bool) → phyconf_of (modes (byte_of_flags b m s d % 256) * 8) ≡ kept_of_flags b m s d
unfolding phyconf_of
flags_lem true true true true = refl
flags_lem true true true false = refl
flags_lem true true false true = refl
flags_lem true true false false = refl
flags_lem true false true true = refl
flags_lem true false true false = refl
flags_lem true false false true = refl
flags_lem true false false false = refl
flags_lem false true true true = refl
flags_lem false true true false = refl
flags_lem false true false true = refl
flags_lem false true false false = refl
flags_lem false false true true = refl
flags_lem false false true false = refl
flags_lem false false false true = refl
flags_lem false false false false = refl

phyconf_of_byte :
    (conf : WizPhyConf) → phyconf_of (modes (phyconf_byte conf % 256) * 8) ≡ kept_conf conf
unfolding phyconf_byte
phyconf_of_byte conf =
    flags_lem (conf.by == 1) (conf.mode == 1) (conf.speed == 1) (conf.duplex == 1)

module _ (c : Chip) (st : SteadyPhy c) where
  open st use {phy}

  phy-set : (v : ℕ) (s : c.State) → phy (set_phycfgr c v s) ≡ modes (v % 256)
  unfolding set_phycfgr
  phy-set v s = st.phy-write (v % 256) s (omega arith)

  modes-get : (s : c.State) → modes (get_phycfgr c s).0 ≡ phy s
  unfolding get_phycfgr
  modes-get s = st.read_phycfgr s

  phy-get : (s : c.State) → phy (get_phycfgr c s).1 ≡ phy s
  unfolding get_phycfgr
  phy-get s = st.phy-read phycfgr s

  get-IsByte : (s : c.State) → IsByte (get_phycfgr c s).0
  unfolding get_phycfgr
  get-IsByte s = c.read-IsByte phycfgr s

  phy-reset : (s : c.State) → phy (wizphy_reset c s) ≡ phy s
  unfolding wizphy_reset
  phy-reset s =
      let tmp = (get_phycfgr c s).0 in
      let s2 = set_phycfgr c (bit_and tmp 0x7F) (get_phycfgr c s).1 in
      phy-set _ _
      ∙ modes_high (get_phycfgr c s2).0 (get-IsByte s2)
      ∙ modes-get s2
      ∙ phy-set _ _
      ∙ modes_low tmp (get-IsByte s)
      ∙ modes-get s

  -- On a chip that keeps the mode bits of PHYCFGR, wizphy_getphyconf() gives back, through the reset of
  -- the PHY, what wizphy_setphyconf() was given: who configures, the mode, and in manual mode the speed
  -- and the duplex; with negotiation it reports 10 Mbit/s and half duplex.
  pub wizphy_getphyconf-set :
      (conf : WizPhyConf) (s : c.State)
      → (wizphy_getphyconf c (wizphy_setphyconf c conf s)).0 ≡ kept_conf conf
  unfolding wizphy_getphyconf wizphy_setphyconf
  wizphy_getphyconf-set conf s =
      let s1 = set_phycfgr c (phyconf_byte conf) s in
      let s2 = wizphy_reset c s1 in
      let got : modes (get_phycfgr c s2).0 ≡ modes (phyconf_byte conf % 256) =
        modes-get s2 ∙ phy-reset s1 ∙ phy-set (phyconf_byte conf) s in
      phyconf_of-modes (get_phycfgr c s2).0 (get-IsByte s2)
      ∙ ap (λ m. phyconf_of (m * 8)) got
      ∙ phyconf_of_byte conf

  -- The bit OPMD, and the mode bits that the change writes.
  opmd_modes : (v : ℕ) → v < 256 → (bit_and v 0x40 == 0) ≡ ltb (modes v) 8
  unfolding all_below
  opmd_modes v h =
      let flag : Bool → ℕ = λ b. if b then 1 else 0 in
      let e =
        agree_below 256 (λ v. flag (bit_and v 0x40 == 0)) (λ v. flag (ltb (modes v) 8)) refl v h in
      ground arith

  -- With OPMD set, the mode bits that power up and power down write.
  modes_of : ℕ → ℕ → Bool
  modes_of opmdc v =
      bit_and v 0x40 == 0 || modes (bit_or (bit_and v (0xFF - 56)) opmdc % 256) == 8 + opmdc / 8

  reads_back : ℕ → ℕ → Bool
  reads_back opmdc v = not (modes v == 8 + opmdc / 8) || (any_bit v opmdc && bit_and v 56 == opmdc)

  set_modes :
      (opmdc v : ℕ)
      → (opmdc ≡ 48) ⊎ (opmdc ≡ 56)
      → v < 256
      → (bit_and v 0x40 == 0) ≡ false
      → modes (bit_or (bit_and v (0xFF - 56)) opmdc % 256) ≡ 8 + opmdc / 8
  unfolding all_below modes_of
  set_modes opmdc v (inl e) h opmd =
      let k = all_below_sound 256 (modes_of 48) v refl h in rw e (ground arith)
  set_modes opmdc v (inr e) h opmd =
      let k = all_below_sound 256 (modes_of 56) v refl h in rw e (ground arith)

  got_modes :
      (opmdc v : ℕ)
      → (opmdc ≡ 48) ⊎ (opmdc ≡ 56)
      → v < 256
      → modes v ≡ 8 + opmdc / 8
      → (any_bit v opmdc ≡ true) × (bit_and v 56 ≡ opmdc)
  unfolding all_below reads_back
  got_modes opmdc v (inl e) h m =
      let k = all_below_sound 256 (reads_back 48) v refl h in rw e (ground arith)
  got_modes opmdc v (inr e) h m =
      let k = all_below_sound 256 (reads_back 56) v refl h in rw e (ground arith)

  -- On a chip that keeps the mode bits of PHYCFGR: if the PHY is configured by pins, wizphy_setphypmode()
  -- returns -1 and the mode stays; otherwise it returns 0 and wizphy_getphypmode() then reports power
  -- down exactly when that was asked for.
  pub wizphy_getphypmode-set :
      (pmode : ℕ) (s : c.State)
      → (let r = wizphy_setphypmode c pmode s in
          ((phy s < 8) × (r.0 ≡ negsuc 0) × (phy r.1 ≡ phy s))
          ⊎ ((8 ≤ phy s) × (r.0 ≡ pos 0) × ((wizphy_getphypmode c r.1).0 ≡ flag pmode)))
  unfolding wizphy_setphypmode wizphy_getphypmode
  wizphy_getphypmode-set pmode s =
      let tmp = (get_phycfgr c s).0 in
      let s1 = (get_phycfgr c s).1 in
      let small = get-IsByte s in
      let opmdc : ℕ = if pmode == 1 then 48 else 56 in
      let choice : (opmdc ≡ 48) ⊎ (opmdc ≡ 56) = ground arith in
      let by_pins = opmd_modes tmp small in
      let same = modes-get s in
      elim (Bool-cases (bit_and tmp 0x40 == 0)) [
        | inl e ↦ rw e (inl (ground arith, refl, phy-get s))
        | inr e ↦
            let new = bit_or (bit_and tmp (0xFF - 56)) opmdc in
            let s2 = wizphy_reset c (set_phycfgr c new s1) in
            let s3 = (get_phycfgr c s2).1 in
            let held : phy s2 ≡ 8 + opmdc / 8 =
              phy-reset (set_phycfgr c new s1)
              ∙ phy-set new s1
              ∙ set_modes opmdc tmp choice small e in
            let here =
              got_modes opmdc (get_phycfgr c s2).0 choice (get-IsByte s2) (modes-get s2 ∙ held) in
            let there =
              got_modes opmdc (get_phycfgr c s3).0 choice (get-IsByte s3)
                (modes-get s3 ∙ phy-get s2 ∙ held) in
            rw (e, here.0, there.1) (inr (ground arith, refl, ground arith))
      ]
