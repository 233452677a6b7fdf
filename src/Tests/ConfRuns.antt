-- ===== src/Tests/ConfRuns.antt =====
-- A chip of plain memory, and the configuration on it.
use x_wizchip_io_library_dri.Base.{
  ℕ, zero, suc, ◌+◌, ◌/◌, ◌%◌, ◌<◌, ◌≤◌, ◌≡◌, ◌⊎◌, refl, ap, ◌∙◌, arith, true, List, [], ◌∷◌,
  length, All, some,
}
use x_wizchip_io_library_dri.Base.Int.{pos, negsuc}
use x_wizchip_io_library_dri.Chip.{Chip, IsByte}
use x_wizchip_io_library_dri.Tests.{
  Memory, store, read_bytes, write_bytes, length-read_bytes, read_bytes-IsByte,
}
use x_wizchip_io_library_dri.W5500.Common.{phycfgr}
use x_wizchip_io_library_dri.Conf.{WizNetInfo, WizNetTimeout, WizPhyConf, Network}
use x_wizchip_io_library_dri.Conf.Steady.{Steady, SteadyPhy, outside, views}
use x_wizchip_io_library_dri.Conf.Callbacks.{wizchip_initial}
use x_wizchip_io_library_dri.Conf.Net.{
  wizchip_sw_reset, wizchip_setnetinfo, wizchip_getnetinfo, wizchip_settimeout, wizchip_gettimeout,
}
use x_wizchip_io_library_dri.Conf.Net.Kept.{host, wizchip_sw_reset-keeps, wizchip_getnetinfo-set}
use x_wizchip_io_library_dri.Conf.Interrupts.{wizchip_setinterruptmask, wizchip_getinterruptmask}
use x_wizchip_io_library_dri.Conf.Interrupts.Masks.{
  wizchip_getinterruptmask-set, wizchip_gettimeout-set,
}
use x_wizchip_io_library_dri.Conf.Phy.{
  wizphy_setphyconf, wizphy_getphyconf, wizphy_setphypmode, wizphy_getphypmode,
}
use x_wizchip_io_library_dri.Conf.Phy.Modes.{wizphy_getphyconf-set, wizphy_getphypmode-set}
use x_wizchip_io_library_dri.Conf.Init.{wizchip_init}
use x_wizchip_io_library_dri.Conf.Init.Sizes.{Inits, Shared, wizchip_init-Shared}

pub read_byte-IsByte : (a : ℕ) (s : Memory) → IsByte (s a % 256)
read_byte-IsByte a s = omega arith

abbrev pub plain : Chip
plain = record {
  State = Memory;
  read = λ a s. (s a % 256, s);
  write = store;
  read_buf = λ a n s. (read_bytes a n s, s);
  write_buf = write_bytes;
  read-IsByte = read_byte-IsByte;
  length-read_buf = length-read_bytes;
  read_buf-IsByte = read_bytes-IsByte;
}

abbrev seen : ℕ → Memory → ℕ
seen a s = s a % 256

read_bytes-views : (a n : ℕ) (s : Memory) → read_bytes a n s ≡ views seen a n s
read_bytes-views a zero s = refl
read_bytes-views a (suc n) s = ap (λ xs. s a % 256 ∷ xs) (read_bytes-views (a + 256) n s)

write_bytes-outside :
    (b a : ℕ) (xs : List ℕ) (s : Memory)
    → outside b a (length xs) ≡ true
    → write_bytes a xs s b ≡ s b
write_bytes-outside b a [] s e = refl
write_bytes-outside b a (x ∷ xs) s e =
    write_bytes-outside b (a + 256) xs (store a x s) (ground arith) ∙ ground arith

outside_below : (b a n : ℕ) → b < a → outside b a n ≡ true
outside_below b a zero h = refl
outside_below b a (suc n) h = ground (arith, outside_below b (a + 256) n (omega arith))

views-write_bytes :
    (a : ℕ) (xs : List ℕ) (s : Memory)
    → All IsByte xs
    → views seen a (length xs) (write_bytes a xs s) ≡ xs
views-write_bytes a [] s h = refl
views-write_bytes a (x ∷ xs) s (h, hs) =
    let kept =
      write_bytes-outside a (a + 256) xs (store a x s)
        (outside_below a (a + 256) (length xs) (omega arith)) in
    let first : write_bytes (a + 256) xs (store a x s) a % 256 ≡ x = ground (arith, kept) in
    rw (first, views-write_bytes (a + 256) xs (store a x s) hs) refl

pub plain-Steady : Steady plain
plain-Steady = record {
  view = seen;
  read-view = λ a s e. refl;
  view-read = λ b a s e. refl;
  read_buf-views = λ a n s e. read_bytes-views a n s;
  view-read_buf = λ b a n s e. refl;
  view-write_self = λ a v s e h. ground arith;
  view-write_other = λ b a v s e d r. ground arith;
  views-write_buf_self = λ a xs s e h. views-write_bytes a xs s h;
  view-write_buf_other = λ b a xs s e d h. ap (λ v. v % 256) (write_bytes-outside b a xs s d);
}

abbrev plain-SteadyPhy : SteadyPhy plain
plain-SteadyPhy = record {
  phy = λ s. s phycfgr % 256 / 8 % 16;
  read_phycfgr = λ s. refl;
  phy-read = λ a s. refl;
  phy-write = λ v s h. plain_write v h;
}
  where
    plain_write : (v : ℕ) → IsByte v → v % 256 / 8 % 16 ≡ v / 8 % 16
    plain_write v h = omega arith

abbrev pub blank : Memory
blank a = 0

abbrev home : WizNetInfo
home = record {
  mac = 0 ∷ 8 ∷ 220 ∷ 1 ∷ 2 ∷ 3 ∷ [];
  ip = 192 ∷ 168 ∷ 1 ∷ 20 ∷ [];
  sn = 255 ∷ 255 ∷ 255 ∷ 0 ∷ [];
  gw = 192 ∷ 168 ∷ 1 ∷ 1 ∷ [];
  dns = 8 ∷ 8 ∷ 8 ∷ 8 ∷ [];
  dhcp = 1;
}

abbrev blank_network : Network Memory
blank_network = record { chip = blank; dns = []; dhcp = 2 }

wizchip_sw_reset-keeps_example :
    host plain plain-Steady (wizchip_sw_reset plain blank) ≡ host plain plain-Steady blank
wizchip_sw_reset-keeps_example = wizchip_sw_reset-keeps plain plain-Steady blank

wizchip_getnetinfo-set_example :
    (wizchip_getnetinfo plain (wizchip_setnetinfo plain home blank_network)).0 ≡ home
wizchip_getnetinfo-set_example =
    wizchip_getnetinfo-set plain plain-Steady home blank_network
      ((refl, ground arith), (refl, ground arith), (refl, ground arith), (refl, ground arith)) refl

wizchip_getinterruptmask-set_example :
    (wizchip_getinterruptmask plain (wizchip_setinterruptmask plain 0x81C0 blank)).0 ≡ 0x81C0
wizchip_getinterruptmask-set_example =
    wizchip_getinterruptmask-set plain plain-Steady 0x81C0 blank (omega arith)

abbrev patience : WizNetTimeout
patience = record { retry_cnt = 8; time_100us = 2000 }

wizchip_gettimeout-set_example :
    (wizchip_gettimeout plain (wizchip_settimeout plain patience blank)).0 ≡ patience
wizchip_gettimeout-set_example =
    wizchip_gettimeout-set plain plain-Steady patience blank (omega arith) (omega arith)

abbrev half_duplex : WizPhyConf
half_duplex = record { by = 1; mode = 0; speed = 1; duplex = 0 }

wizphy_getphyconf-set_example :
    (wizphy_getphyconf plain (wizphy_setphyconf plain half_duplex blank)).0 ≡ half_duplex
wizphy_getphyconf-set_example = wizphy_getphyconf-set plain plain-SteadyPhy half_duplex blank

-- Configured by software, with negotiation.
abbrev negotiating : Memory
negotiating = store phycfgr 0x78 blank

wizphy_getphypmode-set_example :
    (let r = wizphy_setphypmode plain 1 negotiating in
      ((15 < 8) × (r.0 ≡ negsuc 0) × (plain-SteadyPhy.phy r.1 ≡ 15))
      ⊎ ((8 ≤ 15) × (r.0 ≡ pos 0) × ((wizphy_getphypmode plain r.1).0 ≡ 1)))
wizphy_getphypmode-set_example = wizphy_getphypmode-set plain plain-SteadyPhy 1 negotiating

abbrev two_each : List ℕ
two_each = 2 ∷ 2 ∷ 2 ∷ 2 ∷ 2 ∷ 2 ∷ 2 ∷ 2 ∷ []

abbrev uneven : List ℕ
uneven = 9 ∷ 8 ∷ 0 ∷ 0 ∷ 0 ∷ 0 ∷ 0 ∷ 0 ∷ []

wizchip_init-Shared_example :
    Inits plain plain-Steady
      (Shared plain plain-Steady two_each uneven (wizchip_sw_reset plain blank))
      (wizchip_init plain (some two_each) (some uneven) (wizchip_initial, blank))
wizchip_init-Shared_example =
    wizchip_init-Shared plain plain-Steady two_each uneven wizchip_initial blank refl
      (refl, ground arith) (refl, ground arith)
