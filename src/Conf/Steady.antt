-- ===== src/Conf/Steady.antt =====
-- What the configuration relies on: registers that keep what the host has written.
--
-- The datasheet calls them read/write registers. Only a reset through MR changes them otherwise.
pub mod Ranges
use x_wizchip_io_library_dri.Base.{
  ℕ, zero, suc, ◌+◌, ◌*◌, ◌/◌, ◌%◌, ◌<◌, ◌≡◌, ◌≢◌, refl, ◌==◌, if◌then◌else◌, leb, ◌&&◌, ◌||◌, Bool,
  true, false, not, List, [], ◌∷◌, length, All,
}
use x_wizchip_io_library_dri.Chip.{Chip, IsByte}
use x_wizchip_io_library_dri.W5500.Common.{phycfgr}

-- The addresses and timers of the common block, the interrupt masks, and the buffer sizes of the
-- sockets.
unfoldable pub is_steady : ℕ → Bool
is_steady a =
    let offset = a / 256 in
    if a % 256 == 0
    then leb 0x01 offset && leb offset 0x14
      || offset == 0x16
      || (leb 0x18 offset && leb offset 0x1b)
    else a % 32 == 8 && (offset == 0x1e || offset == 0x1f)

-- The `n` registers from `a` on.
abbrev pub steady_range : ℕ → ℕ → Bool
steady_range a zero = true
steady_range a (suc n) = is_steady a && steady_range (a + 256) n

abbrev pub outside : ℕ → ℕ → ℕ → Bool
outside b a zero = true
outside b a (suc n) = not (b == a) && outside b (a + 256) n

abbrev pub views : {S : Type 0} → (ℕ → S → ℕ) → ℕ → ℕ → S → List ℕ
views view a zero s = []
views view a (suc n) s = view a s ∷ views view (a + 256) n s

-- A write of MR with the bit RST resets the chip.
abbrev pub resets : ℕ → ℕ → Bool
resets a v = a == 0 && leb 0x80 v

pub record Steady (c : Chip) : Type 0 where
  pub view : ℕ → c.State → ℕ
  pub read-view : (a : ℕ) (s : c.State) → is_steady a ≡ true → (c.read a s).0 ≡ view a s
  pub view-read : (b a : ℕ) (s : c.State) → is_steady b ≡ true → view b (c.read a s).1 ≡ view b s
  pub read_buf-views :
      (a n : ℕ) (s : c.State) → steady_range a n ≡ true → (c.read_buf a n s).0 ≡ views view a n s
  pub view-read_buf :
      (b a n : ℕ) (s : c.State) → is_steady b ≡ true → view b (c.read_buf a n s).1 ≡ view b s
  pub view-write_self :
      (a v : ℕ) (s : c.State) → is_steady a ≡ true → IsByte v → view a (c.write a v s) ≡ v
  pub view-write_other :
      (b a v : ℕ) (s : c.State)
      → is_steady b ≡ true
      → (b == a) ≡ false
      → resets a v ≡ false
      → view b (c.write a v s) ≡ view b s
  pub views-write_buf_self :
      (a : ℕ) (xs : List ℕ) (s : c.State)
      → steady_range a (length xs) ≡ true
      → All IsByte xs
      → views view a (length xs) (c.write_buf a xs s) ≡ xs
  pub view-write_buf_other :
      (b a : ℕ) (xs : List ℕ) (s : c.State)
      → is_steady b ≡ true
      → outside b a (length xs) ≡ true
      → leb 256 a ≡ true
      → view b (c.write_buf a xs s) ≡ view b s

-- PHYCFGR shows the link in its low bits; bits 3 to 6 keep what was written.
pub record SteadyPhy (c : Chip) : Type 0 where
  pub phy : c.State → ℕ
  pub read_phycfgr : (s : c.State) → (c.read phycfgr s).0 / 8 % 16 ≡ phy s
  pub phy-read : (a : ℕ) (s : c.State) → phy (c.read a s).1 ≡ phy s
  pub phy-write : (v : ℕ) (s : c.State) → IsByte v → phy (c.write phycfgr v s) ≡ v / 8 % 16
