-- ===== src/Base/Bits.antt =====
-- The bits of a number, and what `bit_and` and `bit_or` do to them.
use Prim.Native.Nat.{
  ℕ, zero, suc, ◌+◌, ◌-◌, ◌*◌, ◌/◌, ◌%◌, ◌^◌, ◌≤◌, ◌<◌, min, max, bit_and, bit_or, digits,
  bit_and-bitwise, bit_or-bitwise,
}
use mathlib.Core.Path.{◌≡◌, refl, ap}
use mathlib.Core.Bool.{Bool, true, ◌&&◌}
use mathlib.Core.Logic.{inl, inr}
use x_wizchip_io_library_dri.Base.Tests.{◌==◌, ==_iff, if◌then◌else◌, Bool-cases}
use native.Mathlib.Omega.{arith}
use native.Mathlib.Nat.{pow-suc, one-le-pow}

-- Bit `k` of `v`.
abbrev pub bit : ℕ → ℕ → ℕ
bit zero v = v % 2
bit (suc k) v = bit k (v / 2)

-- The digit recursion that the native operations stand for does not depend on spare fuel.
digits_fuel :
    (z : ℕ → ℕ) (f : ℕ → ℕ → ℕ) (n m a b : ℕ) → a ≤ n → a ≤ m → digits z f n a b ≡ digits z f m a b
digits_fuel z f zero zero zero b h k = refl
digits_fuel z f zero (suc m) zero b h k = refl
digits_fuel z f (suc n) zero zero b h k = refl
digits_fuel z f (suc n) (suc m) zero b h k = refl
digits_fuel z f zero m (suc a) b h k = absurd (omega arith)
digits_fuel z f (suc n) zero (suc a) b h k = absurd (omega arith)
digits_fuel z f (suc n) (suc m) (suc a) b h k =
    omega (arith, digits_fuel z f n m (suc a / 2) (b / 2) (omega arith) (omega arith))

zero-bit_and : (b : ℕ) → bit_and 0 b ≡ 0
zero-bit_and b = bit_and-bitwise 0 b

zero-bit_or : (b : ℕ) → bit_or 0 b ≡ b
zero-bit_or b = bit_or-bitwise 0 b

-- The lowest bit and the others, apart.
pub bit_and-halves : (a b : ℕ) → bit_and a b ≡ bit_and (a / 2) (b / 2) * 2 + min (a % 2) (b % 2)
bit_and-halves zero b = omega (arith, zero-bit_and b, zero-bit_and (b / 2))
bit_and-halves (suc a) b = omega (
  arith,
  bit_and-bitwise (suc a) b,
  bit_and-bitwise (suc a / 2) (b / 2),
  digits_fuel (λ b. zero) min a (suc a / 2) (suc a / 2) (b / 2) (omega arith) (omega arith),
)

pub bit_or-halves : (a b : ℕ) → bit_or a b ≡ bit_or (a / 2) (b / 2) * 2 + max (a % 2) (b % 2)
bit_or-halves zero b = omega (arith, zero-bit_or b, zero-bit_or (b / 2))
bit_or-halves (suc a) b = omega (
  arith,
  bit_or-bitwise (suc a) b,
  bit_or-bitwise (suc a / 2) (b / 2),
  digits_fuel (λ b. b) max a (suc a / 2) (suc a / 2) (b / 2) (omega arith) (omega arith),
)

pub bit-lt : (k v : ℕ) → bit k v < 2
bit-lt zero v = omega arith
bit-lt (suc k) v = bit-lt k (v / 2)

-- Bit by bit, `&` is the minimum and `|` the maximum.
pub bit-bit_and : (k a b : ℕ) → bit k (bit_and a b) ≡ min (bit k a) (bit k b)
bit-bit_and zero a b = omega (arith, bit_and-halves a b)
bit-bit_and (suc k) a b =
    let low : bit_and a b / 2 ≡ bit_and (a / 2) (b / 2) = omega (arith, bit_and-halves a b) in
    rw low (bit-bit_and k (a / 2) (b / 2))

pub bit-bit_or : (k a b : ℕ) → bit k (bit_or a b) ≡ max (bit k a) (bit k b)
bit-bit_or zero a b = omega (arith, bit_or-halves a b)
bit-bit_or (suc k) a b =
    let low : bit_or a b / 2 ≡ bit_or (a / 2) (b / 2) = omega (arith, bit_or-halves a b) in
    rw low (bit-bit_or k (a / 2) (b / 2))

pub bit_and-zero : (n a : ℕ) → a ≤ n → bit_and a 0 ≡ 0
bit_and-zero n zero h = zero-bit_and 0
bit_and-zero zero (suc a) h = absurd (omega arith)
bit_and-zero (suc n) (suc a) h =
    omega (arith, bit_and-halves (suc a) 0, bit_and-zero n (suc a / 2) (omega arith))

bit_or-zero_below : (n a : ℕ) → a ≤ n → bit_or a 0 ≡ a
bit_or-zero_below n zero h = zero-bit_or 0
bit_or-zero_below zero (suc a) h = absurd (omega arith)
bit_or-zero_below (suc n) (suc a) h =
    omega (arith, bit_or-halves (suc a) 0, bit_or-zero_below n (suc a / 2) (omega arith))

pub bit_or-zero : (a : ℕ) → bit_or a 0 ≡ a
bit_or-zero a = bit_or-zero_below a a (omega arith)

-- The low three bits are free for a flag.
pub bit_or-four : (a : ℕ) → a % 8 ≡ 0 → bit_or a 4 ≡ a + 4
bit_or-four a h = omega (
  arith,
  bit_or-halves a 4,
  bit_or-halves (a / 2) 2,
  bit_or-halves (a / 2 / 2) 1,
  bit_or-zero (a / 2 / 2 / 2),
)

-- A mask of one bit.
pub bit_and-pow : (k v : ℕ) → bit_and v (2 ^ k) ≡ bit k v * 2 ^ k
bit_and-pow zero v = omega (arith, bit_and-halves v 1, bit_and-zero (v / 2) (v / 2) (omega arith))
bit_and-pow (suc k) v =
    let half : 2 ^ suc k / 2 ≡ 2 ^ k = omega (arith, pow-suc 2 k) in
    omega (
      arith,
      bit_and-halves v (2 ^ suc k),
      ap (bit_and (v / 2)) half,
      bit_and-pow k (v / 2),
      pow-suc 2 k,
      ap (λ (t : ℕ). bit k (v / 2) * t) (pow-suc 2 k),
    )

-- `v & ~(1 << k)` and `v | (1 << k)` on a uint16_t.
abbrev pub clear_bit : ℕ → ℕ → ℕ
clear_bit k v = bit_and v (0xFFFF - 2 ^ k)

abbrev pub set_bit : ℕ → ℕ → ℕ
set_bit k v = bit_or v (2 ^ k)

-- A test that holds of every number below a bound, which a small bound lets one compute.
unfoldable pub all_below : ℕ → (ℕ → Bool) → Bool
all_below zero test = true
all_below (suc last) test = all_below last test && test last

pub all_below_sound :
    (bound : ℕ) (test : ℕ → Bool) (v : ℕ) → all_below bound test ≡ true → v < bound → test v ≡ true
unfolding all_below
all_below_sound zero test v holds small = absurd (omega arith)
all_below_sound (suc last) test v holds small = elim (Bool-cases (v == last)) [
  | inl here ↦ (let e : v ≡ last = ground arith in rw e (ground arith))
  | inr below ↦ all_below_sound last test v (ground arith) (ground arith)
]

-- Two functions that agree on every value below a bound.
pub agree_below :
    (n : ℕ) (f g : ℕ → ℕ) → all_below n (λ x. f x == g x) ≡ true → (x : ℕ) → x < n → f x ≡ g x
agree_below n f g e x h = (==_iff _ _).0 (all_below_sound n (λ x. f x == g x) x e h)

abbrev mask_test : ℕ → ℕ → Bool
mask_test k j =
    bit j (2 ^ k) == (if j == k then 1 else 0)
    && bit j (0xFFFF - 2 ^ k) == (if j == k then 0 else 1)

mask_table : all_below 9 (λ k. all_below 9 (mask_test k)) ≡ true
unfolding all_below
mask_table = refl

mask_test_holds : (j k : ℕ) → j < 9 → k < 9 → mask_test k j ≡ true
mask_test_holds j k hj hk =
    all_below_sound 9 (mask_test k) j
      (all_below_sound 9 (λ k. all_below 9 (mask_test k)) k mask_table hk) hj

bit_of_masks :
    (j k : ℕ)
    → j < 9
    → k < 9
    → (bit j (2 ^ k) ≡ (if j == k then 1 else 0))
      × (bit j (0xFFFF - 2 ^ k) ≡ (if j == k then 0 else 1))
bit_of_masks j k hj hk = ground (arith, mask_test_holds j k hj hk)

pub bit-clear_bit :
    (j k v : ℕ) → j < 9 → k < 9 → bit j (clear_bit k v) ≡ (if j == k then 0 else bit j v)
bit-clear_bit j k v hj hk =
    ground (arith, bit-bit_and j v (0xFFFF - 2 ^ k), bit_of_masks j k hj hk, bit-lt j v)

pub bit-set_bit :
    (j k v : ℕ) → j < 9 → k < 9 → bit j (set_bit k v) ≡ (if j == k then 1 else bit j v)
bit-set_bit j k v hj hk = ground (arith, bit-bit_or j v (2 ^ k), bit_of_masks j k hj hk, bit-lt j v)

-- The test `v & (1 << k)` reads bit `k`.
pub test_bit : (k v : ℕ) → (bit_and v (2 ^ k) == 0) ≡ (bit k v == 0)
test_bit k v = ground (arith, bit_and-pow k v, one-le-pow k 2, bit-lt k v)

-- The low four bits of a byte, and its top two.
pub low_nibble : (v : ℕ) → v < 256 → bit_and v 0x0F ≡ v % 16
unfolding all_below
low_nibble = agree_below 256 (λ v. bit_and v 0x0F) (λ v. v % 16) refl

bit-zero : (k : ℕ) → bit k 0 ≡ 0
bit-zero zero = refl
bit-zero (suc k) = bit-zero k

-- (f & 1) << k
pub bit-shifted_flag :
    (j k f : ℕ) → j < 9 → k < 9 → bit j (bit_and f 1 * 2 ^ k) ≡ (if j == k then f % 2 else 0)
bit-shifted_flag j k f hj hk = elim (Bool-cases (f % 2 == 0)) [
  | inl even ↦
      let e : bit_and f 1 * 2 ^ k ≡ 0 = ground (arith, bit_and-pow 0 f) in
      rw e (ground (arith, bit-zero j))
  | inr odd ↦
      let e : bit_and f 1 * 2 ^ k ≡ 2 ^ k = ground (arith, bit_and-pow 0 f) in
      rw e (ground (arith, bit_of_masks j k hj hk))
]
