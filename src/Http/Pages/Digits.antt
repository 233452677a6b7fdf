-- ===== src/Http/Pages/Digits.antt =====
-- The decimal digits that sprintf() writes for a length.
use x_wizchip_io_library_dri.Base.{
  ℕ, zero, suc, ◌+◌, ◌*◌, ◌/◌, ◌%◌, ◌<◌, ◌≤◌, ltb, ◌≡◌, inl, inr, refl, sym, ◌∙◌, ap, true, false,
  List, [], ◌∷◌, ◌++◌, length, length-append, All, All-append, arith, Bool-cases,
}
use x_wizchip_io_library_dri.Http.Pages.{decimal}
use x_wizchip_io_library_dri.Http.Numbers.Values.{text_of, value, IsDigit}

-- 10 ^ n
abbrev pub power : ℕ → ℕ
power zero = 1
power (suc n) = 10 * power n

value-append : (ds : List ℕ) (acc d : ℕ) → value acc (ds ++ d ∷ []) ≡ value acc ds * 10 + d
value-append [] acc d = refl
value-append (x ∷ ds) acc d = value-append ds (acc * 10 + x) d

text_of-append : (ds : List ℕ) (d : ℕ) → text_of (ds ++ d ∷ []) ≡ text_of ds ++ (48 + d) ∷ []
text_of-append [] d = refl
text_of-append (x ∷ ds) d = ap (λ r. (48 + x) ∷ r) (text_of-append ds d)

pub decimal-small : (n v : ℕ) → ltb v 10 ≡ true → decimal (suc n) v ≡ (48 + v) ∷ []
unfolding decimal
decimal-small n v e = rw (e, decimal) refl

decimal-large :
    (n v : ℕ) → ltb v 10 ≡ false → decimal (suc n) v ≡ decimal n (v / 10) ++ (48 + v % 10) ∷ []
unfolding decimal
decimal-large n v e = rw (e, decimal) refl

pub length-large :
    (n v : ℕ) → ltb v 10 ≡ false → length (decimal (suc n) v) ≡ length (decimal n (v / 10)) + 1
length-large n v e =
    ap length (decimal-large n v e) ∙ length-append (decimal n (v / 10)) ((48 + v % 10) ∷ [])

-- The text shows digits of value `v`.
abbrev pub Shows : List ℕ → ℕ → Type 0
Shows text v = (ds : List ℕ) × (All IsDigit ds × (text ≡ text_of ds) × (value 0 ds ≡ v))

pub decimal-Shows : (n v : ℕ) → v < power n → Shows (decimal n v) v
unfolding decimal
decimal-Shows zero v h = ([], (tt, refl, omega arith))
decimal-Shows (suc n) v h = elim (Bool-cases (ltb v 10)) [
  | inl e ↦ rw (decimal-small n v e) (v ∷ [], ((ground arith, tt), refl, omega arith))
  | inr e ↦
      let (ds, (digits, shown, is_v)) = decimal-Shows n (v / 10) (omega arith) in
      let last : v % 10 < 10 = omega arith in
      rw (decimal-large n v e) (
        ds ++ (v % 10) ∷ [],
        (
          All-append IsDigit ds ((v % 10) ∷ []) digits (last, tt),
          ap (λ r. r ++ (48 + v % 10) ∷ []) shown ∙ sym (text_of-append ds (v % 10)),
          value-append ds 0 (v % 10) ∙ omega (arith, is_v),
        ),
      )
]

pos-power : (n : ℕ) → 0 < power n
pos-power zero = omega arith
pos-power (suc n) = let h = pos-power n in omega arith

-- A number below 10 ^ (k + 1) has at most k + 1 digits.
pub length-decimal_below : (n k v : ℕ) → v < power (suc k) → length (decimal n v) ≤ suc k
unfolding decimal
length-decimal_below zero k v h = omega arith
length-decimal_below (suc n) zero v h =
    let e : ltb v 10 ≡ true = ground arith in rw (decimal-small n v e) (omega arith)
length-decimal_below (suc n) (suc k) v h =
    let rest = length-decimal_below n k (v / 10) (omega arith) in
    elim (Bool-cases (ltb v 10)) [
      | inl e ↦ rw (decimal-small n v e) (omega arith)
      | inr e ↦ rw (length-large n v e) (omega (arith, rest))
    ]

-- A number from 10 ^ k on has more than k digits.
pub length-decimal_above : (n k v : ℕ) → v < power n → power k ≤ v → k < length (decimal n v)
unfolding decimal
length-decimal_above zero k v h h' = let p = pos-power k in omega arith
length-decimal_above (suc n) zero v h h' = elim (Bool-cases (ltb v 10)) [
  | inl e ↦ rw (decimal-small n v e) (omega arith)
  | inr e ↦ rw (length-large n v e) (omega arith)
]
length-decimal_above (suc n) (suc k) v h h' =
    let p = pos-power k in
    let e : ltb v 10 ≡ false = ground arith in
    let rest = length-decimal_above n k (v / 10) (omega arith) (omega arith) in
    rw (length-large n v e) (omega (arith, rest))
