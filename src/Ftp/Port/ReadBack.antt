-- ===== src/Ftp/Port/ReadBack.antt =====
-- What pport() reads of an address that is written with decimal numbers.
use x_wizchip_io_library_dri.Base.{
  ℕ, suc, ◌+◌, ◌-◌, ◌*◌, ◌/◌, ◌%◌, ◌<◌, ◌==◌, ltb, leb, ◌≡◌, refl, ap, Bool-cases, inl, inr, true,
  false, some, List, [], ◌∷◌, ◌++◌, length, All, arith,
}
use x_wizchip_io_library_dri.Http.Text.{one_of}
use x_wizchip_io_library_dri.Http.Text.Tokens.{IsFree, strtok-append}
use x_wizchip_io_library_dri.Http.Numbers.Values.{text_of, value, IsDigit}
use x_wizchip_io_library_dri.Http.Pages.{decimal}
use x_wizchip_io_library_dri.Http.Pages.Digits.{Shows, decimal-Shows, decimal-small, length-large}
use x_wizchip_io_library_dri.Ftp.Port.{
  digits_from, skip_white, c_atoi, number, numbers, pport, address_text,
}

digits_from_lem :
    (ds : List ℕ) (acc : ℕ) → All IsDigit ds → digits_from (text_of ds) acc ≡ value acc ds
unfolding digits_from
digits_from_lem [] acc h = refl
digits_from_lem (d ∷ ds) acc (h, hs) =
    let low : leb 48 (48 + d) ≡ true = ground arith in
    let high : leb (48 + d) 57 ≡ true = ground arith in
    let same : 48 + d - 48 ≡ d = omega arith in
    rw (low, high, same, digits_from) (digits_from_lem ds (acc * 10 + d) hs)

c_atoi_lem :
    (d : ℕ) (ds : List ℕ)
    → All IsDigit (d ∷ ds)
    → value 0 (d ∷ ds) < 65536
    → c_atoi (text_of (d ∷ ds)) ≡ some (value 0 (d ∷ ds))
unfolding c_atoi skip_white
c_atoi_lem d ds h small =
    let no_space : (48 + d == 32) ≡ false = (let k = h.0 in ground arith) in
    let no_white : leb (48 + d) 13 ≡ false = ground arith in
    let no_minus : (48 + d == 45) ≡ false = ground arith in
    let no_plus : (48 + d == 43) ≡ false = ground arith in
    let in_int : ltb (value 0 (d ∷ ds)) 2147483648 ≡ true = ground arith in
    let same : value 0 (d ∷ ds) % 65536 ≡ value 0 (d ∷ ds) = omega arith in
    let some_white : leb 9 (48 + d) ≡ true = ground arith in
    let nothing_skipped : skip_white (text_of (d ∷ ds)) ≡ text_of (d ∷ ds) =
      rw (no_space, some_white, no_white, skip_white) refl in
    let digits = digits_from_lem (d ∷ ds) 0 h in
    rw (nothing_skipped, no_minus, no_plus, digits, in_int, same, c_atoi) refl

decimal_filled : (n v : ℕ) → 0 < length (decimal (suc n) v)
decimal_filled n v = elim (Bool-cases (ltb v 10)) [
  | inl e ↦ rw (decimal-small n v e) (omega arith)
  | inr e ↦ rw (length-large n v e) (omega arith)
]

module _ (delims : List ℕ) (no_digits : (d : ℕ) → d < 10 → one_of delims (48 + d) ≡ false) where
  text_of-IsFree : (ds : List ℕ) → All IsDigit ds → All (IsFree delims) (text_of ds)
  text_of-IsFree [] h = tt
  text_of-IsFree (d ∷ ds) (h, hs) = (no_digits d h, text_of-IsFree ds hs)

  number-Shows :
      (text rest : List ℕ) (v c : ℕ)
      → 0 < length text
      → Shows text v
      → v < 65536
      → one_of delims c ≡ true
      → number delims (text ++ c ∷ rest) ≡ some (v, rest)
  unfolding number
  number-Shows text rest v c filled ([], (digits, shown, is_v)) small e =
      let no : ⊥ = (let none_left = ap length shown in omega (arith, none_left)) in elim no [ ]
  number-Shows text rest v c filled (d ∷ ds, (digits, shown, is_v)) small e =
      let cut =
        strtok-append delims (48 + d) (text_of ds) c rest (text_of-IsFree (d ∷ ds) digits) e in
      let is_number = c_atoi_lem d ds digits (omega (arith, is_v)) in
      rw shown (rw (cut, is_number, is_v, number) refl)

  -- A number below 1000, as sprintf() writes it.
  number-decimal :
      (v c : ℕ) (rest : List ℕ)
      → v < 1000
      → one_of delims c ≡ true
      → number delims (decimal 3 v ++ c ∷ rest) ≡ some (v, rest)
  number-decimal v c rest small e =
      number-Shows (decimal 3 v) rest v c (decimal_filled 2 v) (decimal-Shows 3 v small)
        (omega arith) e

abbrev ends : List ℕ
ends = 44 ∷ 13 ∷ 10 ∷ []

no_comma : (d : ℕ) → d < 10 → one_of (44 ∷ []) (48 + d) ≡ false
no_comma d h = ground arith

no_line_end : (d : ℕ) → d < 10 → one_of (44 ∷ 13 ∷ 10 ∷ []) (48 + d) ≡ false
no_line_end d h = ground arith

-- pport() reads the address and the port that PASV writes for them, with a line end behind.
pub pport-address_text :
    (a b c d port : ℕ)
    → a < 256
    → b < 256
    → c < 256
    → d < 256
    → port < 65536
    → pport (address_text (a ∷ b ∷ c ∷ d ∷ []) port (13 ∷ 10 ∷ []))
      ≡ some (a ∷ b ∷ c ∷ d ∷ [], port)
unfolding pport address_text numbers
pport-address_text a b c d port ha hb hc hd hp =
    let high = port / 256 in
    let low = port % 256 in
    let t6 = decimal 3 low ++ (13 ∷ 10 ∷ []) in
    let t5 = decimal 3 high ++ (44 ∷ t6) in
    let t4 = decimal 3 d ++ (44 ∷ t5) in
    let t3 = decimal 3 c ++ (44 ∷ t4) in
    let t2 = decimal 3 b ++ (44 ∷ t3) in
    let n1 = number-decimal ends no_line_end a 44 t2 (omega arith) refl in
    let n2 = number-decimal (44 ∷ []) no_comma b 44 t3 (omega arith) refl in
    let n3 = number-decimal (44 ∷ []) no_comma c 44 t4 (omega arith) refl in
    let n4 = number-decimal (44 ∷ []) no_comma d 44 t5 (omega arith) refl in
    let n5 = number-decimal ends no_line_end high 44 t6 (omega arith) refl in
    let n6 = number-decimal ends no_line_end low 13 (10 ∷ []) (omega arith) refl in
    let a' : a % 256 ≡ a = omega arith in
    let b' : b % 256 ≡ b = omega arith in
    let c' : c % 256 ≡ c = omega arith in
    let d' : d % 256 ≡ d = omega arith in
    let port' : ((0 * 256 + high) % 65536 * 256 + low) % 65536 ≡ port = omega arith in
    rw (n1, n2, n3, n4, n5, n6, a', b', c', d', port', pport, address_text, numbers) refl
