-- ===== src/Http/Pages/Heads.antt =====
-- The response heads of the types that find_http_uri_type() gives.
use x_wizchip_io_library_dri.Base.{
  ℕ, ◌<◌, ◌≤◌, ltb, leb, ◌≡◌, ◌⊎◌, inl, inr, refl, ap, true, false, Option, none, some, List, [],
  ◌∷◌, ◌++◌, length, All, arith, Bool-cases,
}
use x_wizchip_io_library_dri.Http.Numbers.Values.{text_of, value, IsDigit}
use x_wizchip_io_library_dri.Http.Pages.Digits.{
  Shows, decimal-Shows, length-decimal_below, length-decimal_above,
}
use x_wizchip_io_library_dri.Http.Pages.{
  extensions, either, first_type, find_http_uri_type, ptype_err, response_head, print_ld,
  make_http_response_head,
}

-- A type is that of no file, or has a head.
abbrev pub HasHead : ℕ → Type 0
HasHead type = (type ≡ ptype_err) ⊎ ((head : List ℕ) × (response_head type ≡ some head))

abbrev pub HeadOfRow : (List ℕ × List ℕ) × ℕ → Type 0
HeadOfRow (names, type) = (head : List ℕ) × (response_head type ≡ some head)

first_type-HasHead :
    (rows : List ((List ℕ × List ℕ) × ℕ)) (buf : List ℕ)
    → All HeadOfRow rows
    → HasHead (first_type rows buf)
first_type-HasHead [] buf h = inl refl
first_type-HasHead (((a, b), type) ∷ rows) buf (h, hs) = elim (Bool-cases (either a b buf)) [
  | inl e ↦ rw e (inr h)
  | inr e ↦ rw e (first_type-HasHead rows buf hs)
]

rows_lem : All HeadOfRow extensions
unfolding response_head
rows_lem = (
  (_, refl),
  (
    (_, refl),
    (
      (_, refl),
      (
        (_, refl),
        (
          (_, refl),
          (
            (_, refl),
            (
              (_, refl),
              (
                (_, refl),
                (
                  (_, refl),
                  (
                    (_, refl),
                    (
                      (_, refl),
                      (
                        (_, refl),
                        (
                          (_, refl),
                          ((_, refl), ((_, refl), ((_, refl), ((_, refl), ((_, refl), tt))))),
                        ),
                      ),
                    ),
                  ),
                ),
              ),
            ),
          ),
        ),
      ),
    ),
  ),
)

find_http_uri_type-HasHead : (buf : List ℕ) → HasHead (find_http_uri_type buf)
unfolding find_http_uri_type
find_http_uri_type-HasHead buf = first_type-HasHead extensions buf rows_lem

-- A length below 10 ^ 9 is printed with its digits.
print_ld-small :
    (len : ℕ) → len < 1000000000 → Shows (print_ld len) len × (length (print_ld len) < 10)
unfolding print_ld
print_ld-small len h =
    let positive : ltb len 2147483648 ≡ true = ground arith in
    let short = length-decimal_below 10 8 len h in
    rw positive (decimal-Shows 10 len (omega arith), omega (arith, short))

print_ld-large : (len : ℕ) → 1000000000 ≤ len → len < 2147483648 → 10 ≤ length (print_ld len)
unfolding print_ld
print_ld-large len h h' =
    let positive : ltb len 2147483648 ≡ true = ground arith in
    let long = length-decimal_above 10 9 len (omega arith) h in rw positive (omega (arith, long))

-- The head, the digits of the length and an empty line.
abbrev pub IsHead : ℕ → ℕ → Option (List ℕ) → Type 0
IsHead type len text =
    (head : List ℕ) × (ds : List ℕ) × (response_head type ≡ some head)
    × All IsDigit ds
    × (value 0 ds ≡ len)
    × (text ≡ some (head ++ text_of ds ++ 13 ∷ 10 ∷ 13 ∷ 10 ∷ []))

pub written_digits :
    (type len : ℕ) (head : List ℕ)
    → response_head type ≡ some head
    → len < 1000000000
    → (ds : List ℕ) × All IsDigit ds
      × (value 0 ds ≡ len)
      × (make_http_response_head type len ≡ some (head ++ text_of ds ++ 13 ∷ 10 ∷ 13 ∷ 10 ∷ []))
unfolding make_http_response_head
written_digits type len head e h =
    let ((ds, (digits, shown, is_len)), short) = print_ld-small len h in
    let fits : leb 10 (length (print_ld len)) ≡ false = ground (arith, short) in
    (
      ds,
      digits,
      is_len,
      rw (e, fits, make_http_response_head)
          (ap (λ r. some (head ++ r ++ 13 ∷ 10 ∷ 13 ∷ 10 ∷ [])) shown),
    )

written_small :
    (type len : ℕ) (head : List ℕ)
    → response_head type ≡ some head
    → len < 1000000000
    → IsHead type len (make_http_response_head type len)
written_small type len head e h =
    let (ds, digits, is_len, made) = written_digits type len head e h in
    (head, ds, e, digits, is_len, made)

written_large :
    (type len : ℕ) → 1000000000 ≤ len → len < 2147483648 → make_http_response_head type len ≡ none
unfolding make_http_response_head
written_large type len h h' =
    let long = print_ld-large len h h' in
    let full : leb 10 (length (print_ld len)) ≡ true = ground (arith, long) in
    of_head (response_head type) refl full
  where
    of_head :
        (o : Option (List ℕ))
        → response_head type ≡ o
        → leb 10 (length (print_ld len)) ≡ true
        → make_http_response_head type len ≡ none
    of_head none e full = rw (e, make_http_response_head) refl
    of_head (some head) e full = rw (e, full, make_http_response_head) refl

-- For a type that find_http_uri_type() gives, other than that of no known file, and a length below
-- 10 ^ 9, make_http_response_head() writes the head of the type, the decimal digits of the length and
-- an empty line. For the type of no known file it copies from NULL, and for a length from 10 ^ 9 to
-- 2 ^ 31 - 1 the digits and the 0 do not fit the 10 bytes of `tmp`.
pub make_http_response_head-IsHead :
    (buf : List ℕ) (len : ℕ)
    → len < 2147483648
    → ((find_http_uri_type buf ≡ ptype_err)
        ⊎ ((len < 1000000000)
            → IsHead
                (find_http_uri_type buf)
                len
                (make_http_response_head (find_http_uri_type buf) len)))
      × (make_http_response_head ptype_err len ≡ none)
      × ((1000000000 ≤ len) → make_http_response_head (find_http_uri_type buf) len ≡ none)
unfolding make_http_response_head response_head
make_http_response_head-IsHead buf len h =
    let known =
      elim (find_http_uri_type-HasHead buf)
        as (λ _.
          (find_http_uri_type buf ≡ ptype_err)
          ⊎ ((len < 1000000000)
              → IsHead (find_http_uri_type buf) len
                  (make_http_response_head (find_http_uri_type buf) len))) [
                    | inl e ↦ inl e
                    | inr (head, e) ↦
                        inr (λ short. written_small (find_http_uri_type buf) len head e short)
                  ] in
    (known, refl, λ long. written_large (find_http_uri_type buf) len long h)
