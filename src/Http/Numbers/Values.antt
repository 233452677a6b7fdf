-- ===== src/Http/Numbers/Values.antt =====
-- The values that ATOI() and inet_addr_() give.
use x_wizchip_io_library_dri.Base.{
  ℕ, suc, ◌+◌, ◌*◌, ◌%◌, ◌<◌, ◌≤◌, ◌≡◌, refl, ◌==◌, leb, true, false, none, some, List, [], ◌∷◌,
  ◌++◌, length, All, arith, Bool-cases, inl, inr,
}
use x_wizchip_io_library_dri.Http.Text.{is_prefix}
use x_wizchip_io_library_dri.Http.Text.Tokens.{IsFree, strtok-append, strtok_end}
use x_wizchip_io_library_dri.Http.Url.{c2d}
use x_wizchip_io_library_dri.Http.Numbers.{atoi_loop, atoi, part_value, parts, inet_addr}

-- The number that decimal digits mean, with `acc` before them.
abbrev pub value : ℕ → List ℕ → ℕ
value acc [] = acc
value acc (d ∷ ds) = value (acc * 10 + d) ds

abbrev pub text_of : List ℕ → List ℕ
text_of [] = []
text_of (d ∷ ds) = (48 + d) ∷ text_of ds

abbrev pub IsDigit : ℕ → Type 0
IsDigit d = d < 10

c2d-digit : (d : ℕ) → d < 10 → c2d (48 + d) ≡ d
unfolding c2d
c2d-digit d h = ground arith

atoi_loop_lem :
    (ds : List ℕ) (num acc : ℕ)
    → num ≡ acc % 4294967296
    → All IsDigit ds
    → atoi_loop num 10 (text_of ds) ≡ value acc ds % 4294967296
unfolding atoi_loop
atoi_loop_lem [] num acc e h = e
atoi_loop_lem (d ∷ ds) num acc e (h, hs) =
    let digit = c2d-digit d h in
    let next : (num * 10 + c2d (48 + d)) % 4294967296 ≡ (acc * 10 + d) % 4294967296 = omega arith in
    let no_space : (48 + d == 32) ≡ false = ground arith in
    rw no_space (atoi_loop_lem ds _ (acc * 10 + d) next hs)

pub atoi_lem : (ds : List ℕ) → All IsDigit ds → atoi (text_of ds) 10 ≡ value 0 ds % 65536
unfolding atoi
atoi_lem ds h = let e = atoi_loop_lem ds 0 0 refl h in omega (arith, e)

no_dots : (ds : List ℕ) → All IsDigit ds → All (IsFree (46 ∷ [])) (text_of ds)
no_dots [] h = tt
no_dots (d ∷ ds) (h, hs) = (ground arith, no_dots ds hs)

-- No decimal text begins with "0x".
not_hex : (ds : List ℕ) → All IsDigit ds → is_prefix (48 ∷ 120 ∷ []) (text_of ds) ≡ false
unfolding is_prefix
not_hex [] h = refl
not_hex (d ∷ []) h = elim (Bool-cases (48 == 48 + d)) [ inl e ↦ rw e refl | inr e ↦ rw e refl ]
not_hex (d ∷ x ∷ ds) (h, (k, hs)) =
    let not_x : (120 == 48 + x) ≡ false = ground arith in
    elim (Bool-cases (48 == 48 + d)) [ inl e ↦ rw (e, not_x) refl | inr e ↦ rw e refl ]

part_value_lem : (ds : List ℕ) → All IsDigit ds → part_value (text_of ds) ≡ value 0 ds % 256
unfolding part_value
part_value_lem ds h = let e = atoi_lem ds h in rw (not_hex ds h) (omega (arith, e))

-- The next part, with a dot behind it, and what is left.
parts-digits :
    (n : ℕ) (ds : List ℕ) (rest ip : List ℕ)
    → ¬ (ds ≡ [])
    → All IsDigit ds
    → parts n rest ≡ some ip
    → parts (suc n) (text_of ds ++ 46 ∷ rest) ≡ some (value 0 ds % 256 ∷ ip)
unfolding parts
parts-digits n [] rest ip filled h e = absurd (filled refl)
parts-digits n (d ∷ ds) rest ip filled h e =
    let cut = strtok-append (46 ∷ []) (48 + d) (text_of ds) 46 rest (no_dots (d ∷ ds) h) refl in
    rw (cut, e, part_value_lem (d ∷ ds) h, parts) refl

parts_last :
    (ds : List ℕ)
    → ¬ (ds ≡ [])
    → All IsDigit ds
    → parts 1 (text_of ds) ≡ some (value 0 ds % 256 ∷ [])
unfolding parts
parts_last [] filled h = absurd (filled refl)
parts_last (d ∷ ds) filled h =
    let cut = strtok_end (46 ∷ []) (48 + d) (text_of ds) (no_dots (d ∷ ds) h) in
    rw (cut, part_value_lem (d ∷ ds) h, parts) refl

-- A number of decimal digits, at least one.
abbrev pub IsNumber : List ℕ → Type 0
IsNumber ds = (¬ (ds ≡ [])) × All IsDigit ds

abbrev pub dotted : List ℕ → List ℕ → List ℕ → List ℕ → List ℕ
dotted a b c d = text_of a ++ 46 ∷ (text_of b ++ 46 ∷ (text_of c ++ 46 ∷ text_of d))

-- For four decimal numbers with dots between them, in less than 30 characters, inet_addr_() gives the
-- four numbers, each modulo 256; a text of 30 or more does not fit its array.
pub inet_addr-dotted :
    (a b c d : List ℕ)
    → IsNumber a
    → IsNumber b
    → IsNumber c
    → IsNumber d
    → ((length (dotted a b c d) < 30)
        → inet_addr (dotted a b c d)
          ≡ some (value 0 a % 256 ∷ value 0 b % 256 ∷ value 0 c % 256 ∷ value 0 d % 256 ∷ []))
      × ((30 ≤ length (dotted a b c d)) → inet_addr (dotted a b c d) ≡ none)
unfolding inet_addr
inet_addr-dotted a b c d (fa, ha) (fb, hb) (fc, hc) (fd, hd) =
    let at_d = parts_last d fd hd in
    let at_c = parts-digits 1 c _ _ fc hc at_d in
    let at_b = parts-digits 2 b _ _ fb hb at_c in
    let at_a = parts-digits 3 a _ _ fa ha at_b in
    (
      λ short. let no : leb 30 (length (dotted a b c d)) ≡ false = ground arith in rw no at_a,
      λ long. let yes_ : leb 30 (length (dotted a b c d)) ≡ true = ground arith in rw yes_ refl,
    )
