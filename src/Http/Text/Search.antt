-- ===== src/Http/Text/Search.antt =====
-- What strstr() finds in texts that are put together from parts.
use x_wizchip_io_library_dri.Base.{
  ℕ, ◌==◌, ◌≡◌, refl, Bool-cases, inl, inr, true, false, some, List, [], ◌∷◌, ◌++◌, All, arith,
}
use x_wizchip_io_library_dri.Http.Text.{is_prefix, same_text, strstr}

-- The byte is another one.
abbrev pub Differs : ℕ → ℕ → Type 0
Differs p c = (p == c) ≡ false

is_prefix-append : (part rest : List ℕ) → is_prefix part (part ++ rest) ≡ true
unfolding is_prefix
is_prefix-append [] rest = refl
is_prefix-append (p ∷ ps) rest =
    let same : (p == p) ≡ true = ground arith in rw same (is_prefix-append ps rest)

strstr-here : (xs part : List ℕ) → is_prefix part xs ≡ true → strstr xs part ≡ some xs
unfolding strstr
strstr-here [] part e = rw e refl
strstr-here (x ∷ xs) part e = rw e refl

-- The part stands at the beginning.
pub strstr-append : (part rest : List ℕ) → strstr (part ++ rest) part ≡ some (part ++ rest)
strstr-append part rest = strstr-here (part ++ rest) part (is_prefix-append part rest)

-- Bytes that are not the first of the part are passed over.
pub strstr-skip :
    (xs rest : List ℕ) (p : ℕ) (ps : List ℕ)
    → All (Differs p) xs
    → strstr (xs ++ rest) (p ∷ ps) ≡ strstr rest (p ∷ ps)
unfolding strstr is_prefix
strstr-skip [] rest p ps h = refl
strstr-skip (x ∷ xs) rest p ps (h, hs) = rw h (strstr-skip xs rest p ps hs)

pub same_text_lem : (xs ys : List ℕ) → same_text xs ys ≡ true → xs ≡ ys
unfolding same_text
same_text_lem [] [] h = refl
same_text_lem (x ∷ xs) (y ∷ ys) h = elim (Bool-cases (x == y)) [
  | inl e ↦
      let rest = same_text_lem xs ys (rw e at h) in
      let first : x ≡ y = ground arith in rw (first, rest) refl
  | inr e ↦ let wrong : false ≡ true = rw e at h in let none_such : ⊥ = cc in elim none_such [ ]
]
same_text_lem [] (y ∷ ys) h = let wrong : ⊥ = cc in elim wrong [ ]
same_text_lem (x ∷ xs) [] h = let wrong : ⊥ = cc in elim wrong [ ]
