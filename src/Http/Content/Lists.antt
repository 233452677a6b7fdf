-- ===== src/Http/Content/Lists.antt =====
-- What strncpy() copies, and the rest of a list behind its parts.
use x_wizchip_io_library_dri.Base.{
  ℕ, zero, suc, ◌+◌, ◌≤◌, ◌≡◌, refl, sym, ap, ◌∙◌, List, [], ◌∷◌, ◌++◌, length, take, drop,
  take-append-drop, arith,
}
use x_wizchip_io_library_dri.Http.Content.{padded}

pub padded_lem : (n : ℕ) (xs : List ℕ) → n ≤ length xs → padded n xs ≡ take n xs
padded_lem zero xs h = refl
padded_lem (suc n) [] h = let no : ⊥ = omega arith in elim no [ ]
padded_lem (suc n) (x ∷ xs) h = ap (λ r. x ∷ r) (padded_lem n xs (omega arith))

drop_empty : (n : ℕ) → drop {A = ℕ} n [] ≡ []
drop_empty zero = refl
drop_empty (suc n) = refl

drop-drop : (n m : ℕ) (xs : List ℕ) → drop m (drop n xs) ≡ drop (n + m) xs
drop-drop zero m xs = let e : m ≡ 0 + m = omega arith in ap (λ k. drop k xs) e
drop-drop (suc n) m [] = drop_empty m ∙ sym (drop_empty (suc n + m))
drop-drop (suc n) m (x ∷ xs) =
    let e : suc (n + m) ≡ suc n + m = omega arith in drop-drop n m xs ∙ ap (λ k. drop k (x ∷ xs)) e

pub drop_more : (n m : ℕ) (xs : List ℕ) → drop n xs ≡ take m (drop n xs) ++ drop (n + m) xs
drop_more n m xs =
    sym (take-append-drop m (drop n xs)) ∙ ap (λ r. take m (drop n xs) ++ r) (drop-drop n m xs)

pub drop_end : (n : ℕ) (xs : List ℕ) → length xs ≤ n → drop n xs ≡ []
drop_end n [] h = drop_empty n
drop_end zero (x ∷ xs) h = let no : ⊥ = omega arith in elim no [ ]
drop_end (suc n) (x ∷ xs) h = drop_end n xs (omega arith)

pub empty_lem : (xs : List ℕ) → length xs ≡ 0 → xs ≡ []
empty_lem [] h = refl
empty_lem (x ∷ xs) h = let no : ⊥ = omega arith in elim no [ ]

pub take_all : (xs : List ℕ) → take (length xs) xs ≡ xs
take_all [] = refl
take_all (x ∷ xs) = ap (λ r. x ∷ r) (take_all xs)
