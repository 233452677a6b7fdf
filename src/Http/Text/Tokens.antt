-- ===== src/Http/Text/Tokens.antt =====
-- What strtok() makes of texts with a delimiter behind the token, and without.
use x_wizchip_io_library_dri.Base.{ℕ, ◌≡◌, refl, true, false, some, List, [], ◌∷◌, ◌++◌, All}
use x_wizchip_io_library_dri.Http.Text.{one_of, token, strtok}

module _ (delims : List ℕ) where
  abbrev pub IsFree : ℕ → Type 0
  IsFree x = one_of delims x ≡ false

  token-append :
      (xs : List ℕ) (d : ℕ) (rest : List ℕ)
      → All IsFree xs
      → one_of delims d ≡ true
      → token delims (xs ++ d ∷ rest) ≡ (xs, rest)
  unfolding token
  token-append [] d rest h e = rw e refl
  token-append (x ∷ xs) d rest (h, hs) e = rw (h, token-append xs d rest hs e) refl

  token_end : (xs : List ℕ) → All IsFree xs → token delims xs ≡ (xs, [])
  unfolding token
  token_end [] h = refl
  token_end (x ∷ xs) (h, hs) = rw (h, token_end xs hs) refl

  pub strtok-append :
      (x : ℕ) (xs : List ℕ) (d : ℕ) (rest : List ℕ)
      → All IsFree (x ∷ xs)
      → one_of delims d ≡ true
      → strtok delims (x ∷ xs ++ d ∷ rest) ≡ some (x ∷ xs, rest)
  unfolding strtok
  strtok-append x xs d rest h e = rw (h.0, token-append (x ∷ xs) d rest h e) refl

  pub strtok_end :
      (x : ℕ) (xs : List ℕ) → All IsFree (x ∷ xs) → strtok delims (x ∷ xs) ≡ some (x ∷ xs, [])
  unfolding strtok
  strtok_end x xs h = rw (h.0, token_end (x ∷ xs) h) refl
