-- ===== src/Http/Text.antt =====
-- C strings and the functions of string.h that httpParser.c calls.
--
-- A string is the list of its bytes before the terminating 0, and a pointer into it the rest of it.
pub mod Search
pub mod Tokens
use x_wizchip_io_library_dri.Base.{
  ℕ, ◌==◌, ◌&&◌, ◌||◌, Bool, true, false, Option, none, some, List, [], ◌∷◌, if◌then◌else◌,
}

unfoldable pub is_prefix : List ℕ → List ℕ → Bool
is_prefix [] ys = true
is_prefix (x ∷ xs) [] = false
is_prefix (x ∷ xs) (y ∷ ys) = x == y && is_prefix xs ys

-- strstr(text, part), with `none` for NULL
unfoldable pub strstr : List ℕ → List ℕ → Option (List ℕ)
strstr [] part = if is_prefix part [] then some [] else none
strstr (x ∷ xs) part =
    let rest = strstr xs part in if is_prefix part (x ∷ xs) then some (x ∷ xs) else rest

-- !strcmp(xs, ys)
unfoldable pub same_text : List ℕ → List ℕ → Bool
same_text [] [] = true
same_text (x ∷ xs) (y ∷ ys) = x == y && same_text xs ys
same_text _ _ = false

abbrev pub one_of : List ℕ → ℕ → Bool
one_of [] c = false
one_of (d ∷ ds) c = c == d || one_of ds c

-- A token up to the next delimiter, and what stands behind that one.
unfoldable pub token : List ℕ → List ℕ → List ℕ × List ℕ
token delims [] = ([], [])
token delims (x ∷ xs) =
    let (tok, rest) = token delims xs in if one_of delims x then ([], xs) else (x ∷ tok, rest)

-- strtok(): the token and what the next call goes on with; `none` if only delimiters are left.
unfoldable pub strtok : List ℕ → List ℕ → Option (List ℕ × List ℕ)
strtok delims [] = none
strtok delims (x ∷ xs) =
    let later = strtok delims xs in if one_of delims x then later else some (token delims (x ∷ xs))
