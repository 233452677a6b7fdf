-- ===== src/Http/Url.antt =====
-- httpParser.c: C2D(), unescape_http_url(), replacetochar() and get_http_uri_name().
pub mod Decoding
use x_wizchip_io_library_dri.Base.{
  ℕ, ◌+◌, ◌-◌, ◌*◌, ◌%◌, ◌==◌, leb, ◌&&◌, if◌then◌else◌, true, false, Option, none, some, List, [],
  ◌∷◌,
}
use x_wizchip_io_library_dri.Http.Text.{strtok, same_text}

unfoldable pub c2d : ℕ → ℕ
c2d c =
    if leb 48 c && leb c 57
    then c - 48
    else if leb 97 c && leb c 102
    then 10 + c - 97
    else if leb 65 c && leb c 70
    then 10 + c - 65
    else c

abbrev pub prepend : ℕ → Option (List ℕ) → Option (List ℕ)
prepend c none = none
prepend c (some cs) = some (c ∷ cs)

-- `none`: it read behind the terminating 0, which it steps over when a `%` has less than two
-- characters behind it.
unfoldable pub unescape_http_url : List ℕ → Option (List ℕ)
unescape_http_url [] = some []
unescape_http_url (c ∷ []) = if c == 37 then none else some (c ∷ [])
unescape_http_url (c ∷ a ∷ []) = elim (c == 37) [
  | true ↦ none
  | false ↦ prepend c (unescape_http_url (a ∷ []))
]
unescape_http_url (c ∷ a ∷ b ∷ rest) = elim (c == 37) [
  | true ↦ prepend ((c2d a * 16 + c2d b) % 256) (unescape_http_url rest)
  | false ↦ prepend c (unescape_http_url (a ∷ b ∷ rest))
]

unfoldable pub replacetochar : List ℕ → ℕ → ℕ → List ℕ
replacetochar [] old new = []
replacetochar (x ∷ xs) old new = (if x == old then new else x) ∷ replacetochar xs old new

-- `none`: strtok() found no token, and strcmp() is called on NULL. The result is what stands in
-- `uri_buf`.
unfoldable pub get_http_uri_name : List ℕ → Option (List ℕ)
get_http_uri_name uri = elim (strtok (32 ∷ 63 ∷ []) uri) [
  | none ↦ none
  | some (tok, rest) ↦ some (if same_text tok (47 ∷ []) then tok else behind tok)
]
  where
    behind : List ℕ → List ℕ
    behind [] = []
    behind (x ∷ xs) = xs
