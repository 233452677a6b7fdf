-- ===== src/Http/Content/Table.antt =====
-- The table of pages.
use x_wizchip_io_library_dri.Base.{
  ℕ, zero, suc, ◌+◌, ◌%◌, ◌<◌, ◌≤◌, leb, ◌≡◌, refl, ap, subst, Bool-cases, inl, inr, true, Option,
  none, some, List, [], ◌∷◌, length, length-append, get_elem?, All, All-append, arith,
}
use x_wizchip_io_library_dri.Http.Text.{same_text}
use x_wizchip_io_library_dri.Http.Content.{
  WebContent, find_from, find_user_reg_web_content, reg_http_server_web_content,
}

-- The stored length is that of the text, in 32 bits.
abbrev pub IsPage : WebContent → Type 0
IsPage w = (w.content_len ≡ length w.content) × (length w.content < 4294967296)

abbrev pub IsTable : List WebContent → Type 0
IsTable table = (length table ≤ 20) × All IsPage table

pub reg_http_server_web_content-IsTable :
    (name text : List ℕ) (table : List WebContent)
    → length text < 4294967296
    → IsTable table
    → IsTable (reg_http_server_web_content name text table)
unfolding reg_http_server_web_content
reg_http_server_web_content-IsTable name text table fits (few, pages) =
    let w : WebContent = record {
      content_name = name;
      content_len = length text % 4294967296;
      content = text;
    } in
    elim (Bool-cases (leb 20 (length table))) [
      | inl e ↦ rw e (few, pages)
      | inr e ↦ rw e (
        (let len = length-append table (w ∷ []) in ground (arith, len)),
        All-append IsPage table (w ∷ []) pages ((omega arith, fits), tt),
      )
    ]

number_of : Option (ℕ × ℕ) → ℕ
number_of none = 0
number_of (some (num, len)) = num

length_of : Option (ℕ × ℕ) → ℕ
length_of none = 0
length_of (some (num, len)) = len

-- The page with that number, length and name.
abbrev pub Holds : List WebContent → List ℕ → ℕ → ℕ → Type 0
Holds table name k len =
    (w : WebContent) × (get_elem? table k ≡ some w)
    × (k < length table)
    × (w.content_len ≡ len)
    × (same_text name w.content_name ≡ true)

find_from-Holds :
    (table : List WebContent) (i : ℕ) (name : List ℕ) (num len : ℕ)
    → find_from i name table ≡ some (num, len)
    → (k : ℕ) × (num ≡ i + k) × Holds table name k len
unfolding number_of length_of
find_from-Holds [] i name num len e = let no : ⊥ = cc in elim no [ ]
find_from-Holds (w ∷ table) i name num len e = elim (Bool-cases (same_text name w.content_name)) [
  | inl same ↦
      let e' : some (i, w.content_len) ≡ some (num, len) = rw same at e in
      let num_is : num ≡ i + 0 = omega (arith, ap number_of e') in
      (0, num_is, (w, refl, omega arith, ap length_of e', same))
  | inr differs ↦
      let e' : find_from (i + 1) name table ≡ some (num, len) = rw differs at e in
      let (k, at, (v, entry, inside, len_of, called)) =
        find_from-Holds table (i + 1) name num len e' in
      (suc k, omega (arith, at), (v, entry, omega arith, len_of, called))
]

pub find_user_reg_web_content-Holds :
    (table : List WebContent) (name : List ℕ) (num len : ℕ)
    → find_user_reg_web_content name table ≡ some (num, len)
    → Holds table name num len
unfolding find_user_reg_web_content
find_user_reg_web_content-Holds table name num len e =
    let (k, at, held) = find_from-Holds table 0 name num len e in
    let same : k ≡ num = omega (arith, at) in subst (λ j. Holds table name j len) same held

or_first : WebContent → Option WebContent → WebContent
or_first d none = d
or_first d (some w) = w

some_inj : (P : WebContent → Type 0) (v w : WebContent) → some v ≡ some w → P v → P w
unfolding or_first
some_inj P v w e p = subst P (ap (or_first v) e) p

pub get_elem?-All :
    (table : List WebContent) (k : ℕ) (w : WebContent)
    → All IsPage table
    → get_elem? table k ≡ some w
    → IsPage w
get_elem?-All [] k w pages e = let no : ⊥ = cc in elim no [ ]
get_elem?-All (v ∷ table) zero w (page, pages) e = some_inj IsPage v w e page
get_elem?-All (v ∷ table) (suc k) w (page, pages) e = get_elem?-All table k w pages e
