-- ===== src/Http/Numbers.antt =====
-- httpParser.c: ATOI() and inet_addr_().
pub mod Values
use x_wizchip_io_library_dri.Base.{
  ℕ, zero, suc, ◌+◌, ◌*◌, ◌%◌, ◌==◌, leb, ◌||◌, if◌then◌else◌, Option, none, some, List, [], ◌∷◌,
  length,
}
use x_wizchip_io_library_dri.Http.Text.{strtok, is_prefix}
use x_wizchip_io_library_dri.Http.Url.{c2d}

-- The loop, which a space ends as well; `num` is an unsigned int of 32 bits.
unfoldable pub atoi_loop : ℕ → ℕ → List ℕ → ℕ
atoi_loop num base [] = num
atoi_loop num base (c ∷ cs) =
    let rest = atoi_loop ((num * base + c2d c) % 4294967296) base cs in
    if c == 32 then num else rest

unfoldable pub atoi : List ℕ → ℕ → ℕ
atoi text base = atoi_loop 0 base text % 65536

abbrev pub behind_two : List ℕ → List ℕ
behind_two (x ∷ y ∷ xs) = xs
behind_two xs = []

-- A token that begins with "0x" is hexadecimal; the number is a uint8_t.
unfoldable pub part_value : List ℕ → ℕ
part_value tok =
    (if is_prefix (48 ∷ 120 ∷ []) tok then atoi (behind_two tok) 16 else atoi tok 10) % 256

-- `none`: strtok() gave NULL, which is read.
unfoldable pub parts : ℕ → List ℕ → Option (List ℕ)
parts zero text = some []
parts (suc n) text = elim (strtok (46 ∷ []) text) [
  | none ↦ none
  | some (tok, rest) ↦ elim (parts n rest) [ none ↦ none | some ip ↦ some (part_value tok ∷ ip) ]
]

-- The text is copied to an array of 30 bytes.
unfoldable pub inet_addr : List ℕ → Option (List ℕ)
inet_addr addr = if leb 30 (length addr) then none else parts 4 addr
