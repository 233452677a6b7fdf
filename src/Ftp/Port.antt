-- ===== src/Ftp/Port.antt =====
-- ftpd.c: pport(), and the address as PASV writes it.
pub mod ReadBack
use x_wizchip_io_library_dri.Base.{
  ℕ, zero, suc, ◌+◌, ◌-◌, ◌*◌, ◌/◌, ◌%◌, ◌==◌, ltb, leb, ◌&&◌, ◌||◌, if◌then◌else◌, Option, none,
  some, List, [], ◌∷◌, ◌++◌, get_or,
}
use x_wizchip_io_library_dri.Http.Text.{strtok}
use x_wizchip_io_library_dri.Http.Pages.{decimal}

-- The number that the leading digits mean.
unfoldable pub digits_from : List ℕ → ℕ → ℕ
digits_from [] acc = acc
digits_from (c ∷ cs) acc =
    let rest = digits_from cs (acc * 10 + (c - 48)) in if leb 48 c && leb c 57 then rest else acc

unfoldable pub skip_white : List ℕ → List ℕ
skip_white [] = []
skip_white (c ∷ cs) =
    let rest = skip_white cs in if c == 32 || (leb 9 c && leb c 13) then rest else c ∷ cs

-- The number in 16 bits, which is what is used of it; `none`: it is no int.
abbrev pub in_word : ℕ → Option ℕ
in_word v = if ltb v 2147483648 then some (v % 65536) else none

abbrev pub signed : List ℕ → Option ℕ
signed [] = some 0
signed (c ∷ cs) =
    if c == 45
    then elim (in_word (digits_from cs 0)) [ none ↦ none | some v ↦ some ((65536 - v) % 65536) ]
    else if c == 43
    then in_word (digits_from cs 0)
    else in_word (digits_from (c ∷ cs) 0)

-- atoi() of the C library
unfoldable pub c_atoi : List ℕ → Option ℕ
c_atoi text = signed (skip_white text)

-- A token and its number, and what strtok() goes on with; `none`: there is none, and NULL is read.
unfoldable pub number : List ℕ → List ℕ → Option (ℕ × List ℕ)
number delims text = elim (strtok delims text) [
  | none ↦ none
  | some (tok, rest) ↦ elim (c_atoi tok) [ none ↦ none | some v ↦ some (v, rest) ]
]

-- `n` more numbers
unfoldable pub numbers : ℕ → List ℕ → List ℕ → Option (List ℕ × List ℕ)
numbers zero delims text = some ([], text)
numbers (suc n) delims text = elim (number delims text) [
  | none ↦ none
  | some (v, rest) ↦ elim (numbers n delims rest) [
    | none ↦ none
    | some (vs, rest') ↦ some (v ∷ vs, rest')
  ]
]

abbrev pub bytes_of : List ℕ → List ℕ
bytes_of [] = []
bytes_of (v ∷ vs) = (v % 256) ∷ bytes_of vs

abbrev pub port_from : List ℕ → ℕ → ℕ
port_from [] port = port
port_from (v ∷ vs) port = port_from vs ((port * 256 + v) % 65536)

-- pport(): remote_ip and remote_port. The test of `tok` for NULL comes behind its use, so the result is
-- never -1.
unfoldable pub pport : List ℕ → Option (List ℕ × ℕ)
pport arg = elim (number (44 ∷ 13 ∷ 10 ∷ []) arg) [
  | none ↦ none
  | some (first, rest1) ↦ elim (numbers 3 (44 ∷ []) rest1) [
    | none ↦ none
    | some (others, rest2) ↦ elim (numbers 2 (44 ∷ 13 ∷ 10 ∷ []) rest2) [
      | none ↦ none
      | some (port, rest3) ↦ some (bytes_of (first ∷ others), port_from port 0)
    ]
  ]
]

-- "%d,%d,%d,%d,%d,%d" with what stands behind it
unfoldable pub address_text : List ℕ → ℕ → List ℕ → List ℕ
address_text ip port tail =
    decimal 3 (get_or ip 0 0)
    ++ (44
        ∷ (decimal 3 (get_or ip 1 0)
            ++ (44
                ∷ (decimal 3 (get_or ip 2 0)
                    ++ (44
                        ∷ (decimal 3 (get_or ip 3 0)
                            ++ (44
                                ∷ (decimal 3 (port / 256)
                                    ++ (44 ∷ (decimal 3 (port % 256) ++ tail))))))))))
