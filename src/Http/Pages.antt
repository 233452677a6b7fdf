-- ===== src/Http/Pages.antt =====
-- httpParser.c: find_http_uri_type() and make_http_response_head().
pub mod Digits
pub mod Heads
use x_wizchip_io_library_dri.Base.{
  ℕ, zero, suc, ◌+◌, ◌-◌, ◌/◌, ◌%◌, ◌==◌, ltb, leb, ◌||◌, Bool, true, false, if◌then◌else◌, Option,
  none, some, List, [], ◌∷◌, ◌++◌, length,
}
use x_wizchip_io_library_dri.Http.Text.{strstr}

abbrev pub ptype_err : ℕ
ptype_err = 0

abbrev pub ptype_html : ℕ
ptype_html = 1

abbrev pub ptype_gif : ℕ
ptype_gif = 2

abbrev pub ptype_text : ℕ
ptype_text = 3

abbrev pub ptype_jpeg : ℕ
ptype_jpeg = 4

abbrev pub ptype_flash : ℕ
ptype_flash = 5

abbrev pub ptype_cgi : ℕ
ptype_cgi = 8

abbrev pub ptype_xml : ℕ
ptype_xml = 9

abbrev pub ptype_css : ℕ
ptype_css = 10

abbrev pub ptype_js : ℕ
ptype_js = 11

abbrev pub ptype_json : ℕ
ptype_json = 12

abbrev pub ptype_png : ℕ
ptype_png = 13

abbrev pub ptype_ico : ℕ
ptype_ico = 14

abbrev pub ptype_ttf : ℕ
ptype_ttf = 20

abbrev pub ptype_otf : ℕ
ptype_otf = 21

abbrev pub ptype_woff : ℕ
ptype_woff = 22

abbrev pub ptype_eot : ℕ
ptype_eot = 23

abbrev pub ptype_svg : ℕ
ptype_svg = 24

abbrev pub found : Option (List ℕ) → Bool
found none = false
found (some rest) = true

-- strstr(buf, a) || strstr(buf, b)
abbrev pub either : List ℕ → List ℕ → List ℕ → Bool
either a b buf = found (strstr buf a) || found (strstr buf b)

-- The chain of tests, each with the type it gives.
abbrev pub first_type : List ((List ℕ × List ℕ) × ℕ) → List ℕ → ℕ
first_type [] buf = ptype_err
first_type (((a, b), type) ∷ rows) buf = if either a b buf then type else first_type rows buf

abbrev pub extensions : List ((List ℕ × List ℕ) × ℕ)
extensions =
    ((46 ∷ 104 ∷ 116 ∷ 109 ∷ [], 46 ∷ 104 ∷ 116 ∷ 109 ∷ 108 ∷ []), ptype_html)
    ∷ ((46 ∷ 103 ∷ 105 ∷ 102 ∷ [], 46 ∷ 103 ∷ 105 ∷ 102 ∷ []), ptype_gif)
    ∷ ((46 ∷ 116 ∷ 101 ∷ 120 ∷ 116 ∷ [], 46 ∷ 116 ∷ 120 ∷ 116 ∷ []), ptype_text)
    ∷ ((46 ∷ 106 ∷ 112 ∷ 101 ∷ 103 ∷ [], 46 ∷ 106 ∷ 112 ∷ 103 ∷ []), ptype_jpeg)
    ∷ ((46 ∷ 115 ∷ 119 ∷ 102 ∷ [], 46 ∷ 115 ∷ 119 ∷ 102 ∷ []), ptype_flash)
    ∷ ((46 ∷ 99 ∷ 103 ∷ 105 ∷ [], 46 ∷ 67 ∷ 71 ∷ 73 ∷ []), ptype_cgi)
    ∷ ((46 ∷ 106 ∷ 115 ∷ 111 ∷ 110 ∷ [], 46 ∷ 74 ∷ 83 ∷ 79 ∷ 78 ∷ []), ptype_json)
    ∷ ((46 ∷ 106 ∷ 115 ∷ [], 46 ∷ 74 ∷ 83 ∷ []), ptype_js)
    ∷ ((46 ∷ 67 ∷ 71 ∷ 73 ∷ [], 46 ∷ 99 ∷ 103 ∷ 105 ∷ []), ptype_cgi)
    ∷ ((46 ∷ 120 ∷ 109 ∷ 108 ∷ [], 46 ∷ 88 ∷ 77 ∷ 76 ∷ []), ptype_xml)
    ∷ ((46 ∷ 99 ∷ 115 ∷ 115 ∷ [], 46 ∷ 67 ∷ 83 ∷ 83 ∷ []), ptype_css)
    ∷ ((46 ∷ 112 ∷ 110 ∷ 103 ∷ [], 46 ∷ 80 ∷ 78 ∷ 71 ∷ []), ptype_png)
    ∷ ((46 ∷ 105 ∷ 99 ∷ 111 ∷ [], 46 ∷ 73 ∷ 67 ∷ 79 ∷ []), ptype_ico)
    ∷ ((46 ∷ 116 ∷ 116 ∷ 102 ∷ [], 46 ∷ 84 ∷ 84 ∷ 70 ∷ []), ptype_ttf)
    ∷ ((46 ∷ 111 ∷ 116 ∷ 102 ∷ [], 46 ∷ 79 ∷ 84 ∷ 70 ∷ []), ptype_otf)
    ∷ ((46 ∷ 119 ∷ 111 ∷ 102 ∷ 102 ∷ [], 46 ∷ 87 ∷ 79 ∷ 70 ∷ 70 ∷ []), ptype_woff)
    ∷ ((46 ∷ 101 ∷ 111 ∷ 116 ∷ [], 46 ∷ 69 ∷ 79 ∷ 84 ∷ []), ptype_eot)
    ∷ ((46 ∷ 115 ∷ 118 ∷ 103 ∷ [], 46 ∷ 83 ∷ 86 ∷ 71 ∷ []), ptype_svg)
    ∷ []

unfoldable pub find_http_uri_type : List ℕ → ℕ
find_http_uri_type = first_type extensions

-- "HTTP/1.1 200 OK\r\nContent-Type: "
abbrev pub head_start : List ℕ
head_start =
    72 ∷ 84 ∷ 84 ∷ 80 ∷ 47 ∷ 49 ∷ 46 ∷ 49 ∷ 32 ∷ 50 ∷ 48 ∷ 48 ∷ 32 ∷ 79 ∷ 75 ∷ 13 ∷ 10 ∷ 67 ∷ 111
    ∷ 110 ∷ 116 ∷ 101 ∷ 110 ∷ 116 ∷ 45 ∷ 84 ∷ 121 ∷ 112 ∷ 101 ∷ 58 ∷ 32 ∷ []

-- "\r\nContent-Length: "
abbrev pub length_field : List ℕ
length_field =
    13 ∷ 10 ∷ 67 ∷ 111 ∷ 110 ∷ 116 ∷ 101 ∷ 110 ∷ 116 ∷ 45 ∷ 76 ∷ 101 ∷ 110 ∷ 103 ∷ 116 ∷ 104 ∷ 58
    ∷ 32 ∷ []

-- "\r\nConnection: keep-alive"
abbrev pub keep_alive : List ℕ
keep_alive =
    13 ∷ 10 ∷ 67 ∷ 111 ∷ 110 ∷ 110 ∷ 101 ∷ 99 ∷ 116 ∷ 105 ∷ 111 ∷ 110 ∷ 58 ∷ 32 ∷ 107 ∷ 101 ∷ 101
    ∷ 112 ∷ 45 ∷ 97 ∷ 108 ∷ 105 ∷ 118 ∷ 101 ∷ []

-- The RES_ texts, in the order of the tests of make_http_response_head().
abbrev pub mime_types : List (ℕ × List ℕ)
mime_types =
    (ptype_html, 116 ∷ 101 ∷ 120 ∷ 116 ∷ 47 ∷ 104 ∷ 116 ∷ 109 ∷ 108 ∷ keep_alive)
    ∷ (ptype_gif, 105 ∷ 109 ∷ 97 ∷ 103 ∷ 101 ∷ 47 ∷ 103 ∷ 105 ∷ 102 ∷ [])
    ∷ (ptype_text, 116 ∷ 101 ∷ 120 ∷ 116 ∷ 47 ∷ 112 ∷ 108 ∷ 97 ∷ 105 ∷ 110 ∷ [])
    ∷ (ptype_jpeg, 105 ∷ 109 ∷ 97 ∷ 103 ∷ 101 ∷ 47 ∷ 106 ∷ 112 ∷ 101 ∷ 103 ∷ [])
    ∷ (
      ptype_flash,
      97 ∷ 112 ∷ 112 ∷ 108 ∷ 105 ∷ 99 ∷ 97 ∷ 116 ∷ 105 ∷ 111 ∷ 110 ∷ 47 ∷ 120 ∷ 45 ∷ 115 ∷ 104 ∷ 111
          ∷ 99 ∷ 107 ∷ 119 ∷ 97 ∷ 118 ∷ 101 ∷ 45 ∷ 102 ∷ 108 ∷ 97 ∷ 115 ∷ 104 ∷ [],
    )
    ∷ (ptype_xml, 116 ∷ 101 ∷ 120 ∷ 116 ∷ 47 ∷ 120 ∷ 109 ∷ 108 ∷ keep_alive)
    ∷ (ptype_css, 116 ∷ 101 ∷ 120 ∷ 116 ∷ 47 ∷ 99 ∷ 115 ∷ 115 ∷ [])
    ∷ (
      ptype_json,
      97 ∷ 112 ∷ 112 ∷ 108 ∷ 105 ∷ 99 ∷ 97 ∷ 116 ∷ 105 ∷ 111 ∷ 110 ∷ 47 ∷ 106 ∷ 115 ∷ 111 ∷ 110
          ∷ [],
    )
    ∷ (
      ptype_js,
      97 ∷ 112 ∷ 112 ∷ 108 ∷ 105 ∷ 99 ∷ 97 ∷ 116 ∷ 105 ∷ 111 ∷ 110 ∷ 47 ∷ 106 ∷ 97 ∷ 118 ∷ 97 ∷ 115
          ∷ 99 ∷ 114 ∷ 105 ∷ 112 ∷ 116 ∷ [],
    )
    ∷ (ptype_cgi, 116 ∷ 101 ∷ 120 ∷ 116 ∷ 47 ∷ 104 ∷ 116 ∷ 109 ∷ 108 ∷ [])
    ∷ (ptype_png, 105 ∷ 109 ∷ 97 ∷ 103 ∷ 101 ∷ 47 ∷ 112 ∷ 110 ∷ 103 ∷ [])
    ∷ (ptype_ico, 105 ∷ 109 ∷ 97 ∷ 103 ∷ 101 ∷ 47 ∷ 120 ∷ 45 ∷ 105 ∷ 99 ∷ 111 ∷ 110 ∷ [])
    ∷ (
      ptype_ttf,
      97 ∷ 112 ∷ 112 ∷ 108 ∷ 105 ∷ 99 ∷ 97 ∷ 116 ∷ 105 ∷ 111 ∷ 110 ∷ 47 ∷ 120 ∷ 45 ∷ 102 ∷ 111 ∷ 110
          ∷ 116 ∷ 45 ∷ 116 ∷ 114 ∷ 117 ∷ 101 ∷ 116 ∷ 121 ∷ 112 ∷ 101 ∷ [],
    )
    ∷ (
      ptype_otf,
      97 ∷ 112 ∷ 112 ∷ 108 ∷ 105 ∷ 99 ∷ 97 ∷ 116 ∷ 105 ∷ 111 ∷ 110 ∷ 47 ∷ 120 ∷ 45 ∷ 102 ∷ 111 ∷ 110
          ∷ 116 ∷ 45 ∷ 111 ∷ 112 ∷ 101 ∷ 110 ∷ 116 ∷ 121 ∷ 112 ∷ 101 ∷ [],
    )
    ∷ (
      ptype_woff,
      97 ∷ 112 ∷ 112 ∷ 108 ∷ 105 ∷ 99 ∷ 97 ∷ 116 ∷ 105 ∷ 111 ∷ 110 ∷ 47 ∷ 102 ∷ 111 ∷ 110 ∷ 116 ∷ 45
          ∷ 119 ∷ 111 ∷ 102 ∷ 102 ∷ [],
    )
    ∷ (
      ptype_eot,
      97 ∷ 112 ∷ 112 ∷ 108 ∷ 105 ∷ 99 ∷ 97 ∷ 116 ∷ 105 ∷ 111 ∷ 110 ∷ 47 ∷ 118 ∷ 110 ∷ 100 ∷ 46 ∷ 109
          ∷ 115 ∷ 45 ∷ 102 ∷ 111 ∷ 110 ∷ 116 ∷ 111 ∷ 98 ∷ 106 ∷ 101 ∷ 99 ∷ 116 ∷ [],
    )
    ∷ (ptype_svg, 105 ∷ 109 ∷ 97 ∷ 103 ∷ 101 ∷ 47 ∷ 115 ∷ 118 ∷ 103 ∷ 43 ∷ 120 ∷ 109 ∷ 108 ∷ [])
    ∷ []

abbrev pub lookup : List (ℕ × List ℕ) → ℕ → Option (List ℕ)
lookup [] type = none
lookup ((key, text) ∷ rows) type = if type == key then some text else lookup rows type

-- `none` for NULL
unfoldable pub response_head : ℕ → Option (List ℕ)
response_head type = elim (lookup mime_types type) [
  | none ↦ none
  | some mime ↦ some (head_start ++ mime ++ length_field)
]

-- The decimal digits; a number of `n` digits needs as many rounds.
unfoldable pub decimal : ℕ → ℕ → List ℕ
decimal zero v = []
decimal (suc n) v = elim (ltb v 10) [
  | true ↦ (48 + v) ∷ []
  | false ↦ decimal n (v / 10) ++ (48 + v % 10) ∷ []
]

-- "%ld" of a uint32_t on the target, where a long has 32 bits.
unfoldable pub print_ld : ℕ → List ℕ
print_ld len = if ltb len 2147483648 then decimal 10 len else 45 ∷ decimal 10 (4294967296 - len)

-- `none`: `head` is NULL, or `tmp`, which has 10 bytes, is too small for the digits and the 0.
unfoldable pub make_http_response_head : ℕ → ℕ → Option (List ℕ)
make_http_response_head type len = elim (response_head type) [
  | none ↦ none
  | some head ↦
      if leb 10 (length (print_ld len))
      then none
      else some (head ++ print_ld len ++ 13 ∷ 10 ∷ 13 ∷ 10 ∷ [])
]
