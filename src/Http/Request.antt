-- ===== src/Http/Request.antt =====
-- httpParser.c: parse_http_request(), mid() and get_http_param_value().
pub mod Parsing
pub mod Values
use x_wizchip_io_library_dri.Base.{
  ℕ, ◌+◌, ◌-◌, ◌%◌, ◌==◌, ltb, leb, ◌||◌, Bool, true, false, if◌then◌else◌, Option, none, some,
  List, [], ◌∷◌, length, take, drop,
}
use x_wizchip_io_library_dri.Http.Text.{strstr, strtok, same_text}
use x_wizchip_io_library_dri.Http.Url.{unescape_http_url, replacetochar}
use x_wizchip_io_library_dri.Http.Numbers.{atoi}

abbrev pub method_err : ℕ
method_err = 0

abbrev pub method_get : ℕ
method_get = 1

abbrev pub method_head : ℕ
method_head = 2

abbrev pub method_post : ℕ
method_post = 3

abbrev pub max_uri_size : ℕ
max_uri_size = 512

-- The fields of st_http_request that are set; `uri` is `none` where the function returns first.
pub record HttpRequest : Type 0 where
  pub method : ℕ
  pub uri : Option (List ℕ)

abbrev pub get_or_none : Option (List ℕ × List ℕ) → Option (List ℕ)
get_or_none none = none
get_or_none (some (tok, rest)) = some tok

-- strtok(NULL, "\0") gives the whole rest.
abbrev pub whole : List ℕ → Option (List ℕ)
whole [] = none
whole (x ∷ xs) = some (x ∷ xs)

-- The method of the first token, and what `nexttok` is then.
unfoldable pub method_of : List ℕ → List ℕ → ℕ × Option (List ℕ)
method_of tok rest =
    if same_text tok (71 ∷ 69 ∷ 84 ∷ []) || same_text tok (103 ∷ 101 ∷ 116 ∷ [])
    then (method_get, get_or_none (strtok (32 ∷ []) rest))
    else if same_text tok (72 ∷ 69 ∷ 65 ∷ 68 ∷ []) || same_text tok (104 ∷ 101 ∷ 97 ∷ 100 ∷ [])
    then (method_head, get_or_none (strtok (32 ∷ []) rest))
    else if same_text tok (80 ∷ 79 ∷ 83 ∷ 84 ∷ []) || same_text tok (112 ∷ 111 ∷ 115 ∷ 116 ∷ [])
    then (method_post, whole rest)
    else (method_err, some tok)

-- The end of the function. `none`: strcpy() writes behind URI.
unfoldable pub store : ℕ × Option (List ℕ) → Option HttpRequest
store (method, none) = some (record { method = method_err; uri = none })
store (method, some uri) =
    if leb max_uri_size (length uri)
    then none
    else some (record { method = method; uri = some uri })

unfoldable pub parse_http_request : List ℕ → Option HttpRequest
parse_http_request buf = elim (strtok (32 ∷ []) buf) [
  | none ↦ some (record { method = method_err; uri = none })
  | some (tok, rest) ↦ store (method_of tok rest)
]

-- `none`: one of the texts is not found, and NULL is used. Else what is written to `sub`.
unfoldable pub mid : List ℕ → List ℕ → List ℕ → Option (List ℕ)
mid src s1 s2 = elim (strstr src s1) [
  | none ↦ none
  | some at1 ↦
      let sub1 = drop (length s1) at1 in
      elim (strstr sub1 s2) [
        | none ↦ none
        | some sub2 ↦ some (take ((length sub1 - length sub2) % 65536) sub1)
      ]
]

-- "Content-Length: "
abbrev pub content_length : List ℕ
content_length =
    67 ∷ 111 ∷ 110 ∷ 116 ∷ 101 ∷ 110 ∷ 116 ∷ 45 ∷ 76 ∷ 101 ∷ 110 ∷ 103 ∷ 116 ∷ 104 ∷ 58 ∷ 32 ∷ []

-- `pos2 - name`: up to the next `&`, or all of it
abbrev pub value_text : List ℕ → List ℕ
value_text name = elim (strstr name (38 ∷ [])) [
  | none ↦ name
  | some pos2 ↦ take (length name - length pos2) name
]

-- The C string in a buffer ends at the first 0.
unfoldable pub c_string : List ℕ → List ℕ
c_string [] = []
c_string (x ∷ xs) = let rest = c_string xs in if x == 0 then [] else x ∷ rest

-- The value in BUFPUB, which has 256 bytes.
unfoldable pub decode_value : List ℕ → Option (List ℕ)
decode_value value = if leb 256 (length value) then none else elim (unescape_http_url value) [
  | none ↦ none
  | some text ↦ some (replacetochar (c_string text) 43 32)
]

-- In the body: `some none` for the result NULL.
unfoldable pub find_param : List ℕ → List ℕ → Option (Option (List ℕ))
find_param body param_name = elim (strstr body param_name) [
  | none ↦ some none
  | some name ↦
      if ltb (length param_name) (length name)
      then elim (decode_value (value_text (drop (length param_name + 1) name))) [
        | none ↦ none
        | some text ↦ some (some text)
      ]
      else none
]

-- `none`: a header is missing and NULL is used, or a write outside a text: `tmp_buf` has 10 bytes,
-- and the body is cut at the length that the request states.
unfoldable pub get_http_param_value : List ℕ → List ℕ → Option (Option (List ℕ))
get_http_param_value uri param_name = elim (mid uri content_length (13 ∷ 10 ∷ [])) [
  | none ↦ none
  | some digits ↦
      if leb 10 (length digits) then none else elim (strstr uri (13 ∷ 10 ∷ 13 ∷ 10 ∷ [])) [
        | none ↦ none
        | some blank_line ↦
            let body = drop 4 blank_line in
            let content_len = atoi digits 10 in
            if ltb (length body) content_len
            then none
            else find_param (take content_len body) param_name
      ]
]
