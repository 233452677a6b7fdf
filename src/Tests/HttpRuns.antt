-- ===== src/Tests/HttpRuns.antt =====
-- Concrete texts of HTTP.
use x_wizchip_io_library_dri.Base.{
  ℕ, ◌<◌, ◌≤◌, ◌≡◌, ◌⊎◌, inl, refl, ap, none, some, List, [], ◌∷◌, length, replicate, arith,
}
use x_wizchip_io_library_dri.Http.Url.{unescape_http_url, replacetochar, get_http_uri_name}
use x_wizchip_io_library_dri.Http.Url.Decoding.{
  Encodes, nothing, plain, coded, unescape_http_url-Encodes,
}
use x_wizchip_io_library_dri.Http.Numbers.{inet_addr}
use x_wizchip_io_library_dri.Http.Numbers.Values.{dotted, inet_addr-dotted}
use x_wizchip_io_library_dri.Http.Pages.{ptype_err, find_http_uri_type, make_http_response_head}
use x_wizchip_io_library_dri.Http.Pages.Heads.{IsHead, make_http_response_head-IsHead}
use x_wizchip_io_library_dri.Http.Content.{WebContent, send_http_response_body}
use x_wizchip_io_library_dri.Http.Content.Parts.{idle_socket}
use x_wizchip_io_library_dri.Http.Content.Transfer.{Delivers, send_http_response_body-Delivers}
use x_wizchip_io_library_dri.Http.Request.{
  method_head, method_post, parse_http_request, get_http_param_value,
}
use x_wizchip_io_library_dri.Http.Request.Parsing.{
  head_lower, post, stored, parse_http_request-page,
}
use x_wizchip_io_library_dri.Http.Request.Values.{at_next, post_of, get_http_param_value-Encodes}

-- A computed length is below a bound that its value is below.
below : (n m : ℕ) → m ≡ n → n < 4294967296 → m < 4294967296
below n m e h = omega arith

-- "a b" as "a%20b"
encoded : Encodes (97 ∷ 32 ∷ 98 ∷ []) (97 ∷ 37 ∷ 50 ∷ 48 ∷ 98 ∷ [])
encoded =
    plain 97 refl
      (coded 2 0 50 48 (inl (omega arith, refl)) (inl (omega arith, refl)) (plain 98 refl nothing))

unescape_http_url-Encodes_example :
    (unescape_http_url (97 ∷ 37 ∷ 50 ∷ 48 ∷ 98 ∷ []) ≡ some (97 ∷ 32 ∷ 98 ∷ []))
    × (unescape_http_url (97 ∷ 37 ∷ 50 ∷ 48 ∷ 98 ∷ 37 ∷ []) ≡ none)
    × (unescape_http_url (97 ∷ 37 ∷ 50 ∷ 48 ∷ 98 ∷ 37 ∷ 52 ∷ []) ≡ none)
unescape_http_url-Encodes_example =
    unescape_http_url-Encodes (97 ∷ 32 ∷ 98 ∷ []) (97 ∷ 37 ∷ 50 ∷ 48 ∷ 98 ∷ []) 52 encoded

-- 10.0.0.300, whose last number is 44 in 8 bits
abbrev some_address : List ℕ
some_address = dotted (1 ∷ 0 ∷ []) (0 ∷ []) (0 ∷ []) (3 ∷ 0 ∷ 0 ∷ [])

cons-filled : (x : ℕ) (xs : List ℕ) → ¬ ((x ∷ xs) ≡ [])
cons-filled x xs e = let n : length (x ∷ xs) ≡ length {A = ℕ} [] = ap length e in omega (arith, n)

inet_addr-dotted_example :
    ((length some_address < 30) → inet_addr some_address ≡ some (10 ∷ 0 ∷ 0 ∷ 44 ∷ []))
    × ((30 ≤ length some_address) → inet_addr some_address ≡ none)
inet_addr-dotted_example =
    inet_addr-dotted (1 ∷ 0 ∷ []) (0 ∷ []) (0 ∷ []) (3 ∷ 0 ∷ 0 ∷ [])
      (cons-filled 1 (0 ∷ []), (omega arith, (omega arith, tt)))
      (cons-filled 0 [], (omega arith, tt)) (cons-filled 0 [], (omega arith, tt))
      (cons-filled 3 (0 ∷ 0 ∷ []), (omega arith, (omega arith, (omega arith, tt))))

-- ".gif"
abbrev gif : List ℕ
gif = 46 ∷ 103 ∷ 105 ∷ 102 ∷ []

make_http_response_head-IsHead_example :
    ((find_http_uri_type gif ≡ ptype_err)
      ⊎ ((1234 < 1000000000)
          → IsHead
              (find_http_uri_type gif)
              1234
              (make_http_response_head (find_http_uri_type gif) 1234)))
    × (make_http_response_head ptype_err 1234 ≡ none)
    × ((1000000000 ≤ 1234) → make_http_response_head (find_http_uri_type gif) 1234 ≡ none)
make_http_response_head-IsHead_example = make_http_response_head-IsHead gif 1234 (omega arith)

-- "head /a c", "head /a?b c" and "POST /a c"
parse_http_request-page_example :
    (parse_http_request (104 ∷ 101 ∷ 97 ∷ 100 ∷ 32 ∷ 47 ∷ 97 ∷ 32 ∷ 99 ∷ [])
      ≡ stored method_head (47 ∷ 97 ∷ []))
    × (parse_http_request (104 ∷ 101 ∷ 97 ∷ 100 ∷ 32 ∷ 47 ∷ 97 ∷ 63 ∷ 98 ∷ 32 ∷ 99 ∷ [])
        ≡ stored method_head (47 ∷ 97 ∷ 63 ∷ 98 ∷ []))
    × (get_http_uri_name (47 ∷ 97 ∷ 63 ∷ 98 ∷ []) ≡ some (97 ∷ []))
    × (parse_http_request (80 ∷ 79 ∷ 83 ∷ 84 ∷ 32 ∷ 47 ∷ 97 ∷ 32 ∷ 99 ∷ [])
        ≡ stored method_post (47 ∷ 97 ∷ 32 ∷ 99 ∷ []))
    × (get_http_uri_name (47 ∷ 97 ∷ 32 ∷ 99 ∷ []) ≡ some (97 ∷ []))
    × (get_http_uri_name (47 ∷ 97 ∷ []) ≡ some (97 ∷ []))
parse_http_request-page_example =
    parse_http_request-page (104 ∷ 101 ∷ 97 ∷ 100 ∷ []) (80 ∷ 79 ∷ 83 ∷ 84 ∷ []) (97 ∷ []) (98 ∷ [])
      (99 ∷ []) method_head head_lower post (refl, tt) (refl, tt)

-- "/c" with the body "y&x=a%20b&z"
get_http_param_value-Encodes_example :
    get_http_param_value
      (post_of
        (47 ∷ 99 ∷ [])
        (1 ∷ 1 ∷ [])
        (121 ∷ 38 ∷ 120 ∷ 61 ∷ 97 ∷ 37 ∷ 50 ∷ 48 ∷ 98 ∷ 38 ∷ 122 ∷ []))
      (120 ∷ [])
    ≡ some (some (97 ∷ 32 ∷ 98 ∷ []))
unfolding replacetochar
get_http_param_value-Encodes_example =
    get_http_param_value-Encodes (47 ∷ 99 ∷ []) (1 ∷ 1 ∷ []) (121 ∷ 38 ∷ []) [] (97 ∷ 32 ∷ 98 ∷ [])
      (97 ∷ 37 ∷ 50 ∷ 48 ∷ 98 ∷ []) (38 ∷ 122 ∷ []) 120 (refl, (refl, tt)) (refl, (refl, tt))
      (omega arith, (omega arith, tt)) (omega arith) refl (omega arith) (refl, (refl, tt)) encoded
      (refl, (refl, (refl, tt))) (omega arith) (refl, (refl, (refl, (refl, (refl, tt)))))
      (at_next (122 ∷ []))

-- A page of 300 bytes, which goes out in two parts.
abbrev some_page : WebContent
some_page = record { content_name = 97 ∷ []; content_len = 300; content = replicate 300 65 }

send_http_response_body-Delivers_example :
    Delivers
      (some_page ∷ [])
      some_page
      (send_http_response_body (some_page ∷ []) (97 ∷ []) [] 0 300 (idle_socket []))
send_http_response_body-Delivers_example =
    send_http_response_body-Delivers (some_page ∷ []) some_page 0 [] (97 ∷ []) [] refl (omega arith)
      (omega arith) refl (below 300 (length some_page.content) refl (omega arith)) (omega arith)
