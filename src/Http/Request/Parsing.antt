-- ===== src/Http/Request/Parsing.antt =====
-- What parse_http_request() and get_http_uri_name() make of request lines.
use x_wizchip_io_library_dri.Base.{
  ℕ, leb, ◌≡◌, refl, if◌then◌else◌, true, Option, none, some, List, [], ◌∷◌, ◌++◌, length, All,
  All-append, arith,
}
use x_wizchip_io_library_dri.Http.Text.{one_of, same_text, strtok}
use x_wizchip_io_library_dri.Http.Text.Tokens.{IsFree, strtok-append, strtok_end}
use x_wizchip_io_library_dri.Http.Url.{get_http_uri_name}
use x_wizchip_io_library_dri.Http.Request.{
  HttpRequest, method_of, method_get, method_head, method_post, max_uri_size, parse_http_request,
  store, get_or_none, whole,
}

-- The lines "GET /name?query " and "HEAD /name ", and what stands behind them.
pub data Asks : List ℕ → ℕ → Type 0 where
  get : Asks (71 ∷ 69 ∷ 84 ∷ []) method_get
  get_lower : Asks (103 ∷ 101 ∷ 116 ∷ []) method_get
  head : Asks (72 ∷ 69 ∷ 65 ∷ 68 ∷ []) method_head
  head_lower : Asks (104 ∷ 101 ∷ 97 ∷ 100 ∷ []) method_head

pub data Posts : List ℕ → Type 0 where
  post : Posts (80 ∷ 79 ∷ 83 ∷ 84 ∷ [])
  post_lower : Posts (112 ∷ 111 ∷ 115 ∷ 116 ∷ [])

method_of-Asks :
    (word : List ℕ) (method : ℕ) (rest : List ℕ)
    → Asks word method
    → method_of word rest ≡ (method, get_or_none (strtok (32 ∷ []) rest))
unfolding method_of same_text
method_of-Asks word method rest get = refl
method_of-Asks word method rest get_lower = refl
method_of-Asks word method rest head = refl
method_of-Asks word method rest head_lower = refl

strtok-Asks :
    (word : List ℕ) (method : ℕ) (rest : List ℕ)
    → Asks word method
    → strtok (32 ∷ []) (word ++ 32 ∷ rest) ≡ some (word, rest)
unfolding strtok x_wizchip_io_library_dri.Http.Text.token
strtok-Asks word method rest get = refl
strtok-Asks word method rest get_lower = refl
strtok-Asks word method rest head = refl
strtok-Asks word method rest head_lower = refl

method_of-Posts :
    (word rest : List ℕ) → Posts word → method_of word rest ≡ (method_post, whole rest)
unfolding method_of same_text
method_of-Posts word rest post = refl
method_of-Posts word rest post_lower = refl

strtok-Posts :
    (word : List ℕ) (rest : List ℕ)
    → Posts word
    → strtok (32 ∷ []) (word ++ 32 ∷ rest) ≡ some (word, rest)
unfolding strtok x_wizchip_io_library_dri.Http.Text.token
strtok-Posts word rest post = refl
strtok-Posts word rest post_lower = refl

-- A text of more than one byte without spaces.
abbrev pub IsWord : List ℕ → Type 0
IsWord [] = ⊥
IsWord (x ∷ xs) = All (IsFree (32 ∷ [])) (x ∷ xs)

-- What strcpy() to the array URI leaves, and `none` for a text that is too long.
abbrev pub stored : ℕ → List ℕ → Option HttpRequest
stored method uri =
    if leb max_uri_size (length uri)
    then none
    else some (record { method = method; uri = some uri })

pub parse-Asks :
    (word uri rest : List ℕ) (method : ℕ)
    → Asks word method
    → IsWord uri
    → parse_http_request (word ++ 32 ∷ (uri ++ 32 ∷ rest)) ≡ stored method uri
unfolding parse_http_request store
parse-Asks word [] rest method asks free = elim free [ ]
parse-Asks word (x ∷ uri) rest method asks free =
    let first = strtok-Asks word method (x ∷ uri ++ 32 ∷ rest) asks in
    let next = strtok-append (32 ∷ []) x uri 32 rest free refl in
    let is_asked = method_of-Asks word method (x ∷ uri ++ 32 ∷ rest) asks in
    rw (first, is_asked, next, parse_http_request) refl

parse-Posts :
    (word rest : List ℕ) (x : ℕ)
    → Posts word
    → parse_http_request (word ++ 32 ∷ x ∷ rest) ≡ stored method_post (x ∷ rest)
unfolding parse_http_request store
parse-Posts word rest x posts =
    rw
      (
        strtok-Posts word (x ∷ rest) posts,
        method_of-Posts word (x ∷ rest) posts,
        parse_http_request,
      )
      refl

-- The page of a path: what stands behind the `/`, or the `/` alone.
abbrev pub page_of : List ℕ → List ℕ
page_of [] = 47 ∷ []
page_of (x ∷ xs) = x ∷ xs

pub page_lem :
    (name : List ℕ) (d : ℕ) (rest : List ℕ)
    → All (IsFree (32 ∷ 63 ∷ [])) name
    → one_of (32 ∷ 63 ∷ []) d ≡ true
    → get_http_uri_name (47 ∷ name ++ d ∷ rest) ≡ some (page_of name)
unfolding get_http_uri_name same_text
page_lem [] d rest h e =
    rw (strtok-append (32 ∷ 63 ∷ []) 47 [] d rest (refl, tt) e, get_http_uri_name) refl
page_lem (x ∷ name) d rest h e =
    rw (strtok-append (32 ∷ 63 ∷ []) 47 (x ∷ name) d rest (refl, h) e, get_http_uri_name) refl

pub page_end :
    (name : List ℕ)
    → All (IsFree (32 ∷ 63 ∷ [])) name
    → get_http_uri_name (47 ∷ name) ≡ some (page_of name)
unfolding get_http_uri_name same_text
page_end [] h = rw (strtok_end (32 ∷ 63 ∷ []) 47 [] (refl, tt), get_http_uri_name) refl
page_end (x ∷ name) h =
    rw (strtok_end (32 ∷ 63 ∷ []) 47 (x ∷ name) (refl, h), get_http_uri_name) refl

pub no_spaces : (name : List ℕ) → All (IsFree (32 ∷ 63 ∷ [])) name → All (IsFree (32 ∷ [])) name
no_spaces [] h = tt
no_spaces (x ∷ name) (h, hs) = (ground arith, no_spaces name hs)

-- For "GET /name rest", "GET /name?query rest" and the same with HEAD, in capitals or in small letters,
-- where the name has no space and no ? and the query no space, parse_http_request() stores the method
-- and the path with its query, if it has one, of which get_http_uri_name() gives the name, or "/" where
-- it is empty. For "POST /name rest" it stores all of "/name rest", of which get_http_uri_name() gives
-- the name too. In each case a text that has 512 bytes or more runs over the array for the path.
pub parse_http_request-page :
    (word posting name query rest : List ℕ) (method : ℕ)
    → Asks word method
    → Posts posting
    → All (IsFree (32 ∷ 63 ∷ [])) name
    → All (IsFree (32 ∷ [])) query
    → (parse_http_request (word ++ 32 ∷ ((47 ∷ name) ++ 32 ∷ rest)) ≡ stored method (47 ∷ name))
      × (parse_http_request (word ++ 32 ∷ ((47 ∷ name ++ 63 ∷ query) ++ 32 ∷ rest))
          ≡ stored method (47 ∷ name ++ 63 ∷ query))
      × (get_http_uri_name (47 ∷ name ++ 63 ∷ query) ≡ some (page_of name))
      × (parse_http_request (posting ++ 32 ∷ (47 ∷ name ++ 32 ∷ rest))
          ≡ stored method_post (47 ∷ name ++ 32 ∷ rest))
      × (get_http_uri_name (47 ∷ name ++ 32 ∷ rest) ≡ some (page_of name))
      × (get_http_uri_name (47 ∷ name) ≡ some (page_of name))
parse_http_request-page word posting name query rest method asks posts named free =
    let word_of =
      All-append (IsFree (32 ∷ [])) name (63 ∷ query) (no_spaces name named) (refl, free) in
    (
      parse-Asks word (47 ∷ name) rest method asks (refl, no_spaces name named),
      parse-Asks word (47 ∷ name ++ 63 ∷ query) rest method asks (refl, word_of),
      page_lem name 63 query named refl,
      parse-Posts posting (name ++ 32 ∷ rest) 47 posts,
      page_lem name 32 rest named refl,
      page_end name named,
    )
