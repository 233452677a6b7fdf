-- ===== src/Http/Url/Decoding.antt =====
-- What unescape_http_url() makes of encoded texts.
use x_wizchip_io_library_dri.Base.{
  ℕ, ◌+◌, ◌*◌, ◌%◌, ◌<◌, ◌≤◌, ◌≡◌, ◌⊎◌, inl, inr, refl, ◌∙◌, ap, ◌==◌, false, none, some, List, [],
  ◌∷◌, ◌++◌, arith,
}
use x_wizchip_io_library_dri.Http.Url.{c2d, prepend, unescape_http_url}

-- `c` is the digit `d`, in either case.
abbrev pub IsHexDigit : ℕ → ℕ → Type 0
IsHexDigit c d =
    ((d < 10) × (c ≡ 48 + d))
    ⊎ (((10 ≤ d) × (d < 16) × (c ≡ 55 + d)) ⊎ ((10 ≤ d) × (d < 16) × (c ≡ 87 + d)))

-- `Encodes text url`: each byte of the text stands for itself, unless it is `%`, or as `%XX`.
pub data Encodes : List ℕ → List ℕ → Type 0 where
  nothing : Encodes [] []
  plain :
      {text url : List ℕ} (c : ℕ)
      → (c == 37) ≡ false
      → Encodes text url
      → Encodes (c ∷ text) (c ∷ url)
  coded :
      {text url : List ℕ} (hi lo a b : ℕ)
      → IsHexDigit a hi
      → IsHexDigit b lo
      → Encodes text url
      → Encodes ((hi * 16 + lo) ∷ text) (37 ∷ a ∷ b ∷ url)

c2d-IsHexDigit : (c d : ℕ) → IsHexDigit c d → (c2d c ≡ d) × (d < 16)
unfolding c2d
c2d-IsHexDigit c d (inl (h, e)) = ground arith
c2d-IsHexDigit c d (inr (inl (h, h', e))) = ground arith
c2d-IsHexDigit c d (inr (inr (h, h', e))) = ground arith

unescape_plain :
    (c : ℕ) (url : List ℕ)
    → (c == 37) ≡ false
    → unescape_http_url (c ∷ url) ≡ prepend c (unescape_http_url url)
unfolding unescape_http_url
unescape_plain c [] e = rw (e, unescape_http_url) refl
unescape_plain c (a ∷ []) e = rw (e, unescape_http_url) refl
unescape_plain c (a ∷ b ∷ url) e = rw (e, unescape_http_url) refl

unescape_coded :
    (hi lo a b : ℕ) (url : List ℕ)
    → IsHexDigit a hi
    → IsHexDigit b lo
    → unescape_http_url (37 ∷ a ∷ b ∷ url) ≡ prepend (hi * 16 + lo) (unescape_http_url url)
unfolding unescape_http_url
unescape_coded hi lo a b url h k =
    let (ea, sa) = c2d-IsHexDigit a hi h in
    let (eb, sb) = c2d-IsHexDigit b lo k in
    let e : (c2d a * 16 + c2d b) % 256 ≡ hi * 16 + lo = omega (arith, ea, eb) in
    ap (λ v. prepend v (unescape_http_url url)) e

-- Behind an encoded text the rest is decoded on its own.
unescape-append :
    {text url : List ℕ} (rest : List ℕ)
    → Encodes text url
    → unescape_http_url rest ≡ none
    → unescape_http_url (url ++ rest) ≡ none
unescape-append rest nothing e = e
unescape-append rest (plain {text = text} {url = url} c h enc) e =
    unescape_plain c (url ++ rest) h ∙ ap (prepend c) (unescape-append rest enc e)
unescape-append rest (coded {text = text} {url = url} hi lo a b ha hb enc) e =
    unescape_coded hi lo a b (url ++ rest) ha hb
    ∙ ap (prepend (hi * 16 + lo)) (unescape-append rest enc e)

decodes : {text url : List ℕ} → Encodes text url → unescape_http_url url ≡ some text
unfolding unescape_http_url
decodes nothing = refl
decodes (plain {text = text} {url = url} c h enc) =
    unescape_plain c url h ∙ ap (prepend c) (decodes enc)
decodes (coded {text = text} {url = url} hi lo a b ha hb enc) =
    unescape_coded hi lo a b url ha hb ∙ ap (prepend (hi * 16 + lo)) (decodes enc)

-- Where each byte of a text stands for itself or as `%XX`, with digits of either case, unescape_http_url()
-- gives the text; with a `%` at the end, or a `%` and one character, it reads behind the end.
pub unescape_http_url-Encodes :
    (text url : List ℕ) (a : ℕ)
    → Encodes text url
    → (unescape_http_url url ≡ some text)
      × (unescape_http_url (url ++ 37 ∷ []) ≡ none)
      × (unescape_http_url (url ++ 37 ∷ a ∷ []) ≡ none)
unfolding unescape_http_url
unescape_http_url-Encodes text url a enc =
    (decodes enc, unescape-append (37 ∷ []) enc refl, unescape-append (37 ∷ a ∷ []) enc refl)
