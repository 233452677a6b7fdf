-- ===== src/Http/Request/Values.antt =====
-- The values that get_http_param_value() finds in the body of a form.
use x_wizchip_io_library_dri.Base.{
  ℕ, suc, ◌+◌, ◌-◌, ◌%◌, ◌==◌, ◌≡◌, ◌<◌, ltb, leb, refl, ◌∙◌, true, false, some, List, [], ◌∷◌,
  ◌++◌, length, length-append, drop, take-append, drop-append, All, arith,
}
use mathlib.Core.List.{append-nil}
use x_wizchip_io_library_dri.Http.Text.{strstr}
use x_wizchip_io_library_dri.Http.Text.Search.{Differs, strstr-append, strstr-skip}
use x_wizchip_io_library_dri.Http.Content.Lists.{take_all}
use x_wizchip_io_library_dri.Http.Url.{replacetochar}
use x_wizchip_io_library_dri.Http.Url.Decoding.{Encodes, unescape_http_url-Encodes}
use x_wizchip_io_library_dri.Http.Numbers.{atoi}
use x_wizchip_io_library_dri.Http.Numbers.Values.{text_of, value, IsDigit, atoi_lem}
use x_wizchip_io_library_dri.Http.Request.{
  c_string, decode_value, mid, value_text, find_param, content_length, get_http_param_value,
}

drop_past : (xs : List ℕ) (y : ℕ) (ys : List ℕ) → drop (suc (length xs)) (xs ++ y ∷ ys) ≡ ys
drop_past [] y ys = refl
drop_past (x ∷ xs) y ys = drop_past xs y ys

-- mid() gives what stands between the two texts.
mid_lem :
    (src s1 s2 xs sub2 : List ℕ)
    → strstr src s1 ≡ some (s1 ++ (xs ++ sub2))
    → strstr (xs ++ sub2) s2 ≡ some sub2
    → length xs < 65536
    → mid src s1 s2 ≡ some xs
unfolding mid
mid_lem src s1 s2 xs sub2 at1 at2 fits =
    let n : (length (xs ++ sub2) - length sub2) % 65536 ≡ length xs =
      omega (arith, length-append xs sub2) in
    let past = drop-append s1 (xs ++ sub2) in
    rw (at1, past, at2, past, n, take-append xs sub2, mid) refl

-- Behind a value there is nothing, or the next parameter.
pub data Ends : List ℕ → Type 0 where
  at_end : Ends []
  at_next : (more : List ℕ) → Ends (38 ∷ more)

value_text-Ends :
    (url behind : List ℕ) → All (Differs 38) url → Ends behind → value_text (url ++ behind) ≡ url
unfolding strstr x_wizchip_io_library_dri.Http.Text.is_prefix
value_text-Ends url behind h at_end = rw (strstr-skip url [] 38 [] h, value_text) (append-nil url)
value_text-Ends url behind h (at_next more) =
    let n : length (url ++ 38 ∷ more) - length (38 ∷ more) ≡ length url =
      omega (arith, length-append url (38 ∷ more)) in
    rw (strstr-skip url (38 ∷ more) 38 [] h, n, value_text) (take-append url (38 ∷ more))

abbrev pub IsText : List ℕ → Type 0
IsText text = All (Differs 0) text

c_string-IsText : (text : List ℕ) → IsText text → c_string text ≡ text
unfolding c_string
c_string-IsText [] h = refl
c_string-IsText (x ∷ text) (h, hs) =
    let e : (x == 0) ≡ false = ground (arith, h) in rw (e, c_string-IsText text hs) refl

decode_value-Encodes :
    (text url : List ℕ)
    → Encodes text url
    → IsText text
    → length url < 256
    → decode_value url ≡ some (replacetochar text 43 32)
unfolding decode_value
decode_value-Encodes text url enc h fits =
    let e : leb 256 (length url) ≡ false = ground arith in
    rw (e, (unescape_http_url-Encodes text url 0 enc).0, c_string-IsText text h, decode_value) refl

find_param-Encodes :
    (before key text url behind : List ℕ) (k : ℕ)
    → All (Differs k) before
    → Encodes text url
    → IsText text
    → length url < 256
    → All (Differs 38) url
    → Ends behind
    → find_param (before ++ ((k ∷ key) ++ (61 ∷ (url ++ behind)))) (k ∷ key)
      ≡ some (some (replacetochar text 43 32))
unfolding find_param
find_param-Encodes before key text url behind k first enc h fits no_amp ends =
    let name = (k ∷ key) ++ (61 ∷ (url ++ behind)) in
    let found =
      strstr-skip before name k key first ∙ strstr-append (k ∷ key) (61 ∷ (url ++ behind)) in
    let inside : ltb (length (k ∷ key)) (length name) ≡ true =
      ground (arith, length-append (k ∷ key) (61 ∷ (url ++ behind))) in
    let n : length (k ∷ key) + 1 ≡ suc (length (k ∷ key)) = omega arith in
    rw
      (
        found,
        inside,
        n,
        drop_past (k ∷ key) 61 (url ++ behind),
        value_text-Ends url behind no_amp ends,
        decode_value-Encodes text url enc h fits,
        find_param,
      )
      refl

digits-Differ : (p : ℕ) (ds : List ℕ) → p < 48 → All (Differs p) (text_of ds)
digits-Differ p [] h = tt
digits-Differ p (d ∷ ds) h = (ground arith, digits-Differ p ds h)

length-text_of : (ds : List ℕ) → length (text_of ds) ≡ length ds
length-text_of [] = refl
length-text_of (d ∷ ds) = omega (arith, length-text_of ds)

abbrev pub blank_line : List ℕ
blank_line = 13 ∷ 10 ∷ 13 ∷ 10 ∷ []

-- A line end is no blank line where a letter follows.
blank-content_length :
    (rest : List ℕ)
    → strstr (13 ∷ 10 ∷ (content_length ++ rest)) (13 ∷ 10 ∷ 13 ∷ 10 ∷ [])
      ≡ strstr rest (13 ∷ 10 ∷ 13 ∷ 10 ∷ [])
unfolding strstr x_wizchip_io_library_dri.Http.Text.is_prefix
blank-content_length rest = refl

line-content_length :
    (rest : List ℕ)
    → strstr (13 ∷ 10 ∷ (content_length ++ rest)) content_length ≡ some (content_length ++ rest)
unfolding strstr x_wizchip_io_library_dri.Http.Text.is_prefix
line-content_length rest = refl

-- A request line, the header Content-Length, an empty line and the body.
abbrev pub post_of : List ℕ → List ℕ → List ℕ → List ℕ
post_of start ds body =
    start ++ (13 ∷ 10 ∷ (content_length ++ (text_of ds ++ (13 ∷ 10 ∷ 13 ∷ 10 ∷ body))))

-- What the length leads get_http_param_value() to.
get_http_param_value-post :
    (start ds body param : List ℕ)
    → All (Differs 67) start
    → All (Differs 13) start
    → All IsDigit ds
    → length ds < 10
    → value 0 ds ≡ length body
    → length body < 65536
    → get_http_param_value (post_of start ds body) param ≡ find_param body param
unfolding get_http_param_value
get_http_param_value-post start ds body param no_c no_cr digits few is_len fits =
    let tail = text_of ds ++ (13 ∷ 10 ∷ 13 ∷ 10 ∷ body) in
    let line = 13 ∷ 10 ∷ (content_length ++ tail) in
    let no_cr_digits = digits-Differ 13 ds (omega arith) in
    let at_length : strstr (post_of start ds body) content_length ≡ some (content_length ++ tail) =
      strstr-skip start line 67 _ no_c ∙ line-content_length tail in
    let at_line : strstr tail (13 ∷ 10 ∷ []) ≡ some (13 ∷ 10 ∷ 13 ∷ 10 ∷ body) =
      strstr-skip (text_of ds) (13 ∷ 10 ∷ 13 ∷ 10 ∷ body) 13 (10 ∷ []) no_cr_digits
      ∙ strstr-append (13 ∷ 10 ∷ []) (13 ∷ 10 ∷ body) in
    let at_body : strstr (post_of start ds body) blank_line ≡ some (blank_line ++ body) =
      strstr-skip start line 13 _ no_cr
      ∙ blank-content_length tail
      ∙ strstr-skip (text_of ds) (13 ∷ 10 ∷ 13 ∷ 10 ∷ body) 13 _ no_cr_digits
      ∙ strstr-append blank_line body in
    let size = length-text_of ds in
    let number =
      mid_lem (post_of start ds body) content_length (13 ∷ 10 ∷ []) (text_of ds) _ at_length at_line
        (omega (arith, size)) in
    let small : leb 10 (length (text_of ds)) ≡ false = ground (arith, size) in
    let len : atoi (text_of ds) 10 ≡ length body = omega (arith, atoi_lem ds digits) in
    let inside : ltb (length body) (length body) ≡ false = ground arith in
    rw (number, small, at_body, len, inside, take_all body, get_http_param_value) refl

-- In the body, of less than 65536 bytes, of a POST whose request line has no C and no CR, which has one
-- header, the Content-Length with the length of the body in at most 9 digits, get_http_param_value()
-- finds the first parameter whose name begins with a byte that is not in the body before it: where
-- its value is an encoded text of less than 256 bytes, without & and whose text is without 0, up to a
-- & or the end of the body, it gives the text with each + that it has made a space.
pub get_http_param_value-Encodes :
    (start ds before key text url behind : List ℕ) (k : ℕ)
    → All (Differs 67) start
    → All (Differs 13) start
    → All IsDigit ds
    → length ds < 10
    → value 0 ds ≡ length (before ++ ((k ∷ key) ++ (61 ∷ (url ++ behind))))
    → length (before ++ ((k ∷ key) ++ (61 ∷ (url ++ behind)))) < 65536
    → All (Differs k) before
    → Encodes text url
    → IsText text
    → length url < 256
    → All (Differs 38) url
    → Ends behind
    → get_http_param_value
        (post_of start ds (before ++ ((k ∷ key) ++ (61 ∷ (url ++ behind)))))
        (k ∷ key)
      ≡ some (some (replacetochar text 43 32))
get_http_param_value-Encodes start ds before key text url behind k no_c no_cr digits few is_len fits
      first enc h short no_amp ends =
    get_http_param_value-post start ds (before ++ ((k ∷ key) ++ (61 ∷ (url ++ behind)))) (k ∷ key)
      no_c no_cr digits few is_len fits
    ∙ find_param-Encodes before key text url behind k first enc h short no_amp ends
