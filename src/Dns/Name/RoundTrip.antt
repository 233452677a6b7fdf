-- ===== src/Dns/Name/RoundTrip.antt =====
-- Names as dns_makequery() writes them and parse_name() reads them.
use x_wizchip_io_library_dri.Base.{
  ℕ, zero, suc, ◌+◌, ◌-◌, ◌%◌, ◌<◌, ◌≤◌, ◌≡◌, ◌≢◌, refl, sym, ap, ◌∙◌, ◌==◌, ltb, not, bit_and,
  Bool, true, false, none, some, List, [], ◌∷◌, ◌++◌, length, length-append, All, arith,
}
use x_wizchip_io_library_dri.Base.Bits.{all_below, all_below_sound}
use x_wizchip_io_library_dri.Dns.Name.{ok, ◌>>=◌, byte_at, bytes_at, head_at, name_end, parse_loop}
use x_wizchip_io_library_dri.Dns.Query.{component, behind_dot, write_name}

-- The components of a domain name: not empty, without a dot, and short enough.
abbrev pub IsLabel : List ℕ → Type 0
IsLabel l = (0 < length l) × (length l < 64) × All (λ x. x ≢ 46) l

-- a.b.c
abbrev pub dotted : List ℕ → List (List ℕ) → List ℕ
dotted l [] = l
dotted l (k ∷ ks) = l ++ 46 ∷ dotted k ks

-- The bytes on the wire: each component behind its length, and 0.
abbrev pub wire : List (List ℕ) → List ℕ
wire [] = 0 ∷ []
wire (l ∷ ls) = length l ∷ l ++ wire ls

-- a.b.c.
abbrev pub dots : List (List ℕ) → List ℕ
dots [] = []
dots (l ∷ ls) = l ++ 46 ∷ dots ls

pub append_assoc : (xs ys zs : List ℕ) → (xs ++ ys) ++ zs ≡ xs ++ (ys ++ zs)
append_assoc [] ys zs = refl
append_assoc (x ∷ xs) ys zs = ap (λ l. x ∷ l) (append_assoc xs ys zs)

pub byte_at_pre : (pre post : List ℕ) (x : ℕ) → byte_at (pre ++ x ∷ post) (length pre) ≡ ok x
unfolding byte_at
byte_at_pre [] post x = refl
byte_at_pre (y ∷ pre) post x = byte_at_pre pre post x

pub bytes_at_pre :
    (msg pre seg post : List ℕ)
    → msg ≡ pre ++ (seg ++ post)
    → bytes_at msg (length pre) (length seg) ≡ ok seg
unfolding bytes_at
bytes_at_pre msg pre [] post e = refl
bytes_at_pre msg pre (x ∷ seg) post e =
    let here : byte_at msg (length pre) ≡ ok x = rw e (byte_at_pre pre (seg ++ post) x) in
    let long : length (pre ++ x ∷ []) ≡ suc (length pre) =
      ground (arith, length-append pre (x ∷ [])) in
    let rest : bytes_at msg (length (pre ++ x ∷ [])) (length seg) ≡ ok seg =
      bytes_at_pre msg (pre ++ x ∷ []) seg post
        (e ∙ sym (append_assoc pre (x ∷ []) (seg ++ post))) in
    rw (here, sym long, rest) refl

long_enough : ℕ → Bool
long_enough k = not (bit_and k 0xc0 == 0xc0)

length_table : all_below 64 long_enough ≡ true
unfolding all_below long_enough
length_table = refl

pub is_direct : (k : ℕ) → k < 64 → (bit_and k 0xc0 == 0xc0) ≡ false
unfolding long_enough
is_direct k h =
    let t : long_enough k ≡ true = all_below_sound 64 long_enough k length_table h in ground arith

head_at_pre :
    (msg pre post : List ℕ) (k clen : ℕ)
    → msg ≡ pre ++ (k ∷ post)
    → k < 64
    → head_at msg (length pre) clen false
      ≡ ok (record { slen = k; at = length pre + 1; clen = clen + 1; indirect = false })
unfolding head_at
head_at_pre msg pre post k clen e small =
    let here : byte_at msg (length pre) ≡ ok k = rw e (byte_at_pre pre post k) in
    rw (here, ◌>>=◌, is_direct k small) refl

-- The room that the components take.
abbrev pub room : List (List ℕ) → ℕ
room [] = 0
room (l ∷ ls) = length l + 1 + room ls

pub parse_wire :
    (ls : List (List ℕ)) (msg pre post : List ℕ) (n clen nseg len : ℕ)
    → All IsLabel ls
    → msg ≡ pre ++ (wire ls ++ post)
    → room ls ≤ len
    → length ls < n
    → parse_loop n msg (length pre) clen false nseg len
      ≡ ok (clen + length (wire ls), dots ls ++ name_end (nseg + length ls))
unfolding parse_loop
parse_wire ls msg pre post zero clen nseg len names e fits fuel = absurd (omega arith)
parse_wire [] msg pre post (suc n) clen nseg len names e fits fuel =
    rw (head_at_pre msg pre post 0 clen e (omega arith)) (ground arith)
parse_wire (l ∷ ls) msg pre post (suc n) clen nseg len ((some_bytes, short, plain), names) e fits
      fuel =
    let rest =
      parse_wire ls msg pre2 post n (clen + 1 + length l) (nseg + 1) (len - (length l + 1)) names
        at_rest (omega arith) (omega arith) in
    let rest' = rw long2 at rest in
    let seg : bytes_at msg (length pre1) (length l) ≡ ok l =
      bytes_at_pre msg pre1 l (wire ls ++ post) at_seg in
    let seg' = rw long1 at seg in
    rw
      (
        head_at_pre msg pre (l ++ (wire ls ++ post)) (length l) clen at_head short,
        not_last,
        enough,
        ◌>>=◌,
        seg',
        rest',
      )
      (ground (
        arith,
        length-append l (wire ls),
        append_assoc l (46 ∷ dots ls) (name_end (nseg + 1 + length ls)),
      ))
  where
    pre1 : List ℕ
    pre1 = pre ++ (length l ∷ [])

    pre2 : List ℕ
    pre2 = pre1 ++ l

    long1 : length pre1 ≡ length pre + 1
    long1 = ground (arith, length-append pre (length l ∷ []))

    long2 : length pre2 ≡ length pre + 1 + length l
    long2 = ground (arith, long1, length-append pre1 l)

    not_last : (length l == 0) ≡ false
    not_last = ground arith

    enough : ltb len (length l + 1) ≡ false
    enough = ground arith

    at_head : msg ≡ pre ++ (length l ∷ (l ++ (wire ls ++ post)))
    at_head = e ∙ ap (λ xs. pre ++ (length l ∷ xs)) (append_assoc l (wire ls) post)

    at_seg : msg ≡ pre1 ++ (l ++ (wire ls ++ post))
    at_seg = at_head ∙ sym (append_assoc pre (length l ∷ []) (l ++ (wire ls ++ post)))

    at_rest : msg ≡ pre2 ++ (wire ls ++ post)
    at_rest = at_seg ∙ sym (append_assoc pre1 l (wire ls ++ post))

component_dot :
    (l rest : List ℕ)
    → All (λ x. x ≢ 46) l
    → (component (l ++ (46 ∷ rest)) ≡ l) × (behind_dot (l ++ (46 ∷ rest)) ≡ some rest)
unfolding component behind_dot
component_dot [] rest plain = (refl, refl)
component_dot (x ∷ l) rest (ne, plain) =
    let no_dot : (x == 46) ≡ false = ground arith in
    let (c, b) = component_dot l rest plain in (rw (no_dot, c) refl, rw (no_dot, b) refl)

component_last : (l : List ℕ) → All (λ x. x ≢ 46) l → (component l ≡ l) × (behind_dot l ≡ none)
unfolding component behind_dot
component_last [] plain = (refl, refl)
component_last (x ∷ l) (ne, plain) =
    let no_dot : (x == 46) ≡ false = ground arith in
    let (c, b) = component_last l plain in (rw (no_dot, c) refl, rw (no_dot, b) refl)

pub write_name-wire :
    (n : ℕ) (l : List ℕ) (ls : List (List ℕ))
    → All IsLabel (l ∷ ls)
    → length ls < n
    → write_name n (dotted l ls) ≡ some (wire (l ∷ ls))
unfolding write_name
write_name-wire zero l ls names fuel = absurd (omega arith)
write_name-wire (suc n) l [] ((some_bytes, short, plain), names) fuel =
    let (c, b) = component_last l plain in
    let not_last : (length l == 0) ≡ false = ground arith in
    let byte : length l % 256 ≡ length l = omega arith in
    rw (c, not_last, b, write_name) (rw (c, byte) refl)
write_name-wire (suc n) l (k ∷ ks) ((some_bytes, short, plain), names) fuel =
    let (c, b) = component_dot l (dotted k ks) plain in
    let not_last : (length l == 0) ≡ false = ground arith in
    let byte : length l % 256 ≡ length l = omega arith in
    let rest = write_name-wire n k ks names (omega arith) in
    rw (c, not_last, b, rest, write_name) (rw (c, byte) refl)

pub room-dotted : (l : List ℕ) (ls : List (List ℕ)) → room (l ∷ ls) ≡ length (dotted l ls) + 1
room-dotted l [] = omega arith
room-dotted l (k ∷ ks) = omega (arith, length-append l (46 ∷ dotted k ks), room-dotted k ks)

pub labels-le-room : (ls : List (List ℕ)) → length ls ≤ room ls
labels-le-room [] = omega arith
labels-le-room (l ∷ ls) = omega (arith, labels-le-room ls)
