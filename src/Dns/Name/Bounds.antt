-- ===== src/Dns/Name/Bounds.antt =====
-- The rounds of parse_name(), and what it reads and writes.
use x_wizchip_io_library_dri.Base.{
  ℕ, zero, suc, ◌+◌, ◌-◌, ◌*◌, ◌<◌, ◌≤◌, ◌≡◌, ◌≢◌, refl, ◌==◌, ltb, bit_and, if◌then◌else◌, Bool,
  true, false, ◌⊎◌, Option, none, some, List, [], ◌∷◌, ◌++◌, get_elem?, length, arith, Bool-cases,
  inl, inr,
}
use x_wizchip_io_library_dri.Base.{length-append}
use x_wizchip_io_library_dri.Dns.Name.{
  Parsed, ok, too_long, outside, no_fuel, ◌>>=◌, byte_at, bytes_at, Head, head_at, name_end,
  parse_loop, parse_name,
}

-- Not cut off, and a value has `P`.
abbrev pub Ends : {A : Type 0} → (A → Type 0) → Parsed A → Type 0
Ends P (ok a) = P a
Ends P too_long = Unit {0}
Ends P outside = Unit {0}
Ends P no_fuel = ⊥

pub Ends->>= :
    {A B : Type 0} (P : A → Type 0) (Q : B → Type 0) (m : Parsed A) (f : A → Parsed B)
    → Ends P m
    → ((a : A) → P a → Ends Q (f a))
    → Ends Q (m >>= f)
Ends->>= P Q (ok a) f h k = k a h
Ends->>= P Q too_long f h k = tt
Ends->>= P Q outside f h k = tt
Ends->>= P Q no_fuel f h k = h

pub Ends-mono :
    {A : Type 0} (P Q : A → Type 0) (m : Parsed A) → ((a : A) → P a → Q a) → Ends P m → Ends Q m
Ends-mono P Q (ok a) h p = h a p
Ends-mono P Q too_long h p = tt
Ends-mono P Q outside h p = tt
Ends-mono P Q no_fuel h p = p

get_elem?-lt : (xs : List ℕ) (i b : ℕ) → get_elem? xs i ≡ some b → i < length xs
get_elem?-lt [] i b h = cc
get_elem?-lt (x ∷ xs) zero b h = omega arith
get_elem?-lt (x ∷ xs) (suc i) b h = omega (arith, get_elem?-lt xs i b h)

pub byte_at-Ends : (msg : List ℕ) (cp : ℕ) → Ends (λ _. cp < length msg) (byte_at msg cp)
unfolding byte_at
byte_at-Ends msg cp = go (get_elem? msg cp) (λ b h. get_elem?-lt msg cp b h)
  where
    go :
        (o : Option ℕ)
        → ((b : ℕ) → o ≡ some b → cp < length msg)
        → Ends (λ _. cp < length msg) (elim o [ none ↦ outside | some b ↦ ok b ])
    go none k = tt
    go (some b) k = k b refl

pub bytes_at-Ends :
    (msg : List ℕ) (cp n : ℕ)
    → Ends (λ bs. (length bs ≡ n) × (0 < n → cp + n ≤ length msg)) (bytes_at msg cp n)
unfolding bytes_at
bytes_at-Ends msg cp zero = (refl, λ h. absurd (omega arith))
bytes_at-Ends msg cp (suc n) = Ends->>= _ _ (byte_at msg cp) _ (byte_at-Ends msg cp) λ b inside.
    Ends->>= _ _ (bytes_at msg (suc cp) n) _ (bytes_at-Ends msg (suc cp) n)
      λ bs (long, far). (omega arith, λ _. ground arith)

-- Before an indirection the head stands at `cp`, in one byte or, with an indirection, in two.
abbrev Headed : List ℕ → ℕ → ℕ → Bool → Head → Type 0
Headed msg cp clen true h = (h.indirect ≡ true) × (h.clen ≡ clen)
Headed msg cp clen false h =
    ((h.indirect ≡ false) × (h.clen ≡ clen + 1) × (h.at ≡ cp + 1) × (cp < length msg))
    ⊎ ((h.indirect ≡ true) × (h.clen ≡ clen + 2) × (cp + 1 < length msg))

head_at-Ends :
    (msg : List ℕ) (cp clen : ℕ) (indirect : Bool)
    → Ends (Headed msg cp clen indirect) (head_at msg cp clen indirect)
unfolding head_at
head_at-Ends msg cp clen indirect =
    Ends->>= _ _ (byte_at msg cp) _ (byte_at-Ends msg cp) λ slen inside.
      elim (Bool-cases (bit_and slen 0xc0 == 0xc0)) [
        | inr direct ↦ rw direct (plain indirect slen inside)
        | inl jump ↦ rw jump (
            Ends->>= _ _ (byte_at msg (cp + 1)) _ (byte_at-Ends msg (cp + 1)) λ lo next.
              Ends->>= _ _ (byte_at msg (bit_and slen 0x3f * 256 + lo)) _
                (byte_at-Ends msg (bit_and slen 0x3f * 256 + lo))
                λ slen' _. far indirect slen' _ next)
      ]
  where
    plain :
        (b : Bool) (slen : ℕ)
        → cp < length msg
        → Headed msg cp clen b
            (record { slen = slen; at = cp + 1; clen = if b then clen else clen + 1; indirect = b })
    plain true slen inside = (refl, refl)
    plain false slen inside = inl (refl, refl, refl, inside)

    far :
        (b : Bool) (slen at : ℕ)
        → cp + 1 < length msg
        → Headed msg cp clen b (record {
          slen = slen;
          at = at;
          clen = if b then (if b then clen else clen + 1) else (if b then clen else clen + 1) + 1;
          indirect = true;
        })
    far true slen at inside = (refl, refl)
    far false slen at inside = inr (refl, omega arith, inside)

-- A run of the loop at `cp`, with `clen`, `indirect`, `nseg` and room `len`, ends with `clen'` and
-- the bytes `out`.
pub record Parse (msg : List ℕ) (cp clen : ℕ) (indirect : Bool) (nseg len : ℕ) (clen' : ℕ)
    (out : List ℕ) : Type 0 where
  pub grows : clen ≤ clen'
  pub jumped : indirect ≡ true → clen' ≡ clen
  pub inside : indirect ≡ false → cp + clen' ≤ clen + length msg
  pub fits : 0 < nseg + len → length out ≤ len + 1
  pub written : 0 < length out

abbrev pub ParseOf : List ℕ → ℕ → ℕ → Bool → ℕ → ℕ → ℕ × List ℕ → Type 0
ParseOf msg cp clen indirect nseg len r = Parse msg cp clen indirect nseg len r.0 r.1

ends_here :
    (msg : List ℕ) (cp clen : ℕ) (indirect : Bool) (nseg len : ℕ) (h : Head)
    → Headed msg cp clen indirect h
    → Parse msg cp clen indirect nseg len h.clen (name_end nseg)
unfolding name_end
ends_here msg cp clen true nseg len h headed = ground arith
ends_here msg cp clen false nseg len h headed = ground arith

goes_on :
    (msg : List ℕ) (cp clen : ℕ) (indirect : Bool) (nseg len : ℕ) (h : Head) (seg : List ℕ)
    (clen' : ℕ) (out : List ℕ)
    → Headed msg cp clen indirect h
    → h.slen ≢ 0
    → h.slen + 1 ≤ len
    → length seg ≡ h.slen
    → h.at + h.slen ≤ length msg
    → Parse msg
        (h.at + h.slen)
        (if h.indirect then h.clen else h.clen + h.slen)
        h.indirect
        (nseg + 1)
        (len - (h.slen + 1))
        clen'
        out
    → Parse msg cp clen indirect nseg len clen' (seg ++ 46 ∷ out)
goes_on msg cp clen true nseg len h seg clen' out headed some_bytes room long far rest =
    ground (arith, length-append seg (46 ∷ out))
goes_on msg cp clen false nseg len h seg clen' out headed some_bytes room long far rest =
    ground (arith, length-append seg (46 ∷ out))

parse_loop-Parse :
    (n : ℕ) (msg : List ℕ) (cp clen : ℕ) (indirect : Bool) (nseg len : ℕ)
    → len < n
    → Ends (ParseOf msg cp clen indirect nseg len) (parse_loop n msg cp clen indirect nseg len)
unfolding parse_loop
parse_loop-Parse zero msg cp clen indirect nseg len h = absurd (omega arith)
parse_loop-Parse (suc n) msg cp clen indirect nseg len lt =
    Ends->>= _ _ (head_at msg cp clen indirect) _ (head_at-Ends msg cp clen indirect) λ h headed.
      elim (Bool-cases (h.slen == 0)) [
        | inl last ↦ rw last (ends_here msg cp clen indirect nseg len h headed)
        | inr some_bytes ↦ elim (Bool-cases (ltb len (h.slen + 1))) [
          | inl full ↦ rw (some_bytes, full) tt
          | inr room ↦
              rw (some_bytes, room)
                (Ends->>= _ _ (bytes_at msg h.at h.slen) _ (bytes_at-Ends msg h.at h.slen)
                  λ seg (long, far).
                    Ends->>= _ _
                      (parse_loop n msg (h.at + h.slen)
                        (if h.indirect then h.clen else h.clen + h.slen) h.indirect (nseg + 1)
                        (len - (h.slen + 1)))
                      _
                      (parse_loop-Parse n msg (h.at + h.slen)
                        (if h.indirect then h.clen else h.clen + h.slen) h.indirect (nseg + 1)
                        (len - (h.slen + 1)) (ground arith))
                      λ r p.
                        goes_on msg cp clen indirect nseg len h seg r.0 r.1 headed (ground arith)
                          (ground arith) long (far (ground arith)) p)
        ]
      ]

-- With some room, parse_name() ends on every message; where it gives a name, the name lies inside
-- the message, and at least one and at most `len + 1` bytes are written to the buffer.
pub parse_name-Ends :
    (msg : List ℕ) (cp len : ℕ)
    → 0 < len
    → Ends
        (λ r. (cp + r.0 ≤ length msg) × (0 < length r.1) × (length r.1 ≤ len + 1))
        (parse_name msg cp len)
unfolding parse_name
parse_name-Ends msg cp len some_room =
    Ends-mono _ _ (parse_name msg cp len) (λ r p. (ground arith, p.written, ground arith))
      (parse_loop-Parse (suc len) msg cp 0 false 0 len (omega arith))
