-- ===== src/Dns/Name.antt =====
-- dns.c: get16(), put16() and parse_name().
pub mod Bounds
pub mod Pointers
pub mod RoundTrip
use x_wizchip_io_library_dri.Base.{
  ℕ, zero, suc, ◌+◌, ◌*◌, ◌/◌, ◌%◌, ◌==◌, ltb, bit_and, ◌-◌, if◌then◌else◌, Bool, true, false,
  Option, none, some, List, [], ◌∷◌, ◌++◌, get_elem?,
}

-- A parser gives a value, or `too_long` where the source returns -1. `outside`: it read behind the
-- end of the message; `no_fuel`: its loop was cut off.
pub data Parsed (A : Type 0) : Type 0 where
  ok : A → Parsed A
  too_long outside no_fuel : Parsed A

infixl 5 ◌>>=◌
abbrev pub ◌>>=◌ : {A B : Type 0} → Parsed A → (A → Parsed B) → Parsed B
ok a >>= f = f a
too_long >>= f = too_long
outside >>= f = outside
no_fuel >>= f = no_fuel

abbrev pub pure : {A : Type 0} → A → Parsed A
pure = ok

abbrev pub max_cname : ℕ
max_cname = 24

-- `*cp`, with `cp` an offset into the message
unfoldable pub byte_at : List ℕ → ℕ → Parsed ℕ
byte_at msg cp = elim (get_elem? msg cp) [ none ↦ outside | some b ↦ ok b ]

unfoldable pub bytes_at : List ℕ → ℕ → ℕ → Parsed (List ℕ)
bytes_at msg cp zero = ok []
bytes_at msg cp (suc n) = do b ← byte_at msg cp; bs ← bytes_at msg (suc cp) n; ok (b ∷ bs)

unfoldable pub get16 : List ℕ → ℕ → Parsed ℕ
get16 msg cp = do hi ← byte_at msg cp; lo ← byte_at msg (cp + 1); ok ((hi * 256 + lo) % 65536)

abbrev pub put16 : ℕ → List ℕ
put16 i = i / 256 % 256 ∷ i % 256 ∷ []

-- The head of a segment: its length, where it stands, and `clen` and `indirect` behind it.
pub record Head : Type 0 where
  pub slen : ℕ
  pub at : ℕ
  pub clen : ℕ
  pub indirect : Bool

unfoldable pub head_at : List ℕ → ℕ → ℕ → Bool → Parsed Head
head_at msg cp clen indirect = do
  slen ← byte_at msg cp
  let clen' = if indirect then clen else clen + 1
  elim (bit_and slen 0xc0 == 0xc0) [
    | false ↦ ok (record { slen = slen; at = cp + 1; clen = clen'; indirect = indirect })
    | true ↦ (do
      lo ← byte_at msg (cp + 1)
      slen' ← byte_at msg (bit_and slen 0x3f * 256 + lo)
      ok (record {
        slen = slen';
        at = bit_and slen 0x3f * 256 + lo + 1;
        clen = if indirect then clen' else clen' + 1;
        indirect = true;
      }))
  ]

-- What is written behind the last segment.
unfoldable pub name_end : ℕ → List ℕ
name_end nseg = if nseg == 0 then 46 ∷ 0 ∷ [] else 0 ∷ []

-- The loop: `len` is the room that is left. The result is `clen` and what is written to `buf`.
unfoldable pub parse_loop : ℕ → List ℕ → ℕ → ℕ → Bool → ℕ → ℕ → Parsed (ℕ × List ℕ)
parse_loop zero msg cp clen indirect nseg len = no_fuel
parse_loop (suc n) msg cp clen indirect nseg len = do
  h ← head_at msg cp clen indirect
  elim (h.slen == 0) [
    | true ↦ ok (h.clen, name_end nseg)
    | false ↦ elim (ltb len (h.slen + 1)) [
      | true ↦ too_long
      | false ↦ (do
        seg ← bytes_at msg h.at h.slen
        rest ←
            parse_loop n msg (h.at + h.slen) (if h.indirect then h.clen else h.clen + h.slen)
              h.indirect (nseg + 1) (len - (h.slen + 1))
        ok (rest.0, seg ++ 46 ∷ rest.1))
    ]
  ]

-- A segment takes two bytes of the room at least.
unfoldable pub parse_name : List ℕ → ℕ → ℕ → Parsed (ℕ × List ℕ)
parse_name msg compressed len = parse_loop (suc len) msg compressed 0 false 0 len
