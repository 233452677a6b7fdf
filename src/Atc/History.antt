-- ===== src/Atc/History.antt =====
-- atcmd.c: cmd_set_prev(), the ring of the last commands.
pub mod Last
use x_wizchip_io_library_dri.Base.{
  ℕ, zero, suc, ◌+◌, ◌-◌, ◌%◌, ◌==◌, ltb, leb, ◌&&◌, ◌||◌, Bool, true, false, Option, none, some,
  List, [], ◌∷◌, length, if◌then◌else◌, get_elem?, set,
}
use x_wizchip_io_library_dri.Atc.State.{Atc, prevbuf_max_num, prevbuf_max_size, prevbuf_last}

-- The oldest entry goes; `none` is CRITICAL_ERR().
unfoldable pub evict : Atc → Option Atc
evict a =
    let i = (a.previdx + prevbuf_max_num - a.prevcnt) % prevbuf_max_num in
    elim (get_elem? a.prevbuf i) [
      | none ↦ none
      | some entry ↦ elim entry [
        | none ↦ none
        | some text ↦ some (record a {
          prevlen = a.prevlen - (length text + 1);
          prevbuf = set a.prevbuf i none;
          prevcnt = a.prevcnt - 1;
        })
      ]
    ]

abbrev pub is_full : ℕ → Atc → Bool
is_full buflen a =
    leb prevbuf_max_num a.prevcnt
    || (ltb 0 a.prevcnt && ltb (prevbuf_max_size - 1) (a.prevlen + buflen))

-- The first loop. A round takes an entry away, so as many rounds as there are entries are enough.
unfoldable pub make_room : ℕ → ℕ → Atc → Option Atc
make_room zero buflen a = some a
make_room (suc n) buflen a = elim (is_full buflen a) [
  | false ↦ some a
  | true ↦ elim (evict a) [ none ↦ none | some a' ↦ make_room n buflen a' ]
]

-- The calls of malloc() from the `k`-th on, of which `malloc` says whether they succeed; for each
-- that fails an entry goes, and without any it is CRITICAL_ERR().
unfoldable pub allocate : (ℕ → Bool) → ℕ → ℕ → Atc → Option Atc
allocate malloc k zero a = if malloc k then some a else none
allocate malloc k (suc n) a = elim (malloc k) [
  | true ↦ some a
  | false ↦ elim (evict (record a { prevbuf = set a.prevbuf a.previdx none })) [
    | none ↦ none
    | some a' ↦ allocate malloc (suc k) n a'
  ]
]

unfoldable pub put_prev : List ℕ → Atc → Atc
put_prev text a = record a {
  prevbuf = set a.prevbuf a.previdx (some text);
  previdx = if a.previdx == prevbuf_last then 0 else a.previdx + 1;
  prevcnt = a.prevcnt + 1;
  prevlen = a.prevlen + (length text + 1);
}

unfoldable pub cmd_set_prev : (ℕ → Bool) → List ℕ → Atc → Option Atc
cmd_set_prev malloc text a = elim (make_room a.prevcnt (length text) a) [
  | none ↦ none
  | some a' ↦ elim (allocate malloc 0 a'.prevcnt a') [
    | none ↦ none
    | some a'' ↦ some (put_prev text a'')
  ]
]
