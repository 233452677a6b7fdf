-- ===== src/Atc/History/Last.antt =====
-- What the ring of commands holds, and what AT? shows of it.
use x_wizchip_io_library_dri.Base.{
  ℕ, zero, suc, ◌+◌, ◌-◌, ◌<◌, ◌≤◌, ltb, ◌≡◌, refl, sym, ap, subst, inl, inr, Bool-cases, Bool,
  false, if◌then◌else◌, Option, none, some, List, [], ◌∷◌, length, set, take, All, arith,
}
use x_wizchip_io_library_dri.Ftp.State.{fits}
use x_wizchip_io_library_dri.Atc.State.{Atc, AtCall, uart_write}
use x_wizchip_io_library_dri.Atc.History.{evict, make_room, allocate, put_prev, cmd_set_prev}
use x_wizchip_io_library_dri.Atc.Divide.{dump_text, previous}

abbrev pub total : List (List ℕ) → ℕ
total [] = 0
total (h ∷ hs) = length h + 1 + total hs

-- The array with the commands `hs`, the last one first, when `i` is the next entry to be written.
abbrev pub arranged : ℕ → List (List ℕ) → List (Option (List ℕ))
arranged i [] = none ∷ none ∷ []
arranged zero (x ∷ []) = none ∷ some x ∷ []
arranged zero (x ∷ y ∷ hs) = some y ∷ some x ∷ []
arranged (suc i) (x ∷ []) = some x ∷ none ∷ []
arranged (suc i) (x ∷ y ∷ hs) = some x ∷ some y ∷ []

abbrev pub ring : ℕ → List (List ℕ) → Atc → Atc
ring i hs a = record a {
  prevbuf = arranged i hs;
  previdx = i;
  prevcnt = length hs;
  prevlen = total hs;
}

abbrev pub IsLine : List ℕ → Type 0
IsLine text = length text < 100

-- The variables hold two commands at most.
abbrev pub Holds : Atc → List (List ℕ) → Type 0
Holds a hs = (i : ℕ) × (i < 2) × (length hs ≤ 2) × All IsLine hs × (a ≡ ring i hs a)

-- The commands behind the entry of a further one: malloc() may fail once if there was one before.
abbrev pub remember : (ℕ → Bool) → List ℕ → List (List ℕ) → Option (List (List ℕ))
remember malloc text [] = if malloc 0 then some (text ∷ []) else none
remember malloc text (x ∷ hs) =
    if malloc 0 then some (text ∷ x ∷ []) else if malloc 1 then some (text ∷ []) else none

-- The answer to AT?, with the command in front of the last one.
abbrev pub answer_of : List (List ℕ) → Option (List AtCall)
answer_of (y ∷ x ∷ hs) = elim (fits 100 (dump_text x)) [
  | none ↦ none
  | some sent ↦ some (uart_write sent ∷ [])
]
answer_of _ = some (uart_write (91 ∷ 68 ∷ 44 ∷ 44 ∷ 48 ∷ 93 ∷ 13 ∷ 10 ∷ []) ∷ [])

-- The result of cmd_set_prev() where `told` are the commands that are then there.
abbrev pub IsRemembered : Option (List (List ℕ)) → Option Atc → Type 0
IsRemembered none result = result ≡ none
IsRemembered (some hs) result =
    (a : Atc) × (result ≡ some a) × Holds a hs × (previous a ≡ answer_of hs)

abbrev other_entry : ℕ → ℕ
other_entry zero = 1
other_entry (suc i) = 0

abbrev Sized : Option (List (List ℕ)) → Type 0
Sized none = Unit
Sized (some hs) = (length hs ≤ 2) × All IsLine hs

remember-Sized :
    (malloc : ℕ → Bool) (text : List ℕ) (hs : List (List ℕ))
    → All IsLine (text ∷ hs)
    → Sized (remember malloc text hs)
remember-Sized malloc text [] (st, sh) = elim (Bool-cases (malloc 0)) [
  | inl e ↦ rw e (omega arith, (st, tt))
  | inr e ↦ rw e tt
]
remember-Sized malloc text (x ∷ hs) (st, (sx, sh)) = elim (Bool-cases (malloc 0)) [
  | inl e ↦ rw e (omega arith, (st, (sx, tt)))
  | inr e ↦ elim (Bool-cases (malloc 1)) [
    | inl e' ↦ rw (e, e') (omega arith, (st, tt))
    | inr e' ↦ rw (e, e') tt
  ]
]

other_less : (i : ℕ) → other_entry i < 2
other_less zero = omega arith
other_less (suc i) = omega arith

module _ (a : Atc) where
  previous-ring :
      (i : ℕ) (hs : List (List ℕ)) → i < 2 → length hs ≤ 2 → previous (ring i hs a) ≡ answer_of hs
  unfolding previous
  previous-ring i [] h few = refl
  previous-ring i (x ∷ []) h few = refl
  previous-ring zero (x ∷ y ∷ []) h few = refl
  previous-ring (suc zero) (x ∷ y ∷ []) h few = refl
  previous-ring (suc (suc i)) (x ∷ y ∷ []) h few = let no : ⊥ = omega arith in elim no [ ]
  previous-ring i (x ∷ y ∷ z ∷ hs) h few = let no : ⊥ = omega arith in elim no [ ]

  -- The older of two commands goes, and the only one.
  evict_older :
      (i : ℕ) (x y : List ℕ) → i < 2 → evict (ring i (x ∷ y ∷ []) a) ≡ some (ring i (x ∷ []) a)
  unfolding evict
  evict_older zero x y h =
      let left : length x + 1 + (length y + 1 + 0) - (length y + 1) ≡ length x + 1 + 0 =
        omega arith in
      rw (left, evict) refl
  evict_older (suc zero) x y h =
      let left : length x + 1 + (length y + 1 + 0) - (length y + 1) ≡ length x + 1 + 0 =
        omega arith in
      rw (left, evict) refl
  evict_older (suc (suc i)) x y h = let no : ⊥ = omega arith in elim no [ ]

  evict_only : (i : ℕ) (x : List ℕ) → i < 2 → evict (ring i (x ∷ []) a) ≡ some (ring i [] a)
  unfolding evict
  evict_only zero x h =
      let left : length x + 1 + 0 - (length x + 1) ≡ 0 = omega arith in rw (left, evict) refl
  evict_only (suc zero) x h =
      let left : length x + 1 + 0 - (length x + 1) ≡ 0 = omega arith in rw (left, evict) refl
  evict_only (suc (suc i)) x h = let no : ⊥ = omega arith in elim no [ ]

  put_prev_first :
      (i : ℕ) (text : List ℕ)
      → i < 2
      → put_prev text (ring i [] a) ≡ ring (other_entry i) (text ∷ []) a
  unfolding put_prev
  put_prev_first zero text h =
      let same : 0 + (length text + 1) ≡ length text + 1 + 0 = omega arith in
      rw (same, put_prev) refl
  put_prev_first (suc zero) text h =
      let same : 0 + (length text + 1) ≡ length text + 1 + 0 = omega arith in
      rw (same, put_prev) refl
  put_prev_first (suc (suc i)) text h = let no : ⊥ = omega arith in elim no [ ]

  put_prev_second :
      (i : ℕ) (text x : List ℕ)
      → i < 2
      → put_prev text (ring i (x ∷ []) a) ≡ ring (other_entry i) (text ∷ x ∷ []) a
  unfolding put_prev
  put_prev_second zero text x h =
      let same : length x + 1 + 0 + (length text + 1) ≡ length text + 1 + (length x + 1 + 0) =
        omega arith in
      rw (same, put_prev) refl
  put_prev_second (suc zero) text x h =
      let same : length x + 1 + 0 + (length text + 1) ≡ length text + 1 + (length x + 1 + 0) =
        omega arith in
      rw (same, put_prev) refl
  put_prev_second (suc (suc i)) text x h = let no : ⊥ = omega arith in elim no [ ]

  -- Behind the first loop there is one command at most.
  make_room-ring :
      (i : ℕ) (hs : List (List ℕ)) (n : ℕ)
      → i < 2
      → length hs ≤ 2
      → All IsLine hs
      → n < 100
      → make_room (length hs) n (ring i hs a) ≡ some (ring i (take 1 hs) a)
  unfolding make_room
  make_room-ring i [] n h few short small = refl
  make_room-ring i (x ∷ []) n h few (sx, _) small =
      let fits_in : ltb 249 (length x + 1 + 0 + n) ≡ false = ground arith in
      rw (fits_in, make_room) refl
  make_room-ring i (x ∷ y ∷ []) n h few (sx, _) small =
      let fits_in : ltb 249 (length x + 1 + 0 + n) ≡ false = ground arith in
      rw (evict_older i x y h, make_room) (rw fits_in refl)
  make_room-ring i (x ∷ y ∷ z ∷ hs) n h few short small = let no : ⊥ = omega arith in elim no [ ]

  -- The ring that is then there.
  abbrev IsPut : ℕ → Option (List (List ℕ)) → Option Atc → Type 0
  IsPut i none result = result ≡ none
  IsPut i (some now) result = result ≡ some (ring (other_entry i) now a)

  abbrev put_allocated : List ℕ → Option Atc → Option Atc
  put_allocated text none = none
  put_allocated text (some a') = some (put_prev text a')

  first_entry :
      (malloc : ℕ → Bool) (text : List ℕ) (i : ℕ)
      → i < 2
      → IsPut i (remember malloc text []) (put_allocated text (allocate malloc 0 0 (ring i [] a)))
  unfolding allocate
  first_entry malloc text i h = elim (Bool-cases (malloc 0)) [
    | inl e ↦ rw e (ap some (put_prev_first i text h))
    | inr e ↦ rw e refl
  ]

  unset_next :
      (i : ℕ) (x : List ℕ)
      → i < 2
      → record (ring i (x ∷ []) a) { prevbuf = set (arranged i (x ∷ [])) i none }
        ≡ ring i (x ∷ []) a
  unset_next zero x h = refl
  unset_next (suc zero) x h = refl
  unset_next (suc (suc i)) x h = let no : ⊥ = omega arith in elim no [ ]

  further_entry :
      (malloc : ℕ → Bool) (text x : List ℕ) (i : ℕ)
      → i < 2
      → IsPut i
          (remember malloc text (x ∷ []))
          (put_allocated text (allocate malloc 0 1 (ring i (x ∷ []) a)))
  unfolding allocate
  further_entry malloc text x i h = elim (Bool-cases (malloc 0)) [
    | inl e ↦ rw (e, allocate) (ap some (put_prev_second i text x h))
    | inr e ↦ elim (Bool-cases (malloc 1)) [
      | inl e' ↦
          rw (e, unset_next i x h, evict_only i x h, allocate)
            (rw (e', allocate) (ap some (put_prev_first i text h)))
      | inr e' ↦ rw (e, unset_next i x h, evict_only i x h, allocate) (rw (e', allocate) refl)
    ]
  ]

  -- What the array holds behind an entry.
  remembered :
      (i : ℕ) (now : Option (List (List ℕ))) (result : Option Atc)
      → i < 2
      → Sized now
      → IsPut i now result
      → IsRemembered now result
  remembered i none result h sizes put = put
  remembered i (some hs) result h (few, short) put = (
    ring (other_entry i) hs a,
    put,
    (other_entry i, other_less i, few, short, refl),
    previous-ring (other_entry i) hs (other_less i) few,
  )

  put_lem :
      (text : List ℕ) (result : Option Atc)
      → (elim result [ none ↦ none | some a' ↦ some (put_prev text a') ])
        ≡ put_allocated text result
  put_lem text none = refl
  put_lem text (some a') = refl

  set_prev_ring :
      (malloc : ℕ → Bool) (text : List ℕ) (i : ℕ) (hs : List (List ℕ))
      → i < 2
      → length hs ≤ 2
      → All IsLine hs
      → IsLine text
      → cmd_set_prev malloc text (ring i hs a)
        ≡ put_allocated text (allocate malloc 0 (length (take 1 hs)) (ring i (take 1 hs) a))
  unfolding cmd_set_prev
  set_prev_ring malloc text i hs h few short small =
      rw (make_room-ring i hs (length text) h few short small, cmd_set_prev)
        (put_lem text (allocate malloc 0 (length (take 1 hs)) (ring i (take 1 hs) a)))

  ring-IsRemembered :
      (malloc : ℕ → Bool) (text : List ℕ) (i : ℕ) (hs : List (List ℕ))
      → i < 2
      → length hs ≤ 2
      → All IsLine hs
      → IsLine text
      → IsRemembered (remember malloc text hs) (cmd_set_prev malloc text (ring i hs a))
  ring-IsRemembered malloc text i [] h few short small =
      let told = set_prev_ring malloc text i [] h few short small in
      subst (IsRemembered (remember malloc text [])) (sym told) (
        remembered i (remember malloc text []) _ h (remember-Sized malloc text [] (small, tt))
          (first_entry malloc text i h))
  ring-IsRemembered malloc text i (x ∷ hs) h few short small =
      let told = set_prev_ring malloc text i (x ∷ hs) h few short small in
      subst (IsRemembered (remember malloc text (x ∷ hs))) (sym told) (
        remembered i (remember malloc text (x ∷ hs)) _ h
          (remember-Sized malloc text (x ∷ hs) (small, short)) (further_entry malloc text x i h))

-- cmd_set_prev() on a line of less than 100 characters keeps this line and the command before it; if
-- malloc() fails at first and there was a command, it keeps this line alone, and if it fails then or
-- without one it ends in CRITICAL_ERR(). AT? then shows the command before the last one, if there
-- are two; where the answer has 100 characters or more, it runs over its array.
pub cmd_set_prev-IsRemembered :
    (malloc : ℕ → Bool) (text : List ℕ) (a : Atc) (hs : List (List ℕ))
    → Holds a hs
    → length text < 100
    → IsRemembered (remember malloc text hs) (cmd_set_prev malloc text a)
cmd_set_prev-IsRemembered malloc text a hs (i, h, few, short, same) small =
    subst (λ b. IsRemembered (remember malloc text hs) (cmd_set_prev malloc text b)) (sym same)
      (ring-IsRemembered a malloc text i hs h few short small)
