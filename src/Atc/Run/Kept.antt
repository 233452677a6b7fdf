-- ===== src/Atc/Run/Kept.antt =====
-- What a character leaves of the line and of the last commands.
use x_wizchip_io_library_dri.Base.{
  ℕ, ◌-◌, ◌<◌, ◌==◌, ltb, leb, ◌&&◌, ◌≡◌, ◌⊎◌, inl, inr, refl, sym, ap, subst, Bool-cases, Bool,
  true, false, if◌then◌else◌, Option, none, some, List, [], ◌∷◌, ◌++◌, length, length-append,
  length-take, take, arith,
}
use x_wizchip_io_library_dri.Http.Text.{is_prefix, same_text}
use x_wizchip_io_library_dri.Http.Text.Search.{same_text_lem}
use x_wizchip_io_library_dri.Atc.State.{
  AtRet, Tcmd, Atc, AtCall, uart_write, cmd_clear, cmd_sign_quest, ret_done,
}
use x_wizchip_io_library_dri.Atc.History.{cmd_set_prev}
use x_wizchip_io_library_dri.Atc.History.Last.{
  Holds, IsLine, IsRemembered, remember, answer_of, cmd_set_prev-IsRemembered,
}
use x_wizchip_io_library_dri.Atc.Divide.{Divided, strsep_ex, sign_of, previous, just_at, cmd_divide}
use x_wizchip_io_library_dri.Atc.Run.{
  AtRun, is_graph, if_echo, type_char, respond, enter_line, atc_run,
}

-- "AT?"
abbrev pub at_query : List ℕ
at_query = 65 ∷ 84 ∷ 63 ∷ []

-- The echo of a line.
abbrev pub echo_of : Atc → List AtCall
echo_of a = if_echo a (uart_write a.line ∷ uart_write (13 ∷ 10 ∷ []) ∷ [])

-- A result with the commands `hs` and a line that fits termbuf.
abbrev pub IsEdited : List (List ℕ) → AtRun → Type 0
IsEdited hs result =
    (a : Atc) × (calls : List AtCall) × (result ≡ some (a, calls)) × Holds a hs × IsLine a.line

-- A result with the commands `hs`, an empty line and the calls `told`.
abbrev pub IsAnswered : List (List ℕ) → List AtCall → Option (List AtCall) → AtRun → Type 0
IsAnswered hs echoed none result = result ≡ none
IsAnswered hs echoed (some calls) result =
    (a : Atc) × (result ≡ some (a, echoed ++ calls)) × Holds a hs × (a.line ≡ [])

-- A result with the commands `hs` and an empty line, or a fault.
abbrev pub IsEntered : List (List ℕ) → AtRun → Type 0
IsEntered hs result =
    (result ≡ none)
    ⊎ ((a : Atc) × (calls : List AtCall) × (result ≡ some (a, calls)) × Holds a hs × (a.line ≡ []))

-- The result of a line's end, where `now` are the commands behind its entry.
abbrev pub IsTaken : Option (List (List ℕ)) → Atc → AtRun → Type 0
IsTaken none a result = result ≡ none
IsTaken (some hs) a result =
    if same_text a.line at_query
    then IsAnswered hs (echo_of a) (answer_of hs) result
    else IsEntered hs result

abbrev pub IsKept : (ℕ → Bool) → ℕ → Atc → List (List ℕ) → AtRun → Type 0
IsKept malloc c a hs result =
    if c == 10 && ltb 0 (length a.line)
    then IsTaken (remember malloc a.line hs) a result
    else IsEdited hs result

line_of-Holds :
    (l : List ℕ) (t : Tcmd) (a : Atc) (hs : List (List ℕ))
    → Holds a hs
    → Holds (record a { line = l; tcmd = t }) hs
line_of-Holds l t a hs (i, h, few, short, same) =
    (i, h, few, short, ap (λ (b : Atc). record b { line = l; tcmd = t }) same)

-- A character changes the line only, which stays in termbuf.
type_char_lem :
    (c : ℕ) (a : Atc)
    → IsLine a.line
    → (l : List ℕ) × ((type_char c a).0 ≡ record a { line = l }) × IsLine l
unfolding type_char
type_char_lem c a short = elim (Bool-cases (is_graph c)) [
  | inl g ↦ elim (Bool-cases (ltb (length a.line) 99)) [
    | inl e ↦ (a.line ++ (c ∷ []), rw (g, e) refl, ground (arith, length-append a.line (c ∷ [])))
    | inr e ↦ (a.line, rw (g, e) refl, short)
  ]
  | inr g ↦ elim (Bool-cases (c == 10)) [
    | inl e ↦ (a.line, rw (g, e) refl, short)
    | inr e ↦ elim (Bool-cases (c == 8)) [
      | inl e' ↦ elim (Bool-cases (length a.line == 0)) [
        | inl z ↦ (a.line, rw (g, e, e', z) refl, short)
        | inr z ↦ (
          take (length a.line - 1) a.line,
          rw (g, e, e', z) refl,
          omega (arith, length-take (length a.line - 1) a.line),
        )
      ]
      | inr e' ↦ elim (Bool-cases (c == 27)) [
        | inl z ↦ (a.line, rw (g, e, e', z) refl, short)
        | inr z ↦ (a.line, rw (g, e, e', z) refl, short)
      ]
    ]
  ]
]

abbrev query_tcmd : Tcmd
query_tcmd = record cmd_clear { sign = cmd_sign_quest }

abbrev cleared : Atc → Atc
cleared a = record a { line = []; tcmd = cmd_clear }

abbrev divided : Option (List AtCall) → Divided
divided none = none
divided (some calls) = some (ret_done, (query_tcmd, calls))

previous-cleared :
    (a : Atc) (told : Option (List AtCall)) → previous a ≡ told → previous (cleared a) ≡ told
unfolding previous
previous-cleared a told e = e

query_divided :
    (a : Atc) (told : Option (List AtCall))
    → previous (cleared a) ≡ told
    → cmd_divide at_query (cleared a) ≡ divided told
unfolding cmd_divide sign_of strsep_ex is_prefix same_text just_at
query_divided a none e = rw (e, cmd_divide, just_at) refl
query_divided a (some calls) e = rw (e, cmd_divide, just_at) refl

module _ (malloc : ℕ → Bool) (a now : Atc) (hs : List (List ℕ)) (echoed : List AtCall)
    (put : cmd_set_prev malloc a.line a ≡ some now) (held : Holds now hs) where
  query_entered :
      (told : Option (List AtCall))
      → a.line ≡ at_query
      → previous now ≡ told
      → IsAnswered hs echoed told (enter_line malloc a echoed)
  unfolding enter_line respond
  query_entered none is_query e =
      let divided_none = query_divided now none (previous-cleared now none e) in
      let divided_line : cmd_divide a.line (cleared now) ≡ none = rw is_query divided_none in
      rw (put, divided_line, enter_line) refl
  query_entered (some calls) is_query e =
      let divided_some = query_divided now (some calls) (previous-cleared now (some calls) e) in
      let divided_line : cmd_divide a.line (cleared now) ≡ some (ret_done, (query_tcmd, calls)) =
        rw is_query divided_some in
      (
        record now { line = []; tcmd = query_tcmd },
        rw (put, divided_line, enter_line) refl,
        line_of-Holds [] query_tcmd now hs held,
        refl,
      )

  line-IsEntered : IsEntered hs (enter_line malloc a echoed)
  unfolding enter_line
  line-IsEntered = with_divided (cmd_divide a.line (cleared now)) refl
    where
      with_response :
          (ret : AtRet) (tcmd : Tcmd) (more : List AtCall) (response : Option (Tcmd × List AtCall))
          → cmd_divide a.line (cleared now) ≡ some (ret, (tcmd, more))
          → respond ret tcmd more ≡ response
          → IsEntered hs (enter_line malloc a echoed)
      with_response ret tcmd more none e e' = inl (rw (put, e, e', enter_line) refl)
      with_response ret tcmd more (some (tcmd', calls)) e e' = inr (
        record now { line = []; tcmd = tcmd' },
        echoed ++ calls,
        rw (put, e, e', enter_line) refl,
        line_of-Holds [] tcmd' now hs held,
        refl,
      )

      with_divided :
          (d : Divided)
          → cmd_divide a.line (cleared now) ≡ d
          → IsEntered hs (enter_line malloc a echoed)
      with_divided none e = inl (rw (put, e, enter_line) refl)
      with_divided (some (ret, (tcmd, more))) e =
          with_response ret tcmd more (respond ret tcmd more) e refl

line-IsTaken :
    (malloc : ℕ → Bool) (a : Atc) (hs : List (List ℕ)) (now : Option (List (List ℕ)))
    → IsRemembered now (cmd_set_prev malloc a.line a)
    → IsTaken now a (enter_line malloc a (echo_of a))
unfolding enter_line
line-IsTaken malloc a hs none put = rw (put, enter_line) refl
line-IsTaken malloc a hs (some now) (b, put, held, told) =
    elim (Bool-cases (same_text a.line at_query)) [
      | inl e ↦ rw e (
          query_entered malloc a b now (echo_of a) put held (answer_of now)
            (same_text_lem a.line at_query e) told)
      | inr e ↦ rw e (line-IsEntered malloc a b now (echo_of a) put held)
    ]

edited :
    (malloc : ℕ → Bool) (c : ℕ) (a : Atc) (hs : List (List ℕ))
    → Holds a hs
    → IsLine a.line
    → atc_run malloc c a ≡ some (type_char c a)
    → IsEdited hs (atc_run malloc c a)
edited malloc c a hs held short told =
    let (l, same, fits_in) = type_char_lem c a short in
    (
      (type_char c a).0,
      (type_char c a).1,
      told,
      subst (λ b. Holds b hs) (sym same) (line_of-Holds l a.tcmd a hs held),
      subst (λ (b : Atc). IsLine b.line) (sym same) fits_in,
    )

module _ (malloc : ℕ → Bool) (c : ℕ) (a : Atc) (small : c < 128) where
  run_line :
      (c == 10) ≡ true
      → ltb 0 (length a.line) ≡ true
      → atc_run malloc c a ≡ enter_line malloc a (echo_of a)
  unfolding atc_run type_char
  run_line e l =
      let ascii : ltb 127 c ≡ false = ground arith in
      let low : leb 33 c ≡ false = ground arith in
      let typed : type_char c a ≡ (a, echo_of a) = rw (low, e, type_char) refl in
      rw (ascii, typed, e, l, atc_run) refl

  run_empty :
      (c == 10) ≡ true → ltb 0 (length a.line) ≡ false → atc_run malloc c a ≡ some (type_char c a)
  unfolding atc_run type_char
  run_empty e l =
      let ascii : ltb 127 c ≡ false = ground arith in
      let low : leb 33 c ≡ false = ground arith in
      let typed : type_char c a ≡ (a, echo_of a) = rw (low, e, type_char) refl in
      rw (ascii, typed, e, l, atc_run) refl

  run_other : (c == 10) ≡ false → atc_run malloc c a ≡ some (type_char c a)
  unfolding atc_run
  run_other e = let ascii : ltb 127 c ≡ false = ground arith in rw (ascii, e, atc_run) refl

  module _ (hs : List (List ℕ)) (result : AtRun) where
    end_of_line :
        (c == 10) ≡ true
        → ltb 0 (length a.line) ≡ true
        → IsTaken (remember malloc a.line hs) a result
        → IsKept malloc c a hs result
    end_of_line e l k = rw (e, l) k

    end_of_nothing :
        (c == 10) ≡ true
        → ltb 0 (length a.line) ≡ false
        → IsEdited hs result
        → IsKept malloc c a hs result
    end_of_nothing e l k = rw (e, l) k

    no_end : (c == 10) ≡ false → IsEdited hs result → IsKept malloc c a hs result
    no_end e k = rw e k

-- On a character below 128, when two commands at most are held and the line fits termbuf: where the
-- character does not end a line that has characters, atc_run() keeps the commands and the line fits
-- again; where it does, the line and the command before it are held, or the line alone if malloc()
-- fails at first, and it is CRITICAL_ERR() if malloc() then fails again or there was no command;
-- the line is then empty, unless the command runs into a fault. For the line AT? the calls are the
-- echo and the answer with the command before it, or with none, and it is a fault exactly where
-- this answer does not fit its array.
pub atc_run-IsKept :
    (malloc : ℕ → Bool) (c : ℕ) (a : Atc) (hs : List (List ℕ))
    → c < 128
    → Holds a hs
    → IsLine a.line
    → IsKept malloc c a hs (atc_run malloc c a)
atc_run-IsKept malloc c a hs small held short = elim (Bool-cases (c == 10)) [
  | inl e ↦ elim (Bool-cases (ltb 0 (length a.line))) [
    | inl l ↦ end_of_line malloc c a small hs (atc_run malloc c a) e l (
        subst (IsTaken (remember malloc a.line hs) a) (sym (run_line malloc c a small e l)) (
          line-IsTaken malloc a hs (remember malloc a.line hs)
            (cmd_set_prev-IsRemembered malloc a.line a hs held short)))
    | inr l ↦
        end_of_nothing malloc c a small hs (atc_run malloc c a) e l
          (edited malloc c a hs held short (run_empty malloc c a small e l))
  ]
  | inr e ↦
      no_end malloc c a small hs (atc_run malloc c a) e
        (edited malloc c a hs held short (run_other malloc c a small e))
]
