-- ===== src/Tests/AtcRuns.antt =====
-- Lines of AT commands.
use x_wizchip_io_library_dri.Base.{
  ℕ, ◌≡◌, refl, true, Option, none, some, List, [], ◌∷◌, ◌++◌, arith,
}
use x_wizchip_io_library_dri.Http.Text.{is_prefix, same_text}
use x_wizchip_io_library_dri.Atc.State.{Atc, atc_init, AtCall, hdl_fiodir, uart_write, process}
use x_wizchip_io_library_dri.Atc.History.{cmd_set_prev, make_room, allocate, put_prev}
use x_wizchip_io_library_dri.Atc.History.Last.{ring}
use x_wizchip_io_library_dri.Atc.Divide.{strsep_ex, sign_of, parse_args, cmd_divide}
use x_wizchip_io_library_dri.Atc.Divide.ReadBack.{joined, read_back, cmd_divide-joined}
use x_wizchip_io_library_dri.Atc.Run.{cmd_assign, respond, type_char, enter_line, atc_run}
use x_wizchip_io_library_dri.Atc.Run.Kept.{at_query, IsKept, atc_run-IsKept}

-- "AT", "AT+NSET?" and "at+fiodir=3,1"
abbrev at_line : List ℕ
at_line = 65 ∷ 84 ∷ []

abbrev nset_line : List ℕ
nset_line = 65 ∷ 84 ∷ 43 ∷ 78 ∷ 83 ∷ 69 ∷ 84 ∷ 63 ∷ []

abbrev at_plus : List ℕ
at_plus = 97 ∷ 116 ∷ 43 ∷ []

abbrev fiodir : List ℕ
fiodir = 102 ∷ 105 ∷ 111 ∷ 100 ∷ 105 ∷ 114 ∷ []

abbrev asking : Atc
asking = record (ring 1 (nset_line ∷ at_line ∷ []) atc_init) { line = at_query }

atc_run-IsKept_example :
    IsKept (λ k. true) 10 asking (nset_line ∷ at_line ∷ []) (atc_run (λ k. true) 10 asking)
atc_run-IsKept_example =
    atc_run-IsKept (λ k. true) 10 asking (nset_line ∷ at_line ∷ []) (omega arith)
      (1, omega arith, omega arith, (omega arith, (omega arith, tt)), refl) (omega arith)

cmd_divide-joined_example :
    cmd_divide (at_plus ++ fiodir ++ 61 ∷ joined ((51 ∷ []) ∷ (49 ∷ []) ∷ [])) atc_init
    ≡ read_back fiodir ((51 ∷ []) ∷ (49 ∷ []) ∷ [])
cmd_divide-joined_example =
    cmd_divide-joined at_plus fiodir (51 ∷ []) ((49 ∷ []) ∷ []) atc_init refl
      (refl, (refl, (refl, (refl, (refl, (refl, (refl, (refl, (refl, tt))))))))) (omega arith)
      (omega arith, (refl, tt), (omega arith, (refl, tt), tt)) refl

-- The line's end runs the handler.
abbrev typed_line : Atc
typed_line = record atc_init { line = at_plus ++ fiodir ++ (61 ∷ 51 ∷ 44 ∷ 49 ∷ []) }

abbrev calls_of : Option (Atc × List AtCall) → List AtCall
calls_of none = []
calls_of (some (a, calls)) = calls

typed_line_runs :
    calls_of (atc_run (λ k. true) 10 typed_line)
    ≡ uart_write typed_line.line ∷ uart_write (13 ∷ 10 ∷ []) ∷ process hdl_fiodir ∷ []
unfolding atc_run enter_line type_char cmd_set_prev make_room allocate put_prev cmd_divide sign_of
    strsep_ex parse_args respond cmd_assign is_prefix same_text
typed_line_runs = refl
