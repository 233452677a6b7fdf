-- ===== src/Atc/Divide.antt =====
-- util.c: strsep_ex(); atcmd.c: cmd_divide().
pub mod ReadBack
use x_wizchip_io_library_dri.Base.{
  ℕ, zero, suc, ◌+◌, ◌-◌, ◌==◌, ltb, leb, not, ◌&&◌, ◌||◌, Bool, if◌then◌else◌, Option, none, some,
  List, [], ◌∷◌, ◌++◌, length, drop, map, get_elem?, set,
}
use x_wizchip_io_library_dri.Http.Text.{is_prefix, same_text, one_of}
use x_wizchip_io_library_dri.Http.Pages.{decimal}
use x_wizchip_io_library_dri.Ftp.State.{fits}
use x_wizchip_io_library_dri.Atc.State.{
  AtRet, ret_ok, ret_done, ret_wrong_sign, ret_wrong_arg, CmdSign, cmd_sign_none, cmd_sign_quest,
  cmd_sign_indiv, cmd_sign_equal, Tcmd, Atc, AtCall, uart_write, atcmd_buf_size, prevbuf_max_num,
  op_size, arg_sizes, cmd_clear,
}

-- strsep_ex() on a string: the part up to the next delimiter, and the string behind it, `none` for NULL.
unfoldable pub strsep_ex : List ℕ → List ℕ → List ℕ × Option (List ℕ)
strsep_ex delims [] = ([], none)
strsep_ex delims (x ∷ xs) =
    let (tok, rest) = strsep_ex delims xs in
    if one_of delims x then ([], some xs) else (x ∷ tok, rest)

abbrev pub contains : ℕ → List ℕ → Bool
contains c text = one_of text c

-- The sign of a command: of =, ? and - the first of these that it has, wherever it stands.
unfoldable pub sign_of : List ℕ → CmdSign → CmdSign
sign_of text old =
    if contains 61 text
    then cmd_sign_equal
    else if contains 63 text
    then cmd_sign_quest
    else if contains 45 text
    then cmd_sign_indiv
    else old

abbrev pub to_upper : ℕ → ℕ
to_upper c = if leb 97 c && leb c 122 then c - 32 else c

-- The result, the parts and the calls; `none` is a text that runs over its array, or an access
-- through NULL.
abbrev pub Divided : Type 0
Divided = Option (AtRet × (Tcmd × List AtCall))

-- ARG_PARSE() for arg`i + 1` on, with the sizes of the arrays, and the test of what is left.
unfoldable pub parse_args : ℕ → List ℕ → Option (List ℕ) → Tcmd → Divided
parse_args i [] none tcmd = none
parse_args i [] (some []) tcmd = some (ret_ok, (tcmd, []))
parse_args i [] (some (x ∷ xs)) tcmd = some (ret_wrong_arg, (cmd_clear, []))
parse_args i (size ∷ sizes) none tcmd = some (ret_ok, (tcmd, []))
parse_args i (size ∷ sizes) (some text) tcmd =
    let (tok, rest) = strsep_ex (44 ∷ []) text in
    let later = parse_args (suc i) sizes rest (record tcmd { args = set tcmd.args i tok }) in
    if ltb (size - 1) (length tok)
    then some
        (ret_wrong_arg, (record cmd_clear { args = set cmd_clear.args 0 (decimal 3 (i + 1)) }, []))
    else later

-- "[D,,%d]\r\n%s\r\n"
abbrev pub dump_text : List ℕ → List ℕ
dump_text text =
    91 ∷ 68 ∷ 44 ∷ 44 ∷ (decimal 3 (length text) ++ (93 ∷ 13 ∷ 10 ∷ (text ++ (13 ∷ 10 ∷ []))))

-- The answer to "AT?": the command before this one.
unfoldable pub previous : Atc → Option (List AtCall)
previous a =
    if ltb a.prevcnt 2
    then some (uart_write (91 ∷ 68 ∷ 44 ∷ 44 ∷ 48 ∷ 93 ∷ 13 ∷ 10 ∷ []) ∷ [])
    else let i = if ltb a.previdx 2 then a.previdx + (prevbuf_max_num - 2) else a.previdx - 2 in
      elim (get_elem? a.prevbuf i) [
        | none ↦ none
        | some entry ↦ elim entry [
          | none ↦ none
          | some text ↦ elim (fits atcmd_buf_size (dump_text text)) [
            | none ↦ none
            | some sent ↦ some (uart_write sent ∷ [])
          ]
        ]
      ]

-- A command that is AT alone.
unfoldable pub just_at : Tcmd → Atc → Divided
just_at tcmd a = elim tcmd.sign [
  | cmd_sign_quest ↦ elim (previous a) [ none ↦ none | some calls ↦ some (ret_done, (tcmd, calls)) ]
  | cmd_sign_none ↦ some (ret_done, (tcmd, uart_write (91 ∷ 83 ∷ 93 ∷ 13 ∷ 10 ∷ []) ∷ []))
  | cmd_sign_indiv ↦ some (ret_wrong_sign, (tcmd, []))
  | cmd_sign_equal ↦ some (ret_wrong_sign, (tcmd, []))
]

-- cmd_divide(); what does not begin with AT+ or is too long is copied to op as it is.
unfoldable pub cmd_divide : List ℕ → Atc → Divided
cmd_divide buf a =
    let tcmd = record a.tcmd { sign = sign_of buf a.tcmd.sign } in
    let (tok, rest) = strsep_ex (61 ∷ 45 ∷ 63 ∷ []) buf in
    let split = map to_upper tok in
    if ltb (op_size + 2) (length split) || not (is_prefix (65 ∷ 84 ∷ 43 ∷ []) split)
    then (if same_text split (65 ∷ 84 ∷ []) then just_at tcmd a else elim (fits op_size split) [
      | none ↦ none
      | some op ↦ parse_args 0 arg_sizes rest (record tcmd { op = op })
    ])
    else parse_args 0 arg_sizes rest (record tcmd { op = drop 3 split })
