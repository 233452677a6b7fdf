-- ===== src/Atc/Run.antt =====
-- atcmd.c: cmd_resp(), cmd_assign() and atc_run().
pub mod Kept
use x_wizchip_io_library_dri.Base.{
  ℕ, ◌+◌, ◌-◌, ◌==◌, ltb, leb, ◌&&◌, Bool, if◌then◌else◌, Option, none, some, List, [], ◌∷◌, ◌++◌,
  length, take,
}
use x_wizchip_io_library_dri.Http.Text.{same_text}
use x_wizchip_io_library_dri.Http.Pages.{decimal}
use x_wizchip_io_library_dri.Ftp.State.{fits}
use x_wizchip_io_library_dri.Atc.State.{
  AtRet, ret_ok, ret_done, ret_ok_dump, ret_async, ret_recv, ret_unspecified, ret_wrong_op,
  ret_wrong_sign, ret_wrong_arg, ret_range_out, ret_disabled, ret_not_allowed, ret_busy,
  ret_timeout, ret_no_sock, ret_sock_cls, ret_using_port, ret_not_conn, ret_wrong_addr, ret_no_data,
  ret_no_freemem, AtHandler, hdl_nset, hdl_nstat, hdl_nmac, hdl_mstat, hdl_musart1, hdl_musart2,
  hdl_msave, hdl_mrst, hdl_fiodir, hdl_fioval, Tcmd, Atc, AtCall, uart_write, uart2_flush, process,
  atcmd_buf_size, arg_sizes, cmd_clear,
}
use x_wizchip_io_library_dri.Atc.History.{cmd_set_prev}
use x_wizchip_io_library_dri.Atc.Divide.{cmd_divide}

abbrev pub count_args : List (List ℕ) → ℕ
count_args [] = 0
count_args (arg ∷ args) = (if length arg == 0 then 0 else 1) + count_args args

-- MAKE_RESP() for all arguments, `cnt` of which are left; an argument larger than its array is
-- CRITICAL_ERR().
unfoldable pub make_resp : ℕ → List ℕ → List (List ℕ) → Option (List ℕ)
make_resp cnt (size ∷ sizes) ([] ∷ args) = elim (make_resp cnt sizes args) [
  | none ↦ none
  | some text ↦ some (if cnt == 0 then text else 44 ∷ text)
]
make_resp cnt (size ∷ sizes) (arg ∷ args) = elim (make_resp (cnt - 1) sizes args) [
  | none ↦ none
  | some text ↦ if ltb (size - 1) (length arg) then none else some (44 ∷ (arg ++ text))
]
make_resp cnt _ _ = some []

-- What stands for an error in the response.
unfoldable pub error_text : AtRet → List ℕ
error_text ret_unspecified = 48 ∷ []
error_text ret_wrong_op = 49 ∷ []
error_text ret_wrong_sign = 50 ∷ []
error_text ret_wrong_arg = 51 ∷ []
error_text ret_range_out = 52 ∷ []
error_text ret_disabled = 53 ∷ []
error_text ret_not_allowed = 54 ∷ []
error_text ret_busy = 55 ∷ []
error_text ret_timeout = 56 ∷ []
error_text ret_no_sock = 49 ∷ 48 ∷ []
error_text ret_sock_cls = 49 ∷ 49 ∷ []
error_text ret_using_port = 49 ∷ 50 ∷ []
error_text ret_not_conn = 49 ∷ 51 ∷ []
error_text ret_wrong_addr = 49 ∷ 52 ∷ []
error_text ret_no_data = 49 ∷ 53 ∷ []
error_text ret_no_freemem = 50 ∷ 48 ∷ []
error_text _ = 48 ∷ []

-- idval as text, for VAL_NONE nothing
abbrev pub id_text : Option ℕ → List ℕ
id_text none = []
id_text (some v) = decimal 3 v

-- Behind S, W and R: the id, or a comma if arguments follow.
abbrev pub reply_start : ℕ → Option ℕ → ℕ → List ℕ
reply_start letter none cnt = letter ∷ (if cnt == 0 then [] else 44 ∷ [])
reply_start letter (some v) cnt = letter ∷ 44 ∷ id_text (some v)

-- The start of a response behind `[`; `none` is CRITICAL_ERR().
unfoldable pub response_start : AtRet → Option ℕ → ℕ → Option (List ℕ)
response_start ret_ok idval cnt = some (reply_start 83 idval cnt)
response_start ret_async idval cnt = some (reply_start 87 idval cnt)
response_start ret_recv idval cnt = some (reply_start 82 idval cnt)
response_start ret_ok_dump idval cnt = none
response_start ret_done idval cnt = none
response_start retval idval cnt = some (70 ∷ 44 ∷ (id_text idval ++ (44 ∷ error_text retval)))

-- cmd_resp(), with a number or VAL_NONE as the id; the response is made in termbuf.
unfoldable pub cmd_resp : AtRet → Option ℕ → Tcmd → Option (List AtCall)
cmd_resp retval idval tcmd =
    let cnt = count_args tcmd.args in
    elim (response_start retval idval cnt) [
      | none ↦ none
      | some start ↦ elim (make_resp cnt arg_sizes tcmd.args) [
        | none ↦ none
        | some items ↦ elim (fits atcmd_buf_size (91 ∷ (start ++ (items ++ (93 ∷ []))))) [
          | none ↦ none
          | some text ↦ some (uart_write text ∷ uart_write (13 ∷ 10 ∷ []) ∷ [])
        ]
      ]
    ]

-- g_cmd_table
abbrev pub g_cmd_table : List (List ℕ × AtHandler)
g_cmd_table =
    (78 ∷ 83 ∷ 69 ∷ 84 ∷ [], hdl_nset)
    ∷ (78 ∷ 83 ∷ 84 ∷ 65 ∷ 84 ∷ [], hdl_nstat)
    ∷ (78 ∷ 77 ∷ 65 ∷ 67 ∷ [], hdl_nmac)
    ∷ (77 ∷ 83 ∷ 84 ∷ 65 ∷ 84 ∷ [], hdl_mstat)
    ∷ (77 ∷ 85 ∷ 83 ∷ 65 ∷ 82 ∷ 84 ∷ 49 ∷ [], hdl_musart1)
    ∷ (77 ∷ 85 ∷ 83 ∷ 65 ∷ 82 ∷ 84 ∷ 50 ∷ [], hdl_musart2)
    ∷ (77 ∷ 83 ∷ 65 ∷ 86 ∷ 69 ∷ [], hdl_msave)
    ∷ (77 ∷ 82 ∷ 83 ∷ 84 ∷ [], hdl_mrst)
    ∷ (70 ∷ 73 ∷ 79 ∷ 68 ∷ 73 ∷ 82 ∷ [], hdl_fiodir)
    ∷ (70 ∷ 73 ∷ 79 ∷ 86 ∷ 65 ∷ 76 ∷ [], hdl_fioval)
    ∷ []

abbrev pub handler_of : List (List ℕ × AtHandler) → List ℕ → Option AtHandler
handler_of [] op = none
handler_of ((cmd, handler) ∷ rows) op =
    let later = handler_of rows op in if same_text op cmd then some handler else later

-- cmd_assign(): the parts of the command that it leaves, and the calls.
unfoldable pub cmd_assign : Tcmd → Option (Tcmd × List AtCall)
cmd_assign tcmd = elim (handler_of g_cmd_table tcmd.op) [
  | some handler ↦ some (tcmd, process handler ∷ [])
  | none ↦ elim (cmd_resp ret_wrong_op none cmd_clear) [
    | none ↦ none
    | some calls ↦ some (cmd_clear, calls)
  ]
]

abbrev pub AtRun : Type 0
AtRun = Option (Atc × List AtCall)

-- isgraph(), for characters that it is defined for.
abbrev pub is_graph : ℕ → Bool
is_graph c = leb 33 c && leb c 126

abbrev pub if_echo : Atc → List AtCall → List AtCall
if_echo a calls = if a.echo then calls else []

-- What a character does to the line.
unfoldable pub type_char : ℕ → Atc → Atc × List AtCall
type_char c a =
    if is_graph c
    then (if ltb (length a.line) (atcmd_buf_size - 1)
        then (
          record a { line = a.line ++ (c ∷ []) },
          if length a.line == 0 then uart2_flush ∷ [] else [],
        )
        else (a, []))
    else if c == 10
    then (a, if_echo a (uart_write a.line ∷ uart_write (13 ∷ 10 ∷ []) ∷ []))
    else if c == 8
    then (if length a.line == 0 then (a, []) else (
      record a { line = take (length a.line - 1) a.line },
      if_echo a (uart_write (8 ∷ 32 ∷ 8 ∷ []) ∷ []),
    ))
    else if c == 27
    then (a, if_echo a (uart_write (27 ∷ []) ∷ []))
    else (a, [])

-- What atc_run() does with the result of cmd_divide() and its calls.
unfoldable pub respond : AtRet → Tcmd → List AtCall → Option (Tcmd × List AtCall)
respond ret_ok tcmd calls = cmd_assign tcmd
respond ret_done tcmd calls = some (tcmd, calls)
respond ret tcmd calls = elim (cmd_resp ret none tcmd) [
  | none ↦ none
  | some response ↦ some (tcmd, response)
]

-- The end of a line that is not empty.
unfoldable pub enter_line : (ℕ → Bool) → Atc → List AtCall → AtRun
enter_line malloc a calls = elim (cmd_set_prev malloc a.line a) [
  | none ↦ none
  | some a' ↦
      let cleared = record a' { line = []; tcmd = cmd_clear } in
      elim (cmd_divide a.line cleared) [
        | none ↦ none
        | some (ret, (tcmd, more)) ↦ elim (respond ret tcmd more) [
          | none ↦ none
          | some (tcmd', response) ↦ some (record cleared { tcmd = tcmd' }, calls ++ response)
        ]
      ]
]

-- atc_run() with a character that UART_read() gives; isgraph() is not defined for a negative one.
unfoldable pub atc_run : (ℕ → Bool) → ℕ → Atc → AtRun
atc_run malloc c a =
    if ltb 127 c
    then none
    else let typed = type_char c a in
      if c == 10 && ltb 0 (length typed.0.line)
      then enter_line malloc typed.0 typed.1
      else some typed
