-- ===== src/Atc/State.antt =====
-- atcmd.c and cmdrun.h: the results, the parts of a command and the variables.
use x_wizchip_io_library_dri.Base.{ℕ, Bool, true, Option, none, List, [], ◌∷◌, replicate}

-- The results, RET_ in the source.
pub data AtRet : Type 0 where
  ret_ok ret_done ret_ok_dump ret_async ret_recv : AtRet
  ret_unspecified ret_wrong_op ret_wrong_sign ret_wrong_arg ret_range_out ret_disabled : AtRet
  ret_not_allowed ret_busy ret_timeout ret_no_sock ret_sock_cls ret_using_port ret_not_conn : AtRet
  ret_wrong_addr ret_no_data ret_no_freemem : AtRet

-- CMD_SIGN_
pub data CmdSign : Type 0 where
  cmd_sign_none cmd_sign_quest cmd_sign_indiv cmd_sign_equal : CmdSign

-- The handlers of g_cmd_table.
pub data AtHandler : Type 0 where
  hdl_nset hdl_nstat hdl_nmac hdl_mstat hdl_musart1 hdl_musart2 hdl_msave hdl_mrst hdl_fiodir :
      AtHandler
  hdl_fioval : AtHandler

-- atci.tcmd, with arg1 to arg6 as a list; the texts are C strings.
pub record Tcmd : Type 0 where
  pub sign : CmdSign
  pub op : List ℕ
  pub args : List (List ℕ)

-- The static variables. `line` is the part of termbuf up to buflen, and an entry of prevbuf the text
-- that it points to.
pub record Atc : Type 0 where
  pub line : List ℕ
  pub prevbuf : List (Option (List ℕ))
  pub previdx : ℕ
  pub prevcnt : ℕ
  pub prevlen : ℕ
  pub echo : Bool
  pub tcmd : Tcmd

-- The calls that leave the module: UART_write() with its bytes, UART2_flush(), and the handler of a
-- command.
pub data AtCall : Type 0 where
  uart_write : List ℕ → AtCall
  uart2_flush : AtCall
  process : AtHandler → AtCall

abbrev pub atcmd_buf_size : ℕ
atcmd_buf_size = 100

abbrev pub prevbuf_max_size : ℕ
prevbuf_max_size = 250

abbrev pub prevbuf_max_num : ℕ
prevbuf_max_num = 2

abbrev pub prevbuf_last : ℕ
prevbuf_last = 1

abbrev pub op_size : ℕ
op_size = 8

-- ARG_1_SIZE to ARG_6_SIZE
abbrev pub arg_sizes : List ℕ
arg_sizes = 36 ∷ 36 ∷ 20 ∷ 20 ∷ 20 ∷ 20 ∷ []

-- CMD_CLEAR()
abbrev pub cmd_clear : Tcmd
cmd_clear = record { sign = cmd_sign_none; op = []; args = replicate 6 [] }

-- The variables as they are initialised, behind atc_init().
abbrev pub atc_init : Atc
atc_init = record {
  line = [];
  prevbuf = none ∷ none ∷ [];
  previdx = 0;
  prevcnt = 0;
  prevlen = 0;
  echo = true;
  tcmd = cmd_clear;
}
