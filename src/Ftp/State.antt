-- ===== src/Ftp/State.antt =====
-- ftpd.h and ftpd.c: the types, the variables, and the calls that leave the daemon.
use x_wizchip_io_library_dri.Base.{
  ℕ, ltb, Bool, if◌then◌else◌, Option, none, some, List, [], ◌∷◌, length,
}

-- The entries of `commands`, in their order, and NO_CMD.
pub data FtpCmd : Type 0 where
  user_cmd acct_cmd pass_cmd type_cmd list_cmd cwd_cmd dele_cmd name_cmd quit_cmd retr_cmd : FtpCmd
  stor_cmd port_cmd nlst_cmd pwd_cmd xpwd_cmd mkd_cmd xmkd_cmd xrmd_cmd rmd_cmd stru_cmd : FtpCmd
  mode_cmd syst_cmd xmd5_cmd xcwd_cmd feat_cmd pasv_cmd size_cmd mlsd_cmd appe_cmd no_cmd : FtpCmd

pub data FtpType : Type 0 where
  ascii_type image_type logical_type : FtpType

pub data FtpState : Type 0 where
  ftps_not_login ftps_login : FtpState

pub data DatasockState : Type 0 where
  datasock_idle datasock_ready datasock_start : DatasockState

pub data DatasockMode : Type 0 where
  passive_mode active_mode : DatasockMode

-- The file-scope variables and the fields of `ftp`; the texts are C strings in arrays of LINELEN
-- bytes.
pub record Ftpd : Type 0 where
  pub ftp_type : FtpType
  pub state : FtpState
  pub current_cmd : FtpCmd
  pub dsock_state : DatasockState
  pub dsock_mode : DatasockMode
  pub username : List ℕ
  pub workingdir : List ℕ
  pub filename : List ℕ
  pub remote_ip : List ℕ
  pub remote_port : ℕ
  pub local_ip : List ℕ
  pub local_port : ℕ
  pub connect_state_control : Bool
  pub connect_state_data : Bool

-- The calls of the socket API on the control and on the data socket: `reply` and `deliver` are send(),
-- `take_all` is the loop of recv() that ends when the peer has closed.
pub data FtpCall : Type 0 where
  reply deliver : List ℕ → FtpCall
  open_ctrl open_data : ℕ → FtpCall
  connect_data : List ℕ → ℕ → FtpCall
  listen_ctrl listen_data close_ctrl close_data disconnect_ctrl disconnect_data take_all : FtpCall

-- The calls whose result is looked at.
pub data FtpOp : Type 0 where
  greet ask_pass stor_connect : FtpOp
  ctrl_disconnect ctrl_socket ctrl_listen : FtpOp
  data_disconnect data_socket data_listen data_connect : FtpOp

abbrev pub linelen : ℕ
linelen = 100

abbrev pub ipport_ftp : ℕ
ipport_ftp = 21

abbrev pub ipport_ftpd : ℕ
ipport_ftpd = 20

-- The size of sendbuf in proc_ftpd()
abbrev pub sendbuf_size : ℕ
sendbuf_size = 200

-- The text, where it fits an array of `size` bytes.
abbrev pub fits : ℕ → List ℕ → Option (List ℕ)
fits size text = if ltb (length text) size then some text else none

unfoldable pub ftpd_init : List ℕ → Ftpd → Ftpd × List FtpCall
ftpd_init src_ip d = (
  record d {
    state = ftps_not_login;
    current_cmd = no_cmd;
    dsock_mode = active_mode;
    local_ip = src_ip;
    local_port = 35000;
    workingdir = 47 ∷ [];
  },
  open_ctrl ipport_ftp ∷ [],
)
