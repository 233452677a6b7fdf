-- ===== src/Ftp/Daemon.antt =====
-- ftpd.c: ftpd_run().
pub mod Ports
use x_wizchip_io_library_dri.Base.{
  ℕ, ◌+◌, ◌%◌, ltb, Bool, true, false, if◌then◌else◌, Option, none, some, List, [], ◌∷◌, ◌++◌,
}
use x_wizchip_io_library_dri.Services.{SocketState, established, close_wait, closed, init, other}
use x_wizchip_io_library_dri.Http.Text.{same_text}
use x_wizchip_io_library_dri.Http.Request.{c_string}
use x_wizchip_io_library_dri.Ftp.State.{
  FtpCmd, list_cmd, retr_cmd, stor_cmd, mlsd_cmd, no_cmd, datasock_idle, DatasockState,
  datasock_ready, datasock_start, DatasockMode, passive_mode, active_mode, Ftpd, FtpCall, reply,
  deliver, open_ctrl, open_data, connect_data, listen_ctrl, listen_data, close_ctrl, close_data,
  disconnect_ctrl, disconnect_data, take_all, FtpOp, greet, ctrl_disconnect, ctrl_socket,
  ctrl_listen, data_disconnect, data_socket, data_listen, data_connect, ipport_ftp, ipport_ftpd,
}
use x_wizchip_io_library_dri.Ftp.Replies.{banner, dir_listing, recycle_bin, transferred}
use x_wizchip_io_library_dri.Ftp.Process.{proc_ftpd}

-- What recv() gives on the control socket: Sn_RX_RSR is 0, a line, SOCK_BUSY, or an error.
pub data FtpReceived : Type 0 where
  nothing busy failed : FtpReceived
  line : List ℕ → FtpReceived

-- What a pass finds: Sn_SR of the two sockets, what is received, which calls succeed, and the text that
-- stands in the buffer when a listing is sent.
pub record FtpPass : Type 0 where
  pub ctrl : SocketState
  pub datasock : SocketState
  pub received : FtpReceived
  pub ok : FtpOp → Bool
  pub dbuf : List ℕ

-- The variables, the calls, and whether the function goes on; `none` is a fault.
abbrev pub FtpStep : Type 0
FtpStep = Option (Ftpd × (List FtpCall × Bool))

-- A call after which the function returns unless it succeeds, and the calls on the failure.
abbrev pub attempt : Bool → Ftpd → Ftpd → FtpCall → List FtpCall → FtpStep
attempt true done failed_at call on_failure = some (done, (call ∷ [], true))
attempt false done failed_at call on_failure = some (failed_at, (call ∷ on_failure, false))

-- The line that arrived. An error of recv() is looked at behind `dbuf[ret] = 0`.
unfoldable pub take_line : (FtpOp → Bool) → FtpReceived → Ftpd → FtpStep
take_line ok nothing d = some (d, ([], true))
take_line ok busy d = some (d, ([], false))
take_line ok failed d = none
take_line ok (line text) d = elim (proc_ftpd ok (c_string text) d) [
  | none ↦ none
  | some (d', calls) ↦ some (d', (calls, true))
]

abbrev pub behind : List FtpCall → FtpStep → FtpStep
behind calls none = none
behind calls (some (d, (more, go_on))) = some (d, (calls ++ more, go_on))

-- The control socket is connected: the greeting comes first.
unfoldable pub ctrl_established : FtpPass → Ftpd → FtpStep
ctrl_established pass d =
    if d.connect_state_control
    then take_line pass.ok pass.received d
    else let greeted = record d { workingdir = 47 ∷ [] } in
      if pass.ok greet
      then behind (reply banner ∷ [])
          (take_line pass.ok pass.received (record greeted { connect_state_control = true }))
      else some (greeted, (reply banner ∷ close_ctrl ∷ [], false))

-- The switch over the state of the control socket.
unfoldable pub ctrl_part : FtpPass → Ftpd → FtpStep
ctrl_part pass d = elim pass.ctrl [
  | established ↦ ctrl_established pass d
  | close_wait ↦ attempt (pass.ok ctrl_disconnect) d d disconnect_ctrl []
  | closed ↦ attempt (pass.ok ctrl_socket) d d (open_ctrl ipport_ftp) (close_ctrl ∷ [])
  | init ↦
      attempt (pass.ok ctrl_listen) (record d { connect_state_control = false }) d listen_ctrl []
  | other ↦ some (d, ([], true))
]

abbrev pub finish : Ftpd → List FtpCall → List ℕ → FtpStep
finish d calls name = some (
  record d { current_cmd = no_cmd },
  (calls ++ (disconnect_data ∷ reply (transferred name) ∷ []), true),
)

-- What LIST and MLSD send.
abbrev pub listing : FtpPass → Ftpd → List ℕ
listing pass d = if same_text d.workingdir recycle_bin then c_string pass.dbuf else dir_listing

-- The data socket is connected: the command that waits for it.
unfoldable pub data_command : FtpCmd → FtpPass → Ftpd → FtpStep
data_command list_cmd pass d = finish d (deliver (listing pass d) ∷ []) d.workingdir
data_command mlsd_cmd pass d = finish d (deliver (listing pass d) ∷ []) d.workingdir
data_command retr_cmd pass d = finish d (deliver d.filename ∷ []) d.filename
data_command stor_cmd pass d = finish d (take_all ∷ []) d.filename
data_command _ pass d = some (d, ([], true))

unfoldable pub next_port : ℕ → ℕ
next_port port = let next = (port + 1) % 65536 in if ltb 50000 next then 35000 else next

-- The data socket is closed: it is opened where a command has asked for it.
unfoldable pub data_closed : DatasockState → DatasockMode → FtpPass → Ftpd → FtpStep
data_closed datasock_ready passive_mode pass d =
    attempt (pass.ok data_socket)
      (record d { local_port = next_port d.local_port; dsock_state = datasock_start }) d
      (open_data d.local_port) (close_data ∷ [])
data_closed datasock_ready active_mode pass d =
    attempt (pass.ok data_socket) (record d { dsock_state = datasock_start }) d
      (open_data ipport_ftpd) (close_data ∷ [])
data_closed _ mode pass d = some (d, ([], true))

unfoldable pub data_init : DatasockMode → FtpPass → Ftpd → FtpStep
data_init passive_mode pass d =
    attempt (pass.ok data_listen) (record d { connect_state_data = false }) d listen_data []
data_init active_mode pass d =
    attempt (pass.ok data_connect) (record d { connect_state_data = false }) d
      (connect_data d.remote_ip d.remote_port) []

-- The switch over the state of the data socket.
unfoldable pub data_part : FtpPass → Ftpd → FtpStep
data_part pass d = elim pass.datasock [
  | established ↦ data_command d.current_cmd pass (record d { connect_state_data = true })
  | close_wait ↦ attempt (pass.ok data_disconnect) d d disconnect_data []
  | closed ↦ data_closed d.dsock_state d.dsock_mode pass d
  | init ↦ data_init d.dsock_mode pass d
  | other ↦ some (d, ([], true))
]

-- ftpd_run() without its result
unfoldable pub ftpd_run : FtpPass → Ftpd → Option (Ftpd × List FtpCall)
ftpd_run pass d = elim (ctrl_part pass d) [
  | none ↦ none
  | some (d', (calls, go_on)) ↦ elim go_on [
    | false ↦ some (d', calls)
    | true ↦ elim (data_part pass d') [
      | none ↦ none
      | some (d'', (more, go_on')) ↦ some (d'', calls ++ more)
    ]
  ]
]
