-- ===== src/Ftp/Daemon/Ports.antt =====
-- The ports that the daemon opens sockets with, in all its passes.
use x_wizchip_io_library_dri.Base.{
  ℕ, ◌≤◌, ◌≡◌, inl, inr, refl, sym, subst, Bool-cases, Bool, true, false, none, some, List, [], ◌∷◌,
  All, All-append, arith,
}
use x_wizchip_io_library_dri.Services.{SocketState, established, close_wait, closed, init, other}
use x_wizchip_io_library_dri.Http.Request.{c_string}
use x_wizchip_io_library_dri.Ftp.State.{
  FtpCmd, list_cmd, retr_cmd, stor_cmd, mlsd_cmd, DatasockState, datasock_idle, datasock_ready,
  datasock_start, DatasockMode, passive_mode, active_mode, Ftpd, FtpCall, reply, open_ctrl,
  open_data, connect_data, listen_ctrl, listen_data, close_ctrl, close_data, disconnect_ctrl,
  disconnect_data, FtpOp, greet, ctrl_disconnect, ctrl_socket, ctrl_listen, data_disconnect,
  data_socket, data_listen, data_connect, ftpd_init,
}
use x_wizchip_io_library_dri.Ftp.Replies.{banner}
use x_wizchip_io_library_dri.Ftp.Process.{Processed, proc_ftpd}
use x_wizchip_io_library_dri.Ftp.Process.Kept.{IsGood, IsGoodCall, AllGood, proc_ftpd-IsGood}
use x_wizchip_io_library_dri.Ftp.Daemon.{
  FtpReceived, nothing, busy, failed, line, FtpPass, FtpStep, attempt, take_line, behind,
  ctrl_established, ctrl_part, data_command, next_port, data_closed, data_init, data_part, ftpd_run,
}

-- A step that keeps the invariant.
abbrev StepGood : FtpStep → Type 0
StepGood none = Unit
StepGood (some (d, (calls, go_on))) = IsGood d × All IsGoodCall calls

attempt-IsGood :
    (ok : Bool) (done failed_at : Ftpd) (call : FtpCall) (on_failure : List FtpCall)
    → IsGood done
    → IsGood failed_at
    → IsGoodCall call
    → All IsGoodCall on_failure
    → StepGood (attempt ok done failed_at call on_failure)
attempt-IsGood true done failed_at call on_failure h k c cs = (h, (c, tt))
attempt-IsGood false done failed_at call on_failure h k c cs = (k, (c, cs))

line-IsGood :
    (ok : FtpOp → Bool) (r : FtpReceived) (d : Ftpd) → IsGood d → StepGood (take_line ok r d)
unfolding take_line
line-IsGood ok nothing d h = (h, tt)
line-IsGood ok busy d h = (h, tt)
line-IsGood ok failed d h = tt
line-IsGood ok (line text) d h =
    processed (proc_ftpd ok (c_string text) d) refl (proc_ftpd-IsGood ok (c_string text) d h)
  where
    processed :
        (o : Processed)
        → proc_ftpd ok (c_string text) d ≡ o
        → AllGood o
        → StepGood (take_line ok (line text) d)
    processed none e k = rw (e, take_line) tt
    processed (some (d', calls)) e k = rw (e, take_line) k

behind-IsGood :
    (calls : List FtpCall) (step : FtpStep)
    → All IsGoodCall calls
    → StepGood step
    → StepGood (behind calls step)
behind-IsGood calls none h k = tt
behind-IsGood calls (some (d, (more, go_on))) h (k, ks) = (k, All-append IsGoodCall calls more h ks)

established-IsGood : (p : FtpPass) (d : Ftpd) → IsGood d → StepGood (ctrl_established p d)
unfolding ctrl_established
established-IsGood p d h = elim (Bool-cases d.connect_state_control) [
  | inl e ↦
      let told : ctrl_established p d ≡ take_line p.ok p.received d = simp e refl in
      subst StepGood (sym told) (line-IsGood p.ok p.received d h)
  | inr e ↦ elim (Bool-cases (p.ok greet)) [
    | inl k ↦
        let greeted : Ftpd = record d { workingdir = 47 ∷ []; connect_state_control = true } in
        let told : ctrl_established p d
            ≡ behind (reply banner ∷ []) (take_line p.ok p.received greeted) =
          simp (e, k) refl in
        subst StepGood (sym told) (
          behind-IsGood (reply banner ∷ []) (take_line p.ok p.received greeted) (tt, tt)
            (line-IsGood p.ok p.received greeted h))
    | inr k ↦
        let greeted : Ftpd = record d { workingdir = 47 ∷ [] } in
        let told : ctrl_established p d ≡ some (greeted, (reply banner ∷ close_ctrl ∷ [], false)) =
          simp (e, k) refl in
        subst StepGood (sym told) (h, (tt, (tt, tt)))
  ]
]

ctrl-IsGood :
    (s : SocketState) (p : FtpPass) (d : Ftpd) → p.ctrl ≡ s → IsGood d → StepGood (ctrl_part p d)
unfolding ctrl_part
ctrl-IsGood established p d e h = rw (e, ctrl_part) (established-IsGood p d h)
ctrl-IsGood close_wait p d e h =
    rw (e, ctrl_part) (attempt-IsGood (p.ok ctrl_disconnect) d d disconnect_ctrl [] h h tt tt)
ctrl-IsGood closed p d e h =
    rw (e, ctrl_part)
      (attempt-IsGood (p.ok ctrl_socket) d d (open_ctrl 21) (close_ctrl ∷ []) h h refl (tt, tt))
ctrl-IsGood init p d e h =
    rw (e, ctrl_part)
      (attempt-IsGood (p.ok ctrl_listen) (record d { connect_state_control = false }) d listen_ctrl
        [] h h tt tt)
ctrl-IsGood other p d e h = rw (e, ctrl_part) (h, tt)

command-IsGood :
    (cmd : FtpCmd) (p : FtpPass) (d : Ftpd) → IsGood d → StepGood (data_command cmd p d)
unfolding data_command
command-IsGood list_cmd p d h = ((h.0, h.1, tt), (tt, (tt, (tt, tt))))
command-IsGood mlsd_cmd p d h = ((h.0, h.1, tt), (tt, (tt, (tt, tt))))
command-IsGood retr_cmd p d h = ((h.0, h.1, tt), (tt, (tt, (tt, tt))))
command-IsGood stor_cmd p d h = ((h.0, h.1, tt), (tt, (tt, (tt, tt))))
command-IsGood _ p d h = (h, tt)

port-IsGood :
    (port : ℕ) → 35000 ≤ port → port ≤ 50000 → (35000 ≤ next_port port) × (next_port port ≤ 50000)
unfolding next_port
port-IsGood port low high = ground arith

closed-IsGood :
    (s : DatasockState) (m : DatasockMode) (p : FtpPass) (d : Ftpd)
    → IsGood d
    → StepGood (data_closed s m p d)
unfolding data_closed
closed-IsGood datasock_ready passive_mode p d h =
    let (low, high) = port-IsGood d.local_port h.0 h.1 in
    attempt-IsGood (p.ok data_socket)
      (record d { local_port = next_port d.local_port; dsock_state = datasock_start }) d
      (open_data d.local_port) (close_data ∷ []) (low, high, h.2) h (inr (h.0, h.1)) (tt, tt)
closed-IsGood datasock_ready active_mode p d h =
    attempt-IsGood (p.ok data_socket) (record d { dsock_state = datasock_start }) d (open_data 20)
      (close_data ∷ []) h h (inl refl) (tt, tt)
closed-IsGood datasock_idle m p d h = (h, tt)
closed-IsGood datasock_start m p d h = (h, tt)

init-IsGood : (m : DatasockMode) (p : FtpPass) (d : Ftpd) → IsGood d → StepGood (data_init m p d)
unfolding data_init
init-IsGood passive_mode p d h =
    attempt-IsGood (p.ok data_listen) (record d { connect_state_data = false }) d listen_data [] h h
      tt tt
init-IsGood active_mode p d h =
    attempt-IsGood (p.ok data_connect) (record d { connect_state_data = false }) d
      (connect_data d.remote_ip d.remote_port) [] h h tt tt

data-IsGood :
    (s : SocketState) (p : FtpPass) (d : Ftpd)
    → p.datasock ≡ s
    → IsGood d
    → StepGood (data_part p d)
unfolding data_part
data-IsGood established p d e h =
    rw (e, data_part) (command-IsGood d.current_cmd p (record d { connect_state_data = true }) h)
data-IsGood close_wait p d e h =
    rw (e, data_part) (attempt-IsGood (p.ok data_disconnect) d d disconnect_data [] h h tt tt)
data-IsGood closed p d e h = rw (e, data_part) (closed-IsGood d.dsock_state d.dsock_mode p d h)
data-IsGood init p d e h = rw (e, data_part) (init-IsGood d.dsock_mode p d h)
data-IsGood other p d e h = rw (e, data_part) (h, tt)

run-IsGood : (p : FtpPass) (d : Ftpd) → IsGood d → AllGood (ftpd_run p d)
unfolding ftpd_run
run-IsGood p d h = with_ctrl (ctrl_part p d) refl (ctrl-IsGood p.ctrl p d refl h)
  where
    with_data :
        (d' : Ftpd) (calls : List FtpCall) (step : FtpStep)
        → ctrl_part p d ≡ some (d', (calls, true))
        → data_part p d' ≡ step
        → All IsGoodCall calls
        → StepGood step
        → AllGood (ftpd_run p d)
    with_data d' calls none e e' k s = rw (e, e', ftpd_run) tt
    with_data d' calls (some (d'', (more, go_on))) e e' k (h', ks) =
        rw (e, e', ftpd_run) (h', All-append IsGoodCall calls more k ks)

    with_ctrl : (step : FtpStep) → ctrl_part p d ≡ step → StepGood step → AllGood (ftpd_run p d)
    with_ctrl none e s = rw (e, ftpd_run) tt
    with_ctrl (some (d', (calls, false))) e s = rw (e, ftpd_run) s
    with_ctrl (some (d', (calls, true))) e (h', k) =
        with_data d' calls (data_part p d') e refl k (data-IsGood p.datasock p d' refl h')

-- What ftpd_init() and passes of ftpd_run() lead to, with the calls of the last of them.
pub data Reaches : Ftpd → List FtpCall → Type 0 where
  begin :
      (src_ip : List ℕ) (d0 d : Ftpd) (calls : List FtpCall)
      → ftpd_init src_ip d0 ≡ (d, calls)
      → Reaches d calls
  pass :
      (p : FtpPass) (d d' : Ftpd) (before calls : List FtpCall)
      → Reaches d before
      → ftpd_run p d ≡ some (d', calls)
      → Reaches d' calls

-- From ftpd_init() on, through passes of ftpd_run() that end without a fault, whatever the lines, the
-- data and the states of the sockets in them are (a recv() that fails, or a text that runs over its
-- array, is a fault): the port for the next passive connection is from 35000 to 50000, the command that
-- waits for a data connection is LIST, MLSD, RETR or STOR or there is none, the control socket is opened
-- with port 21 only, and the data socket with port 20 or one from 35000 to 50000.
pub ftpd_run-IsGood :
    (d : Ftpd) (calls : List FtpCall) → Reaches d calls → IsGood d × All IsGoodCall calls
unfolding ftpd_init
ftpd_run-IsGood d calls (begin src_ip d0 _ _ e) =
    subst (λ r. IsGood r.0 × All IsGoodCall r.1) e ((omega arith, omega arith, tt), (refl, tt))
ftpd_run-IsGood d' calls (pass p d _ before _ from ran) =
    subst AllGood ran (run-IsGood p d (ftpd_run-IsGood d before from).0)
