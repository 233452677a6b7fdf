-- ===== src/Ftp/Process.antt =====
-- ftpd.c: proc_ftpd() and ftplogin().
pub mod Kept
pub mod Login
use x_wizchip_io_library_dri.Base.{
  ℕ, ◌+◌, ◌-◌, ◌==◌, ltb, leb, ◌||◌, Bool, true, false, if◌then◌else◌, Option, none, some, List, [],
  ◌∷◌, ◌++◌, length, take, get_or,
}
use x_wizchip_io_library_dri.Ftp.State.{
  FtpCmd, user_cmd, acct_cmd, pass_cmd, type_cmd, list_cmd, cwd_cmd, dele_cmd, name_cmd, quit_cmd,
  retr_cmd, stor_cmd, port_cmd, nlst_cmd, pwd_cmd, xpwd_cmd, mkd_cmd, xmkd_cmd, xrmd_cmd, rmd_cmd,
  stru_cmd, mode_cmd, syst_cmd, xmd5_cmd, xcwd_cmd, feat_cmd, pasv_cmd, size_cmd, mlsd_cmd,
  appe_cmd, no_cmd, ascii_type, image_type, ftps_not_login, FtpState, ftps_login, datasock_ready,
  passive_mode, active_mode, Ftpd, FtpCall, reply, connect_data, close_ctrl, disconnect_ctrl,
  disconnect_data, FtpOp, ask_pass, stor_connect, linelen, sendbuf_size, fits,
}
use x_wizchip_io_library_dri.Ftp.Commands.{
  commands, find_command, lower_word, skip_spaces, chop, has_slash,
}
use x_wizchip_io_library_dri.Ftp.Port.{pport, address_text}
use x_wizchip_io_library_dri.Ftp.Replies.{
  not_logged_in, enter_pass, logged_on, feature_list, goodbye, port_ok, system_name, no_file,
  any_size, no_mkdir, no_delete, unimplemented, unknown_command, type_set, unknown_type,
  opening_download, opening_upload, opening_listing, current_directory, cwd_done, passive_start,
  passive_end,
}

-- The variables and the calls; `none` is a text that runs over its array, or an access through NULL.
abbrev pub Processed : Type 0
Processed = Option (Ftpd × List FtpCall)

-- A reply that is written to sendbuf, with calls behind it.
abbrev pub say_and : Ftpd → List ℕ → List FtpCall → Processed
say_and d text calls = elim (fits sendbuf_size text) [
  | none ↦ none
  | some sent ↦ some (d, reply sent ∷ calls)
]

abbrev pub say : Ftpd → List ℕ → Processed
say d text = say_and d text []

unfoldable pub ftp_login : Ftpd → Processed
ftp_login d = some (record d { state = ftps_login }, reply logged_on ∷ [])

-- USER; `sent`: send() took the reply.
unfoldable pub process_user : Bool → List ℕ → Ftpd → Processed
process_user sent arg d = elim (fits linelen (chop arg)) [
  | none ↦ none
  | some name ↦
      some (record d { username = name }, reply enter_pass ∷ (if sent then [] else close_ctrl ∷ []))
]

unfoldable pub process_type : List ℕ → Ftpd → Processed
process_type arg d =
    let first = get_or (chop arg) 0 0 in
    if first == 65 || first == 97
    then say (record d { ftp_type = ascii_type }) (type_set (chop arg))
    else if first == 66 || (first == 98 || (first == 73 || first == 105))
    then say (record d { ftp_type = image_type }) (type_set (chop arg))
    else say d (unknown_type (chop arg))

-- The name of the file in the working directory
abbrev pub path_of : List ℕ → List ℕ → List ℕ
path_of dir arg = if length dir == 1 then 47 ∷ arg else dir ++ (47 ∷ arg)

unfoldable pub process_retr : List ℕ → Ftpd → Processed
process_retr arg d = elim (fits linelen (path_of d.workingdir (chop arg))) [
  | none ↦ none
  | some name ↦ say (record d { filename = name; current_cmd = retr_cmd }) (opening_download name)
]

-- STOR and APPE; `connected`: connect() returned SOCK_OK.
unfoldable pub process_stor : Bool → List ℕ → Ftpd → Processed
process_stor connected arg d = elim (fits linelen (path_of d.workingdir (chop arg))) [
  | none ↦ none
  | some name ↦
      say_and
        (record d {
          filename = name;
          current_cmd = stor_cmd;
          connect_state_data = if connected then false else d.connect_state_data;
        })
        (opening_upload name) (connect_data d.remote_ip d.remote_port ∷ [])
]

unfoldable pub process_port : List ℕ → Ftpd → Processed
process_port arg d = elim (pport arg) [
  | none ↦ none
  | some (ip, port) ↦
      say
        (record d {
          remote_ip = ip;
          remote_port = port;
          dsock_mode = active_mode;
          dsock_state = datasock_ready;
        })
        port_ok
]

unfoldable pub process_pasv : Ftpd → Processed
process_pasv d =
    say_and (record d { dsock_mode = passive_mode; dsock_state = datasock_ready })
      (passive_start ++ address_text d.local_ip d.local_port passive_end) (disconnect_data ∷ [])

-- The place of strrchr() is written to, found or not.
unfoldable pub process_size : List ℕ → Ftpd → Processed
process_size arg d =
    if ltb 3 (length arg)
    then (if has_slash (chop arg) then say d any_size else none)
    else say d no_file

abbrev pub change_dir : List ℕ → Ftpd → Processed
change_dir dir d = elim (fits linelen dir) [
  | none ↦ none
  | some name ↦ say (record d { workingdir = name }) (cwd_done name)
]

-- A longer argument loses its last character.
unfoldable pub process_cwd : List ℕ → Ftpd → Processed
process_cwd arg d =
    if ltb 3 (length arg)
    then (let dir = take (length arg - 3) arg in if has_slash dir then change_dir dir d else none)
    else change_dir (chop arg) d

-- The second switch of proc_ftpd(); `ok`: whether a call succeeds.
unfoldable pub process : (FtpOp → Bool) → FtpCmd → List ℕ → Ftpd → Processed
process ok user_cmd arg d = process_user (ok ask_pass) arg d
process ok pass_cmd arg d = ftp_login d
process ok type_cmd arg d = process_type arg d
process ok feat_cmd arg d = say d feature_list
process ok quit_cmd arg d = say_and d goodbye (disconnect_ctrl ∷ [])
process ok retr_cmd arg d = process_retr arg d
process ok appe_cmd arg d = process_stor (ok stor_connect) arg d
process ok stor_cmd arg d = process_stor (ok stor_connect) arg d
process ok port_cmd arg d = process_port arg d
process ok mlsd_cmd arg d = say (record d { current_cmd = mlsd_cmd }) (opening_listing d.workingdir)
process ok list_cmd arg d = say (record d { current_cmd = list_cmd }) (opening_listing d.workingdir)
process ok nlst_cmd arg d = some (d, [])
process ok syst_cmd arg d = say d system_name
process ok pwd_cmd arg d = say d (current_directory d.workingdir)
process ok xpwd_cmd arg d = say d (current_directory d.workingdir)
process ok pasv_cmd arg d = process_pasv d
process ok size_cmd arg d = process_size arg d
process ok cwd_cmd arg d = process_cwd arg d
process ok mkd_cmd arg d = say d no_mkdir
process ok xmkd_cmd arg d = say d no_mkdir
process ok dele_cmd arg d = say d no_delete
process ok xcwd_cmd arg d = say d unimplemented
process ok acct_cmd arg d = say d unimplemented
process ok xrmd_cmd arg d = say d unimplemented
process ok rmd_cmd arg d = say d unimplemented
process ok stru_cmd arg d = say d unimplemented
process ok mode_cmd arg d = say d unimplemented
process ok xmd5_cmd arg d = say d unimplemented
process ok name_cmd arg d = say d (unknown_command arg)
process ok no_cmd arg d = say d (unknown_command arg)

-- The first switch: what is taken before a login.
unfoldable pub allowed : FtpState → FtpCmd → Bool
allowed ftps_login cmd = true
allowed ftps_not_login user_cmd = true
allowed ftps_not_login pass_cmd = true
allowed ftps_not_login quit_cmd = true
allowed ftps_not_login _ = false

-- proc_ftpd() without its result, which ftpd_run() does not use
unfoldable pub proc_ftpd : (FtpOp → Bool) → List ℕ → Ftpd → Processed
proc_ftpd ok buf d = elim (find_command commands (lower_word buf)) [
  | none ↦ say d (unknown_command (lower_word buf))
  | some (cmd, rest) ↦
      if allowed d.state cmd then process ok cmd (skip_spaces rest) d else say d not_logged_in
]
