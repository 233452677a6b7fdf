-- ===== src/Ftp/Process/Kept.antt =====
-- What every command keeps: the port for the data and the kind of command that waits for it.
use x_wizchip_io_library_dri.Base.{
  ℕ, ◌-◌, ◌≤◌, ◌==◌, ltb, ◌||◌, if◌then◌else◌, ◌≡◌, ◌⊎◌, inl, inr, refl, Bool-cases, Bool, true,
  false, Option, none, some, List, [], ◌∷◌, ◌++◌, length, take, get_or, All,
}
use x_wizchip_io_library_dri.Ftp.State.{
  FtpCmd, user_cmd, acct_cmd, pass_cmd, type_cmd, list_cmd, cwd_cmd, dele_cmd, name_cmd, quit_cmd,
  retr_cmd, stor_cmd, port_cmd, nlst_cmd, pwd_cmd, xpwd_cmd, mkd_cmd, xmkd_cmd, xrmd_cmd, rmd_cmd,
  stru_cmd, mode_cmd, syst_cmd, xmd5_cmd, xcwd_cmd, feat_cmd, pasv_cmd, size_cmd, mlsd_cmd,
  appe_cmd, no_cmd, ascii_type, image_type, datasock_ready, passive_mode, active_mode, Ftpd,
  FtpCall, reply, deliver, open_ctrl, open_data, connect_data, listen_ctrl, listen_data, close_ctrl,
  close_data, disconnect_ctrl, disconnect_data, take_all, FtpOp, ask_pass, stor_connect, fits,
}
use x_wizchip_io_library_dri.Ftp.Commands.{
  commands, find_command, lower_word, skip_spaces, chop, has_slash,
}
use x_wizchip_io_library_dri.Ftp.Port.{pport, address_text}
use x_wizchip_io_library_dri.Ftp.Replies.{
  not_logged_in, feature_list, goodbye, port_ok, system_name, no_file, any_size, no_mkdir,
  no_delete, unimplemented, unknown_command, type_set, unknown_type, opening_download,
  opening_upload, opening_listing, current_directory, cwd_done, passive_start, passive_end,
}
use x_wizchip_io_library_dri.Ftp.Process.{
  Processed, say_and, ftp_login, process_user, process_type, path_of, process_retr, process_stor,
  process_port, process_pasv, process_size, change_dir, process_cwd, process, allowed, proc_ftpd,
}

-- The commands that a data connection can find.
abbrev pub Waits : FtpCmd → Type 0
Waits user_cmd = ⊥
Waits acct_cmd = ⊥
Waits pass_cmd = ⊥
Waits type_cmd = ⊥
Waits list_cmd = Unit
Waits cwd_cmd = ⊥
Waits dele_cmd = ⊥
Waits name_cmd = ⊥
Waits quit_cmd = ⊥
Waits retr_cmd = Unit
Waits stor_cmd = Unit
Waits port_cmd = ⊥
Waits nlst_cmd = ⊥
Waits pwd_cmd = ⊥
Waits xpwd_cmd = ⊥
Waits mkd_cmd = ⊥
Waits xmkd_cmd = ⊥
Waits xrmd_cmd = ⊥
Waits rmd_cmd = ⊥
Waits stru_cmd = ⊥
Waits mode_cmd = ⊥
Waits syst_cmd = ⊥
Waits xmd5_cmd = ⊥
Waits xcwd_cmd = ⊥
Waits feat_cmd = ⊥
Waits pasv_cmd = ⊥
Waits size_cmd = ⊥
Waits mlsd_cmd = Unit
Waits appe_cmd = ⊥
Waits no_cmd = Unit

-- The port for the next passive data connection is from 35000 to 50000.
abbrev pub IsGood : Ftpd → Type 0
IsGood d = (35000 ≤ d.local_port) × (d.local_port ≤ 50000) × Waits d.current_cmd

-- The ports that sockets are opened with.
abbrev pub IsGoodCall : FtpCall → Type 0
IsGoodCall (open_ctrl port) = port ≡ 21
IsGoodCall (open_data port) = (port ≡ 20) ⊎ ((35000 ≤ port) × (port ≤ 50000))
IsGoodCall (reply text) = Unit
IsGoodCall (deliver text) = Unit
IsGoodCall (connect_data ip port) = Unit
IsGoodCall listen_ctrl = Unit
IsGoodCall listen_data = Unit
IsGoodCall close_ctrl = Unit
IsGoodCall close_data = Unit
IsGoodCall disconnect_ctrl = Unit
IsGoodCall disconnect_data = Unit
IsGoodCall take_all = Unit

abbrev pub AllGood : Processed → Type 0
AllGood none = Unit
AllGood (some (d, calls)) = IsGood d × All IsGoodCall calls

say_and-IsGood :
    (d : Ftpd) (text : List ℕ) (calls : List FtpCall)
    → IsGood d
    → All IsGoodCall calls
    → AllGood (say_and d text calls)
say_and-IsGood d text calls h k = elim (Bool-cases (ltb (length text) 200)) [
  | inl e ↦ rw (e, say_and, fits) (h, (tt, k))
  | inr e ↦ rw (e, say_and, fits) tt
]

user-IsGood : (sent : Bool) (arg : List ℕ) (d : Ftpd) → IsGood d → AllGood (process_user sent arg d)
unfolding process_user
user-IsGood sent arg d h = elim (Bool-cases (ltb (length (chop arg)) 100)) [
  | inl e ↦ rw (e, process_user) (h, (tt, ends_or_not sent))
  | inr e ↦ rw (e, process_user) tt
]
  where
    ends_or_not : (sent : Bool) → All IsGoodCall (if sent then [] else close_ctrl ∷ [])
    ends_or_not false = (tt, tt)
    ends_or_not true = tt

type-IsGood : (arg : List ℕ) (d : Ftpd) → IsGood d → AllGood (process_type arg d)
unfolding process_type
type-IsGood arg d h =
    let first = get_or (chop arg) 0 0 in
    elim (Bool-cases (first == 65 || first == 97)) [
      | inl e ↦
          rw (e, process_type)
            (say_and-IsGood (record d { ftp_type = ascii_type }) (type_set (chop arg)) [] h tt)
      | inr e ↦ elim (Bool-cases (first == 66 || (first == 98 || (first == 73 || first == 105)))) [
        | inl k ↦
            rw (e, k, process_type)
              (say_and-IsGood (record d { ftp_type = image_type }) (type_set (chop arg)) [] h tt)
        | inr k ↦ rw (e, k, process_type) (say_and-IsGood d (unknown_type (chop arg)) [] h tt)
      ]
    ]

retr-IsGood : (arg : List ℕ) (d : Ftpd) → IsGood d → AllGood (process_retr arg d)
unfolding process_retr
retr-IsGood arg d h =
    let name = path_of d.workingdir (chop arg) in
    elim (Bool-cases (ltb (length name) 100)) [
      | inl e ↦
          rw (e, process_retr)
            (say_and-IsGood (record d { filename = name; current_cmd = retr_cmd })
              (opening_download name) [] (h.0, h.1, tt) tt)
      | inr e ↦ rw (e, process_retr) tt
    ]

stor-IsGood :
    (connected : Bool) (arg : List ℕ) (d : Ftpd) → IsGood d → AllGood (process_stor connected arg d)
unfolding process_stor
stor-IsGood connected arg d h =
    let name = path_of d.workingdir (chop arg) in
    elim (Bool-cases (ltb (length name) 100)) [
      | inl e ↦
          rw (e, process_stor)
            (say_and-IsGood
              (record d {
                filename = name;
                current_cmd = stor_cmd;
                connect_state_data = if connected then false else d.connect_state_data;
              })
              (opening_upload name) (connect_data d.remote_ip d.remote_port ∷ []) (h.0, h.1, tt)
              (tt, tt))
      | inr e ↦ rw (e, process_stor) tt
    ]

port-IsGood : (arg : List ℕ) (d : Ftpd) → IsGood d → AllGood (process_port arg d)
unfolding process_port
port-IsGood arg d h = read (pport arg) refl
  where
    read : (o : Option (List ℕ × ℕ)) → pport arg ≡ o → AllGood (process_port arg d)
    read none e = rw (e, process_port) tt
    read (some (ip, port)) e =
        rw (e, process_port)
          (say_and-IsGood
            (record d {
              remote_ip = ip;
              remote_port = port;
              dsock_mode = active_mode;
              dsock_state = datasock_ready;
            })
            port_ok [] h tt)

pasv-IsGood : (d : Ftpd) → IsGood d → AllGood (process_pasv d)
unfolding process_pasv
pasv-IsGood d h =
    say_and-IsGood (record d { dsock_mode = passive_mode; dsock_state = datasock_ready })
      (passive_start ++ address_text d.local_ip d.local_port passive_end) (disconnect_data ∷ []) h
      (tt, tt)

size-IsGood : (arg : List ℕ) (d : Ftpd) → IsGood d → AllGood (process_size arg d)
unfolding process_size
size-IsGood arg d h = elim (Bool-cases (ltb 3 (length arg))) [
  | inl e ↦ elim (Bool-cases (has_slash (chop arg))) [
    | inl k ↦ rw (e, k, process_size) (say_and-IsGood d any_size [] h tt)
    | inr k ↦ rw (e, k, process_size) tt
  ]
  | inr e ↦ rw (e, process_size) (say_and-IsGood d no_file [] h tt)
]

change_dir-IsGood : (dir : List ℕ) (d : Ftpd) → IsGood d → AllGood (change_dir dir d)
change_dir-IsGood dir d h = elim (Bool-cases (ltb (length dir) 100)) [
  | inl e ↦
      rw (e, change_dir, fits)
        (say_and-IsGood (record d { workingdir = dir }) (cwd_done dir) [] h tt)
  | inr e ↦ rw (e, change_dir, fits) tt
]

cwd-IsGood : (arg : List ℕ) (d : Ftpd) → IsGood d → AllGood (process_cwd arg d)
unfolding process_cwd
cwd-IsGood arg d h = elim (Bool-cases (ltb 3 (length arg))) [
  | inl e ↦ elim (Bool-cases (has_slash (take (length arg - 3) arg))) [
    | inl k ↦ rw (e, k, process_cwd) (change_dir-IsGood (take (length arg - 3) arg) d h)
    | inr k ↦ rw (e, k, process_cwd) tt
  ]
  | inr e ↦ rw (e, process_cwd) (change_dir-IsGood (chop arg) d h)
]

process-IsGood :
    (ok : FtpOp → Bool) (cmd : FtpCmd) (arg : List ℕ) (d : Ftpd)
    → IsGood d
    → AllGood (process ok cmd arg d)
unfolding process ftp_login
process-IsGood ok user_cmd arg d h = user-IsGood (ok ask_pass) arg d h
process-IsGood ok acct_cmd arg d h = say_and-IsGood d unimplemented [] h tt
process-IsGood ok pass_cmd arg d h = (h, (tt, tt))
process-IsGood ok type_cmd arg d h = type-IsGood arg d h
process-IsGood ok list_cmd arg d h =
    say_and-IsGood (record d { current_cmd = list_cmd }) (opening_listing d.workingdir) []
      (h.0, h.1, tt) tt
process-IsGood ok cwd_cmd arg d h = cwd-IsGood arg d h
process-IsGood ok dele_cmd arg d h = say_and-IsGood d no_delete [] h tt
process-IsGood ok name_cmd arg d h = say_and-IsGood d (unknown_command arg) [] h tt
process-IsGood ok quit_cmd arg d h = say_and-IsGood d goodbye (disconnect_ctrl ∷ []) h (tt, tt)
process-IsGood ok retr_cmd arg d h = retr-IsGood arg d h
process-IsGood ok stor_cmd arg d h = stor-IsGood (ok stor_connect) arg d h
process-IsGood ok port_cmd arg d h = port-IsGood arg d h
process-IsGood ok nlst_cmd arg d h = (h, tt)
process-IsGood ok pwd_cmd arg d h = say_and-IsGood d (current_directory d.workingdir) [] h tt
process-IsGood ok xpwd_cmd arg d h = say_and-IsGood d (current_directory d.workingdir) [] h tt
process-IsGood ok mkd_cmd arg d h = say_and-IsGood d no_mkdir [] h tt
process-IsGood ok xmkd_cmd arg d h = say_and-IsGood d no_mkdir [] h tt
process-IsGood ok xrmd_cmd arg d h = say_and-IsGood d unimplemented [] h tt
process-IsGood ok rmd_cmd arg d h = say_and-IsGood d unimplemented [] h tt
process-IsGood ok stru_cmd arg d h = say_and-IsGood d unimplemented [] h tt
process-IsGood ok mode_cmd arg d h = say_and-IsGood d unimplemented [] h tt
process-IsGood ok syst_cmd arg d h = say_and-IsGood d system_name [] h tt
process-IsGood ok xmd5_cmd arg d h = say_and-IsGood d unimplemented [] h tt
process-IsGood ok xcwd_cmd arg d h = say_and-IsGood d unimplemented [] h tt
process-IsGood ok feat_cmd arg d h = say_and-IsGood d feature_list [] h tt
process-IsGood ok pasv_cmd arg d h = pasv-IsGood d h
process-IsGood ok size_cmd arg d h = size-IsGood arg d h
process-IsGood ok mlsd_cmd arg d h =
    say_and-IsGood (record d { current_cmd = mlsd_cmd }) (opening_listing d.workingdir) []
      (h.0, h.1, tt) tt
process-IsGood ok appe_cmd arg d h = stor-IsGood (ok stor_connect) arg d h
process-IsGood ok no_cmd arg d h = say_and-IsGood d (unknown_command arg) [] h tt

pub proc_ftpd-IsGood :
    (ok : FtpOp → Bool) (buf : List ℕ) (d : Ftpd) → IsGood d → AllGood (proc_ftpd ok buf d)
unfolding proc_ftpd
proc_ftpd-IsGood ok buf d h = with_command (find_command commands (lower_word buf)) refl
  where
    with_command :
        (o : Option (FtpCmd × List ℕ))
        → find_command commands (lower_word buf) ≡ o
        → AllGood (proc_ftpd ok buf d)
    with_command none e =
        rw (e, proc_ftpd) (say_and-IsGood d (unknown_command (lower_word buf)) [] h tt)
    with_command (some (cmd, rest)) e = elim (Bool-cases (allowed d.state cmd)) [
      | inl a ↦ rw (e, a, proc_ftpd) (process-IsGood ok cmd (skip_spaces rest) d h)
      | inr a ↦ rw (e, a, proc_ftpd) (say_and-IsGood d not_logged_in [] h tt)
    ]
