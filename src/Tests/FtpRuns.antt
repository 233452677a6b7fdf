-- ===== src/Tests/FtpRuns.antt =====
-- An FTP server that has just started, and a client that logs in and asks for a passive connection.
use x_wizchip_io_library_dri.Base.{ℕ, ◌≡◌, refl, true, false, some, List, [], ◌∷◌, ◌++◌, All, arith}
use x_wizchip_io_library_dri.Services.{established, closed}
use x_wizchip_io_library_dri.Http.Text.{is_prefix}
use x_wizchip_io_library_dri.Http.Pages.{decimal}
use x_wizchip_io_library_dri.Http.Request.{c_string}
use x_wizchip_io_library_dri.Ftp.State.{
  no_cmd, image_type, ftps_not_login, ftps_login, datasock_idle, datasock_start, passive_mode,
  active_mode, Ftpd, FtpCall, reply, open_data, disconnect_data, ftpd_init,
}
use x_wizchip_io_library_dri.Ftp.Commands.{lower_word, skip_spaces}
use x_wizchip_io_library_dri.Ftp.Port.{pport, address_text}
use x_wizchip_io_library_dri.Ftp.Port.ReadBack.{pport-address_text}
use x_wizchip_io_library_dri.Ftp.Replies.{banner, logged_on, passive_start, passive_end}
use x_wizchip_io_library_dri.Ftp.Process.{process, process_pasv, ftp_login, allowed, proc_ftpd}
use x_wizchip_io_library_dri.Ftp.Process.Login.{IsGuarded, proc_ftpd-IsGuarded}
use x_wizchip_io_library_dri.Ftp.Process.Kept.{IsGood, IsGoodCall}
use x_wizchip_io_library_dri.Ftp.Daemon.{
  line, FtpPass, take_line, ctrl_established, ctrl_part, data_closed, next_port, data_part,
  ftpd_run,
}
use x_wizchip_io_library_dri.Ftp.Daemon.Ports.{begin, pass, ftpd_run-IsGood}

abbrev ftp_server : Ftpd
ftp_server = record {
  ftp_type = image_type;
  state = ftps_not_login;
  current_cmd = no_cmd;
  dsock_state = datasock_idle;
  dsock_mode = active_mode;
  username = [];
  workingdir = 47 ∷ [];
  filename = [];
  remote_ip = [];
  remote_port = 0;
  local_ip = 10 ∷ 0 ∷ 0 ∷ 1 ∷ [];
  local_port = 35000;
  connect_state_control = false;
  connect_state_data = false;
}

-- "PASS x" with a line end
abbrev pass_line : List ℕ
pass_line = 80 ∷ 65 ∷ 83 ∷ 83 ∷ 32 ∷ 120 ∷ 13 ∷ 10 ∷ []

-- "PASV" with a line end
abbrev pasv_line : List ℕ
pasv_line = 80 ∷ 65 ∷ 83 ∷ 86 ∷ 13 ∷ 10 ∷ []

pport-address_text_example :
    pport (address_text (10 ∷ 0 ∷ 0 ∷ 1 ∷ []) 35000 (13 ∷ 10 ∷ []))
    ≡ some (10 ∷ 0 ∷ 0 ∷ 1 ∷ [], 35000)
pport-address_text_example =
    pport-address_text 10 0 0 1 35000 (omega arith) (omega arith) (omega arith) (omega arith)
      (omega arith)

proc_ftpd-IsGuarded_example :
    IsGuarded pass_line ftp_server (proc_ftpd (λ op. true) pass_line ftp_server)
proc_ftpd-IsGuarded_example =
    proc_ftpd-IsGuarded (λ op. true) pass_line ftp_server refl (omega arith)

abbrev line_pass : List ℕ → FtpPass
line_pass text = record {
  ctrl = established;
  datasock = closed;
  received = line text;
  ok = λ op. true;
  dbuf = [];
}

abbrev logged_in : Ftpd
logged_in = record ftp_server { state = ftps_login; connect_state_control = true }

abbrev opened : Ftpd
opened = record logged_in {
  dsock_mode = passive_mode;
  dsock_state = datasock_start;
  local_port = 35001;
}

abbrev login_calls : List FtpCall
login_calls = reply banner ∷ reply logged_on ∷ []

abbrev passive_calls : List FtpCall
passive_calls =
    reply (passive_start ++ address_text (10 ∷ 0 ∷ 0 ∷ 1 ∷ []) 35000 passive_end)
    ∷ disconnect_data
    ∷ open_data 35000
    ∷ []

login_lem : ftpd_run (line_pass pass_line) ftp_server ≡ some (logged_in, login_calls)
unfolding ftpd_run ctrl_part ctrl_established take_line c_string proc_ftpd lower_word is_prefix
    skip_spaces allowed process ftp_login data_part data_closed
login_lem = refl

pasv_lem : ftpd_run (line_pass pasv_line) logged_in ≡ some (opened, passive_calls)
unfolding ftpd_run ctrl_part ctrl_established take_line c_string proc_ftpd lower_word is_prefix
    skip_spaces allowed process process_pasv data_part data_closed next_port address_text decimal
pasv_lem = refl

ftpd_run-IsGood_example : IsGood opened × All IsGoodCall passive_calls
unfolding ftpd_init
ftpd_run-IsGood_example = ftpd_run-IsGood opened passive_calls (
    pass (line_pass pasv_line) logged_in opened login_calls passive_calls
      (pass (line_pass pass_line) ftp_server logged_in _ login_calls
        (begin (10 ∷ 0 ∷ 0 ∷ 1 ∷ []) ftp_server ftp_server _ refl) login_lem)
      pasv_lem)
