-- ===== src/Ftp/Commands.antt =====
-- ftpd.c: the table of commands, and how a line is taken apart.
use x_wizchip_io_library_dri.Base.{
  ℕ, ◌+◌, ◌-◌, ◌==◌, leb, ◌&&◌, ◌||◌, Bool, false, if◌then◌else◌, Option, none, some, List, [], ◌∷◌,
  length, take, drop,
}
use x_wizchip_io_library_dri.Http.Text.{is_prefix}
use x_wizchip_io_library_dri.Ftp.State.{
  FtpCmd, user_cmd, acct_cmd, pass_cmd, type_cmd, list_cmd, cwd_cmd, dele_cmd, name_cmd, quit_cmd,
  retr_cmd, stor_cmd, port_cmd, nlst_cmd, pwd_cmd, xpwd_cmd, mkd_cmd, xmkd_cmd, xrmd_cmd, rmd_cmd,
  stru_cmd, mode_cmd, syst_cmd, xmd5_cmd, xcwd_cmd, feat_cmd, pasv_cmd, size_cmd, mlsd_cmd,
  appe_cmd,
}

abbrev pub to_lower : ℕ → ℕ
to_lower c = if leb 65 c && leb c 90 then c + 32 else c

-- The first word, up to a space, in small letters.
unfoldable pub lower_word : List ℕ → List ℕ
lower_word [] = []
lower_word (c ∷ cs) = let rest = lower_word cs in if c == 32 then c ∷ cs else to_lower c ∷ rest

abbrev pub commands : List (List ℕ × FtpCmd)
commands =
    (117 ∷ 115 ∷ 101 ∷ 114 ∷ [], user_cmd)
    ∷ (97 ∷ 99 ∷ 99 ∷ 116 ∷ [], acct_cmd)
    ∷ (112 ∷ 97 ∷ 115 ∷ 115 ∷ [], pass_cmd)
    ∷ (116 ∷ 121 ∷ 112 ∷ 101 ∷ [], type_cmd)
    ∷ (108 ∷ 105 ∷ 115 ∷ 116 ∷ [], list_cmd)
    ∷ (99 ∷ 119 ∷ 100 ∷ [], cwd_cmd)
    ∷ (100 ∷ 101 ∷ 108 ∷ 101 ∷ [], dele_cmd)
    ∷ (110 ∷ 97 ∷ 109 ∷ 101 ∷ [], name_cmd)
    ∷ (113 ∷ 117 ∷ 105 ∷ 116 ∷ [], quit_cmd)
    ∷ (114 ∷ 101 ∷ 116 ∷ 114 ∷ [], retr_cmd)
    ∷ (115 ∷ 116 ∷ 111 ∷ 114 ∷ [], stor_cmd)
    ∷ (112 ∷ 111 ∷ 114 ∷ 116 ∷ [], port_cmd)
    ∷ (110 ∷ 108 ∷ 115 ∷ 116 ∷ [], nlst_cmd)
    ∷ (112 ∷ 119 ∷ 100 ∷ [], pwd_cmd)
    ∷ (120 ∷ 112 ∷ 119 ∷ 100 ∷ [], xpwd_cmd)
    ∷ (109 ∷ 107 ∷ 100 ∷ [], mkd_cmd)
    ∷ (120 ∷ 109 ∷ 107 ∷ 100 ∷ [], xmkd_cmd)
    ∷ (120 ∷ 114 ∷ 109 ∷ 100 ∷ [], xrmd_cmd)
    ∷ (114 ∷ 109 ∷ 100 ∷ 32 ∷ [], rmd_cmd)
    ∷ (115 ∷ 116 ∷ 114 ∷ 117 ∷ [], stru_cmd)
    ∷ (109 ∷ 111 ∷ 100 ∷ 101 ∷ [], mode_cmd)
    ∷ (115 ∷ 121 ∷ 115 ∷ 116 ∷ [], syst_cmd)
    ∷ (120 ∷ 109 ∷ 100 ∷ 53 ∷ [], xmd5_cmd)
    ∷ (120 ∷ 99 ∷ 119 ∷ 100 ∷ [], xcwd_cmd)
    ∷ (102 ∷ 101 ∷ 97 ∷ 116 ∷ [], feat_cmd)
    ∷ (112 ∷ 97 ∷ 115 ∷ 118 ∷ [], pasv_cmd)
    ∷ (115 ∷ 105 ∷ 122 ∷ 101 ∷ [], size_cmd)
    ∷ (109 ∷ 108 ∷ 115 ∷ 100 ∷ [], mlsd_cmd)
    ∷ (97 ∷ 112 ∷ 112 ∷ 101 ∷ [], appe_cmd)
    ∷ []

-- The first entry that the line begins with, and what is behind it.
abbrev pub find_command : List (List ℕ × FtpCmd) → List ℕ → Option (FtpCmd × List ℕ)
find_command [] buf = none
find_command ((text, cmd) ∷ rows) buf =
    if is_prefix text buf then some (cmd, drop (length text) buf) else find_command rows buf

unfoldable pub skip_spaces : List ℕ → List ℕ
skip_spaces [] = []
skip_spaces (c ∷ cs) = let rest = skip_spaces cs in if c == 32 then rest else c ∷ cs

-- arg[slen - 1] = arg[slen - 2] = 0, which for a shorter argument hits the command in front of it.
abbrev pub chop : List ℕ → List ℕ
chop arg = take (length arg - 2) arg

-- Whether strrchr(arg, '/') finds one.
abbrev pub has_slash : List ℕ → Bool
has_slash [] = false
has_slash (c ∷ cs) = c == 47 || has_slash cs
