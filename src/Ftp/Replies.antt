-- ===== src/Ftp/Replies.antt =====
-- The texts that ftpd.c sends.
use x_wizchip_io_library_dri.Base.{ℕ, List, [], ◌∷◌, ◌++◌}

-- "530 Please log in with USER and PASS"
abbrev pub not_logged_in : List ℕ
not_logged_in =
    53 ∷ 51 ∷ 48 ∷ 32 ∷ 80 ∷ 108 ∷ 101 ∷ 97 ∷ 115 ∷ 101 ∷ 32 ∷ 108 ∷ 111 ∷ 103 ∷ 32 ∷ 105 ∷ 110 ∷ 32
    ∷ 119 ∷ 105 ∷ 116 ∷ 104 ∷ 32 ∷ 85 ∷ 83 ∷ 69 ∷ 82 ∷ 32 ∷ 97 ∷ 110 ∷ 100 ∷ 32 ∷ 80 ∷ 65 ∷ 83 ∷ 83
    ∷ 13 ∷ 10 ∷ []

-- "331 Enter PASS command"
abbrev pub enter_pass : List ℕ
enter_pass =
    51 ∷ 51 ∷ 49 ∷ 32 ∷ 69 ∷ 110 ∷ 116 ∷ 101 ∷ 114 ∷ 32 ∷ 80 ∷ 65 ∷ 83 ∷ 83 ∷ 32 ∷ 99 ∷ 111 ∷ 109
    ∷ 109 ∷ 97 ∷ 110 ∷ 100 ∷ 13 ∷ 10 ∷ []

-- "230 Logged on"
abbrev pub logged_on : List ℕ
logged_on = 50 ∷ 51 ∷ 48 ∷ 32 ∷ 76 ∷ 111 ∷ 103 ∷ 103 ∷ 101 ∷ 100 ∷ 32 ∷ 111 ∷ 110 ∷ 13 ∷ 10 ∷ []

-- "211-Features:"
abbrev pub feature_list : List ℕ
feature_list =
    50 ∷ 49 ∷ 49 ∷ 45 ∷ 70 ∷ 101 ∷ 97 ∷ 116 ∷ 117 ∷ 114 ∷ 101 ∷ 115 ∷ 58 ∷ 13 ∷ 10 ∷ 32 ∷ 77 ∷ 68
    ∷ 84 ∷ 77 ∷ 13 ∷ 10 ∷ 32 ∷ 82 ∷ 69 ∷ 83 ∷ 84 ∷ 32 ∷ 83 ∷ 84 ∷ 82 ∷ 69 ∷ 65 ∷ 77 ∷ 13 ∷ 10 ∷ 32
    ∷ 83 ∷ 73 ∷ 90 ∷ 69 ∷ 13 ∷ 10 ∷ 32 ∷ 77 ∷ 76 ∷ 83 ∷ 84 ∷ 32 ∷ 115 ∷ 105 ∷ 122 ∷ 101 ∷ 42 ∷ 59
    ∷ 116 ∷ 121 ∷ 112 ∷ 101 ∷ 42 ∷ 59 ∷ 99 ∷ 114 ∷ 101 ∷ 97 ∷ 116 ∷ 101 ∷ 42 ∷ 59 ∷ 109 ∷ 111 ∷ 100
    ∷ 105 ∷ 102 ∷ 121 ∷ 42 ∷ 59 ∷ 13 ∷ 10 ∷ 32 ∷ 77 ∷ 76 ∷ 83 ∷ 68 ∷ 13 ∷ 10 ∷ 32 ∷ 85 ∷ 84 ∷ 70
    ∷ 56 ∷ 13 ∷ 10 ∷ 32 ∷ 67 ∷ 76 ∷ 78 ∷ 84 ∷ 13 ∷ 10 ∷ 32 ∷ 77 ∷ 70 ∷ 77 ∷ 84 ∷ 13 ∷ 10 ∷ 50 ∷ 49
    ∷ 49 ∷ 32 ∷ 69 ∷ 78 ∷ 68 ∷ 13 ∷ 10 ∷ []

-- "221 Goodbye!"
abbrev pub goodbye : List ℕ
goodbye = 50 ∷ 50 ∷ 49 ∷ 32 ∷ 71 ∷ 111 ∷ 111 ∷ 100 ∷ 98 ∷ 121 ∷ 101 ∷ 33 ∷ 13 ∷ 10 ∷ []

-- "501 Bad port syntax"
abbrev pub bad_port : List ℕ
bad_port =
    53 ∷ 48 ∷ 49 ∷ 32 ∷ 66 ∷ 97 ∷ 100 ∷ 32 ∷ 112 ∷ 111 ∷ 114 ∷ 116 ∷ 32 ∷ 115 ∷ 121 ∷ 110 ∷ 116 ∷ 97
    ∷ 120 ∷ 13 ∷ 10 ∷ []

-- "200 PORT command successful."
abbrev pub port_ok : List ℕ
port_ok =
    50 ∷ 48 ∷ 48 ∷ 32 ∷ 80 ∷ 79 ∷ 82 ∷ 84 ∷ 32 ∷ 99 ∷ 111 ∷ 109 ∷ 109 ∷ 97 ∷ 110 ∷ 100 ∷ 32 ∷ 115
    ∷ 117 ∷ 99 ∷ 99 ∷ 101 ∷ 115 ∷ 115 ∷ 102 ∷ 117 ∷ 108 ∷ 46 ∷ 13 ∷ 10 ∷ []

-- "215 UNIX emulated by WIZnet"
abbrev pub system_name : List ℕ
system_name =
    50 ∷ 49 ∷ 53 ∷ 32 ∷ 85 ∷ 78 ∷ 73 ∷ 88 ∷ 32 ∷ 101 ∷ 109 ∷ 117 ∷ 108 ∷ 97 ∷ 116 ∷ 101 ∷ 100 ∷ 32
    ∷ 98 ∷ 121 ∷ 32 ∷ 87 ∷ 73 ∷ 90 ∷ 110 ∷ 101 ∷ 116 ∷ 13 ∷ 10 ∷ []

-- "550 File not Found"
abbrev pub no_file : List ℕ
no_file =
    53 ∷ 53 ∷ 48 ∷ 32 ∷ 70 ∷ 105 ∷ 108 ∷ 101 ∷ 32 ∷ 110 ∷ 111 ∷ 116 ∷ 32 ∷ 70 ∷ 111 ∷ 117 ∷ 110
    ∷ 100 ∷ 13 ∷ 10 ∷ []

-- "213 512"
abbrev pub any_size : List ℕ
any_size = 50 ∷ 49 ∷ 51 ∷ 32 ∷ 53 ∷ 49 ∷ 50 ∷ 13 ∷ 10 ∷ []

-- "550 Can't create directory. Permission denied"
abbrev pub no_mkdir : List ℕ
no_mkdir =
    53 ∷ 53 ∷ 48 ∷ 32 ∷ 67 ∷ 97 ∷ 110 ∷ 39 ∷ 116 ∷ 32 ∷ 99 ∷ 114 ∷ 101 ∷ 97 ∷ 116 ∷ 101 ∷ 32 ∷ 100
    ∷ 105 ∷ 114 ∷ 101 ∷ 99 ∷ 116 ∷ 111 ∷ 114 ∷ 121 ∷ 46 ∷ 32 ∷ 80 ∷ 101 ∷ 114 ∷ 109 ∷ 105 ∷ 115
    ∷ 115 ∷ 105 ∷ 111 ∷ 110 ∷ 32 ∷ 100 ∷ 101 ∷ 110 ∷ 105 ∷ 101 ∷ 100 ∷ 13 ∷ 10 ∷ []

-- "550 Could not delete. Permission denied"
abbrev pub no_delete : List ℕ
no_delete =
    53 ∷ 53 ∷ 48 ∷ 32 ∷ 67 ∷ 111 ∷ 117 ∷ 108 ∷ 100 ∷ 32 ∷ 110 ∷ 111 ∷ 116 ∷ 32 ∷ 100 ∷ 101 ∷ 108
    ∷ 101 ∷ 116 ∷ 101 ∷ 46 ∷ 32 ∷ 80 ∷ 101 ∷ 114 ∷ 109 ∷ 105 ∷ 115 ∷ 115 ∷ 105 ∷ 111 ∷ 110 ∷ 32
    ∷ 100 ∷ 101 ∷ 110 ∷ 105 ∷ 101 ∷ 100 ∷ 13 ∷ 10 ∷ []

-- "502 Command does not implemented yet."
abbrev pub unimplemented : List ℕ
unimplemented =
    53 ∷ 48 ∷ 50 ∷ 32 ∷ 67 ∷ 111 ∷ 109 ∷ 109 ∷ 97 ∷ 110 ∷ 100 ∷ 32 ∷ 100 ∷ 111 ∷ 101 ∷ 115 ∷ 32
    ∷ 110 ∷ 111 ∷ 116 ∷ 32 ∷ 105 ∷ 109 ∷ 112 ∷ 108 ∷ 101 ∷ 109 ∷ 101 ∷ 110 ∷ 116 ∷ 101 ∷ 100 ∷ 32
    ∷ 121 ∷ 101 ∷ 116 ∷ 46 ∷ 13 ∷ 10 ∷ []

-- "220 iinChip FTP version 1.0 ready."
abbrev pub banner : List ℕ
banner =
    50 ∷ 50 ∷ 48 ∷ 32 ∷ 105 ∷ 105 ∷ 110 ∷ 67 ∷ 104 ∷ 105 ∷ 112 ∷ 32 ∷ 70 ∷ 84 ∷ 80 ∷ 32 ∷ 118 ∷ 101
    ∷ 114 ∷ 115 ∷ 105 ∷ 111 ∷ 110 ∷ 32 ∷ 49 ∷ 46 ∷ 48 ∷ 32 ∷ 114 ∷ 101 ∷ 97 ∷ 100 ∷ 121 ∷ 46 ∷ 13
    ∷ 10 ∷ []

-- "drwxr-xr-x 1 ftp ftp 0 Dec 31 2014 $Recycle.Bin"
abbrev pub dir_listing : List ℕ
dir_listing =
    100 ∷ 114 ∷ 119 ∷ 120 ∷ 114 ∷ 45 ∷ 120 ∷ 114 ∷ 45 ∷ 120 ∷ 32 ∷ 49 ∷ 32 ∷ 102 ∷ 116 ∷ 112 ∷ 32
    ∷ 102 ∷ 116 ∷ 112 ∷ 32 ∷ 48 ∷ 32 ∷ 68 ∷ 101 ∷ 99 ∷ 32 ∷ 51 ∷ 49 ∷ 32 ∷ 50 ∷ 48 ∷ 49 ∷ 52 ∷ 32
    ∷ 36 ∷ 82 ∷ 101 ∷ 99 ∷ 121 ∷ 99 ∷ 108 ∷ 101 ∷ 46 ∷ 66 ∷ 105 ∷ 110 ∷ 13 ∷ 10 ∷ 45 ∷ 114 ∷ 119
    ∷ 120 ∷ 114 ∷ 45 ∷ 120 ∷ 114 ∷ 45 ∷ 120 ∷ 32 ∷ 49 ∷ 32 ∷ 102 ∷ 116 ∷ 112 ∷ 32 ∷ 102 ∷ 116 ∷ 112
    ∷ 32 ∷ 53 ∷ 49 ∷ 50 ∷ 32 ∷ 68 ∷ 101 ∷ 99 ∷ 32 ∷ 51 ∷ 49 ∷ 32 ∷ 50 ∷ 48 ∷ 49 ∷ 52 ∷ 32 ∷ 116
    ∷ 101 ∷ 115 ∷ 116 ∷ 46 ∷ 116 ∷ 120 ∷ 116 ∷ 13 ∷ 10 ∷ []

-- "/$Recycle.Bin"
abbrev pub recycle_bin : List ℕ
recycle_bin = 47 ∷ 36 ∷ 82 ∷ 101 ∷ 99 ∷ 121 ∷ 99 ∷ 108 ∷ 101 ∷ 46 ∷ 66 ∷ 105 ∷ 110 ∷ []

-- "500 Unknown command '%s'"
abbrev pub unknown_command : List ℕ → List ℕ
unknown_command text =
    (53 ∷ 48 ∷ 48 ∷ 32 ∷ 85 ∷ 110 ∷ 107 ∷ 110 ∷ 111 ∷ 119 ∷ 110 ∷ 32 ∷ 99 ∷ 111 ∷ 109 ∷ 109 ∷ 97
      ∷ 110 ∷ 100 ∷ 32 ∷ 39 ∷ [])
    ++ (text ++ (39 ∷ 13 ∷ 10 ∷ []))

-- "200 Type set to %s"
abbrev pub type_set : List ℕ → List ℕ
type_set arg =
    (50 ∷ 48 ∷ 48 ∷ 32 ∷ 84 ∷ 121 ∷ 112 ∷ 101 ∷ 32 ∷ 115 ∷ 101 ∷ 116 ∷ 32 ∷ 116 ∷ 111 ∷ 32 ∷ [])
    ++ (arg ++ (13 ∷ 10 ∷ []))

-- "501 Unknown type \"%s\""
abbrev pub unknown_type : List ℕ → List ℕ
unknown_type arg =
    (53 ∷ 48 ∷ 49 ∷ 32 ∷ 85 ∷ 110 ∷ 107 ∷ 110 ∷ 111 ∷ 119 ∷ 110 ∷ 32 ∷ 116 ∷ 121 ∷ 112 ∷ 101 ∷ 32
      ∷ 34 ∷ [])
    ++ (arg ++ (34 ∷ 13 ∷ 10 ∷ []))

-- "150 Opening data channel for file downloand from server of \"%s\""
abbrev pub opening_download : List ℕ → List ℕ
opening_download name =
    (49 ∷ 53 ∷ 48 ∷ 32 ∷ 79 ∷ 112 ∷ 101 ∷ 110 ∷ 105 ∷ 110 ∷ 103 ∷ 32 ∷ 100 ∷ 97 ∷ 116 ∷ 97 ∷ 32 ∷ 99
      ∷ 104 ∷ 97 ∷ 110 ∷ 110 ∷ 101 ∷ 108 ∷ 32 ∷ 102 ∷ 111 ∷ 114 ∷ 32 ∷ 102 ∷ 105 ∷ 108 ∷ 101 ∷ 32
      ∷ 100 ∷ 111 ∷ 119 ∷ 110 ∷ 108 ∷ 111 ∷ 97 ∷ 110 ∷ 100 ∷ 32 ∷ 102 ∷ 114 ∷ 111 ∷ 109 ∷ 32 ∷ 115
      ∷ 101 ∷ 114 ∷ 118 ∷ 101 ∷ 114 ∷ 32 ∷ 111 ∷ 102 ∷ 32 ∷ 34 ∷ [])
    ++ (name ++ (34 ∷ 13 ∷ 10 ∷ []))

-- "150 Opening data channel for file upload to server of \"%s\""
abbrev pub opening_upload : List ℕ → List ℕ
opening_upload name =
    (49 ∷ 53 ∷ 48 ∷ 32 ∷ 79 ∷ 112 ∷ 101 ∷ 110 ∷ 105 ∷ 110 ∷ 103 ∷ 32 ∷ 100 ∷ 97 ∷ 116 ∷ 97 ∷ 32 ∷ 99
      ∷ 104 ∷ 97 ∷ 110 ∷ 110 ∷ 101 ∷ 108 ∷ 32 ∷ 102 ∷ 111 ∷ 114 ∷ 32 ∷ 102 ∷ 105 ∷ 108 ∷ 101 ∷ 32
      ∷ 117 ∷ 112 ∷ 108 ∷ 111 ∷ 97 ∷ 100 ∷ 32 ∷ 116 ∷ 111 ∷ 32 ∷ 115 ∷ 101 ∷ 114 ∷ 118 ∷ 101 ∷ 114
      ∷ 32 ∷ 111 ∷ 102 ∷ 32 ∷ 34 ∷ [])
    ++ (name ++ (34 ∷ 13 ∷ 10 ∷ []))

-- "150 Opening data channel for directory listing of \"%s\""
abbrev pub opening_listing : List ℕ → List ℕ
opening_listing name =
    (49 ∷ 53 ∷ 48 ∷ 32 ∷ 79 ∷ 112 ∷ 101 ∷ 110 ∷ 105 ∷ 110 ∷ 103 ∷ 32 ∷ 100 ∷ 97 ∷ 116 ∷ 97 ∷ 32 ∷ 99
      ∷ 104 ∷ 97 ∷ 110 ∷ 110 ∷ 101 ∷ 108 ∷ 32 ∷ 102 ∷ 111 ∷ 114 ∷ 32 ∷ 100 ∷ 105 ∷ 114 ∷ 101 ∷ 99
      ∷ 116 ∷ 111 ∷ 114 ∷ 121 ∷ 32 ∷ 108 ∷ 105 ∷ 115 ∷ 116 ∷ 105 ∷ 110 ∷ 103 ∷ 32 ∷ 111 ∷ 102 ∷ 32
      ∷ 34 ∷ [])
    ++ (name ++ (34 ∷ 13 ∷ 10 ∷ []))

-- "257 \"%s\" is current directory."
abbrev pub current_directory : List ℕ → List ℕ
current_directory name =
    (50 ∷ 53 ∷ 55 ∷ 32 ∷ 34 ∷ [])
    ++ (name
        ++ (34 ∷ 32 ∷ 105 ∷ 115 ∷ 32 ∷ 99 ∷ 117 ∷ 114 ∷ 114 ∷ 101 ∷ 110 ∷ 116 ∷ 32 ∷ 100 ∷ 105 ∷ 114
            ∷ 101 ∷ 99 ∷ 116 ∷ 111 ∷ 114 ∷ 121 ∷ 46 ∷ 13 ∷ 10 ∷ []))

-- "250 CWD successful. \"%s\" is current directory."
abbrev pub cwd_done : List ℕ → List ℕ
cwd_done name =
    (50 ∷ 53 ∷ 48 ∷ 32 ∷ 67 ∷ 87 ∷ 68 ∷ 32 ∷ 115 ∷ 117 ∷ 99 ∷ 99 ∷ 101 ∷ 115 ∷ 115 ∷ 102 ∷ 117 ∷ 108
      ∷ 46 ∷ 32 ∷ 34 ∷ [])
    ++ (name
        ++ (34 ∷ 32 ∷ 105 ∷ 115 ∷ 32 ∷ 99 ∷ 117 ∷ 114 ∷ 114 ∷ 101 ∷ 110 ∷ 116 ∷ 32 ∷ 100 ∷ 105 ∷ 114
            ∷ 101 ∷ 99 ∷ 116 ∷ 111 ∷ 114 ∷ 121 ∷ 46 ∷ 13 ∷ 10 ∷ []))

-- "227 Entering Passive Mode (%d,%d,%d,%d,%d,%d)"
abbrev pub passive_start : List ℕ
passive_start =
    50 ∷ 50 ∷ 55 ∷ 32 ∷ 69 ∷ 110 ∷ 116 ∷ 101 ∷ 114 ∷ 105 ∷ 110 ∷ 103 ∷ 32 ∷ 80 ∷ 97 ∷ 115 ∷ 115
    ∷ 105 ∷ 118 ∷ 101 ∷ 32 ∷ 77 ∷ 111 ∷ 100 ∷ 101 ∷ 32 ∷ 40 ∷ []

abbrev pub passive_end : List ℕ
passive_end = 41 ∷ 13 ∷ 10 ∷ []

-- "226 Successfully transferred \"%s\""
abbrev pub transferred : List ℕ → List ℕ
transferred name =
    (50 ∷ 50 ∷ 54 ∷ 32 ∷ 83 ∷ 117 ∷ 99 ∷ 99 ∷ 101 ∷ 115 ∷ 115 ∷ 102 ∷ 117 ∷ 108 ∷ 108 ∷ 121 ∷ 32
      ∷ 116 ∷ 114 ∷ 97 ∷ 110 ∷ 115 ∷ 102 ∷ 101 ∷ 114 ∷ 114 ∷ 101 ∷ 100 ∷ 32 ∷ 34 ∷ [])
    ++ (name ++ (34 ∷ 13 ∷ 10 ∷ []))
