-- ===== src/Ftp/Process/Login.antt =====
-- What a client can do before it has logged in.
use x_wizchip_io_library_dri.Base.{
  ℕ, suc, ◌-◌, ◌<◌, ◌≤◌, ◌==◌, ltb, leb, ◌+◌, ◌&&◌, if◌then◌else◌, ◌≡◌, ◌⊎◌, inl, inr, refl, sym,
  ap, subst, Bool-cases, Bool, true, false, Option, none, some, List, [], ◌∷◌, length, drop,
  length-append, length-take, length-drop, All, arith,
}
use x_wizchip_io_library_dri.Http.Text.{is_prefix, same_text}
use x_wizchip_io_library_dri.Http.Text.Search.{same_text_lem}
use x_wizchip_io_library_dri.Ftp.State.{
  FtpCmd, user_cmd, acct_cmd, pass_cmd, type_cmd, list_cmd, cwd_cmd, dele_cmd, name_cmd, quit_cmd,
  retr_cmd, stor_cmd, port_cmd, nlst_cmd, pwd_cmd, xpwd_cmd, mkd_cmd, xmkd_cmd, xrmd_cmd, rmd_cmd,
  stru_cmd, mode_cmd, syst_cmd, xmd5_cmd, xcwd_cmd, feat_cmd, pasv_cmd, size_cmd, mlsd_cmd,
  appe_cmd, no_cmd, ftps_not_login, ftps_login, Ftpd, FtpCall, reply, deliver, open_ctrl, open_data,
  connect_data, listen_ctrl, listen_data, close_ctrl, close_data, disconnect_ctrl, disconnect_data,
  take_all, FtpOp, ask_pass, fits,
}
use x_wizchip_io_library_dri.Ftp.Commands.{
  to_lower, commands, find_command, lower_word, skip_spaces, chop,
}
use x_wizchip_io_library_dri.Ftp.Replies.{
  unknown_command, not_logged_in, enter_pass, logged_on, goodbye,
}
use x_wizchip_io_library_dri.Ftp.Process.{
  Processed, say_and, say, ftp_login, process_user, process, allowed, proc_ftpd,
}

-- A call on the control socket that answers or ends the connection.
abbrev pub IsAnswer : FtpCall → Type 0
IsAnswer (reply text) = Unit
IsAnswer close_ctrl = Unit
IsAnswer disconnect_ctrl = Unit
IsAnswer (deliver text) = ⊥
IsAnswer (open_ctrl port) = ⊥
IsAnswer (open_data port) = ⊥
IsAnswer (connect_data ip port) = ⊥
IsAnswer listen_ctrl = ⊥
IsAnswer listen_data = ⊥
IsAnswer close_data = ⊥
IsAnswer disconnect_data = ⊥
IsAnswer take_all = ⊥

-- The letter `l`, small or as a capital.
abbrev pub Letter : ℕ → ℕ → Type 0
Letter l c = (c ≡ l) ⊎ (c + 32 ≡ l)

-- A line that begins with PASS, in capitals or in small letters.
abbrev pub IsPass : List ℕ → Type 0
IsPass (c1 ∷ c2 ∷ c3 ∷ c4 ∷ rest) = Letter 112 c1 × Letter 97 c2 × Letter 115 c3 × Letter 115 c4
IsPass _ = ⊥

abbrev pass_text : List ℕ
pass_text = 112 ∷ 97 ∷ 115 ∷ 115 ∷ []

letter_lem :
    (l c : ℕ) (ls cs : List ℕ)
    → 96 < l
    → is_prefix (l ∷ ls) (lower_word (c ∷ cs)) ≡ true
    → Letter l c × (is_prefix ls (lower_word cs) ≡ true)
unfolding is_prefix lower_word
letter_lem l c ls cs small h = elim (Bool-cases (c == 32)) [
  | inl e ↦ let h' = rw e at h in absurd (ground arith)
  | inr e ↦
      let h' = rw e at h in
      elim (Bool-cases (l == to_lower c)) [
        | inl f ↦ elim (Bool-cases (leb 65 c && leb c 90)) [
          | inl up ↦ let low = rw up at f in (inr (ground arith), rw f at h')
          | inr plain ↦ let low = rw plain at f in (inl (ground arith), rw f at h')
        ]
        | inr f ↦ let wrong : false ≡ true = rw f at h' in absurd (ground arith)
      ]
]

begins_lem : (buf : List ℕ) → is_prefix pass_text (lower_word buf) ≡ true → IsPass buf
unfolding is_prefix lower_word
begins_lem [] h = absurd (ground arith)
begins_lem (c1 ∷ []) h =
    let (l1, h1) = letter_lem 112 c1 (97 ∷ 115 ∷ 115 ∷ []) [] (omega arith) h in
    absurd (ground arith)
begins_lem (c1 ∷ c2 ∷ []) h =
    let (l1, h1) = letter_lem 112 c1 (97 ∷ 115 ∷ 115 ∷ []) (c2 ∷ []) (omega arith) h in
    let (l2, h2) = letter_lem 97 c2 (115 ∷ 115 ∷ []) [] (omega arith) h1 in absurd (ground arith)
begins_lem (c1 ∷ c2 ∷ c3 ∷ []) h =
    let (l1, h1) = letter_lem 112 c1 (97 ∷ 115 ∷ 115 ∷ []) (c2 ∷ c3 ∷ []) (omega arith) h in
    let (l2, h2) = letter_lem 97 c2 (115 ∷ 115 ∷ []) (c3 ∷ []) (omega arith) h1 in
    let (l3, h3) = letter_lem 115 c3 (115 ∷ []) [] (omega arith) h2 in absurd (ground arith)
begins_lem (c1 ∷ c2 ∷ c3 ∷ c4 ∷ rest) h =
    let (l1, h1) = letter_lem 112 c1 (97 ∷ 115 ∷ 115 ∷ []) (c2 ∷ c3 ∷ c4 ∷ rest) (omega arith) h in
    let (l2, h2) = letter_lem 97 c2 (115 ∷ 115 ∷ []) (c3 ∷ c4 ∷ rest) (omega arith) h1 in
    let (l3, h3) = letter_lem 115 c3 (115 ∷ []) (c4 ∷ rest) (omega arith) h2 in
    let (l4, h4) = letter_lem 115 c4 [] rest (omega arith) h3 in (l1, l2, l3, l4)

abbrev is_pass : FtpCmd → Bool
is_pass pass_cmd = true
is_pass _ = false

abbrev command_of : Option (FtpCmd × List ℕ) → FtpCmd
command_of none = no_cmd
command_of (some (cmd, rest)) = cmd

-- PASS stands in the table under its name only.
abbrev names_pass : List (List ℕ × FtpCmd) → Bool
names_pass [] = true
names_pass ((text, cmd) ∷ rows) =
    (if is_pass cmd then same_text text pass_text else true) && names_pass rows

table_lem : names_pass commands ≡ true
unfolding same_text
table_lem = refl

find_pass :
    (rows : List (List ℕ × FtpCmd)) (buf rest : List ℕ)
    → names_pass rows ≡ true
    → find_command rows buf ≡ some (pass_cmd, rest)
    → is_prefix pass_text buf ≡ true
find_pass [] buf rest named found = absurd cc
find_pass ((text, cmd) ∷ rows) buf rest named found = elim (Bool-cases (is_prefix text buf)) [
  | inl h ↦
      let found' : some (cmd, drop (length text) buf) ≡ some (pass_cmd, rest) = rw h at found in
      let here : is_pass cmd ≡ true = ap (λ o. is_pass (command_of o)) found' in
      let named' = rw here at named in
      elim (Bool-cases (same_text text pass_text)) [
        | inl k ↦ subst (λ t. is_prefix t buf ≡ true) (same_text_lem text pass_text k) h
        | inr k ↦ let wrong : false ≡ true = rw k at named' in absurd (ground arith)
      ]
  | inr h ↦
      let later : find_command rows buf ≡ some (pass_cmd, rest) = rw h at found in
      elim (Bool-cases (names_pass rows)) [
        | inl k ↦ find_pass rows buf rest k later
        | inr k ↦ absurd (ground arith)
      ]
]

-- A result that changes the name and the login at most, the login only by PASS, and only answers.
abbrev pub IsGuarded : List ℕ → Ftpd → Processed → Type 0
IsGuarded buf d result =
    (d' : Ftpd) × (calls : List FtpCall) × (result ≡ some (d', calls))
    × (d' ≡ record d { username = d'.username; state = d'.state })
    × All IsAnswer calls
    × ((d'.state ≡ ftps_not_login) ⊎ IsPass buf)

allowed_lem :
    (cmd : FtpCmd)
    → allowed ftps_not_login cmd ≡ true
    → (cmd ≡ user_cmd) ⊎ ((cmd ≡ pass_cmd) ⊎ (cmd ≡ quit_cmd))
unfolding allowed
allowed_lem user_cmd h = inl refl
allowed_lem acct_cmd h = let no : ⊥ = cc in elim no [ ]
allowed_lem pass_cmd h = inr (inl refl)
allowed_lem type_cmd h = let no : ⊥ = cc in elim no [ ]
allowed_lem list_cmd h = let no : ⊥ = cc in elim no [ ]
allowed_lem cwd_cmd h = let no : ⊥ = cc in elim no [ ]
allowed_lem dele_cmd h = let no : ⊥ = cc in elim no [ ]
allowed_lem name_cmd h = let no : ⊥ = cc in elim no [ ]
allowed_lem quit_cmd h = inr (inr refl)
allowed_lem retr_cmd h = let no : ⊥ = cc in elim no [ ]
allowed_lem stor_cmd h = let no : ⊥ = cc in elim no [ ]
allowed_lem port_cmd h = let no : ⊥ = cc in elim no [ ]
allowed_lem nlst_cmd h = let no : ⊥ = cc in elim no [ ]
allowed_lem pwd_cmd h = let no : ⊥ = cc in elim no [ ]
allowed_lem xpwd_cmd h = let no : ⊥ = cc in elim no [ ]
allowed_lem mkd_cmd h = let no : ⊥ = cc in elim no [ ]
allowed_lem xmkd_cmd h = let no : ⊥ = cc in elim no [ ]
allowed_lem xrmd_cmd h = let no : ⊥ = cc in elim no [ ]
allowed_lem rmd_cmd h = let no : ⊥ = cc in elim no [ ]
allowed_lem stru_cmd h = let no : ⊥ = cc in elim no [ ]
allowed_lem mode_cmd h = let no : ⊥ = cc in elim no [ ]
allowed_lem syst_cmd h = let no : ⊥ = cc in elim no [ ]
allowed_lem xmd5_cmd h = let no : ⊥ = cc in elim no [ ]
allowed_lem xcwd_cmd h = let no : ⊥ = cc in elim no [ ]
allowed_lem feat_cmd h = let no : ⊥ = cc in elim no [ ]
allowed_lem pasv_cmd h = let no : ⊥ = cc in elim no [ ]
allowed_lem size_cmd h = let no : ⊥ = cc in elim no [ ]
allowed_lem mlsd_cmd h = let no : ⊥ = cc in elim no [ ]
allowed_lem appe_cmd h = let no : ⊥ = cc in elim no [ ]
allowed_lem no_cmd h = let no : ⊥ = cc in elim no [ ]

length-lower_word : (buf : List ℕ) → length (lower_word buf) ≡ length buf
unfolding lower_word
length-lower_word [] = refl
length-lower_word (c ∷ cs) = elim (Bool-cases (c == 32)) [
  | inl e ↦ rw (e, lower_word) refl
  | inr e ↦ rw (e, lower_word) (ap suc (length-lower_word cs))
]

length-skip_spaces : (arg : List ℕ) → length (skip_spaces arg) ≤ length arg
unfolding skip_spaces
length-skip_spaces [] = omega arith
length-skip_spaces (c ∷ cs) = elim (Bool-cases (c == 32)) [
  | inl e ↦ let h = length-skip_spaces cs in rw (e, skip_spaces) (omega (arith, h))
  | inr e ↦ rw (e, skip_spaces) (omega arith)
]

abbrev rest_of : Option (FtpCmd × List ℕ) → List ℕ
rest_of none = []
rest_of (some (cmd, rest)) = rest

length-find_command :
    (rows : List (List ℕ × FtpCmd)) (buf rest : List ℕ) (cmd : FtpCmd)
    → find_command rows buf ≡ some (cmd, rest)
    → length rest ≤ length buf
length-find_command [] buf rest cmd e = let no : ⊥ = cc in elim no [ ]
length-find_command ((text, cmd') ∷ rows) buf rest cmd e = elim (Bool-cases (is_prefix text buf)) [
  | inl h ↦
      let e' : some (cmd', drop (length text) buf) ≡ some (cmd, rest) = rw h at e in
      let same : length (drop (length text) buf) ≡ length rest = ap (λ o. length (rest_of o)) e' in
      omega (arith, same, length-drop (length text) buf)
  | inr h ↦ length-find_command rows buf rest cmd (rw h at e)
]

say_lem : (d : Ftpd) (text : List ℕ) → length text < 200 → say d text ≡ some (d, reply text ∷ [])
say_lem d text short =
    let e : ltb (length text) 200 ≡ true = ground arith in rw (e, say_and, fits) refl

refused_lem :
    (buf text : List ℕ) (d : Ftpd)
    → d.state ≡ ftps_not_login
    → length text < 200
    → IsGuarded buf d (say d text)
refused_lem buf text d out short =
    (d, reply text ∷ [], say_lem d text short, refl, (tt, tt), inl out)

user-IsGuarded :
    (sent : Bool) (buf arg : List ℕ) (d : Ftpd)
    → d.state ≡ ftps_not_login
    → length arg < 100
    → IsGuarded buf d (process_user sent arg d)
unfolding process_user
user-IsGuarded sent buf arg d out short =
    let e : ltb (length (chop arg)) 100 ≡ true = ground (arith, length-take (length arg - 2) arg) in
    (
      record d { username = chop arg },
      reply enter_pass ∷ (if sent then [] else close_ctrl ∷ []),
      rw (e, process_user) refl,
      refl,
      (tt, ends_or_not sent),
      inl out,
    )
  where
    ends_or_not : (sent : Bool) → All IsAnswer (if sent then [] else close_ctrl ∷ [])
    ends_or_not false = (tt, tt)
    ends_or_not true = tt

process-IsGuarded :
    (ok : FtpOp → Bool) (cmd : FtpCmd) (buf rest arg : List ℕ) (d : Ftpd)
    → d.state ≡ ftps_not_login
    → length arg < 100
    → find_command commands (lower_word buf) ≡ some (cmd, rest)
    → (cmd ≡ user_cmd) ⊎ ((cmd ≡ pass_cmd) ⊎ (cmd ≡ quit_cmd))
    → IsGuarded buf d (process ok cmd arg d)
unfolding process ftp_login
process-IsGuarded ok cmd buf rest arg d out short found (inl e) =
    rw e (user-IsGuarded (ok ask_pass) buf arg d out short)
process-IsGuarded ok cmd buf rest arg d out short found (inr (inl e)) = rw e (
  record d { state = ftps_login },
  reply logged_on ∷ [],
  refl,
  refl,
  (tt, tt),
  inr (begins_lem buf (find_pass commands (lower_word buf) rest table_lem (rw e at found))),
)
process-IsGuarded ok cmd buf rest arg d out short found (inr (inr e)) =
    rw e (d, reply goodbye ∷ disconnect_ctrl ∷ [], refl, refl, (tt, (tt, tt)), inl out)

command-IsGuarded :
    (ok : FtpOp → Bool) (buf : List ℕ) (d : Ftpd) (found : Option (FtpCmd × List ℕ))
    → d.state ≡ ftps_not_login
    → length buf < 100
    → find_command commands (lower_word buf) ≡ found
    → IsGuarded buf d (proc_ftpd ok buf d)
unfolding proc_ftpd
command-IsGuarded ok buf d none out short e =
    let text = unknown_command (lower_word buf) in
    let told : proc_ftpd ok buf d ≡ say d text = rw (e, proc_ftpd) refl in
    let len : length text < 200 =
      omega (arith, length-lower_word buf, length-append (lower_word buf) (39 ∷ 13 ∷ 10 ∷ [])) in
    subst (IsGuarded buf d) (sym told) (refused_lem buf text d out len)
command-IsGuarded ok buf d (some (cmd, rest)) out short e =
    let len = length-find_command commands (lower_word buf) rest cmd e in
    let small : length (skip_spaces rest) < 100 =
      omega (arith, len, length-lower_word buf, length-skip_spaces rest) in
    elim (Bool-cases (allowed ftps_not_login cmd)) [
      | inl a ↦
          let told : proc_ftpd ok buf d ≡ process ok cmd (skip_spaces rest) d =
            rw (e, out, a, proc_ftpd) refl in
          subst (IsGuarded buf d) (sym told)
            (process-IsGuarded ok cmd buf rest (skip_spaces rest) d out small e (allowed_lem cmd a))
      | inr a ↦
          let told : proc_ftpd ok buf d ≡ say d not_logged_in = rw (e, out, a, proc_ftpd) refl in
          subst (IsGuarded buf d) (sym told) (refused_lem buf not_logged_in d out (omega arith))
    ]

-- Before the login, a line of less than 100 bytes ends in an answer on the control socket or the end
-- of the connection, with no other call; it changes the name of the user and the login at most, and
-- the login only if the line begins with PASS, in capitals or in small letters.
pub proc_ftpd-IsGuarded :
    (ok : FtpOp → Bool) (buf : List ℕ) (d : Ftpd)
    → d.state ≡ ftps_not_login
    → length buf < 100
    → IsGuarded buf d (proc_ftpd ok buf d)
proc_ftpd-IsGuarded ok buf d out short =
    command-IsGuarded ok buf d (find_command commands (lower_word buf)) out short refl
