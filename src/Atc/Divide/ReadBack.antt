-- ===== src/Atc/Divide/ReadBack.antt =====
-- What cmd_divide() makes of a command that is written with =.
use x_wizchip_io_library_dri.Base.{
  ℕ, suc, ◌-◌, ◌<◌, ◌==◌, ltb, ◌≡◌, refl, ap, ◌∙◌, inl, inr, Bool-cases, true, false, if◌then◌else◌,
  none, some, List, [], ◌∷◌, ◌++◌, length, map, length-map, set, replicate, All, arith,
}
use x_wizchip_io_library_dri.Http.Text.{one_of, is_prefix}
use x_wizchip_io_library_dri.Http.Text.Tokens.{IsFree}
use x_wizchip_io_library_dri.Atc.State.{ret_ok, cmd_sign_equal, Tcmd, Atc, arg_sizes, cmd_clear}
use x_wizchip_io_library_dri.Atc.Divide.{
  strsep_ex, sign_of, contains, to_upper, Divided, parse_args, cmd_divide,
}

-- The arguments with commas between them.
abbrev pub joined : List (List ℕ) → List ℕ
joined [] = []
joined (a ∷ []) = a
joined (a ∷ b ∷ args) = a ++ 44 ∷ joined (b ∷ args)

-- Each argument is without commas and smaller than its array, and there are no more than arrays.
abbrev pub FitIn : List ℕ → List (List ℕ) → Type 0
FitIn sizes [] = Unit
FitIn [] (a ∷ args) = ⊥
FitIn (size ∷ sizes) (a ∷ args) = (length a < size) × All (IsFree (44 ∷ [])) a × FitIn sizes args

-- The arguments and empty texts behind them, 6 in all.
abbrev pub padded_args : List (List ℕ) → List (List ℕ)
padded_args args = args ++ replicate (6 - length args) []

module _ (delims : List ℕ) where
  strsep_ex-append :
      (xs : List ℕ) (d : ℕ) (rest : List ℕ)
      → All (IsFree delims) xs
      → one_of delims d ≡ true
      → strsep_ex delims (xs ++ d ∷ rest) ≡ (xs, some rest)
  unfolding strsep_ex
  strsep_ex-append [] d rest h e = rw e refl
  strsep_ex-append (x ∷ xs) d rest (h, hs) e = rw (h, strsep_ex-append xs d rest hs e) refl

  strsep_ex_end : (xs : List ℕ) → All (IsFree delims) xs → strsep_ex delims xs ≡ (xs, none)
  unfolding strsep_ex
  strsep_ex_end [] h = refl
  strsep_ex_end (x ∷ xs) (h, hs) = rw (h, strsep_ex_end xs hs) refl

-- The result where no argument is too long: with one for each array, NULL is read.
abbrev taken : ℕ → List ℕ → List (List ℕ) → Tcmd → Divided
taken i [] [] tcmd = none
taken i [] (a ∷ args) tcmd = none
taken i (size ∷ sizes) [] tcmd = some (ret_ok, (tcmd, []))
taken i (size ∷ sizes) (a ∷ args) tcmd =
    taken (suc i) sizes args (record tcmd { args = set tcmd.args i a })

parse_args_end :
    (i : ℕ) (sizes : List ℕ) (tcmd : Tcmd) → parse_args i sizes none tcmd ≡ taken i sizes [] tcmd
unfolding parse_args
parse_args_end i [] tcmd = refl
parse_args_end i (size ∷ sizes) tcmd = refl

parse_args-joined :
    (i : ℕ) (sizes : List ℕ) (a : List ℕ) (args : List (List ℕ)) (tcmd : Tcmd)
    → FitIn sizes (a ∷ args)
    → parse_args i sizes (some (joined (a ∷ args))) tcmd ≡ taken i sizes (a ∷ args) tcmd
unfolding parse_args
parse_args-joined i (size ∷ sizes) a [] tcmd (short, free, fit) =
    let fits_in : ltb (size - 1) (length a) ≡ false = ground arith in
    rw (strsep_ex_end (44 ∷ []) a free, fits_in, parse_args)
      (parse_args_end (suc i) sizes (record tcmd { args = set tcmd.args i a }))
parse_args-joined i (size ∷ sizes) a (b ∷ args) tcmd (short, free, fit) =
    let fits_in : ltb (size - 1) (length a) ≡ false = ground arith in
    rw (strsep_ex-append (44 ∷ []) a 44 (joined (b ∷ args)) free refl, fits_in, parse_args)
      (parse_args-joined (suc i) sizes b args (record tcmd { args = set tcmd.args i a }) fit)
parse_args-joined i [] a args tcmd wrong = elim wrong [ ]

contains_equal : (xs rest : List ℕ) → contains 61 (xs ++ 61 ∷ rest) ≡ true
contains_equal [] rest = refl
contains_equal (x ∷ xs) rest = elim (Bool-cases (61 == x)) [
  | inl e ↦ rw e refl
  | inr e ↦ rw e (contains_equal xs rest)
]

map-append : (f : ℕ → ℕ) (xs ys : List ℕ) → map f (xs ++ ys) ≡ map f xs ++ map f ys
map-append f [] ys = refl
map-append f (x ∷ xs) ys = ap (λ r. f x ∷ r) (map-append f xs ys)

abbrev read_tcmd : List ℕ → List (List ℕ) → Tcmd
read_tcmd op args = record { sign = cmd_sign_equal; op = map to_upper op; args = padded_args args }

-- The arguments of a command, six of which are one for each array.
abbrev pub read_back : List ℕ → List (List ℕ) → Divided
read_back op args = if length args == 6 then none else some (ret_ok, (read_tcmd op args, []))

taken_lem :
    (op : List ℕ) (args : List (List ℕ))
    → FitIn arg_sizes args
    → taken 0 arg_sizes args (record cmd_clear { sign = cmd_sign_equal; op = map to_upper op })
      ≡ read_back op args
taken_lem op [] h = refl
taken_lem op (a ∷ []) h = refl
taken_lem op (a ∷ b ∷ []) h = refl
taken_lem op (a ∷ b ∷ c ∷ []) h = refl
taken_lem op (a ∷ b ∷ c ∷ d ∷ []) h = refl
taken_lem op (a ∷ b ∷ c ∷ d ∷ e ∷ []) h = refl
taken_lem op (a ∷ b ∷ c ∷ d ∷ e ∷ f ∷ []) h = refl
taken_lem op (a ∷ b ∷ c ∷ d ∷ e ∷ f ∷ g ∷ args) h = let wrong : ⊥ = h.2.2.2.2.2.2 in elim wrong [ ]

-- A command "AT+", in capitals or in small letters, with an operation of less than 8 characters,
-- without =, - and ?, then = and arguments with commas between them, which are without commas and shorter
-- than their arrays, where the variables of the command are cleared: with one to five of them
-- cmd_divide() gives the operation in capitals and the arguments, and with six it reads through NULL.
pub cmd_divide-joined :
    (word op first : List ℕ) (args : List (List ℕ)) (a : Atc)
    → map to_upper word ≡ 65 ∷ 84 ∷ 43 ∷ []
    → All (IsFree (61 ∷ 45 ∷ 63 ∷ [])) (word ++ op)
    → length op < 8
    → FitIn arg_sizes (first ∷ args)
    → a.tcmd ≡ cmd_clear
    → cmd_divide (word ++ op ++ 61 ∷ joined (first ∷ args)) a ≡ read_back op (first ∷ args)
unfolding cmd_divide sign_of is_prefix
cmd_divide-joined word op first args a upper free short fit clear =
    let equal = contains_equal (word ++ op) (joined (first ∷ args)) in
    let cut =
      strsep_ex-append (61 ∷ 45 ∷ 63 ∷ []) (word ++ op) 61 (joined (first ∷ args)) free refl in
    let split : map to_upper (word ++ op) ≡ 65 ∷ 84 ∷ 43 ∷ map to_upper op =
      rw (map-append to_upper word op, upper) refl in
    let fits_op : ltb 10 (length (65 ∷ 84 ∷ 43 ∷ map to_upper op)) ≡ false =
      ground (arith, length-map op to_upper) in
    rw (cut, equal, split, clear, fits_op)
      (parse_args-joined 0 arg_sizes first args
          (record cmd_clear { sign = cmd_sign_equal; op = map to_upper op }) fit
        ∙ taken_lem op (first ∷ args) fit)
