-- ===== src/Socket/State/Rules.antt =====
-- Rules for the steps that the calls of socket.c share: what a step leaves to prove of the rest.
use x_wizchip_io_library_dri.Base.{
  ℕ, zero, suc, ◌<◌, ◌≡◌, refl, Bool, true, false, not, ◌==◌, Option, some, ltb, arith, Bool-cases,
  inl, inr,
}
use x_wizchip_io_library_dri.Base.Int.{ℤ}
use x_wizchip_io_library_dri.Chip.{Chip, World, M, ◌>>=◌, ◌>>◌, polling}
use x_wizchip_io_library_dri.Chip.Rules.{Meets, Safe, Meets->>=, polling-Safe}
use x_wizchip_io_library_dri.W5500.Regs.{get_sn_cr, set_sn_cr}
use x_wizchip_io_library_dri.Socket.State.{
  wait_while, command, check_socknum, return_if, branch, set_remained, get_remained, set_pack_info,
  get_pack_info, update,
}

pub socknum_fits : (sn : ℕ) → sn < 8 → ltb 8 sn ≡ false
socknum_fits sn h = ground arith

pub socknum_indexes : (sn : ℕ) → sn < 8 → ltb sn 8 ≡ true
socknum_indexes sn h = ground arith

-- The last register read found a value at which the loop stops.
abbrev pub Stopped : {S : Type 0} → (S → ℕ × S) → (ℕ → Bool) → S → Type 0
Stopped {S} get busy s' = (s : S) × (busy (get s).0 ≡ false) × ((get s).1 ≡ s')

module _ {S : Type 0} (get : S → ℕ × S) (busy : ℕ → Bool) where
  pub wait_while-Stopped :
      (polls : ℕ) (s : S) (a : Unit {0}) (s' : S)
      → wait_while get busy polls s ≡ some (a, s')
      → Stopped get busy s'
  unfolding wait_while
  wait_while-Stopped zero s a s' h = cc
  wait_while-Stopped (suc polls) s a s' h = elim (Bool-cases (busy (get s).0)) [
    | inl e ↦ wait_while-Stopped polls (get s).1 a s' (rw (e, wait_while) at h)
    | inr e ↦ (s, e, ground arith)
  ]

  pub wait_while-Safe :
      (P : Unit {0} → World S → Type 0) (polls : ℕ) (w : World S)
      → ((s : S) → Stopped get busy s → P tt (record w { chip = s }))
      → Safe P (polling (wait_while get busy polls) w)
  wait_while-Safe P polls w h =
      polling-Safe P (wait_while get busy polls) w
        λ a s e. h s (wait_while-Stopped polls w.chip a s e)

  pub wait_while_then :
      {A : Type 0} (P : A → World S → Type 0) (polls : ℕ) (k : M S A) (w : World S)
      → ((s : S) → Stopped get busy s → Safe P (k (record w { chip = s })))
      → Safe P ((polling (wait_while get busy polls) >> k) w)
  wait_while_then P polls k w h =
      Meets->>= _ P (polling (wait_while get busy polls)) (λ _. k) w
        (wait_while-Safe (λ _ w'. Safe P (k w')) polls w h)

-- The command register was given `cmd` in the state `s`, and read 0 at last in the state `t`.
abbrev pub Commanded : (c : Chip) → ℕ → ℕ → ℕ → c.State → c.State → Type 0
Commanded c polls sn cmd s t =
    wait_while (get_sn_cr c sn) (λ v. not (v == 0)) polls (set_sn_cr c sn cmd s) ≡ some (tt, t)

-- A command touches the chip only, and returns once the command register reads 0.
pub command_then :
    (c : Chip) (polls sn cmd : ℕ) {A : Type 0} (P : A → World c.State → Type 0) (k : M c.State A)
    (w : World c.State)
    → ((t : c.State) → Commanded c polls sn cmd w.chip t → Safe P (k (record w { chip = t })))
    → Safe P ((command c polls sn cmd >> k) w)
unfolding command
command_then c polls sn cmd P k w h =
    Meets->>= _ P (command c polls sn cmd) (λ _. k) w
      (polling-Safe (λ _ w'. Safe P (k w')) (wait_while (get_sn_cr c sn) (λ v. not (v == 0)) polls)
        (record w { chip = set_sn_cr c sn cmd w.chip }) λ a t e. h t e)

-- A loop on the chip.
pub polling_then :
    {A B S : Type 0} (P : B → World S → Type 0) (f : S → Option (A × S)) (k : A → M S B)
    (w : World S)
    → ((a : A) (t : S) → f w.chip ≡ some (a, t) → Safe P (k a (record w { chip = t })))
    → Safe P ((polling f >>= k) w)
polling_then P f k w h =
    Meets->>= _ P (polling f) k w (polling-Safe (λ a w'. Safe P (k a w')) f w h)

module _ (H : Type 0) {S A : Type 0} (P : A → World S → Type 0) (sn v : ℕ) (k : M S A) (w : World S)
    (small : sn < 8) where
  pub set_remained_then :
      Meets H P (
        k (record w {
          driver = record w.driver { sock_remained_size = update w.driver.sock_remained_size sn v };
        }))
      → Meets H P ((set_remained sn v >> k) w)
  unfolding set_remained
  set_remained_then h = rw (socknum_indexes sn small, set_remained, ◌>>◌, ◌>>=◌) h

  pub set_pack_info_then :
      Meets H P (
        k (record w {
          driver = record w.driver { sock_pack_info = update w.driver.sock_pack_info sn v };
        }))
      → Meets H P ((set_pack_info sn v >> k) w)
  unfolding set_pack_info
  set_pack_info_then h = rw (socknum_indexes sn small, set_pack_info, ◌>>◌, ◌>>=◌) h

module _ (H : Type 0) {S : Type 0} (P : ℤ → World S → Type 0) where
  pub check_socknum_then :
      (sn : ℕ) (k : M S ℤ) (w : World S)
      → sn < 8
      → Meets H P (k w)
      → Meets H P (check_socknum sn k w)
  unfolding check_socknum
  check_socknum_then sn k w small h = rw (socknum_fits sn small, check_socknum) h

  pub return_if_then :
      (test : Bool) (code : ℤ) (k : M S ℤ) (w : World S)
      → P code w
      → (test ≡ false → Meets H P (k w))
      → Meets H P (return_if test code k w)
  unfolding return_if
  return_if_then true code k w h l = h
  return_if_then false code k w h l = l refl

pub branch_then :
    (H : Type 0) {A S : Type 0} (P : A → World S → Type 0) (test : Bool) (m k : M S A) (w : World S)
    → (test ≡ true → Meets H P (m w))
    → (test ≡ false → Meets H P (k w))
    → Meets H P (branch test m k w)
unfolding branch
branch_then H P true m k w h l = h refl
branch_then H P false m k w h l = l refl

module _ (H : Type 0) {S B : Type 0} (P : B → World S → Type 0) (sn : ℕ) (k : ℕ → M S B)
    (w : World S) (small : sn < 8) where
  pub get_remained_then :
      Meets H P (k (w.driver.sock_remained_size sn) w) → Meets H P ((get_remained sn >>= k) w)
  unfolding get_remained
  get_remained_then h = rw (socknum_indexes sn small, get_remained, ◌>>=◌) h

  pub get_pack_info_then :
      Meets H P (k (w.driver.sock_pack_info sn) w) → Meets H P ((get_pack_info sn >>= k) w)
  unfolding get_pack_info
  get_pack_info_then h = rw (socknum_indexes sn small, get_pack_info, ◌>>=◌) h
