-- ===== src/Socket/Open/Flags.antt =====
-- Which flags socket() takes, and the port that it picks.
use x_wizchip_io_library_dri.Base.{
  ℕ, ◌+◌, ◌≤◌, ◌<◌, ◌≡◌, refl, ◌==◌, Bool, true, false, not, ◌&&◌, ◌||◌, ◌⊎◌, Option, none, some,
  if◌then◌else◌, arith, Bool-cases, inl, inr,
}
use x_wizchip_io_library_dri.Base.Bits.{bit, all_below, all_below_sound}
use x_wizchip_io_library_dri.Base.Int.{ℤ}
use x_wizchip_io_library_dri.Socket.Codes.{mr_tcp, mr_udp, sockerr_sockflag}
use x_wizchip_io_library_dri.Socket.Open.{flag_error}

-- Bit 2 is not a flag. TCP takes no flag, or SF_IO_NONBLOCK or SF_TCP_NODELAY among others; with
-- UDP, SF_IGMP_VER2 and SF_UNI_BLOCK want SF_MULTI_ENABLE.
abbrev pub accepts : ℕ → ℕ → Bool
accepts protocol flag =
    bit 2 flag == 0
    && (if protocol == mr_tcp
        then flag == 0 || bit 0 flag == 1 || bit 5 flag == 1
        else if protocol == mr_udp
        then bit 7 flag == 1 || (bit 5 flag == 0 && bit 4 flag == 0)
        else true)

is_none : Option ℤ → Bool
is_none none = true
is_none (some code) = false

same : Bool → Bool → Bool
same true b = b
same false b = not b

same-eq : (a b : Bool) → same a b ≡ true → a ≡ b
unfolding same
same-eq a b h = ground arith

flag_test : ℕ → ℕ → Bool
unfolding is_none same flag_error
flag_test protocol flag = same (is_none (flag_error protocol flag)) (accepts protocol flag)

tcp_table : all_below 256 (flag_test 1) ≡ true
unfolding all_below flag_test
tcp_table = refl

udp_table : all_below 256 (flag_test 2) ≡ true
unfolding all_below flag_test
udp_table = refl

-- For any other protocol the flags but bit 2 do not matter: one value stands for all.
other_table : all_below 256 (flag_test 3) ≡ true
unfolding all_below flag_test
other_table = refl

other_as_three :
    (protocol flag : ℕ)
    → (protocol == 1) ≡ false
    → (protocol == 2) ≡ false
    → flag_test protocol flag ≡ flag_test 3 flag
unfolding flag_test
other_as_three protocol flag h k = ground arith

flag_test_holds : (protocol flag : ℕ) → flag < 256 → flag_test protocol flag ≡ true
flag_test_holds protocol flag h = elim (Bool-cases (protocol == 1)) [
  | inl tcp ↦ ground (arith, all_below_sound 256 (flag_test 1) flag tcp_table h)
  | inr not_tcp ↦ elim (Bool-cases (protocol == 2)) [
    | inl udp ↦ ground (arith, all_below_sound 256 (flag_test 2) flag udp_table h)
    | inr not_udp ↦ ground (
      arith,
      other_as_three protocol flag not_tcp not_udp,
      all_below_sound 256 (flag_test 3) flag other_table h,
    )
  ]
]

flag_error_cases :
    (protocol flag : ℕ)
    → (flag_error protocol flag ≡ none) ⊎ (flag_error protocol flag ≡ some sockerr_sockflag)
unfolding flag_error
flag_error_cases protocol flag = ground arith

by_test :
    (o : Option ℤ) (b : Bool) (code : ℤ)
    → (o ≡ none) ⊎ (o ≡ some code)
    → same (is_none o) b ≡ true
    → o ≡ (if b then none else some code)
unfolding same is_none
by_test o true code h e = ground arith
by_test o false code h e = ground arith

-- For flags of a byte, the checks of socket() give SOCKERR_SOCKFLAG exactly where the flags are not
-- acceptable.
pub flag_error-accepts :
    (protocol flag : ℕ)
    → flag < 256
    → flag_error protocol flag ≡ (if accepts protocol flag then none else some sockerr_sockflag)
flag_error-accepts protocol flag h =
    by_test (flag_error protocol flag) (accepts protocol flag) sockerr_sockflag
      (flag_error_cases protocol flag) (unfold flag_test in flag_test_holds protocol flag h)

-- The port that the driver hands out next.
abbrev pub next_any_port : ℕ → ℕ
next_any_port port = if port == 0xFFEF then 0xE000 else port + 1

-- The ports handed out stay in 0xE000 .. 0xFFEF.
abbrev pub IsAnyPort : ℕ → Type 0
IsAnyPort port = (0xE000 ≤ port) × (port < 0xFFF0)
