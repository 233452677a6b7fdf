-- ===== src/Chip.antt =====
-- The chip as the driver sees it, and the computations of the driver over it.
--
-- `Chip` stands for the WIZnet chip behind its bus: it changes by itself, so a read of a register
-- gives a value and a new state. The driver takes it as a parameter.
pub mod Rules
use x_wizchip_io_library_dri.Base.{ℕ, ◌<◌, ◌≡◌, Option, none, some, List, length, All}

abbrev pub IsByte : ℕ → Type 0
IsByte b = b < 256

pub record Chip : Type 1 where
  pub State : Type 0
  -- WIZCHIP_READ and WIZCHIP_WRITE, at a 32-bit address
  pub read : ℕ → State → ℕ × State
  pub write : ℕ → ℕ → State → State
  -- WIZCHIP_READ_BUF, which is given the length, and WIZCHIP_WRITE_BUF
  pub read_buf : ℕ → ℕ → State → List ℕ × State
  pub write_buf : ℕ → List ℕ → State → State
  -- A read gives a uint8_t, and a buffer is filled to its length with such.
  pub read-IsByte : (a : ℕ) (s : State) → IsByte (read a s).0
  pub length-read_buf : (a n : ℕ) (s : State) → length (read_buf a n s).0 ≡ n
  pub read_buf-IsByte : (a n : ℕ) (s : State) → All IsByte (read_buf a n s).0

-- The file-scope variables of Ethernet/socket.c.
pub record Driver : Type 0 where
  pub sock_any_port : ℕ
  pub sock_io_mode : ℕ
  pub sock_is_sending : ℕ
  pub sock_remained_size : ℕ → ℕ
  pub sock_pack_info : ℕ → ℕ

pub record World (S : Type 0) : Type 0 where
  pub chip : S
  pub driver : Driver

-- `hung`: a loop that polls the chip was still waiting after the polls that it is allowed.
-- `fault`: an access outside an array.
pub data Outcome (A S : Type 0) : Type 0 where
  done : A → World S → Outcome A S
  hung : Outcome A S
  fault : Outcome A S

abbrev pub M : Type 0 → Type 0 → Type 0
M S A = World S → Outcome A S

abbrev pub pure : {S A : Type 0} → A → M S A
pure a w = done a w

infixl 5 ◌>>=◌ ◌>>◌
abbrev pub ◌>>=◌ : {S A B : Type 0} → M S A → (A → M S B) → M S B
◌>>=◌ m f w = elim (m w) [ done a w' ↦ f a w' | hung ↦ hung | fault ↦ fault ]

abbrev pub ◌>>◌ : {S B : Type 0} → M S (Unit {0}) → M S B → M S B
m >> k = m >>= λ _. k

-- A loop on the chip alone; `none` when its polls are used up.
abbrev pub polling : {S A : Type 0} → (S → Option (A × S)) → M S A
polling f w = elim (f w.chip) [ none ↦ hung | some (a, s) ↦ done a (record w { chip = s }) ]

-- A step on the chip that does not wait.
abbrev pub on_chip : {S A : Type 0} → (S → A × S) → M S A
on_chip f w = done (f w.chip).0 (record w { chip = (f w.chip).1 })

abbrev pub to_chip : {S : Type 0} → (S → S) → M S (Unit {0})
to_chip f w = done tt (record w { chip = f w.chip })

abbrev pub get_driver : {S : Type 0} → M S Driver
get_driver w = done w.driver w
