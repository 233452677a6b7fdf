-- ===== src/Tests.antt =====
-- Concrete inputs: a chip that takes every command at once, and runs of the calls on it.
mod SocketRuns
mod SpiRuns
mod ConfRuns
mod DhcpRuns
mod HttpRuns
mod ServerRuns
mod FtpRuns
mod AtcRuns
mod ToyAnswers
mod DnsRuns
use x_wizchip_io_library_dri.Base.{
  ℕ, zero, suc, ◌+◌, ◌-◌, ◌*◌, ◌%◌, ◌/◌, ◌==◌, ltb, ◌<◌, ◌≡◌, refl, arith, if◌then◌else◌, Bool,
  true, false, List, [], ◌∷◌, length, All, ◌&&◌, ◌||◌,
}
use x_wizchip_io_library_dri.Base.Int.{ℤ, pos}
use x_wizchip_io_library_dri.Chip.{Chip, World, Outcome, done, hung, fault, IsByte}
use x_wizchip_io_library_dri.Socket.State.{driver_init}

abbrev pub Memory : Type 0
Memory = ℕ → ℕ

abbrev pub store : ℕ → ℕ → Memory → Memory
store a v s b = if b == a then v else s b

-- An open puts the state that belongs to the mode into Sn_SR, the other commands leave what the
-- peer does at once, and Sn_CR is 0 again.
abbrev pub obey : ℕ → ℕ → Memory → Memory
obey base cmd s =
    if cmd == 0x01
    then store (base + 0x300) (0x22 - 15 * (s base % 2)) s
    else if cmd == 0x02
    then store (base + 0x300) 0x14 s
    else if cmd == 0x04
    then store (base + 0x300) 0x17 s
    else if cmd == 0x08 || cmd == 0x10
    then store (base + 0x300) 0x00 s
    else if cmd == 0x20
    then store (base + 0x200) 0x10 s
    else s

abbrev pub write_reg : ℕ → ℕ → Memory → Memory
write_reg a v s = if (a / 256 == 1) && (a % 32 == 8) then obey (a % 256) v s else store a v s

-- Sn_CR reads 0, and so does Sn_RX_RSR of a chip that hears nothing.
abbrev pub read_reg : Bool → ℕ → Memory → ℕ
read_reg hears a s =
    if (a / 256 == 1) && (a % 32 == 8)
    then 0
    else if (a / 512 == 0x13) && (a % 32 == 8)
    then (if hears then s a % 256 else 0)
    else s a % 256

pub read_reg-IsByte : (hears : Bool) (a : ℕ) (s : Memory) → IsByte (read_reg hears a s)
read_reg-IsByte hears a s = ground arith

abbrev pub read_bytes : ℕ → ℕ → Memory → List ℕ
read_bytes a zero s = []
read_bytes a (suc n) s = s a % 256 ∷ read_bytes (a + 256) n s

abbrev pub write_bytes : ℕ → List ℕ → Memory → Memory
write_bytes a [] s = s
write_bytes a (x ∷ xs) s = write_bytes (a + 256) xs (store a x s)

pub length-read_bytes : (a n : ℕ) (s : Memory) → length (read_bytes a n s) ≡ n
length-read_bytes a zero s = refl
length-read_bytes a (suc n) s = omega (arith, length-read_bytes (a + 256) n s)

pub read_bytes-IsByte : (a n : ℕ) (s : Memory) → All IsByte (read_bytes a n s)
read_bytes-IsByte a zero s = tt
read_bytes-IsByte a (suc n) s = (omega arith, read_bytes-IsByte (a + 256) n s)

abbrev pub toy_chip : Bool → Chip
toy_chip hears = record {
  State = Memory;
  read = λ a s. (read_reg hears a s, s);
  write = write_reg;
  read_buf = λ a n s. (read_bytes a n s, s);
  write_buf = write_bytes;
  read-IsByte = read_reg-IsByte hears;
  length-read_buf = length-read_bytes;
  read_buf-IsByte = read_bytes-IsByte;
}

abbrev pub toy : Chip
toy = toy_chip true

abbrev pub deaf : Chip
deaf = toy_chip false

-- The chip has an address, its buffers have 2 KB each, and `free` bytes of a transmit buffer are
-- free.
abbrev pub memory : Memory
memory a =
    if a == 0x0f00
    then 192
    else if (a / 256 == 0x1e) && (a % 32 == 8)
    then 2
    else if (a / 256 == 0x1f) && (a % 32 == 8)
    then 2
    else if (a / 256 == 0x20) && (a % 32 == 8)
    then 8
    else 0

abbrev pub world : World Memory
world = record { chip = memory; driver = driver_init }

-- Socket 1 in a mode and a state, with bytes in its receive buffer.
abbrev pub world_with : ℕ → ℕ → List ℕ → World Memory
world_with mode state bytes = record {
  chip =
      store 0x28 mode
        (store 0x328 state (store 0x2728 (length bytes) (write_bytes (7 * 8) bytes memory)));
  driver = driver_init;
}

abbrev pub result : {A S : Type 0} → A → Outcome A S → A
result d (done a w) = a
result d hung = d
result d fault = d

abbrev pub returned : {A S : Type 0} → Outcome A S → Bool
returned (done a w) = true
returned hung = false
returned fault = false
