-- ===== src/Socket/Open/Opening.antt =====
-- What socket() leaves behind.
use x_wizchip_io_library_dri.Base.{
  ℕ, ◌*◌, ◌%◌, ◌^◌, ◌<◌, ◌≡◌, refl, ◌≢◌, ◌⊎◌, inl, inr, ◌==◌, bit_and, bit_or, arith, if◌then◌else◌,
  Bool, true, false, ◌||◌, Option, none, some, Bool-cases,
}
use x_wizchip_io_library_dri.Base.Bits.{
  bit, clear_bit, bit-clear_bit, bit-bit_or, bit-shifted_flag, bit-lt,
}
use x_wizchip_io_library_dri.Base.Int.{ℤ, pos, is_negative}
use x_wizchip_io_library_dri.Chip.{Chip, Driver, World, ◌>>=◌, ◌>>◌, to_chip}
use x_wizchip_io_library_dri.Chip.Rules.{Safe, Meets->>=, Meets-mono}
use x_wizchip_io_library_dri.W5500.Regs.{get_sn_sr, set_sn_mr, set_sn_port}
use x_wizchip_io_library_dri.Socket.Codes.{
  sockerr_sockinit, sockerr_sockflag, sock_closed, cr_open, mr_tcp, mr_udp, mr_macraw, mr_ipraw,
  sf_io_nonblock, pack_completed,
}
use x_wizchip_io_library_dri.Socket.State.{update}
use x_wizchip_io_library_dri.Socket.State.Rules.{
  check_socknum_then, command_then, set_remained_then, set_pack_info_then, wait_while_then,
}
use x_wizchip_io_library_dri.Socket.Open.{
  close, protocol_error, flag_error, open_command, choose_port, socket, socket_open, or_return,
}
use x_wizchip_io_library_dri.Socket.Open.Flags.{
  accepts, flag_error-accepts, next_any_port, IsAnyPort,
}
use x_wizchip_io_library_dri.Socket.Open.Closing.{Agree, forget, close-Closed}

-- The protocols that socket() knows.
abbrev pub is_protocol : ℕ → Bool
is_protocol protocol =
    protocol == mr_tcp || protocol == mr_udp || protocol == mr_macraw || protocol == mr_ipraw

-- `none` is given for known protocols only, and an error is negative.
abbrev Allows : ℕ → Option ℤ → Type 0
Allows protocol none = is_protocol protocol ≡ true
Allows protocol (some code) = is_negative code ≡ true

Allows-if :
    (protocol : ℕ) (b : Bool)
    → is_protocol protocol ≡ true
    → Allows protocol (if b then some sockerr_sockinit else none)
Allows-if protocol true h = refl
Allows-if protocol false h = h

-- How the driver's notes change when socket `sn` is opened with `port` and `flag`.
pub record Opened (sn port flag : ℕ) (d e : Driver) : Type 0 where
  pub io_mode : bit sn e.sock_io_mode ≡ flag % 2
  pub not_sending : bit sn e.sock_is_sending ≡ 0
  pub nothing_remains : e.sock_remained_size sn ≡ 0
  pub completed : e.sock_pack_info sn ≡ 0
  pub any_port :
      e.sock_any_port ≡ (if port == 0 then next_any_port d.sock_any_port else d.sock_any_port)
  pub others : (j : ℕ) → j < 8 → j ≢ sn → Agree j e d

-- The notes of a driver `d` after the port is taken and the flags are set.
abbrev reopened : ℕ → ℕ → Driver → Driver
reopened sn flag d = record d {
  sock_io_mode = bit_or (clear_bit sn d.sock_io_mode) (bit_and flag sf_io_nonblock * 2 ^ sn);
  sock_is_sending = clear_bit sn d.sock_is_sending;
  sock_remained_size = update d.sock_remained_size sn 0;
  sock_pack_info = update d.sock_pack_info sn 0;
}

opened_io_mode :
    (sn j flag io : ℕ)
    → sn < 8
    → j < 8
    → bit j (bit_or (clear_bit sn (clear_bit sn io)) (bit_and flag sf_io_nonblock * 2 ^ sn))
      ≡ (if j == sn then flag % 2 else bit j io)
opened_io_mode sn j flag io h hj = ground (
  arith,
  bit-bit_or j (clear_bit sn (clear_bit sn io)) (bit_and flag sf_io_nonblock * 2 ^ sn),
  bit-clear_bit j sn (clear_bit sn io) (omega arith) (omega arith),
  bit-clear_bit j sn io (omega arith) (omega arith),
  bit-shifted_flag j sn flag (omega arith) (omega arith),
  bit-lt j io,
)

opened_is_sending :
    (sn j v : ℕ)
    → sn < 8
    → j < 8
    → bit j (clear_bit sn (clear_bit sn v)) ≡ (if j == sn then 0 else bit j v)
opened_is_sending sn j v h hj = ground (
  arith,
  bit-clear_bit j sn (clear_bit sn v) (omega arith) (omega arith),
  bit-clear_bit j sn v (omega arith) (omega arith),
)

reopened-Opened :
    (sn port flag any_port : ℕ) (d e : Driver)
    → sn < 8
    → e ≡ record (forget sn d) { sock_any_port = any_port }
    → any_port ≡ (if port == 0 then next_any_port d.sock_any_port else d.sock_any_port)
    → Opened sn port flag d (reopened sn flag e)
reopened-Opened sn port flag any_port d e h same p = rw same (record {
  io_mode = ground (arith, opened_io_mode sn sn flag d.sock_io_mode h h);
  not_sending = ground (arith, opened_is_sending sn sn d.sock_is_sending h h);
  nothing_remains = ground arith;
  completed = ground arith;
  any_port = p;
  others = λ j hj ne. record {
    io_mode = ground (arith, opened_io_mode sn j flag d.sock_io_mode h hj);
    is_sending = ground (arith, opened_is_sending sn j d.sock_is_sending h hj);
    remained_size = ground arith;
    pack_info = ground arith;
  };
})

-- The driver's next port after a request for `port`.
abbrev pub any_port_after : ℕ → Driver → ℕ
any_port_after port d = if port == 0 then next_any_port d.sock_any_port else d.sock_any_port

-- Only the next port changes.
choose_port-Safe :
    {S : Type 0} (sn port : ℕ) (d : Driver) (v : World S)
    → IsAnyPort d.sock_any_port
    → v.driver ≡ forget sn d
    → Safe
        (λ _ w'. w'.driver ≡ record (forget sn d) { sock_any_port = any_port_after port d })
        (choose_port port v)
unfolding choose_port
choose_port-Safe sn port d v ports same = elim (Bool-cases (port == 0)) [
  | inl any ↦ rw (any, choose_port, same) (ground arith)
  | inr given ↦ rw (given, choose_port) same
]

module _ (c : Chip) (polls : ℕ) where
  -- The check of the protocol leaves the driver alone, and passes known protocols only.
  protocol_error-Safe :
      (protocol : ℕ) (w : World c.State)
      → Safe
          (λ e w'. (w'.driver ≡ w.driver) × Allows protocol e)
          (protocol_error c polls protocol w)
  unfolding protocol_error
  protocol_error-Safe protocol w = elim (Bool-cases (protocol == mr_tcp)) [
    | inl tcp ↦ rw (tcp, protocol_error) (refl, Allows-if protocol _ (ground arith))
    | inr not_tcp ↦
        elim (Bool-cases (protocol == mr_udp || protocol == mr_macraw || protocol == mr_ipraw)) [
          | inl known ↦ rw (not_tcp, known, protocol_error) (refl, ground arith)
          | inr unknown ↦ rw (not_tcp, unknown, protocol_error) (refl, refl)
        ]
  ]

  module _ (sn protocol port flag : ℕ) (small : sn < 8) where
    abbrev IsOpened : Driver → ℤ → World c.State → Type 0
    IsOpened d r w' = (r ≡ pos sn) × Opened sn port flag d w'.driver

    -- With the port chosen.
    open_command-IsOpened :
        (d : Driver) (any_port : ℕ) (w : World c.State)
        → w.driver ≡ record (forget sn d) { sock_any_port = any_port }
        → any_port ≡ (if port == 0 then next_any_port d.sock_any_port else d.sock_any_port)
        → Safe (IsOpened d) (open_command c polls sn flag w)
    unfolding open_command
    open_command-IsOpened d any_port w same p =
        command_then c polls sn cr_open (IsOpened d) _ w λ s _.
          set_remained_then _ (IsOpened d) sn 0 _ _ small (
            set_pack_info_then _ (IsOpened d) sn pack_completed _ _ small (
              wait_while_then (get_sn_sr c sn) (λ v. v == sock_closed) (IsOpened d) polls _ _
                λ t _. (refl, reopened-Opened sn port flag any_port d w.driver small same p)))

    socket_open-IsOpened :
        (w : World c.State)
        → IsAnyPort w.driver.sock_any_port
        → Safe (IsOpened w.driver) (socket_open c polls sn protocol port flag w)
    unfolding socket_open
    socket_open-IsOpened w ports = Meets->>= _ (IsOpened w.driver) (close c polls sn) _ w (
        Meets-mono _ _ _ (close c polls sn w) (λ r v closed. after v closed.1)
          (close-Closed c polls sn w small))
      where
        after :
            (v : World c.State)
            → v.driver ≡ forget sn w.driver
            → Safe (IsOpened w.driver) (
                (to_chip (set_sn_mr c sn (bit_or protocol (bit_and flag 0xF0)))
                    >> (choose_port port >>= λ port'.
                        to_chip (set_sn_port c sn port') >> open_command c polls sn flag))
                  v)
        after v same =
            let u : World c.State = record v {
              chip = set_sn_mr c sn (bit_or protocol (bit_and flag 0xF0)) v.chip;
            } in
            Meets->>= _ (IsOpened w.driver) (choose_port port) _ u (
              Meets-mono _ _ _ (choose_port port u)
                (λ port' x e. open_command-IsOpened w.driver _ _ e refl)
                (choose_port-Safe sn port w.driver u ports same))

  module _ (sn protocol port flag : ℕ) (w : World c.State) where
    -- Either the request was acceptable and the socket is open with its number as the result, or
    -- the result is an error and the driver's notes are as before.
    abbrev pub OpenedOr : ℤ → World c.State → Type 0
    OpenedOr r w' =
        ((r ≡ pos sn)
          × (is_protocol protocol ≡ true)
          × (accepts protocol flag ≡ true)
          × Opened sn port flag w.driver w'.driver)
        ⊎ ((is_negative r ≡ true) × (w'.driver ≡ w.driver))

  module _ (sn protocol port flag : ℕ) (w : World c.State) (small : sn < 8) (byte : flag < 256)
      (ports : IsAnyPort w.driver.sock_any_port) where
    abbrev P : ℤ → World c.State → Type 0
    P = OpenedOr sn protocol port flag w

    accepted :
        (b : Bool) (v : World c.State)
        → v.driver ≡ w.driver
        → is_protocol protocol ≡ true
        → accepts protocol flag ≡ b
        → Safe P (
            or_return
              (if b then none else some sockerr_sockflag)
              (socket_open c polls sn protocol port flag)
              v)
    accepted false v same known e = inr (refl, same)
    accepted true v same known e =
        Meets-mono _ _ _ (socket_open c polls sn protocol port flag v)
          (λ r w' (is_sn, opened). inl (is_sn, known, e, rw same at opened))
          (socket_open-IsOpened sn protocol port flag small v (rw same ports))

    checked :
        (e : Option ℤ) (v : World c.State)
        → (v.driver ≡ w.driver) × Allows protocol e
        → Safe P (
            or_return e
              (or_return (flag_error protocol flag) (socket_open c polls sn protocol port flag))
              v)
    checked (some code) v (same, neg) = inr (neg, same)
    checked none v (same, known) =
        rw (flag_error-accepts protocol flag byte)
          (accepted (accepts protocol flag) v same known refl)

    pub socket-OpenedOr :
        Safe (OpenedOr sn protocol port flag w) (socket c polls sn protocol port flag w)
    unfolding socket
    socket-OpenedOr = check_socknum_then _ P sn _ w small (
        Meets->>= _ P (protocol_error c polls protocol) _ w (
          Meets-mono _ _ _ (protocol_error c polls protocol w) checked
            (protocol_error-Safe protocol w)))
