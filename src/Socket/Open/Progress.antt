-- ===== src/Socket/Open/Progress.antt =====
-- The loops of socket() and close() on a chip that answers.
use x_wizchip_io_library_dri.Base.{
  ℕ, ◌<◌, ◌==◌, not, ◌||◌, Option, none, some, Bool-cases, inl, inr,
}
use x_wizchip_io_library_dri.Base.Int.{ℤ}
use x_wizchip_io_library_dri.Chip.{Chip, World, M}
use x_wizchip_io_library_dri.Chip.Rules.{Returns, Meets->>=, Meets-mono, Safe-Returns}
use x_wizchip_io_library_dri.W5500.Regs.{get_sn_sr}
use x_wizchip_io_library_dri.Socket.Codes.{
  cr_close, cr_open, sock_closed, mr_tcp, mr_udp, mr_macraw, mr_ipraw,
}
use x_wizchip_io_library_dri.Socket.State.{wait_while}
use x_wizchip_io_library_dri.Socket.State.Rules.{
  check_socknum_then, set_remained_then, set_pack_info_then,
}
use x_wizchip_io_library_dri.Socket.State.Progress.{Answers, command_ends, polling_ends}
use x_wizchip_io_library_dri.Socket.Open.{
  close, socket, socket_open, open_command, choose_port, protocol_error, flag_error, or_return,
}
use x_wizchip_io_library_dri.Socket.Open.Closing.{Closed, close-Closed}
use x_wizchip_io_library_dri.Socket.Open.Flags.{IsAnyPort}
use x_wizchip_io_library_dri.Socket.Open.Opening.{OpenedOr, socket-OpenedOr}

abbrev pub Any : {A S : Type 0} → A → World S → Type 0
Any a w = Unit {0}

module _ (c : Chip) (polls sn : ℕ) (small : sn < 8) (answers : Answers c polls sn) where
  close_ends : (w : World c.State) → Returns Any (close c polls sn w)
  unfolding close
  close_ends w = check_socknum_then _ Any sn _ w small (
      command_ends c polls sn answers cr_close Any _ w λ t e.
        set_remained_then _ Any sn 0 _ _ small (
          set_pack_info_then _ Any sn 0 _ _ small (
            polling_ends Any (wait_while (get_sn_sr c sn) (λ v. not (v == sock_closed)) polls) _ _
              (let (u, f) = answers.closes w.chip t e in (tt, u, f)) λ a u f. tt)))

  -- On a chip that answers, for a socket number below 8, close() returns SOCK_OK, the driver has
  -- forgotten the socket and nothing else, and the last state read was SOCK_CLOSED.
  pub close-Returns : (w : World c.State) → Returns (Closed c polls sn w) (close c polls sn w)
  close-Returns w =
      Meets-mono _ _ _ (close c polls sn w) (λ a v h. h.0)
        (Safe-Returns (Closed c polls sn w) Any (close c polls sn w)
          (close-Closed c polls sn w small) (close_ends w))

  open_command_ends : (flag : ℕ) (w : World c.State) → Returns Any (open_command c polls sn flag w)
  unfolding open_command
  open_command_ends flag w = command_ends c polls sn answers cr_open Any _ w λ t e.
      set_remained_then _ Any sn 0 _ _ small (
        set_pack_info_then _ Any sn _ _ _ small (
          polling_ends Any (wait_while (get_sn_sr c sn) (λ v. v == sock_closed) polls) _ _
            (let (u, f) = answers.opens w.chip t e in (tt, u, f)) λ a u f. tt))

  choose_port_ends : (port : ℕ) (w : World c.State) → Returns Any (choose_port port w)
  unfolding choose_port
  choose_port_ends port w = elim (Bool-cases (port == 0)) [
    | inl e ↦ rw (e, choose_port) tt
    | inr e ↦ rw (e, choose_port) tt
  ]

  socket_open_ends :
      (protocol port flag : ℕ) (w : World c.State)
      → Returns Any (socket_open c polls sn protocol port flag w)
  unfolding socket_open
  socket_open_ends protocol port flag w = Meets->>= _ Any (close c polls sn) _ w (
      Meets-mono _ _ _ (close c polls sn w)
        (λ r v _. Meets->>= _ Any (choose_port port) _ _ (
          Meets-mono _ _ _ (choose_port port _) (λ port' x _. open_command_ends flag _)
            (choose_port_ends port _)))
        (close_ends w))

  or_return_ends :
      (e : Option ℤ) (k : M c.State ℤ) (w : World c.State)
      → Returns Any (k w)
      → Returns Any (or_return e k w)
  or_return_ends none k w h = h
  or_return_ends (some code) k w h = tt

  protocol_error_ends :
      (protocol : ℕ) (w : World c.State) → Returns Any (protocol_error c polls protocol w)
  unfolding protocol_error
  protocol_error_ends protocol w = elim (Bool-cases (protocol == mr_tcp)) [
    | inl tcp ↦ rw (tcp, protocol_error) tt
    | inr not_tcp ↦
        elim (Bool-cases (protocol == mr_udp || protocol == mr_macraw || protocol == mr_ipraw)) [
          | inl known ↦ rw (not_tcp, known, protocol_error) tt
          | inr unknown ↦ rw (not_tcp, unknown, protocol_error) tt
        ]
  ]

  socket_ends :
      (protocol port flag : ℕ) (w : World c.State)
      → Returns Any (socket c polls sn protocol port flag w)
  unfolding socket
  socket_ends protocol port flag w = check_socknum_then _ Any sn _ w small (
      Meets->>= _ Any (protocol_error c polls protocol) _ w (
        Meets-mono _ _ _ (protocol_error c polls protocol w)
          (λ e v _.
            or_return_ends e _ v (
              or_return_ends (flag_error protocol flag) _ v
                (socket_open_ends protocol port flag v)))
          (protocol_error_ends protocol w)))

  -- On a chip that answers, for a socket number below 8 and flags of a byte, while the next free port
  -- is in 0xE000 .. 0xFFEF, socket() returns: with the number, for a known protocol and acceptable
  -- flags, with fresh notes of this socket, the others' as before, and the next free port advanced
  -- when the port was 0; or with an error and all notes as before.
  pub socket-Returns :
      (protocol port flag : ℕ) (w : World c.State)
      → flag < 256
      → IsAnyPort w.driver.sock_any_port
      → Returns (OpenedOr c polls sn protocol port flag w) (socket c polls sn protocol port flag w)
  socket-Returns protocol port flag w byte ports =
      Meets-mono _ _ _ (socket c polls sn protocol port flag w) (λ a v h. h.0)
        (Safe-Returns (OpenedOr c polls sn protocol port flag w) Any
          (socket c polls sn protocol port flag w)
          (socket-OpenedOr c polls sn protocol port flag w small byte ports)
          (socket_ends protocol port flag w))
