-- ===== src/Socket/Tcp/Progress.antt =====
-- The loops of send() on a chip that answers, for a socket that does not block.
use x_wizchip_io_library_dri.Base.{
  ℕ, zero, suc, ◌<◌, ◌≡◌, refl, ◌==◌, ltb, leb, not, arith, Bool, true, some, List, Bool-cases, inl,
  inr, ◌&&◌,
}
use x_wizchip_io_library_dri.Chip.{Chip, World, ◌>>=◌, pure}
use x_wizchip_io_library_dri.Chip.Rules.{Returns, Meets->>=, Meets-mono, Safe-Returns}
use x_wizchip_io_library_dri.W5500.Regs.{get_sn_sr, get_sn_tx_max}
use x_wizchip_io_library_dri.W5500.Buffers.{wiz_send_data}
use x_wizchip_io_library_dri.Socket.Codes.{
  cr_send, sock_established, sock_close_wait, sockerr_sockstatus, sockerr_timeout,
}
use x_wizchip_io_library_dri.Socket.State.{is_nonblock}
use x_wizchip_io_library_dri.Socket.State.Rules.{check_socknum_then, return_if_then, branch_then}
use x_wizchip_io_library_dri.Socket.State.Progress.{Answers, command_ends, polling_ends}
use x_wizchip_io_library_dri.Socket.Open.{close}
use x_wizchip_io_library_dri.Socket.Open.Progress.{Any, close-Returns}
use x_wizchip_io_library_dri.Socket.Tcp.{
  limited, Waited, ready, would_block, broken, send_wait, send_after, send_data, send,
}
use x_wizchip_io_library_dri.Socket.Tcp.Sending.{SendResult, send-SendResult}

module _ (c : Chip) (polls sn : ℕ) (small : sn < 8) (answers : Answers c polls sn) where
  close_then_ends :
      {A : Type 0} (a : A) (w : World c.State) → Returns Any ((close c polls sn >>= λ _. pure a) w)
  close_then_ends a w =
      Meets->>= _ Any (close c polls sn) (λ _. pure a) w
        (Meets-mono _ _ _ (close c polls sn w) (λ r v h. tt)
          (close-Returns c polls sn small answers w))

  -- One round is enough.
  send_round :
      (n len : ℕ) (s : c.State)
      → (a : Waited) × (t : c.State) × (send_wait c polls (suc n) sn len true s ≡ some (a, t))
  unfolding send_wait
  send_round n len s =
      let (free, s1, e) = answers.shows_free s in
      let sr = (get_sn_sr c sn s1).0 in
      let s2 = (get_sn_sr c sn s1).1 in
      elim (Bool-cases (not (sr == sock_established) && not (sr == sock_close_wait))) [
        | inl gone ↦ (broken, s2, rw (e, gone, send_wait) refl)
        | inr there ↦ elim (Bool-cases (ltb free len)) [
          | inl full ↦ (would_block, s2, rw (e, there, full, send_wait) refl)
          | inr room ↦
              let enough : leb len free ≡ true = ground arith in
              (ready free, s2, rw (e, there, room, enough, send_wait) refl)
        ]
      ]

  send_wait_ends :
      (n len : ℕ) (nonblock : Bool) (s : c.State)
      → 0 < n
      → nonblock ≡ true
      → (a : Waited) × (t : c.State) × (send_wait c polls n sn len nonblock s ≡ some (a, t))
  send_wait_ends zero len nonblock s h on = absurd (omega arith)
  send_wait_ends (suc n) len nonblock s h on = rw on (send_round n len s)

  send_after_ends :
      (buf : List ℕ) (n : ℕ) (room : Waited) (w : World c.State)
      → Returns Any (send_after c polls sn buf n room w)
  unfolding send_after
  send_after_ends buf n broken w = close_then_ends sockerr_sockstatus w
  send_after_ends buf n would_block w = tt
  send_after_ends buf n (ready f) w =
      command_ends c polls sn answers cr_send Any _
        (record w { chip = wiz_send_data c sn buf n w.chip }) λ t e. tt

  send_data_ends :
      (buf : List ℕ) (len : ℕ) (w : World c.State)
      → is_nonblock sn w.driver ≡ true
      → Returns Any (send_data c polls sn buf len w)
  unfolding send_data
  send_data_ends buf len w on =
      let n : ℕ = limited len (get_sn_tx_max c sn w.chip).0 in
      polling_ends Any (send_wait c polls polls sn n (is_nonblock sn w.driver)) _
        (record w { chip = (get_sn_tx_max c sn w.chip).1 })
        (send_wait_ends polls n (is_nonblock sn w.driver) _ answers.some_polls on)
        λ room t _. send_after_ends buf n room (record w { chip = t })

  send_ends :
      (buf : List ℕ) (len : ℕ) (w : World c.State)
      → is_nonblock sn w.driver ≡ true
      → Returns Any (send c polls sn buf len w)
  unfolding send
  send_ends buf len w on = check_socknum_then _ Any sn _ w small (
      return_if_then _ Any _ _ _ _ tt λ _. return_if_then _ Any _ _ _ _ tt λ _.
        return_if_then _ Any _ _ _ _ tt λ _.
          branch_then _ Any _ _ _ _
            (λ _.
              branch_then _ Any _ _ _ _ (λ _. send_data_ends buf len _ on)
                λ _. branch_then _ Any _ _ _ _ (λ _. close_then_ends sockerr_timeout _) λ _. tt)
            λ _. send_data_ends buf len _ on)

  -- On a chip that answers, for a socket number below 8 that does not block, send() returns without a
  -- fault. Either the SEND command was given for the first `n` bytes, no earlier transmission was
  -- pending, and this one is noted; or the result is SOCK_BUSY or an error. The other sockets' notes
  -- stay as they are.
  pub send-Returns :
      (buf : List ℕ) (len : ℕ) (w : World c.State)
      → is_nonblock sn w.driver ≡ true
      → Returns (SendResult c polls sn buf len w.driver) (send c polls sn buf len w)
  send-Returns buf len w on =
      Meets-mono _ _ _ (send c polls sn buf len w) (λ a v h. h.0)
        (Safe-Returns (SendResult c polls sn buf len w.driver) Any (send c polls sn buf len w)
          (send-SendResult c polls sn buf len w small) (send_ends buf len w on))
