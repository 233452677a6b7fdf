-- ===== src/Socket/Tcp/Sending.antt =====
-- What send() does.
use x_wizchip_io_library_dri.Base.{
  ℕ, ◌^◌, ◌<◌, ◌≤◌, ◌≡◌, refl, ◌≢◌, ◌⊎◌, inl, inr, arith, true, false, List,
}
use x_wizchip_io_library_dri.Base.Bits.{
  bit, clear_bit, set_bit, bit-clear_bit, bit-set_bit, test_bit,
}
use x_wizchip_io_library_dri.Base.Int.{ℤ, pos, is_negative}
use x_wizchip_io_library_dri.Chip.{Chip, Driver, World, ◌>>=◌, pure}
use x_wizchip_io_library_dri.Chip.Rules.{Safe, Meets->>=, Meets-mono}
use x_wizchip_io_library_dri.W5500.Regs.{get_sn_tx_max, get_sn_ir}
use x_wizchip_io_library_dri.W5500.Buffers.{wiz_send_data}
use x_wizchip_io_library_dri.Socket.Codes.{cr_send, ir_sendok, sockerr_sockstatus, sockerr_timeout}
use x_wizchip_io_library_dri.Socket.State.{has, is_nonblock}
use x_wizchip_io_library_dri.Socket.State.Rules.{
  check_socknum_then, return_if_then, branch_then, command_then, polling_then, Commanded,
}
use x_wizchip_io_library_dri.Socket.Open.{close}
use x_wizchip_io_library_dri.Socket.Open.Closing.{Agree, forget, forget-Agree, close-Closed}
use x_wizchip_io_library_dri.Socket.Tcp.{
  limited, Waited, ready, would_block, broken, send_wait, send_after, send_data, send,
}

pub limited-le : (len size : ℕ) → limited len size ≤ len
unfolding limited
limited-le len size = ground arith

-- Not a count of bytes: SOCK_BUSY or an error.
abbrev pub IsRefusal : ℤ → Type 0
IsRefusal r = (r ≡ pos 0) ⊎ (is_negative r ≡ true)

module _ (c : Chip) (polls sn : ℕ) (buf : List ℕ) (len : ℕ) where
  -- The first `n` bytes went to the transmit buffer, the SEND command was given, and the driver
  -- notes that a transmission of `sn` is under way, and nothing else.
  abbrev pub Sent : Driver → ℤ → World c.State → Type 0
  Sent d r w' =
      (n : ℕ) × (r ≡ pos n)
      × (n ≤ len)
      × (w'.driver ≡ record d { sock_is_sending = set_bit sn d.sock_is_sending })
      × ((s : c.State) × Commanded c polls sn cr_send (wiz_send_data c sn buf n s) w'.chip)

  -- Nothing was sent: the notes are as before, or the socket was closed.
  abbrev pub NotSent : Driver → ℤ → World c.State → Type 0
  NotSent d r w' = IsRefusal r × ((w'.driver ≡ d) ⊎ (w'.driver ≡ forget sn d))

  abbrev pub SentOrNot : Driver → ℤ → World c.State → Type 0
  SentOrNot d r w' = Sent d r w' ⊎ NotSent d r w'

  close_not_sent :
      (code : ℤ) (w : World c.State)
      → sn < 8
      → is_negative code ≡ true
      → Safe (SentOrNot w.driver) ((close c polls sn >>= λ _. pure code) w)
  close_not_sent code w small neg =
      Meets->>= _ (SentOrNot w.driver) (close c polls sn) (λ _. pure code) w
        (Meets-mono _ _ _ (close c polls sn w) (λ r v closed. inr (inr neg, inr closed.1))
          (close-Closed c polls sn w small))

  send_after-Safe :
      (n : ℕ) (room : Waited) (w : World c.State)
      → sn < 8
      → n ≤ len
      → Safe (SentOrNot w.driver) (send_after c polls sn buf n room w)
  unfolding send_after
  send_after-Safe n broken w small fits = close_not_sent sockerr_sockstatus w small refl
  send_after-Safe n would_block w small fits = inr (inl refl, inl refl)
  send_after-Safe n (ready f) w small fits =
      command_then c polls sn cr_send (SentOrNot w.driver) _
        (record w { chip = wiz_send_data c sn buf n w.chip })
        λ t e. inl (n, refl, fits, refl, (w.chip, e))

  send_data-Safe :
      (w : World c.State) → sn < 8 → Safe (SentOrNot w.driver) (send_data c polls sn buf len w)
  unfolding send_data
  send_data-Safe w small =
      let n : ℕ = limited len (get_sn_tx_max c sn w.chip).0 in
      polling_then (SentOrNot w.driver) (send_wait c polls polls sn n (is_nonblock sn w.driver)) _
        (record w { chip = (get_sn_tx_max c sn w.chip).1 })
        λ room t _. send_after-Safe n room (record w { chip = t }) small (limited-le len _)

  -- The other sockets' notes are as before.
  abbrev pub Others : Driver → Driver → Type 0
  Others d e = (j : ℕ) → j < 8 → j ≢ sn → Agree j e d

  -- No earlier transmission of this socket is under way, or the chip has reported its end.
  abbrev pub IsFree : Driver → Type 0
  IsFree d =
      (bit sn d.sock_is_sending ≡ 0) ⊎ ((s : c.State) × (has (get_sn_ir c sn s).0 ir_sendok ≡ true))

  -- What a call of send() may come to.
  abbrev pub SendResult : Driver → ℤ → World c.State → Type 0
  SendResult d r w' =
      ((n : ℕ) × (r ≡ pos n)
        × (n ≤ len)
        × IsFree d
        × (bit sn w'.driver.sock_is_sending ≡ 1)
        × Others d w'.driver
        × ((s : c.State) × Commanded c polls sn cr_send (wiz_send_data c sn buf n s) w'.chip))
      ⊎ (IsRefusal r × Others d w'.driver)

  refl-Others : (d : Driver) → Others d d
  refl-Others d j h ne = record {
    io_mode = refl;
    is_sending = refl;
    remained_size = refl;
    pack_info = refl;
  }

  abbrev acknowledged : Driver → Driver
  acknowledged d = record d { sock_is_sending = clear_bit sn d.sock_is_sending }

  set-Others :
      (d e : Driver)
      → sn < 8
      → Others d e
      → Others d (record e { sock_is_sending = set_bit sn e.sock_is_sending })
  set-Others d e small o j h ne =
      let a : Agree j e d = o j h ne in
      ground (arith, bit-set_bit j sn e.sock_is_sending (omega arith) (omega arith))

  acknowledged-Others : (d : Driver) → sn < 8 → Others d (acknowledged d)
  acknowledged-Others d small j h ne =
      ground (arith, bit-clear_bit j sn d.sock_is_sending (omega arith) (omega arith))

  forget-Others : (d e : Driver) → sn < 8 → Others d e → Others d (forget sn e)
  forget-Others d e small o j h ne =
      let a : Agree j e d = o j h ne in
      let b : Agree j (forget sn e) e = forget-Agree sn j e small h ne in ground arith

  send_data-SendResult :
      (d : Driver) (w : World c.State)
      → sn < 8
      → IsFree d
      → Others d w.driver
      → Safe (SendResult d) (send_data c polls sn buf len w)
  send_data-SendResult d w small free o =
      Meets-mono _ _ _ (send_data c polls sn buf len w) result (send_data-Safe w small)
    where
      result : (r : ℤ) (w' : World c.State) → SentOrNot w.driver r w' → SendResult d r w'
      result r w' (inl (n, is_n, fits, e, sent)) = inl (
        n,
        is_n,
        fits,
        free,
        rw e (
            ground (arith, bit-set_bit sn sn w.driver.sock_is_sending (omega arith) (omega arith))),
        rw e (set-Others d w.driver small o),
        sent,
      )
      result r w' (inr (refused, inl e)) = inr (refused, rw e o)
      result r w' (inr (refused, inr e)) = inr (refused, rw e (forget-Others d w.driver small o))

  not_pending : (d : Driver) → has d.sock_is_sending (2 ^ sn) ≡ false → IsFree d
  not_pending d e = inl (ground (arith, test_bit sn d.sock_is_sending))

  close_refused :
      (code : ℤ) (w : World c.State)
      → sn < 8
      → is_negative code ≡ true
      → Safe (SendResult w.driver) ((close c polls sn >>= λ _. pure code) w)
  close_refused code w small neg =
      Meets->>= _ (SendResult w.driver) (close c polls sn) (λ _. pure code) w
        (Meets-mono _ _ _ (close c polls sn w)
          (λ r v closed.
            inr
              (inr neg, rw closed.1 (forget-Others w.driver w.driver small (refl-Others w.driver))))
          (close-Closed c polls sn w small))

  pub send-SendResult :
      (w : World c.State) → sn < 8 → Safe (SendResult w.driver) (send c polls sn buf len w)
  unfolding send
  send-SendResult w small = check_socknum_then _ P sn _ w small (
      return_if_then _ P _ _ _ _ (inr (inr refl, refl-Others w.driver)) λ _.
        return_if_then _ P _ _ _ _ (inr (inr refl, refl-Others w.driver)) λ _.
          return_if_then _ P _ _ _ _ (inr (inr refl, refl-Others w.driver)) λ _.
            branch_then _ P _ _ _ _
              (λ _.
                branch_then _ P _ _ _ _
                  (λ acked.
                    send_data-SendResult w.driver _ small (inr (_, acked))
                      (acknowledged-Others w.driver small))
                  λ _.
                    branch_then _ P _ _ _ _ (λ _. close_refused sockerr_timeout _ small refl)
                      λ _. inr (inl refl, refl-Others w.driver))
              λ idle.
                send_data-SendResult w.driver _ small (not_pending w.driver idle)
                  (refl-Others w.driver))
    where
      P : ℤ → World c.State → Type 0
      P = SendResult w.driver
