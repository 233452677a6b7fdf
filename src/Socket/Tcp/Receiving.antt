-- ===== src/Socket/Tcp/Receiving.antt =====
-- recv() on a socket that does not block, on a chip that answers.
use x_wizchip_io_library_dri.Base.{
  ℕ, zero, suc, ◌<◌, ◌≤◌, ◌≡◌, ◌⊎◌, refl, ◌∙◌, ◌==◌, ◌%◌, ◌^◌, ltb, arith, Bool, true, some, List,
  [], length, All, Bool-cases, inl, inr,
}
use x_wizchip_io_library_dri.Base.Int.{ℤ, pos, is_negative}
use x_wizchip_io_library_dri.Chip.{Chip, Driver, World, pure, polling, IsByte}
use x_wizchip_io_library_dri.Chip.Rules.{Returns, Meets->>=, Meets-mono, polling-Returns}
use x_wizchip_io_library_dri.W5500.Regs.{get_sn_sr, get_sn_tx_max, get_sn_rx_max}
use x_wizchip_io_library_dri.W5500.Buffers.{get_sn_rx_rsr, wiz_recv_data}
use x_wizchip_io_library_dri.W5500.Buffers.Sizes.{length-wiz_recv_data, wiz_recv_data-IsByte}
use x_wizchip_io_library_dri.Socket.Codes.{
  cr_recv, sock_established, sock_close_wait, sockerr_sockstatus,
}
use x_wizchip_io_library_dri.Socket.State.{is_nonblock}
use x_wizchip_io_library_dri.Socket.State.Rules.{Commanded, socknum_fits, branch_then}
use x_wizchip_io_library_dri.Socket.State.Progress.{Answers, command_ends}
use x_wizchip_io_library_dri.Socket.Open.{close}
use x_wizchip_io_library_dri.Socket.Open.Closing.{forget}
use x_wizchip_io_library_dri.Socket.Open.Progress.{close-Returns}
use x_wizchip_io_library_dri.Socket.Tcp.{
  limited, Waited, ready, would_block, broken, recv_wait, recv_after, recv,
}

-- A reading of Sn_RX_RSR that gave `size`.
abbrev pub Shown : (c : Chip) → ℕ → ℕ → ℕ → Type 0
Shown c polls sn size =
    (u : c.State) × (v : c.State) × (get_sn_rx_rsr c polls sn u ≡ some (size, v))

-- `n` bytes of the `size` that had arrived: the least of `len`, the size, and the size of the receive
-- buffer as the chip shows it, both as a uint16_t.
abbrev pub IsPortion : (c : Chip) → ℕ → ℕ → ℕ → ℕ → Type 0
IsPortion c sn len size n =
    (u : c.State) × (let room = (get_sn_rx_max c sn u).0 % 2 ^ 16 in
      (n ≤ len)
      × (n ≤ size % 2 ^ 16)
      × (n ≤ room)
      × ((n ≡ len) ⊎ ((n ≡ size % 2 ^ 16) ⊎ (n ≡ room))))

-- Data: read by wiz_recv_data() with the command RECV behind it.
abbrev pub Delivered : (c : Chip) → ℕ → ℕ → ℕ → List ℕ → c.State → Type 0
Delivered c polls sn n bytes t =
    (s : c.State) × (bytes ≡ (wiz_recv_data c sn n s).0)
    × Commanded c polls sn cr_recv (wiz_recv_data c sn n s).1 t

-- An error without data, with the notes as before or of a closed socket; or SOCK_BUSY without data; or
-- the least of what is asked for, what has arrived and the buffer's size, as data of this length; in
-- the last two cases with the notes as before.
abbrev pub RecvdResult : (c : Chip) → ℕ → ℕ → ℕ → Driver → ℤ × List ℕ → World c.State → Type 0
RecvdResult c polls sn len d r w' =
    ((is_negative r.0 ≡ true) × (r.1 ≡ []) × ((w'.driver ≡ d) ⊎ (w'.driver ≡ forget sn d)))
    ⊎ (((r.0 ≡ pos 0) × (r.1 ≡ []) × (w'.driver ≡ d))
        ⊎ ((n : ℕ) × (size : ℕ) × (r.0 ≡ pos n)
            × (length r.1 ≡ n)
            × All IsByte r.1
            × Shown c polls sn size
            × IsPortion c sn len size n
            × Delivered c polls sn n r.1 w'.chip
            × (w'.driver ≡ d)))

-- How the loop ends: with a size that was shown, if with one.
abbrev Ended : (c : Chip) → ℕ → ℕ → Waited → Type 0
Ended c polls sn broken = Unit
Ended c polls sn would_block = Unit
Ended c polls sn (ready size) = Shown c polls sn size

limited_lem :
    (len size : ℕ)
    → (limited len size ≤ len)
      × (limited len size ≤ size % 2 ^ 16)
      × ((limited len size ≡ len) ⊎ (limited len size ≡ size % 2 ^ 16))
unfolding limited
limited_lem len size = elim (Bool-cases (ltb (size % 2 ^ 16) len)) [
  | inl e ↦ rw e (ground arith, omega arith, inr refl)
  | inr e ↦ rw e (omega arith, ground arith, inl refl)
]

least : {n m k l r : ℕ} → (m ≡ k) ⊎ (m ≡ r) → (n ≡ m) ⊎ (n ≡ l) → (n ≡ k) ⊎ ((n ≡ l) ⊎ (n ≡ r))
least first (inr e) = inr (inl e)
least (inl f) (inl e) = inl (e ∙ f)
least (inr f) (inl e) = inr (inr (e ∙ f))

module _ (c : Chip) (polls sn : ℕ) (small : sn < 8) (answers : Answers c polls sn) where
  recv_round :
      (n : ℕ) (s : c.State)
      → (a : Waited) × (t : c.State) × (recv_wait c polls (suc n) sn true s ≡ some (a, t))
        × Ended c polls sn a
  unfolding recv_wait
  recv_round n s =
      let (size, s1, e) = answers.shows_received s in
      let shown : Shown c polls sn size = (s, s1, e) in
      let sr = (get_sn_sr c sn s1).0 in
      let s2 = (get_sn_sr c sn s1).1 in
      elim (Bool-cases (size == 0)) [
        | inl empty ↦ elim (Bool-cases (sr == sock_established)) [
          | inl est ↦ (would_block, s2, rw (e, est, empty, recv_wait) refl, tt)
          | inr not_est ↦ elim (Bool-cases (sr == sock_close_wait)) [
            | inr gone ↦ (broken, s2, rw (e, not_est, gone, recv_wait) refl, tt)
            | inl closing ↦
                let (free, s3, f) = answers.shows_free s2 in
                let s4 = (get_sn_tx_max c sn s3).1 in
                elim (Bool-cases (free == (get_sn_tx_max c sn s3).0)) [
                  | inl all_sent ↦
                      (broken, s4, rw (e, not_est, closing, empty, f, all_sent, recv_wait) refl, tt)
                  | inr more ↦ (
                    would_block,
                    s4,
                    rw (e, not_est, closing, empty, f, more, recv_wait) (rw empty refl),
                    tt,
                  )
                ]
          ]
        ]
        | inr some_bytes ↦ elim (Bool-cases (sr == sock_established)) [
          | inl est ↦
              (ready size, s2, rw (e, est, some_bytes, recv_wait) (rw some_bytes refl), shown)
          | inr not_est ↦ elim (Bool-cases (sr == sock_close_wait)) [
            | inr gone ↦ (broken, s2, rw (e, not_est, gone, recv_wait) refl, tt)
            | inl closing ↦
                (ready size, s2, rw (e, not_est, closing, some_bytes, recv_wait) refl, shown)
          ]
        ]
      ]

  recv_wait_ends :
      (n : ℕ) (nonblock : Bool) (s : c.State)
      → 0 < n
      → nonblock ≡ true
      → (a : Waited) × (t : c.State) × (recv_wait c polls n sn nonblock s ≡ some (a, t))
        × Ended c polls sn a
  recv_wait_ends zero nonblock s h on = absurd (omega arith)
  recv_wait_ends (suc n) nonblock s h on = rw on (recv_round n s)

  recv_after-Returns :
      (len : ℕ) (u : c.State) (arrived : Waited) (w : World c.State)
      → Ended c polls sn arrived
      → Returns
          (RecvdResult c polls sn len w.driver)
          (recv_after c polls sn (limited len (get_sn_rx_max c sn u).0) arrived w)
  unfolding recv_after
  recv_after-Returns len u broken w ended =
      Meets->>= _ (RecvdResult c polls sn len w.driver) (close c polls sn)
        (λ _. pure (sockerr_sockstatus, [])) w
        (Meets-mono _ _ _ (close c polls sn w) (λ r v closed. inl (refl, refl, inr closed.1))
          (close-Returns c polls sn small answers w))
  recv_after-Returns len u would_block w ended = inr (inl (refl, refl, refl))
  recv_after-Returns len u (ready size) w shown =
      let room = (get_sn_rx_max c sn u).0 in
      let m = limited len room in
      let n = limited m size in
      let (le_len, le_room, first) = limited_lem len room in
      let (le_m, le_size, second) = limited_lem m size in
      command_ends c polls sn answers cr_recv (RecvdResult c polls sn len w.driver) _
        (record w { chip = (wiz_recv_data c sn n w.chip).1 })
        λ t told. inr (
          inr (
            n,
            size,
            refl,
            length-wiz_recv_data c sn n w.chip,
            wiz_recv_data-IsByte c sn n w.chip,
            shown,
            (u, (omega arith, le_size, omega arith, least first second)),
            (w.chip, refl, told),
            refl,
          ))

  -- On a chip that answers, for a socket number below 8 that does not block, recv() returns without a
  -- fault. Its result is negative and it gives no data, with the notes as before or those of a closed
  -- socket; or it is SOCK_BUSY, with no data; or it is the least of `len`, of what the chip showed to have
  -- arrived and of the size of the receive buffer, and so many bytes were read with the command RECV
  -- behind them. The notes are as before in the last two cases.
  pub recv-Returns :
      (len : ℕ) (w : World c.State)
      → is_nonblock sn w.driver ≡ true
      → Returns (RecvdResult c polls sn len w.driver) (recv c polls sn len w)
  unfolding recv
  recv-Returns len w on =
      let P = RecvdResult c polls sn len w.driver in
      branch_then _ P _ _ _ w (λ e. absurd (ground (arith, socknum_fits sn small)))
        λ _.
          branch_then _ P _ _ _ _ (λ _. inl (refl, refl, inl refl))
            λ _.
              branch_then _ P _ _ _ _ (λ _. inl (refl, refl, inl refl))
                λ _.
                  (let (a, t, ran, ended) =
                      recv_wait_ends polls (is_nonblock sn w.driver) _ answers.some_polls on in
                    Meets->>= _ P (polling (recv_wait c polls polls sn (is_nonblock sn w.driver))) _
                      _
                      (polling-Returns _ (λ a w'. Returns P (recv_after c polls sn _ a w'))
                        (recv_wait c polls polls sn (is_nonblock sn w.driver)) _ a t ran
                        (recv_after-Returns len _ a (record w { chip = t }) ended)))
