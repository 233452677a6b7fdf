-- ===== src/Socket/Udp/Progress.antt =====
-- The loops of recvfrom() on a chip that answers.
use x_wizchip_io_library_dri.Base.{
  ℕ, zero, suc, ◌^◌, ◌<◌, ◌≡◌, refl, ◌≢◌, ◌⊎◌, inl, inr, ◌==◌, arith, Bool, true, Option, none,
  some, List, Bool-cases,
}
use x_wizchip_io_library_dri.Chip.{Chip, World, M, ◌>>=◌, pure}
use x_wizchip_io_library_dri.Chip.Rules.{Returns, Meets->>=, Meets-mono, Safe-Returns}
use x_wizchip_io_library_dri.W5500.Regs.{get_sn_sr}
use x_wizchip_io_library_dri.Socket.Codes.{cr_recv, sock_closed, sockfatal_packlen}
use x_wizchip_io_library_dri.Socket.State.{is_nonblock}
use x_wizchip_io_library_dri.Socket.State.Rules.{
  branch_then, get_remained_then, set_remained_then, get_pack_info_then, set_pack_info_then,
}
use x_wizchip_io_library_dri.Socket.State.Progress.{Answers, command_ends, polling_ends}
use x_wizchip_io_library_dri.Socket.Open.{close}
use x_wizchip_io_library_dri.Socket.Open.Progress.{Any, close-Returns}
use x_wizchip_io_library_dri.Socket.Tcp.{Waited, ready, would_block, broken}
use x_wizchip_io_library_dri.Socket.Udp.{
  Received, read_head, deliver, recvfrom, recvfrom_wait, recvfrom_after, recvfrom_mode,
  recvfrom_udp, recvfrom_macraw, recvfrom_ipraw, recvfrom_other, nothing,
}
use x_wizchip_io_library_dri.Socket.Udp.Accounting.{RecvResult}
use x_wizchip_io_library_dri.Socket.Udp.Receiving.{recvfrom-RecvResult}

module _ (c : Chip) (polls sn len : ℕ) (small : sn < 8) (answers : Answers c polls sn) where
  deliver_ends :
      (addr : Option (List ℕ)) (port : Option ℕ) (w : World c.State)
      → Returns Any (deliver c polls sn len addr port w)
  unfolding deliver
  deliver_ends addr port w = get_remained_then _ Any sn _ w small (
      command_ends c polls sn answers cr_recv Any _ _ λ t _.
        set_remained_then _ Any sn _ _ _ small (
          get_remained_then _ Any sn _ _ small
            (get_pack_info_then _ Any sn _ _ small (set_pack_info_then _ Any sn _ _ _ small tt))))

  read_head_ends : (n : ℕ) (w : World c.State) → Returns Any (read_head c polls sn n w)
  unfolding read_head
  read_head_ends n w = command_ends c polls sn answers cr_recv Any _ _ λ t _. tt

  head_then_ends :
      (n : ℕ) (k : List ℕ → M c.State Received) (w : World c.State)
      → ((head : List ℕ) (v : World c.State) → Returns Any (k head v))
      → Returns Any ((read_head c polls sn n >>= k) w)
  head_then_ends n k w h =
      Meets->>= _ Any (read_head c polls sn n) k w
        (Meets-mono _ _ _ (read_head c polls sn n w) (λ head v _. h head v) (read_head_ends n w))

  udp_ends : (w : World c.State) → Returns Any (recvfrom_udp c polls sn len w)
  unfolding recvfrom_udp
  udp_ends w = get_remained_then _ Any sn _ w small (
      branch_then _ Any _ _ _ w
        (λ _. head_then_ends 8 _ w λ head v.
          set_remained_then _ Any sn _ _ _ small
            (set_pack_info_then _ Any sn _ _ _ small (deliver_ends _ _ _)))
        λ _. deliver_ends none none w)

  macraw_ends : (w : World c.State) → Returns Any (recvfrom_macraw c polls sn len w)
  unfolding recvfrom_macraw
  macraw_ends w = get_remained_then _ Any sn _ w small (
      branch_then _ Any _ _ _ w
        (λ _. head_then_ends 2 _ w λ head v. set_remained_then _ Any sn _ _ _ small (
          branch_then _ Any _ _ _ _
            (λ _.
              Meets->>= _ Any (close c polls sn) (λ _. pure (nothing sockfatal_packlen)) _
                (Meets-mono _ _ _ (close c polls sn _) (λ r v h. tt)
                  (close-Returns c polls sn small answers _)))
            λ _. set_pack_info_then _ Any sn _ _ _ small (deliver_ends _ _ _)))
        λ _. deliver_ends none none w)

  ipraw_ends : (w : World c.State) → Returns Any (recvfrom_ipraw c polls sn len w)
  unfolding recvfrom_ipraw
  ipraw_ends w = get_remained_then _ Any sn _ w small (
      branch_then _ Any _ _ _ w
        (λ _. head_then_ends 6 _ w λ head v.
          set_remained_then _ Any sn _ _ _ small
            (set_pack_info_then _ Any sn _ _ _ small (deliver_ends _ _ _)))
        λ _. deliver_ends none none w)

  other_ends :
      (pack_len : ℕ) (w : World c.State) → Returns Any (recvfrom_other c polls sn pack_len w)
  unfolding recvfrom_other
  other_ends pack_len w = set_remained_then _ Any sn _ _ _ small (
      command_ends c polls sn answers cr_recv Any _ _
        λ t _. set_remained_then _ Any sn _ _ _ small (set_pack_info_then _ Any sn _ _ _ small tt))

  mode_ends :
      (mr pack_len : ℕ) (w : World c.State)
      → Returns Any (recvfrom_mode c polls sn mr len pack_len w)
  unfolding recvfrom_mode
  mode_ends mr pack_len w =
      branch_then _ Any _ _ _ w (λ _. udp_ends w)
        λ _.
          branch_then _ Any _ _ _ w (λ _. macraw_ends w)
            λ _. branch_then _ Any _ _ _ w (λ _. ipraw_ends w) λ _. other_ends pack_len w

  after_ends :
      (mr : ℕ) (arrived : Waited) (w : World c.State)
      → Returns Any (recvfrom_after c polls sn mr len arrived w)
  unfolding recvfrom_after
  after_ends mr broken w = tt
  after_ends mr would_block w = tt
  after_ends mr (ready pack_len) w = mode_ends mr pack_len w

  recvfrom_round :
      (n : ℕ) (s : c.State)
      → (a : Waited) × (t : c.State) × (recvfrom_wait c polls (suc n) sn true s ≡ some (a, t))
  unfolding recvfrom_wait
  recvfrom_round n s =
      let (size, s1, e) = answers.shows_received s in
      let s2 = (get_sn_sr c sn s1).1 in
      elim (Bool-cases ((get_sn_sr c sn s1).0 == sock_closed)) [
        | inl gone ↦ (broken, s2, rw (e, gone, recvfrom_wait) refl)
        | inr there ↦ elim (Bool-cases (size == 0)) [
          | inl empty ↦ (would_block, s2, rw (e, there, empty, recvfrom_wait) refl)
          | inr some_bytes ↦
              (ready size, s2, rw (e, there, some_bytes, recvfrom_wait) (rw some_bytes refl))
        ]
      ]

  recvfrom_wait_ends :
      (n : ℕ) (nonblock : Bool) (s : c.State)
      → 0 < n
      → nonblock ≡ true
      → (a : Waited) × (t : c.State) × (recvfrom_wait c polls n sn nonblock s ≡ some (a, t))
  recvfrom_wait_ends zero nonblock s h on = absurd (omega arith)
  recvfrom_wait_ends (suc n) nonblock s h on = rw on (recvfrom_round n s)

  recvfrom_ends :
      (w : World c.State)
      → (is_nonblock sn w.driver ≡ true) ⊎ (w.driver.sock_remained_size sn ≢ 0)
      → Returns Any (recvfrom c polls sn len w)
  unfolding recvfrom
  recvfrom_ends w ok =
      branch_then _ Any _ _ _ w (λ _. tt)
        λ _.
          branch_then _ Any _ _ _ _ (λ _. tt)
            λ _.
              branch_then _ Any _ _ _ _ (λ _. tt)
                λ _. get_remained_then _ Any sn _ _ small (
                  branch_then _ Any _ _ _ _
                    (λ fresh.
                      polling_ends Any (recvfrom_wait c polls polls sn (is_nonblock sn w.driver)) _
                        _
                        (recvfrom_wait_ends polls (is_nonblock sn w.driver) _ answers.some_polls
                          (elim ok [ inl on ↦ on | inr more ↦ absurd (ground arith) ]))
                        λ arrived t _. after_ends _ arrived (record w { chip = t }))
                    λ _. mode_ends _ 0 _)

  -- On a chip that answers, for a socket number below 8 whose noted rest is a uint16_t, where the
  -- socket does not block or a packet is under way, recvfrom() returns without a fault. Its result is
  -- negative and it gives no data; or it is SOCK_BUSY and the notes are as before; or it gives as many
  -- bytes of the pending packet as fit, read by wiz_recv_data() with the command RECV behind them, and the
  -- notes account for the rest. Of a new packet the head is read before, with a RECV of its own, and has
  -- the size, the address and the port as the mode of the socket lays them out. The other sockets'
  -- notes stay as they are.
  pub recvfrom-Returns :
      (w : World c.State)
      → w.driver.sock_remained_size sn < 2 ^ 16
      → (is_nonblock sn w.driver ≡ true) ⊎ (w.driver.sock_remained_size sn ≢ 0)
      → Returns (RecvResult c polls sn len w) (recvfrom c polls sn len w)
  recvfrom-Returns w fits ok =
      Meets-mono _ _ _ (recvfrom c polls sn len w) (λ a v h. h.0)
        (Safe-Returns (RecvResult c polls sn len w) Any (recvfrom c polls sn len w)
          (recvfrom-RecvResult c polls sn len small w fits) (recvfrom_ends w ok))
