-- ===== src/Socket/Udp/Accounting.antt =====
-- How recvfrom() accounts for the bytes of a packet.
use x_wizchip_io_library_dri.Base.{
  ℕ, ◌+◌, ◌-◌, ◌*◌, ◌%◌, ◌^◌, ◌<◌, ◌≤◌, ◌≡◌, refl, ◌≢◌, ◌⊎◌, inl, inr, ◌==◌, ltb, bit_and, bit_or,
  arith, if◌then◌else◌, true, Option, none, some, List, [], length, All, get_or, take,
}
use x_wizchip_io_library_dri.Base.Bits.{bit, bit-bit_or}
use x_wizchip_io_library_dri.Base.Int.{pos, is_negative}
use x_wizchip_io_library_dri.Chip.{Chip, Driver, World, M, ◌>>=◌, IsByte}
use x_wizchip_io_library_dri.Chip.Rules.{Safe, Meets->>=, Meets-mono}
use x_wizchip_io_library_dri.W5500.Regs.{get_sn_mr}
use x_wizchip_io_library_dri.W5500.Buffers.{wiz_recv_data}
use x_wizchip_io_library_dri.W5500.Buffers.Sizes.{length-wiz_recv_data, wiz_recv_data-IsByte}
use x_wizchip_io_library_dri.Socket.Codes.{pack_completed, pack_remained, cr_recv}
use x_wizchip_io_library_dri.Socket.State.{update}
use x_wizchip_io_library_dri.Socket.State.Rules.{
  Commanded, command_then, get_remained_then, set_remained_then, get_pack_info_then,
  set_pack_info_then,
}
use x_wizchip_io_library_dri.Socket.Open.Closing.{Agree}
use x_wizchip_io_library_dri.Socket.Udp.{Received, read_head, deliver}

-- What a call takes of `size` bytes.
abbrev pub portion : ℕ → ℕ → ℕ
portion len size = if ltb len size then len else size

module _ (c : Chip) (polls sn len : ℕ) where
  -- The other sockets' notes are as before.
  abbrev pub Others : Driver → Driver → Type 0
  Others d e = (j : ℕ) → j < 8 → j ≢ sn → Agree j e d

  -- Of `size` bytes, with the data of the packet at the state `s` of the chip, the call took as many as
  -- fit, ended it with the command RECV, and the driver's notes tell of the rest: PACK_COMPLETED if
  -- there is none, else the flags `info` and PACK_REMAINED.
  pub record Taken (size info : ℕ) (s t : c.State) (r : Received) (e : Driver) : Type 0 where
    pub taken : r.ret ≡ pos (portion len size)
    pub filled : length r.bytes ≡ portion len size
    pub from_chip : r.bytes ≡ (wiz_recv_data c sn (portion len size) s).0
    pub commanded : Commanded c polls sn cr_recv (wiz_recv_data c sn (portion len size) s).1 t
    pub account : e.sock_remained_size sn + portion len size ≡ size
    pub ended : e.sock_remained_size sn ≡ 0 → e.sock_pack_info sn ≡ 0
    pub open_ended : e.sock_remained_size sn ≢ 0 → bit 0 (e.sock_pack_info sn) ≡ 1
    pub flagged : e.sock_remained_size sn ≢ 0 → e.sock_pack_info sn ≡ bit_or info pack_remained

  deliver-Taken :
      (addr : Option (List ℕ)) (port : Option ℕ) (w : World c.State)
      → sn < 8
      → w.driver.sock_remained_size sn < 2 ^ 16
      → Safe
          (λ r w'.
            Taken
              (w.driver.sock_remained_size sn)
              (w.driver.sock_pack_info sn)
              w.chip
              w'.chip
              r
              w'.driver
            × (r.addr ≡ addr)
            × (r.port ≡ port)
            × Others w.driver w'.driver)
          (deliver c polls sn len addr port w)
  unfolding deliver
  deliver-Taken addr port w small fits = get_remained_then _ _ sn _ w small (
      command_then c polls sn cr_recv _ _ _ λ t told. set_remained_then _ _ sn _ _ _ small (
        get_remained_then _ _ sn _ _ small (
          get_pack_info_then _ _ sn _ _ small (
            set_pack_info_then _ _ sn _ _ _ small
              (taken t told, refl, refl, λ j h ne. ground arith)))))
    where
      R : ℕ
      R = w.driver.sock_remained_size sn

      taken :
          (t : c.State)
          → Commanded c polls sn cr_recv (wiz_recv_data c sn (portion len R) w.chip).1 t
          → Taken R
              (w.driver.sock_pack_info sn)
              w.chip
              t
              (record {
                ret = pos (portion len R);
                bytes = (wiz_recv_data c sn (portion len R) w.chip).0;
                addr = addr;
                port = port;
              })
              (record w.driver {
                sock_remained_size =
                    update w.driver.sock_remained_size sn ((R + 2 ^ 16 - portion len R) % 2 ^ 16);
                sock_pack_info = update w.driver.sock_pack_info sn (
                    if update w.driver.sock_remained_size sn
                        ((R + 2 ^ 16 - portion len R) % 2 ^ 16)
                        sn
                      == 0
                    then pack_completed
                    else bit_or (w.driver.sock_pack_info sn) pack_remained);
              })
      taken t told = record {
        taken = refl;
        filled = length-wiz_recv_data c sn (portion len R) w.chip;
        from_chip = refl;
        commanded = told;
        account = ground arith;
        ended = ground arith;
        open_ended = ground (arith, bit-bit_or 0 (w.driver.sock_pack_info sn) 1);
        flagged = ground arith;
      }

  -- `n` bytes read at the state `u`, with the command RECV behind them, up to the state `s`.
  abbrev pub HeadRead : ℕ → List ℕ → c.State → Type 0
  HeadRead n head s =
      (u : c.State) × (head ≡ (wiz_recv_data c sn n u).0)
      × Commanded c polls sn cr_recv (wiz_recv_data c sn n u).1 s

  -- The head of a packet: `n` bytes.
  pub read_head_then :
      {B : Type 0} (P : B → World c.State → Type 0) (n : ℕ) (k : List ℕ → M c.State B)
      (w : World c.State)
      → ((head : List ℕ) (t : c.State)
          → length head ≡ n
          → All IsByte head
          → HeadRead n head t
          → Safe P (k head (record w { chip = t })))
      → Safe P ((read_head c polls sn n >>= k) w)
  read_head_then P n k w h = Meets->>= _ P (read_head c polls sn n) k w (
      unfold read_head in
      command_then c polls sn cr_recv (λ a w'. Safe P (k a w')) _
        (record w { chip = (wiz_recv_data c sn n w.chip).1 })
        λ t told.
          h (wiz_recv_data c sn n w.chip).0 t (length-wiz_recv_data c sn n w.chip)
            (wiz_recv_data-IsByte c sn n w.chip) (w.chip, refl, told))

  -- What the head of a new packet says of its size, and what the caller learns of the peer, in the
  -- modes UDP, MACRAW and IPRAW.
  abbrev pub Header : ℕ → ℕ → c.State → Received → Type 0
  Header mr size s r =
      (head : List ℕ) × All IsByte head
      × (((bit_and mr 7 ≡ 2)
            × HeadRead 8 head s
            × (size ≡ get_or head 6 0 * 256 + get_or head 7 0)
            × (r.addr ≡ some (take 4 head))
            × (r.port ≡ some (get_or head 4 0 * 256 + get_or head 5 0)))
          ⊎ (((bit_and mr 7 ≡ 4)
                × HeadRead 2 head s
                × (size ≡ (get_or head 0 0 * 256 + get_or head 1 0 + 2 ^ 16 - 2) % 2 ^ 16)
                × (size ≤ 1514)
                × (r.addr ≡ none)
                × (r.port ≡ none))
              ⊎ ((bit_and mr 7 ≡ 3)
                  × HeadRead 6 head s
                  × (size ≡ get_or head 4 0 * 256 + get_or head 5 0)
                  × (r.addr ≡ some (take 4 head))
                  × (r.port ≡ none))))

  -- `size` bytes of a packet are still to come, and are read from the state `s` on: of one that an earlier
  -- call began, with its flags, or of a new one.
  abbrev pub Pending : World c.State → ℕ → ℕ → c.State → Received → Type 0
  Pending w size info s r =
      ((w.driver.sock_remained_size sn ≡ size)
        × (size ≢ 0)
        × (info ≡ w.driver.sock_pack_info sn)
        × (r.addr ≡ none)
        × (r.port ≡ none))
      ⊎ ((w.driver.sock_remained_size sn ≡ 0)
          × (info ≡ 0x80)
          × Header (get_sn_mr c sn w.chip).0 size s r)

  abbrev pub RecvResult : World c.State → Received → World c.State → Type 0
  RecvResult w r w' =
      ((is_negative r.ret ≡ true) × (r.bytes ≡ []) × Others w.driver w'.driver)
      ⊎ ((((r.ret ≡ pos 0) × (r.bytes ≡ [])) × (w'.driver ≡ w.driver))
          ⊎ ((size : ℕ) × (info : ℕ) × (s : c.State) × Pending w size info s r
              × Taken size info s w'.chip r w'.driver
              × Others w.driver w'.driver))

  -- A packet goes on.
  pub continue :
      (w0 w : World c.State)
      → w.driver ≡ w0.driver
      → sn < 8
      → w0.driver.sock_remained_size sn < 2 ^ 16
      → w0.driver.sock_remained_size sn ≢ 0
      → Safe (RecvResult w0) (deliver c polls sn len none none w)
  continue w0 w same small fits more =
      Meets-mono _ _ _ (deliver c polls sn len none none w) result
        (deliver-Taken none none w small (rw same fits))
    where
      result :
          (r : Received) (w' : World c.State)
          → (Taken
                (w.driver.sock_remained_size sn)
                (w.driver.sock_pack_info sn)
                w.chip
                w'.chip
                r
                w'.driver
              × (r.addr ≡ none)
              × (r.port ≡ none)
              × Others w.driver w'.driver)
          → RecvResult w0 r w'
      result r w' (taken, no_addr, no_port, o) = inr (
          inr (
            w0.driver.sock_remained_size sn,
            w0.driver.sock_pack_info sn,
            w.chip,
            inl (refl, more, refl, no_addr, no_port),
            rw same at taken,
            rw same at o,
          ))

  -- A packet begins: its size is noted first.
  abbrev noted : ℕ → Driver → Driver
  noted size d = record d {
    sock_remained_size = update d.sock_remained_size sn size;
    sock_pack_info = update d.sock_pack_info sn 0x80;
  }

  pub begin :
      (size : ℕ) (addr : Option (List ℕ)) (port : Option ℕ) (w0 w : World c.State)
      → sn < 8
      → size < 2 ^ 16
      → w0.driver.sock_remained_size sn ≡ 0
      → w.driver ≡ noted size w0.driver
      → ((r : Received)
          → r.addr ≡ addr
          → r.port ≡ port
          → Header (get_sn_mr c sn w0.chip).0 size w.chip r)
      → Safe (RecvResult w0) (deliver c polls sn len addr port w)
  begin size addr port w0 w small fits fresh same header =
      Meets-mono _ _ _ (deliver c polls sn len addr port w) result
        (deliver-Taken addr port w small (rw same ground arith))
    where
      sized : w.driver.sock_remained_size sn ≡ size
      sized = rw same ground arith

      first : w.driver.sock_pack_info sn ≡ 0x80
      first = rw same ground arith

      result :
          (r : Received) (w' : World c.State)
          → (Taken
                (w.driver.sock_remained_size sn)
                (w.driver.sock_pack_info sn)
                w.chip
                w'.chip
                r
                w'.driver
              × (r.addr ≡ addr)
              × (r.port ≡ port)
              × Others w.driver w'.driver)
          → RecvResult w0 r w'
      result r w' (taken, is_addr, is_port, o) = inr (
          inr (
            size,
            0x80,
            w.chip,
            inr (fresh, refl, header r is_addr is_port),
            rw (sized, first) at taken,
            others,
          ))
        where
          others : Others w0.driver w'.driver
          others j h ne =
              let a : Agree j w'.driver (noted size w0.driver) = rw same at o j h ne in ground arith
