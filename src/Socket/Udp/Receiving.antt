-- ===== src/Socket/Udp/Receiving.antt =====
-- What recvfrom() does, in each of its modes.
use x_wizchip_io_library_dri.Base.{
  ℕ, zero, suc, ◌+◌, ◌*◌, ◌^◌, ◌<◌, ◌≡◌, refl, inl, inr, ◌==◌, bit_and, not, arith, Bool, true,
  false, ◌||◌, List, [], ◌∷◌, All, get_or,
}
use x_wizchip_io_library_dri.Base.Bits.{all_below, all_below_sound}
use x_wizchip_io_library_dri.Chip.{Chip, World, IsByte, pure}
use x_wizchip_io_library_dri.Chip.Rules.{Safe, Meets->>=, Meets-mono}
use x_wizchip_io_library_dri.W5500.Regs.{get_sn_mr}
use x_wizchip_io_library_dri.W5500.Buffers.Sizes.{get_sn_mr-IsByte}
use x_wizchip_io_library_dri.Socket.Codes.{sockfatal_packlen, mr_udp, mr_macraw, mr_ipraw}
use x_wizchip_io_library_dri.Socket.State.{is_nonblock}
use x_wizchip_io_library_dri.Socket.State.Rules.{
  socknum_fits, branch_then, polling_then, get_remained_then, set_remained_then, set_pack_info_then,
}
use x_wizchip_io_library_dri.Socket.Open.{close}
use x_wizchip_io_library_dri.Socket.Open.Closing.{forget-Agree, close-Closed}
use x_wizchip_io_library_dri.Socket.Tcp.{Waited, ready, would_block, broken}
use x_wizchip_io_library_dri.Socket.Udp.{
  Received, nothing, is_datagram_mode, recvfrom, recvfrom_mode, recvfrom_after, recvfrom_udp,
  recvfrom_macraw, recvfrom_ipraw, recvfrom_wait,
}
use x_wizchip_io_library_dri.Socket.Udp.Accounting.{read_head_then, begin, continue, RecvResult}

get_or-IsByte : (xs : List ℕ) (i : ℕ) → All IsByte xs → get_or xs i 0 < 256
get_or-IsByte [] i h = omega arith
get_or-IsByte (x ∷ xs) zero h = h.0
get_or-IsByte (x ∷ xs) (suc i) h = get_or-IsByte xs i h.1

-- The switch on three bits of the mode has a case for each of the modes that the call accepts.
unfoldable mode_test : ℕ → Bool
mode_test mr =
    not (is_datagram_mode mr)
    || (bit_and mr 0x07 == mr_udp)
    || (bit_and mr 0x07 == mr_macraw)
    || (bit_and mr 0x07 == mr_ipraw)

mode_table : all_below 256 mode_test ≡ true
unfolding all_below mode_test
mode_table = refl

has_case :
    (mr : ℕ)
    → IsByte mr
    → not (is_datagram_mode mr) ≡ false
    → bit_and mr 0x07 == mr_udp ≡ false
    → bit_and mr 0x07 == mr_macraw ≡ false
    → bit_and mr 0x07 == mr_ipraw ≡ false
    → ⊥
unfolding mode_test
has_case mr h a u m i =
    let t : mode_test mr ≡ true = all_below_sound 256 mode_test mr mode_table h in
    absurd (ground arith)

module _ (c : Chip) (polls sn len : ℕ) (small : sn < 8) (w0 : World c.State) where
  abbrev P : Received → World c.State → Type 0
  P = RecvResult c polls sn len w0

  abbrev mr0 : ℕ
  mr0 = (get_sn_mr c sn w0.chip).0

  udp :
      (w : World c.State)
      → w.driver ≡ w0.driver
      → w0.driver.sock_remained_size sn < 2 ^ 16
      → bit_and mr0 7 ≡ 2
      → Safe P (recvfrom_udp c polls sn len w)
  unfolding recvfrom_udp
  udp w same fits is_udp = get_remained_then _ P sn _ w small (
      branch_then _ P _ _ _ w
        (λ fresh. read_head_then c polls sn len P 8 _ w λ head t eight bytes read.
          set_remained_then _ P sn _ _ _ small (
            set_pack_info_then _ P sn _ _ _ small (
              begin c polls sn len (get_or head 6 0 * 256 + get_or head 7 0) _ _ w0 _ small
                (omega (arith, get_or-IsByte head 6 bytes, get_or-IsByte head 7 bytes))
                (let was_fresh = rw same at fresh in ground arith) (rw same refl)
                λ r a p. (head, bytes, inl (is_udp, read, refl, a, p)))))
        λ more.
          continue c polls sn len w0 w same small fits
            (let goes_on = rw same at more in ground arith))

  macraw :
      (w : World c.State)
      → w.driver ≡ w0.driver
      → w0.driver.sock_remained_size sn < 2 ^ 16
      → bit_and mr0 7 ≡ 4
      → Safe P (recvfrom_macraw c polls sn len w)
  unfolding recvfrom_macraw
  macraw w same fits is_macraw = get_remained_then _ P sn _ w small (
      branch_then _ P _ _ _ w
        (λ fresh. read_head_then c polls sn len P 2 _ w λ head t two bytes read.
          set_remained_then _ P sn _ _ _ small (
            branch_then _ P _ _ _ _
              (λ large.
                Meets->>= _ P (close c polls sn) (λ _. pure (nothing sockfatal_packlen)) _
                  (Meets-mono _ _ _ (close c polls sn _)
                    (λ r v closed. inl (
                      refl,
                      refl,
                      λ j h ne.
                          rw (closed.1, same)
                            (ground (arith, forget-Agree sn j w0.driver small h ne)),
                    ))
                    (close-Closed c polls sn _ small)))
              λ fine. set_pack_info_then _ P sn _ _ _ small (
                begin c polls sn len _ _ _ w0 _ small (omega arith)
                  (let was_fresh = rw same at fresh in ground arith) (rw same refl)
                  λ r a p. (head, bytes, inr (inl (is_macraw, read, refl, ground arith, a, p))))))
        λ more.
          continue c polls sn len w0 w same small fits
            (let goes_on = rw same at more in ground arith))

  ipraw :
      (w : World c.State)
      → w.driver ≡ w0.driver
      → w0.driver.sock_remained_size sn < 2 ^ 16
      → bit_and mr0 7 ≡ 3
      → Safe P (recvfrom_ipraw c polls sn len w)
  unfolding recvfrom_ipraw
  ipraw w same fits is_ipraw = get_remained_then _ P sn _ w small (
      branch_then _ P _ _ _ w
        (λ fresh. read_head_then c polls sn len P 6 _ w λ head t six bytes read.
          set_remained_then _ P sn _ _ _ small (
            set_pack_info_then _ P sn _ _ _ small (
              begin c polls sn len (get_or head 4 0 * 256 + get_or head 5 0) _ _ w0 _ small
                (omega (arith, get_or-IsByte head 4 bytes, get_or-IsByte head 5 bytes))
                (let was_fresh = rw same at fresh in ground arith) (rw same refl)
                λ r a p. (head, bytes, inr (inr (is_ipraw, read, refl, a, p))))))
        λ more.
          continue c polls sn len w0 w same small fits
            (let goes_on = rw same at more in ground arith))

  mode :
      (pack_len : ℕ) (w : World c.State)
      → w.driver ≡ w0.driver
      → not (is_datagram_mode mr0) ≡ false
      → w0.driver.sock_remained_size sn < 2 ^ 16
      → Safe P (recvfrom_mode c polls sn mr0 len pack_len w)
  unfolding recvfrom_mode
  mode pack_len w same accepted fits =
      branch_then _ P _ _ _ w (λ is_udp. udp w same fits (ground arith))
        λ not_udp.
          branch_then _ P _ _ _ w (λ is_macraw. macraw w same fits (ground arith))
            λ not_macraw.
              branch_then _ P _ _ _ w (λ is_ipraw. ipraw w same fits (ground arith))
                λ not_ipraw. absurd (
                  has_case mr0 (get_sn_mr-IsByte c sn w0.chip) accepted not_udp not_macraw
                    not_ipraw)

  after :
      (arrived : Waited) (w : World c.State)
      → w.driver ≡ w0.driver
      → not (is_datagram_mode mr0) ≡ false
      → w0.driver.sock_remained_size sn < 2 ^ 16
      → Safe P (recvfrom_after c polls sn mr0 len arrived w)
  unfolding recvfrom_after
  after broken w same accepted fits = inl (refl, refl, λ j h ne. rw same (ground arith))
  after would_block w same accepted fits = inr (inl ((refl, refl), same))
  after (ready pack_len) w same accepted fits = mode pack_len w same accepted fits

  pub recvfrom-RecvResult :
      w0.driver.sock_remained_size sn < 2 ^ 16 → Safe P (recvfrom c polls sn len w0)
  unfolding recvfrom
  recvfrom-RecvResult fits =
      branch_then _ P _ _ _ w0 (λ e. absurd (ground (arith, socknum_fits sn small)))
        λ _.
          branch_then _ P _ _ _ _ (λ _. inl (refl, refl, λ j h ne. ground arith))
            λ accepted.
              branch_then _ P _ _ _ _ (λ _. inl (refl, refl, λ j h ne. ground arith))
                λ _. get_remained_then _ P sn _ _ small (
                  branch_then _ P _ _ _ _
                    (λ _.
                      polling_then P (recvfrom_wait c polls polls sn (is_nonblock sn w0.driver)) _ _
                        λ arrived t _. after arrived (record w0 { chip = t }) refl accepted fits)
                    λ _. mode 0 _ refl accepted fits)
