-- ===== src/Socket/Options/IoMode.antt =====
-- The blocking mode that ctlsocket() sets and gets.
use x_wizchip_io_library_dri.Base.{
  ℕ, zero, suc, ◌/◌, ◌%◌, ◌^◌, ◌<◌, ◌≡◌, ◌≢◌, refl, ◌==◌, bit_and, if◌then◌else◌, none, some, arith,
}
use x_wizchip_io_library_dri.Base.Bits.{
  bit, clear_bit, set_bit, bit-clear_bit, bit-set_bit, bit_and-pow,
}
use x_wizchip_io_library_dri.Chip.{Chip, World, Driver, ◌>>=◌, done}
use x_wizchip_io_library_dri.Chip.Rules.{Returns, Meets}
use x_wizchip_io_library_dri.Socket.Codes.{sock_ok}
use x_wizchip_io_library_dri.Socket.State.{clear_io_mode}
use x_wizchip_io_library_dri.Socket.State.Rules.{socknum_fits}
use x_wizchip_io_library_dri.Socket.Options.{
  cs_set_iomode, cs_get_iomode, num, ctlsocket, set_io_mode,
}

shifted_bit : (k v : ℕ) → k < 8 → v / 2 ^ k % 2 ≡ bit k v
shifted_bit zero v h = omega arith
shifted_bit (suc zero) v h = omega arith
shifted_bit (suc (suc zero)) v h = omega arith
shifted_bit (suc (suc (suc zero))) v h = omega arith
shifted_bit (suc (suc (suc (suc zero)))) v h = omega arith
shifted_bit (suc (suc (suc (suc (suc zero))))) v h = omega arith
shifted_bit (suc (suc (suc (suc (suc (suc zero)))))) v h = omega arith
shifted_bit (suc (suc (suc (suc (suc (suc (suc zero))))))) v h = omega arith
shifted_bit (suc (suc (suc (suc (suc (suc (suc (suc k)))))))) v h = absurd (omega arith)

-- (v >> k) & 1
shifted : (k v : ℕ) → k < 8 → bit_and (v / 2 ^ k) 1 ≡ bit k v
shifted k v h = omega (arith, bit_and-pow 0 (v / 2 ^ k), shifted_bit k v h)

-- The notes with the mode of socket `sn` set or cleared.
abbrev with_mode : ℕ → ℕ → Driver → Driver
with_mode sn zero d = record d { sock_io_mode = clear_bit sn d.sock_io_mode }
with_mode sn (suc mode) d = record d { sock_io_mode = set_bit sn d.sock_io_mode }

bit-with_mode :
    (sn j mode : ℕ) (d : Driver)
    → sn < 8
    → j < 8
    → mode < 2
    → bit j (with_mode sn mode d).sock_io_mode ≡ (if j == sn then mode else bit j d.sock_io_mode)
bit-with_mode sn j zero d h k m =
    ground (arith, bit-clear_bit j sn d.sock_io_mode (omega arith) (omega arith))
bit-with_mode sn j (suc zero) d h k m =
    ground (arith, bit-set_bit j sn d.sock_io_mode (omega arith) (omega arith))
bit-with_mode sn j (suc (suc n)) d h k m = absurd (omega arith)

module _ (c : Chip) (polls sn : ℕ) (small : sn < 8) where
  set_iomode_run :
      (mode : ℕ) (w : World c.State)
      → mode < 2
      → ctlsocket c polls sn cs_set_iomode mode w
        ≡ done (sock_ok, none) (record w { driver = with_mode sn mode w.driver })
  unfolding ctlsocket set_io_mode clear_io_mode
  set_iomode_run zero w h = rw (socknum_fits sn small, ctlsocket) refl
  set_iomode_run (suc zero) w h = rw (socknum_fits sn small, ctlsocket) refl
  set_iomode_run (suc (suc n)) w h = absurd (omega arith)

  get_iomode_run :
      (old : ℕ) (w : World c.State)
      → ctlsocket c polls sn cs_get_iomode old w
        ≡ done (sock_ok, some (num (bit sn w.driver.sock_io_mode))) w
  unfolding ctlsocket
  get_iomode_run old w =
      rw (socknum_fits sn small, ctlsocket) (rw (shifted sn w.driver.sock_io_mode small) refl)

  -- For a socket number below 8 and a mode of 0 or 1, ctlsocket() gives back the mode that it has set;
  -- the chip is not touched, and the modes of the other sockets are as before.
  pub ctlsocket-io_mode :
      (mode old : ℕ) (w : World c.State)
      → mode < 2
      → Returns
          (λ r w'.
            (r ≡ (sock_ok, some (num mode)))
            × (w'.chip ≡ w.chip)
            × ((j : ℕ)
                → j < 8
                → j ≢ sn
                → bit j w'.driver.sock_io_mode ≡ bit j w.driver.sock_io_mode))
          ((ctlsocket c polls sn cs_set_iomode mode >>= λ _. ctlsocket c polls sn cs_get_iomode old)
            w)
  ctlsocket-io_mode mode old w h =
      let v : World c.State = record w { driver = with_mode sn mode w.driver } in
      rw (set_iomode_run mode w h, ◌>>=◌, get_iomode_run old v, Meets)
        (
          (let e : bit sn (with_mode sn mode w.driver).sock_io_mode ≡ mode =
                ground (arith, bit-with_mode sn sn mode w.driver small small h) in
              rw e refl),
          refl,
          λ j k ne. ground (arith, bit-with_mode sn j mode w.driver small k h),
        )
