-- ===== src/Conf/Interrupts/Masks.antt =====
-- The interrupt masks and the timeouts in their registers.
use x_wizchip_io_library_dri.Base.{ℕ, ◌+◌, ◌/◌, ◌%◌, ◌<◌, ◌≡◌, refl, sym, ◌∙◌, arith}
use x_wizchip_io_library_dri.Chip.{Chip}
use x_wizchip_io_library_dri.W5500.Regs.{read16, write16}
use x_wizchip_io_library_dri.W5500.Common.{
  imr, simr, set_imr, get_imr, set_simr, get_simr, rcr, rtr, set_rcr, get_rcr, set_rtr, get_rtr,
}
use x_wizchip_io_library_dri.Conf.{WizNetTimeout}
use x_wizchip_io_library_dri.Conf.Steady.{Steady, is_steady}
use x_wizchip_io_library_dri.Conf.Steady.Ranges.{read16_view, read16-write16, view-write16}
use x_wizchip_io_library_dri.Conf.Interrupts.{wizchip_setinterruptmask, wizchip_getinterruptmask}
use x_wizchip_io_library_dri.Conf.Net.{wizchip_settimeout, wizchip_gettimeout}

module _ (c : Chip) (st : Steady c) where
  open st use {view}

  -- On a chip whose registers keep what was written, wizchip_getinterruptmask() gives the 16 bits that
  -- wizchip_setinterruptmask() was given, those of the sockets and those of the chip.
  pub wizchip_getinterruptmask-set :
      (intr : ℕ) (s : c.State)
      → intr < 65536
      → (wizchip_getinterruptmask c (wizchip_setinterruptmask c intr s)).0 ≡ intr
  unfolding wizchip_getinterruptmask wizchip_setinterruptmask set_imr get_imr set_simr get_simr
      is_steady
  wizchip_getinterruptmask-set intr s small =
      let low = intr % 256 % 256 in
      let high = intr % 65536 / 256 % 256 in
      let s1 = c.write imr low s in
      let s2 = c.write simr high s1 in
      let e : (c.read imr s2).0 ≡ low =
        st.read-view imr s2 refl
        ∙ st.view-write_other imr simr high s1 refl refl refl
        ∙ st.view-write_self imr low s refl (omega arith) in
      let e1 : (c.read simr (c.read imr s2).1).0 ≡ high =
        st.read-view simr (c.read imr s2).1 refl
        ∙ st.view-read simr imr s2 refl
        ∙ st.view-write_self simr high s1 refl (omega arith) in
      omega (arith, e, e1)

  -- On a chip whose registers keep what was written, wizchip_gettimeout() gives the retry count and
  -- the time that wizchip_settimeout() was given, of 8 and 16 bits.
  pub wizchip_gettimeout-set :
      (t : WizNetTimeout) (s : c.State)
      → t.retry_cnt < 256
      → t.time_100us < 65536
      → (wizchip_gettimeout c (wizchip_settimeout c t s)).0 ≡ t
  unfolding wizchip_gettimeout wizchip_settimeout set_rcr get_rcr set_rtr get_rtr is_steady
  wizchip_gettimeout-set t s small small' =
      let s1 = c.write rcr (t.retry_cnt % 256) s in
      let s2 = write16 c rtr t.time_100us s1 in
      let e : (c.read rcr s2).0 ≡ t.retry_cnt =
        st.read-view rcr s2 refl
        ∙ view-write16 c st rcr rtr t.time_100us s1 refl refl refl refl
        ∙ st.view-write_self rcr (t.retry_cnt % 256) s refl (omega arith)
        ∙ omega arith in
      let e1 : (read16 c rtr (c.read rcr s2).1).0 ≡ t.time_100us =
        read16_view c st rtr (c.read rcr s2).1 refl
        ∙ rw
            (
              st.view-read rtr rcr s2 refl,
              st.view-read (rtr + 256) rcr s2 refl,
              sym (read16_view c st rtr s2 refl),
            )
            (read16-write16 c st rtr t.time_100us s1 refl refl small') in
      λ i. record { retry_cnt = e i; time_100us = e1 i }
