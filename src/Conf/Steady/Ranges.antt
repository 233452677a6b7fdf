-- ===== src/Conf/Steady/Ranges.antt =====
-- Runs of steady registers, and the registers of 16 bits.
use x_wizchip_io_library_dri.Base.{
  ℕ, zero, suc, ◌+◌, ◌*◌, ◌/◌, ◌%◌, ◌<◌, ◌≡◌, refl, ap, ◌∙◌, ◌==◌, leb, ◌&&◌, Bool, true, false,
  List, [], ◌∷◌, length, All, arith, take,
}
use x_wizchip_io_library_dri.Chip.{Chip, IsByte}
use x_wizchip_io_library_dri.W5500.Regs.{read16, write16}
use x_wizchip_io_library_dri.Conf.Steady.{Steady, is_steady, steady_range, outside, views}

-- No register of the `n` from `b` on is one of the `k` from `a` on.
abbrev pub apart : ℕ → ℕ → ℕ → ℕ → Bool
apart b zero a k = true
apart b (suc n) a k = outside b a k && apart (b + 256) n a k

pub take_all : (n : ℕ) (xs : List ℕ) → length xs ≡ n → take n xs ≡ xs
take_all zero [] e = refl
take_all zero (x ∷ xs) e = absurd (omega arith)
take_all (suc n) [] e = refl
take_all (suc n) (x ∷ xs) e = ap (λ ys. x ∷ ys) (take_all n xs (omega arith))

-- The first of a run, and the others.
run_head : (b : ℕ) (n : ℕ) → steady_range b (suc n) ≡ true → is_steady b ≡ true
run_head b n e = ground arith

run_tail : (b : ℕ) (n : ℕ) → steady_range b (suc n) ≡ true → steady_range (b + 256) n ≡ true
run_tail b n e = ground arith

apart_head : (b n a k : ℕ) → apart b (suc n) a k ≡ true → outside b a k ≡ true
apart_head b n a k e = ground arith

apart_tail : (b n a k : ℕ) → apart b (suc n) a k ≡ true → apart (b + 256) n a k ≡ true
apart_tail b n a k e = ground arith

module _ (c : Chip) (st : Steady c) where
  open st use {view}

  pub views-read_buf :
      (b n a k : ℕ) (s : c.State)
      → steady_range b n ≡ true
      → views view b n (c.read_buf a k s).1 ≡ views view b n s
  views-read_buf b zero a k s e = refl
  views-read_buf b (suc n) a k s e =
      rw
        (
          st.view-read_buf b a k s (run_head b n e),
          views-read_buf (b + 256) n a k s (run_tail b n e),
        )
        refl

  pub views-write_buf_other :
      (b n a : ℕ) (xs : List ℕ) (k : ℕ) (s : c.State)
      → length xs ≡ k
      → steady_range b n ≡ true
      → apart b n a k ≡ true
      → leb 256 a ≡ true
      → views view b n (c.write_buf a xs s) ≡ views view b n s
  views-write_buf_other b zero a xs k s len e d h = refl
  views-write_buf_other b (suc n) a xs k s len e d h =
      rw
        (
          st.view-write_buf_other b a xs s (run_head b n e) (rw len (apart_head b n a k d)) h,
          views-write_buf_other (b + 256) n a xs k s len (run_tail b n e) (apart_tail b n a k d) h,
        )
        refl

  pub views-write_buf :
      (a n : ℕ) (xs : List ℕ) (s : c.State)
      → length xs ≡ n
      → steady_range a n ≡ true
      → All IsByte xs
      → views view a n (c.write_buf a xs s) ≡ xs
  views-write_buf a n xs s len e bytes = rw⁻¹ len (st.views-write_buf_self a xs s (rw len e) bytes)

  pub length-views : (a n : ℕ) (s : c.State) → length (views view a n s) ≡ n
  length-views a zero s = refl
  length-views a (suc n) s = ap suc (length-views (a + 256) n s)

  pub views-IsByte :
      (a n : ℕ) (s : c.State) → steady_range a n ≡ true → All IsByte (views view a n s)
  views-IsByte a n s e = rw⁻¹ (st.read_buf-views a n s e) (c.read_buf-IsByte a n s)

  -- A register of 16 bits.
  pub read16_view :
      (a : ℕ) (s : c.State)
      → steady_range a 2 ≡ true
      → (read16 c a s).0 ≡ view a s * 256 + view (a + 256) s
  unfolding read16
  read16_view a s e =
      let next = run_head (a + 256) 0 (run_tail a 1 e) in
      rw
        (
          st.read-view a s (run_head a 1 e),
          st.read-view (a + 256) (c.read a s).1 next,
          st.view-read (a + 256) a s next,
        )
        refl

  pub view-read16 :
      (b a : ℕ) (s : c.State) → is_steady b ≡ true → view b (read16 c a s).1 ≡ view b s
  unfolding read16
  view-read16 b a s e = st.view-read b (a + 256) _ e ∙ st.view-read b a s e

  pub read16-write16 :
      (a v : ℕ) (s : c.State)
      → steady_range a 2 ≡ true
      → leb 256 a ≡ true
      → v < 65536
      → (read16 c a (write16 c a v s)).0 ≡ v
  unfolding write16
  read16-write16 a v s e h small =
      let here = run_head a 1 e in
      let next = run_head (a + 256) 0 (run_tail a 1 e) in
      let high = st.view-write_self a (v / 256 % 256) s here (omega arith) in
      let kept =
        st.view-write_other a (a + 256) (v % 256) (c.write a (v / 256 % 256) s) here (ground arith)
          (ground arith) in
      let low =
        st.view-write_self (a + 256) (v % 256) (c.write a (v / 256 % 256) s) next (omega arith) in
      rw (read16_view a _ e, kept, high, low) (omega arith)

  pub view-write16 :
      (b a v : ℕ) (s : c.State)
      → is_steady b ≡ true
      → (b == a) ≡ false
      → (b == a + 256) ≡ false
      → leb 256 a ≡ true
      → view b (write16 c a v s) ≡ view b s
  unfolding write16
  view-write16 b a v s e d d' h =
      st.view-write_other b (a + 256) (v % 256) _ e d' (ground arith)
      ∙ st.view-write_other b a (v / 256 % 256) s e d (ground arith)
