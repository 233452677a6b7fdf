-- ===== src/W5500/Spi/Frames.antt =====
-- The frame of an access, the same whether the user registered burst functions or not.
use x_wizchip_io_library_dri.Base.{
  ℕ, ◌≡◌, refl, zero, suc, length, All, ap, Option, none, some, List, [], ◌∷◌, ◌++◌, bit_or, inl,
  inr, Option-cases, arith,
}
use x_wizchip_io_library_dri.Chip.{Chip, IsByte}
use x_wizchip_io_library_dri.W5500.Spi.{
  SpiBus, both, write_each, read_each, begin, finish, spi_header, w5500_spi_read, w5500_spi_write,
  w5500_spi_vdm_op, wizchip_read, wizchip_write, wizchip_read_buf, wizchip_write_buf,
}
use x_wizchip_io_library_dri.W5500.Spi.Device.{Bursts}

both-some :
    {A B : Type 0} (o : Option A) (q : Option B)
    → (p : A × B) → both o q ≡ some p
    → (o ≡ some p.0) × (q ≡ some p.1)
both-some none q p e = ground arith
both-some (some a) none p e = ground arith
both-some (some a) (some b) p e = ground arith

module _ (b : SpiBus) (bursts : Bursts b) where
  write_each-append :
      (xs ys : List ℕ) (s : b.State)
      → write_each b (xs ++ ys) s ≡ write_each b ys (write_each b xs s)
  unfolding write_each
  write_each-append [] ys s = refl
  write_each-append (x ∷ xs) ys s = write_each-append xs ys (b.write_byte x s)

  abbrev pub read_frame : ℕ → ℕ → b.State → List ℕ × b.State
  read_frame addr n s =
      let r = read_each b n (
        write_each b (spi_header (bit_or addr (bit_or w5500_spi_read w5500_spi_vdm_op)))
          (begin b s)) in
      (r.0, finish b r.1)

  abbrev pub write_frame : ℕ → List ℕ → b.State → b.State
  write_frame addr xs s = finish b (
      write_each b xs (
        write_each b (spi_header (bit_or addr (bit_or w5500_spi_write w5500_spi_vdm_op)))
          (begin b s)))

  pub wizchip_write_buf_frame :
      (addr : ℕ) (xs : List ℕ) (s : b.State) → wizchip_write_buf b addr xs s ≡ write_frame addr xs s
  unfolding wizchip_write_buf
  wizchip_write_buf_frame addr xs s = elim (Option-cases b.write_burst) [
    | inl e ↦ simp e
    | inr (wb, e) ↦ simp (e, bursts.write_burst-write_each wb e)
  ]

  pub wizchip_read_buf_frame :
      (addr n : ℕ) (s : b.State) → wizchip_read_buf b addr n s ≡ read_frame addr n s
  unfolding wizchip_read_buf
  wizchip_read_buf_frame addr n s = elim (Option-cases (both b.read_burst b.write_burst)) [
    | inl e ↦ rw e refl
    | inr ((rb, wb), e) ↦
        let es = both-some b.read_burst b.write_burst (rb, wb) e in
        rw (e, bursts.write_burst-write_each wb es.1, bursts.read_burst-read_each rb es.0) refl
  ]

  pub wizchip_write_frame :
      (addr v : ℕ) (s : b.State) → wizchip_write b addr v s ≡ write_frame addr (v ∷ []) s
  unfolding wizchip_write write_each
  wizchip_write_frame addr v s = elim (Option-cases b.write_burst) [
    | inl e ↦ rw e refl
    | inr (wb, e) ↦ rw (e, bursts.write_burst-write_each wb e, write_each-append) refl
  ]

  -- A single read is a frame of one byte.
  pub wizchip_read_frame :
      (addr : ℕ) (s : b.State)
      → ((wizchip_read b addr s).0 ∷ [] ≡ (read_frame addr 1 s).0)
        × ((wizchip_read b addr s).1 ≡ (read_frame addr 1 s).1)
  unfolding wizchip_read read_each
  wizchip_read_frame addr s = elim (Option-cases (both b.read_burst b.write_burst)) [
    | inl e ↦ rw e (refl, refl)
    | inr ((rb, wb), e) ↦
        let es = both-some b.read_burst b.write_burst (rb, wb) e in
        rw (e, bursts.write_burst-write_each wb es.1) (refl, refl)
  ]

  pub length-read_each : (n : ℕ) (s : b.State) → length (read_each b n s).0 ≡ n
  unfolding read_each
  length-read_each zero s = refl
  length-read_each (suc n) s = ap suc (length-read_each n (b.read_byte s).1)

  pub read_each-IsByte :
      ((s : b.State) → IsByte (b.read_byte s).0)
      → (n : ℕ) (s : b.State) → All IsByte (read_each b n s).0
  unfolding read_each
  read_each-IsByte h zero s = tt
  read_each-IsByte h (suc n) s = (h s, read_each-IsByte h n (b.read_byte s).1)

  pub wizchip_read-IsByte :
      ((s : b.State) → IsByte (b.read_byte s).0)
      → (addr : ℕ) (s : b.State) → IsByte (wizchip_read b addr s).0
  unfolding wizchip_read
  wizchip_read-IsByte h addr s = h _

  -- The chip of the other modules, over this bus.
  abbrev pub spi_chip : ((s : b.State) → IsByte (b.read_byte s).0) → Chip
  spi_chip h = record {
    State = b.State;
    read = wizchip_read b;
    write = wizchip_write b;
    read_buf = wizchip_read_buf b;
    write_buf = wizchip_write_buf b;
    read-IsByte = wizchip_read-IsByte h;
    length-read_buf = λ a n s. rw (wizchip_read_buf_frame a n s) (length-read_each n _);
    read_buf-IsByte = λ a n s. rw (wizchip_read_buf_frame a n s) (read_each-IsByte h n _);
  }
