-- ===== src/Conf/Init/Sizes.antt =====
-- Which buffer sizes wizchip_init() takes, and what it makes of them.
use x_wizchip_io_library_dri.Base.{
  ℕ, zero, suc, ◌+◌, ◌%◌, ◌<◌, ◌≤◌, ◌≡◌, refl, sym, ap, ◌∙◌, leb, ◌==◌, true, false, Option, none,
  some, List, [], ◌∷◌, length, All, arith, Bool-cases, inl, inr, bit_and, ◌⊎◌,
}
use x_wizchip_io_library_dri.Base.Int.{ℤ, pos, negsuc}
use x_wizchip_io_library_dri.Base.Bits.{all_below, all_below_sound}
use x_wizchip_io_library_dri.Chip.{Chip}
use x_wizchip_io_library_dri.W5500.Regs.{sn_reg, sn_txbuf_size, sn_rxbuf_size}
use x_wizchip_io_library_dri.W5500.Common.{set_sn_txbuf_size, set_sn_rxbuf_size}
use x_wizchip_io_library_dri.Conf.Steady.{Steady, is_steady, resets}
use x_wizchip_io_library_dri.Conf.Net.{wizchip_sw_reset}
use x_wizchip_io_library_dri.Conf.Callbacks.{
  Wizchip, wizchip_io_mode_spi, reg_wizchip_spi_cbfunc, reg_wizchip_spiburst_cbfunc,
}
use x_wizchip_io_library_dri.Conf.Init.{
  wizchip_init, sizes_fit, set_tx_sizes, set_rx_sizes, set_tx, set_rx,
}

abbrev pub total : List ℕ → ℕ
total [] = 0
total (x ∷ xs) = x + total xs

abbrev pub IsSmall : ℕ → Type 0
IsSmall size = size < 112

-- Below 112 KB each, the signed byte does not wrap before it is tested.
sizes_fit-total :
    (tmp : ℕ) (sizes : List ℕ)
    → tmp ≤ 16
    → All IsSmall sizes
    → sizes_fit tmp sizes ≡ leb (tmp + total sizes) 16
unfolding sizes_fit
sizes_fit-total tmp [] h small = ground arith
sizes_fit-total tmp (x ∷ xs) h (small, smalls) = elim (Bool-cases (leb (tmp + x) 16)) [
  | inl fits ↦
      let step : (tmp + x) % 256 ≡ tmp + x = ground arith in
      let rest = sizes_fit-total (tmp + x) xs (ground arith) smalls in
      rw step (ground (arith, rest))
  | inr over ↦ ground arith
]

no_reset : (offset i v : ℕ) → 0 < offset → resets (sn_reg offset i) v ≡ false
unfolding sn_reg
no_reset offset i v o = ground arith

other_socket : (offset i j : ℕ) → i < j → (sn_reg offset i == sn_reg offset j) ≡ false
unfolding sn_reg
other_socket offset i j h = ground arith

tx_not_rx : (j k : ℕ) → j < 8 → k < 8 → (sn_txbuf_size j == sn_rxbuf_size k) ≡ false
unfolding sn_reg
tx_not_rx j k h h' = ground arith

rx_not_tx : (j k : ℕ) → j < 8 → k < 8 → (sn_rxbuf_size j == sn_txbuf_size k) ≡ false
unfolding sn_reg
rx_not_tx j k h h' = ground arith

tx_steady : (j : ℕ) → j < 8 → is_steady (sn_txbuf_size j) ≡ true
unfolding is_steady sn_reg all_below
tx_steady j h = all_below_sound 8 (λ j. is_steady (sn_txbuf_size j)) j refl h

rx_steady : (j : ℕ) → j < 8 → is_steady (sn_rxbuf_size j) ≡ true
unfolding is_steady sn_reg all_below
rx_steady j h = all_below_sound 8 (λ j. is_steady (sn_rxbuf_size j)) j refl h

module _ (c : Chip) (st : Steady c) where
  open st use {view}

  -- One write for each size, to the register of each socket.
  abbrev put_all : (ℕ → ℕ) → ℕ → List ℕ → c.State → c.State
  put_all reg i [] s = s
  put_all reg i (x ∷ xs) s = put_all reg (suc i) xs (c.write (reg i) (x % 256) s)

  set_tx_sizes_lem :
      (i : ℕ) (xs : List ℕ) (s : c.State) → set_tx_sizes c i xs s ≡ put_all sn_txbuf_size i xs s
  unfolding set_tx_sizes set_sn_txbuf_size
  set_tx_sizes_lem i [] s = refl
  set_tx_sizes_lem i (x ∷ xs) s = set_tx_sizes_lem (suc i) xs _

  set_rx_sizes_lem :
      (i : ℕ) (xs : List ℕ) (s : c.State) → set_rx_sizes c i xs s ≡ put_all sn_rxbuf_size i xs s
  unfolding set_rx_sizes set_sn_rxbuf_size
  set_rx_sizes_lem i [] s = refl
  set_rx_sizes_lem i (x ∷ xs) s = set_rx_sizes_lem (suc i) xs _

  -- The registers of the sockets from `i` on.
  abbrev pub sizes_from : (ℕ → ℕ) → ℕ → ℕ → c.State → List ℕ
  sizes_from reg i zero s = []
  sizes_from reg i (suc n) s = view (reg i) s ∷ sizes_from reg (suc i) n s

  view-put_all :
      (b offset i : ℕ) (xs : List ℕ) (s : c.State)
      → is_steady b ≡ true
      → 0 < offset
      → ((j : ℕ) → i ≤ j → j < i + length xs → (b == sn_reg offset j) ≡ false)
      → view b (put_all (sn_reg offset) i xs s) ≡ view b s
  view-put_all b offset i [] s e o d = refl
  view-put_all b offset i (x ∷ xs) s e o d =
      view-put_all b offset (suc i) xs _ e o (λ j h k. d j (omega arith) (omega arith))
      ∙ st.view-write_other b (sn_reg offset i) (x % 256) s e (d i (omega arith) (omega arith))
          (no_reset offset i (x % 256) o)

  sizes_from-put_all :
      (offset : ℕ) (i : ℕ) (xs : List ℕ) (s : c.State)
      → 0 < offset
      → ((j : ℕ) → j < 8 → is_steady (sn_reg offset j) ≡ true)
      → i + length xs ≤ 8
      → All IsSmall xs
      → sizes_from (sn_reg offset) i (length xs) (put_all (sn_reg offset) i xs s) ≡ xs
  sizes_from-put_all offset i [] s o e h bytes = refl
  sizes_from-put_all offset i (x ∷ xs) s o e h (byte, bytes) =
      let s1 = c.write (sn_reg offset i) (x % 256) s in
      let here = e i (omega arith) in
      let first : view (sn_reg offset i) (put_all (sn_reg offset) (suc i) xs s1) ≡ x =
        view-put_all (sn_reg offset i) offset (suc i) xs s1 here o
          (λ j k l. other_socket offset i j (omega arith))
        ∙ st.view-write_self (sn_reg offset i) (x % 256) s here (omega arith)
        ∙ omega arith in
      rw (first, sizes_from-put_all offset (suc i) xs s1 o e (omega arith) bytes) refl

  -- A table of registers that another table's writes pass by.
  sizes_from-kept :
      (reg : ℕ → ℕ) (i n : ℕ) (s s' : c.State)
      → ((j : ℕ) → j < i + n → view (reg j) s' ≡ view (reg j) s)
      → sizes_from reg i n s' ≡ sizes_from reg i n s
  sizes_from-kept reg i zero s s' h = refl
  sizes_from-kept reg i (suc n) s s' h =
      rw (h i (omega arith), sizes_from-kept reg (suc i) n s s' (λ j k. h j (omega arith))) refl

  abbrev pub tx_sizes : c.State → List ℕ
  tx_sizes = sizes_from sn_txbuf_size 0 8

  abbrev pub rx_sizes : c.State → List ℕ
  rx_sizes = sizes_from sn_rxbuf_size 0 8

  tx_sizes-set :
      (xs : List ℕ) (s : c.State)
      → length xs ≡ 8
      → All IsSmall xs
      → tx_sizes (set_tx_sizes c 0 xs s) ≡ xs
  tx_sizes-set xs s len small =
      ap tx_sizes (set_tx_sizes_lem 0 xs s)
      ∙ ap (λ n. sizes_from sn_txbuf_size 0 n (put_all sn_txbuf_size 0 xs s)) (sym len)
      ∙ sizes_from-put_all 0x1f 0 xs s (omega arith) tx_steady (omega arith) small

  rx_sizes-set :
      (xs : List ℕ) (s : c.State)
      → length xs ≡ 8
      → All IsSmall xs
      → rx_sizes (set_rx_sizes c 0 xs s) ≡ xs
  rx_sizes-set xs s len small =
      ap rx_sizes (set_rx_sizes_lem 0 xs s)
      ∙ ap (λ n. sizes_from sn_rxbuf_size 0 n (put_all sn_rxbuf_size 0 xs s)) (sym len)
      ∙ sizes_from-put_all 0x1e 0 xs s (omega arith) rx_steady (omega arith) small

  rx_sizes-set_tx :
      (xs : List ℕ) (s : c.State) → length xs ≡ 8 → rx_sizes (set_tx_sizes c 0 xs s) ≡ rx_sizes s
  rx_sizes-set_tx xs s len =
      ap rx_sizes (set_tx_sizes_lem 0 xs s)
      ∙ sizes_from-kept sn_rxbuf_size 0 8 s _ (λ j h.
        view-put_all (sn_rxbuf_size j) 0x1f 0 xs s (rx_steady j (omega arith)) (omega arith)
          (λ k l m. rx_not_tx j k (omega arith) (omega arith)))

  tx_sizes-set_rx :
      (xs : List ℕ) (s : c.State) → length xs ≡ 8 → tx_sizes (set_rx_sizes c 0 xs s) ≡ tx_sizes s
  tx_sizes-set_rx xs s len =
      ap tx_sizes (set_rx_sizes_lem 0 xs s)
      ∙ sizes_from-kept sn_txbuf_size 0 8 s _ (λ j h.
        view-put_all (sn_txbuf_size j) 0x1e 0 xs s (tx_steady j (omega arith)) (omega arith)
          (λ k l m. tx_not_rx j k (omega arith) (omega arith)))

  -- From a state `s` after the reset, to the result and the state `s'`.
  abbrev pub Shared : List ℕ → List ℕ → c.State → ℤ → c.State → Type 0
  Shared tx rx s ret s' =
      ((total tx ≤ 16) × (total rx ≤ 16) × (ret ≡ pos 0) × (tx_sizes s' ≡ tx) × (rx_sizes s' ≡ rx))
      ⊎ (((16 < total tx) × (ret ≡ negsuc 0) × (s' ≡ s))
          ⊎ ((total tx ≤ 16)
              × (16 < total rx)
              × (ret ≡ negsuc 0)
              × (tx_sizes s' ≡ tx)
              × (rx_sizes s' ≡ rx_sizes s)))

  abbrev pub Inits : (ℤ → c.State → Type 0) → Option (ℤ × (Wizchip × c.State)) → Type 0
  Inits P none = ⊥
  Inits P (some (ret, (w, s))) = P ret s

  set_tx-Shared :
      (tx rx : List ℕ) (s : c.State)
      → (length tx ≡ 8) × All IsSmall tx
      → (length rx ≡ 8) × All IsSmall rx
      → (let r = set_tx c (some tx) (some rx) s in Shared tx rx s r.0 r.1)
  unfolding set_tx set_rx
  set_tx-Shared tx rx s (lt, bt) (lr, br) =
      let fit = sizes_fit-total 0 tx (omega arith) bt in
      let fit' = sizes_fit-total 0 rx (omega arith) br in
      let s1 = set_tx_sizes c 0 tx s in
      elim (Bool-cases (sizes_fit 0 tx)) [
        | inr e ↦ rw e (inr (inl (ground arith, refl, refl)))
        | inl e ↦ elim (Bool-cases (sizes_fit 0 rx)) [
          | inl e' ↦
              let kept = tx_sizes-set_rx rx s1 lr ∙ tx_sizes-set tx s lt bt in
              let set = rx_sizes-set rx s1 lr br in
              rw (e, e') (inl (ground arith, ground arith, refl, kept, set))
          | inr e' ↦
              let set = tx_sizes-set tx s lt bt in
              let kept = rx_sizes-set_tx tx s lt in
              rw (e, e') (inr (inr (ground arith, ground arith, refl, set, kept)))
        ]
      ]

  -- With two tables of sizes below 112, 8 each, on a chip whose registers keep what was written and with
  -- the interface in an SPI mode, wizchip_init() ends: if each table adds up to 16 KB at most, it returns
  -- 0 and every socket has its sizes; if the transmit sizes do not, it returns -1 and the chip is as after
  -- the reset; if only the receive sizes do not, it returns -1, the transmit sizes are set and the receive
  -- sizes are those after the reset.
  pub wizchip_init-Shared :
      (tx rx : List ℕ) (w : Wizchip) (s : c.State)
      → (bit_and w.if_mode wizchip_io_mode_spi == 0) ≡ false
      → (length tx ≡ 8) × All IsSmall tx
      → (length rx ≡ 8) × All IsSmall rx
      → Inits (Shared tx rx (wizchip_sw_reset c s)) (wizchip_init c (some tx) (some rx) (w, s))
  unfolding wizchip_init reg_wizchip_spi_cbfunc reg_wizchip_spiburst_cbfunc
  wizchip_init-Shared tx rx w s spi ok ok' =
      rw (spi, Inits)
        (rw (spi, reg_wizchip_spiburst_cbfunc, Inits)
          (set_tx-Shared tx rx (wizchip_sw_reset c s) ok ok'))
