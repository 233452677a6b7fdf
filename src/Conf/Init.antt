-- ===== src/Conf/Init.antt =====
-- wizchip_conf.c: wizchip_init(), which shares out the buffer memory.
pub mod Sizes
use x_wizchip_io_library_dri.Base.{
  ℕ, zero, suc, ◌+◌, ◌%◌, ltb, ◌==◌, if◌then◌else◌, ◌&&◌, Bool, true, false, Option, none, some,
  List, [], ◌∷◌,
}
use x_wizchip_io_library_dri.Base.Int.{ℤ, pos, negsuc}
use x_wizchip_io_library_dri.Chip.{Chip}
use x_wizchip_io_library_dri.W5500.Common.{set_sn_rxbuf_size, set_sn_txbuf_size}
use x_wizchip_io_library_dri.Conf.Net.{wizchip_sw_reset}
use x_wizchip_io_library_dri.Conf.Callbacks.{
  Callback, Wizchip, wizchip_spi_readbyte, wizchip_spi_writebyte, wizchip_spi_readburst,
  wizchip_spi_writeburst, reg_wizchip_spi_cbfunc, reg_wizchip_spiburst_cbfunc,
}

-- `tmp` is an int8_t, here the byte that holds it: `tmp > 16` is false of a negative one. False is the
-- return of -1.
unfoldable pub sizes_fit : ℕ → List ℕ → Bool
sizes_fit tmp [] = true
sizes_fit tmp (size ∷ sizes) =
    let tmp' = (tmp + size) % 256 in
    let rest = sizes_fit tmp' sizes in if ltb 16 tmp' && ltb tmp' 128 then false else rest

module _ (c : Chip) where
  open c use {State}

  -- The loops that set the registers, from socket `i` on.
  unfoldable pub set_tx_sizes : ℕ → List ℕ → State → State
  set_tx_sizes i [] s = s
  set_tx_sizes i (size ∷ sizes) s = set_tx_sizes (suc i) sizes (set_sn_txbuf_size c i size s)

  unfoldable pub set_rx_sizes : ℕ → List ℕ → State → State
  set_rx_sizes i [] s = s
  set_rx_sizes i (size ∷ sizes) s = set_rx_sizes (suc i) sizes (set_sn_rxbuf_size c i size s)

  -- A null pointer is `none`; an array has 8 entries.
  unfoldable pub set_rx : Option (List ℕ) → State → ℤ × State
  set_rx none s = (pos 0, s)
  set_rx (some sizes) s =
      if sizes_fit 0 sizes then (pos 0, set_rx_sizes 0 sizes s) else (negsuc 0, s)

  unfoldable pub set_tx : Option (List ℕ) → Option (List ℕ) → State → ℤ × State
  set_tx none rx s = set_rx rx s
  set_tx (some sizes) rx s =
      if sizes_fit 0 sizes then set_rx rx (set_tx_sizes 0 sizes s) else (negsuc 0, s)

  -- `none`: the registration of the SPI functions does not end.
  unfoldable pub wizchip_init :
      Option (List ℕ) → Option (List ℕ) → Wizchip × State → Option (ℤ × (Wizchip × State))
  wizchip_init tx rx (w, s) =
      elim (reg_wizchip_spi_cbfunc (some wizchip_spi_readbyte) (some wizchip_spi_writebyte) w) [
        | none ↦ none
        | some w1 ↦
            elim (reg_wizchip_spiburst_cbfunc (some wizchip_spi_readburst)
              (some wizchip_spi_writeburst) w1) [
                | none ↦ none
                | some w2 ↦
                    let (ret, s1) = set_tx tx rx (wizchip_sw_reset c s) in some (ret, (w2, s1))
              ]
      ]
