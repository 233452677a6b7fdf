-- ===== src/Dhcp/Init/Addresses.antt =====
-- What the chip holds after DHCP_init() and after the handler of a changed address.
use x_wizchip_io_library_dri.Base.{ℕ, ◌≡◌, refl, sym, ◌∙◌, ◌==◌, Bool-cases, inl, inr, false, arith}
use x_wizchip_io_library_dri.Chip.{Chip}
use x_wizchip_io_library_dri.W5500.Regs.{sipr}
use x_wizchip_io_library_dri.W5500.Common.{
  shar, gar, subr, get_shar, set_shar, set_gar, set_subr, set_sipr, set_mr, get_mr,
}
use x_wizchip_io_library_dri.Conf.Steady.{Steady, is_steady, views}
use x_wizchip_io_library_dri.Conf.Steady.Ranges.{
  views-write_buf, views-write_buf_other, views-read_buf, take_all,
}
use x_wizchip_io_library_dri.Conf.Net.Kept.{Bytes, host}
use x_wizchip_io_library_dri.Dhcp.State.{Dhcp, zero_ip}
use x_wizchip_io_library_dri.Dhcp.Init.{
  dhcp_init, init_dhcp, any_of, temporary_mac, default_ip_assign, default_ip_update,
}

module _ (c : Chip) (st : Steady c) where
  open st use {view}

  -- On a chip whose registers keep what was written: default_ip_update() resets the chip and leaves it
  -- with the client's hardware address and with the gateway, subnet mask and address of the lease.
  pub default_ip_update-host :
      (d : Dhcp) (s : c.State)
      → Bytes 6 d.chaddr
      → Bytes 4 d.allocated_ip
      → Bytes 4 d.learned.allocated_sn
      → Bytes 4 d.learned.allocated_gw
      → host c st (default_ip_update c d s)
        ≡ (d.chaddr, d.learned.allocated_gw, d.learned.allocated_sn, d.allocated_ip)
  unfolding default_ip_update default_ip_assign set_shar set_gar set_subr set_sipr is_steady
  default_ip_update-host d s (lm, bm) (li, bi) (ls, bs) (lg, bg) =
      let mac = d.chaddr in
      let gw = d.learned.allocated_gw in
      let sn = d.learned.allocated_sn in
      let ip = d.allocated_ip in
      let s1 = (get_mr c (set_mr c 0x80 s)).1 in
      let s2 = c.write_buf sipr ip s1 in
      let s3 = c.write_buf subr sn s2 in
      let s4 = c.write_buf gar gw s3 in
      rw
        (
          take_all 6 mac lm,
          take_all 4 gw lg,
          take_all 4 sn ls,
          take_all 4 ip li,
          views-write_buf c st shar 6 mac s4 lm refl bm,
          views-write_buf_other c st gar 4 shar mac 6 s4 lm refl refl refl,
          views-write_buf c st gar 4 gw s3 lg refl bg,
          views-write_buf_other c st subr 4 shar mac 6 s4 lm refl refl refl,
          views-write_buf_other c st subr 4 gar gw 4 s3 lg refl refl refl,
          views-write_buf c st subr 4 sn s2 ls refl bs,
          views-write_buf_other c st sipr 4 shar mac 6 s4 lm refl refl refl,
          views-write_buf_other c st sipr 4 gar gw 4 s3 lg refl refl refl,
          views-write_buf_other c st sipr 4 subr sn 4 s2 ls refl refl refl,
          views-write_buf c st sipr 4 ip s1 li refl bi,
          set_shar,
          set_gar,
          set_subr,
          set_sipr,
        )
        refl

  -- The addresses cleared, behind a state that holds a hardware address.
  cleared :
      (s : c.State)
      → host c st (set_gar c zero_ip (set_sipr c zero_ip s))
        ≡ (views view shar 6 s, zero_ip, views view subr 4 s, zero_ip)
  unfolding set_gar set_sipr is_steady
  cleared s =
      let s1 = c.write_buf sipr zero_ip s in
      rw
        (
          views-write_buf_other c st shar 6 gar zero_ip 4 s1 refl refl refl refl,
          views-write_buf_other c st shar 6 sipr zero_ip 4 s refl refl refl refl,
          views-write_buf c st gar 4 zero_ip s1 refl refl (ground arith),
          views-write_buf_other c st subr 4 gar zero_ip 4 s1 refl refl refl refl,
          views-write_buf_other c st subr 4 sipr zero_ip 4 s refl refl refl refl,
          views-write_buf_other c st sipr 4 gar zero_ip 4 s1 refl refl refl refl,
          views-write_buf c st sipr 4 zero_ip s refl refl (ground arith),
          set_gar,
          set_sipr,
        )
        refl

  -- On a chip whose registers keep what was written: after DHCP_init() the hardware address of the
  -- client is the chip's, and not zero; the chip's gateway and IP addresses are zero and its subnet mask
  -- is as before.
  pub dhcp_init-host :
      (socket : ℕ) (d : Dhcp) (s : c.State)
      → (let r = dhcp_init c socket (d, s) in
          (host c st r.1 ≡ (r.0.chaddr, zero_ip, views view subr 4 s, zero_ip))
          × ((any_of r.0.chaddr == 0) ≡ false))
  unfolding dhcp_init init_dhcp get_shar set_shar is_steady
  dhcp_init-host socket d s =
      let mac = (c.read_buf shar 6 s).0 in
      let s1 = (c.read_buf shar 6 s).1 in
      let read : mac ≡ views view shar 6 s = st.read_buf-views shar 6 s refl in
      let held : views view shar 6 s1 ≡ mac = views-read_buf c st shar 6 shar 6 s refl ∙ sym read in
      let mask = views-read_buf c st subr 4 shar 6 s refl in
      elim (Bool-cases (any_of mac == 0)) [
        | inr set ↦
            rw (set, dhcp_init, get_shar)
              (cleared s1 ∙ (λ i. (held i, zero_ip, mask i, zero_ip)), set)
        | inl blank ↦
            let s2 = c.write_buf shar temporary_mac s1 in
            let own = views-write_buf c st shar 6 temporary_mac s1 refl refl (ground arith) in
            let mask' =
              views-write_buf_other c st subr 4 shar temporary_mac 6 s1 refl refl refl refl in
            rw (blank, dhcp_init, get_shar)
              (cleared s2 ∙ (λ i. (own i, zero_ip, (mask' ∙ mask) i, zero_ip)), refl)
      ]
