-- ===== src/Conf/Net/Kept.antt =====
-- The addresses of the host in the registers, through the functions that set and save them.
use x_wizchip_io_library_dri.Base.{ℕ, ◌≡◌, refl, ap, ◌∙◌, List, length, All, take}
use x_wizchip_io_library_dri.Chip.{Chip, IsByte}
use x_wizchip_io_library_dri.W5500.Regs.{sipr, get_sipr}
use x_wizchip_io_library_dri.W5500.Common.{
  shar, gar, subr, set_shar, set_gar, set_subr, set_sipr, get_shar, get_gar, get_subr, get_mr,
  set_mr,
}
use x_wizchip_io_library_dri.Conf.{WizNetInfo, Network}
use x_wizchip_io_library_dri.Conf.Steady.{Steady, is_steady, views}
use x_wizchip_io_library_dri.Conf.Steady.Ranges.{
  views-write_buf, views-write_buf_other, views-read_buf, views-IsByte, take_all,
}
use x_wizchip_io_library_dri.Conf.Net.{wizchip_sw_reset, wizchip_setnetinfo, wizchip_getnetinfo}

-- The addresses of the host: MAC, gateway, subnet mask, IP.
abbrev pub Host : Type 0
Host = List ℕ × List ℕ × List ℕ × List ℕ

abbrev pub Bytes : ℕ → List ℕ → Type 0
Bytes n xs = (length xs ≡ n) × All IsByte xs

abbrev pub IsHost : Host → Type 0
IsHost (mac, gw, sn, ip) = Bytes 6 mac × Bytes 4 gw × Bytes 4 sn × Bytes 4 ip

module _ (c : Chip) (st : Steady c) where
  open st use {view}

  abbrev pub host : c.State → Host
  host s = (views view shar 6 s, views view gar 4 s, views view subr 4 s, views view sipr 4 s)

  abbrev set_host : Host → c.State → c.State
  set_host (mac, gw, sn, ip) s = set_sipr c ip (set_subr c sn (set_gar c gw (set_shar c mac s)))

  abbrev get_host : c.State → Host × c.State
  get_host s =
      let (mac, s1) = get_shar c s in
      let (gw, s2) = get_gar c s1 in
      let (sn, s3) = get_subr c s2 in let (ip, s4) = get_sipr c s3 in ((mac, gw, sn, ip), s4)

  host-IsHost : (s : c.State) → IsHost (host s)
  unfolding is_steady
  host-IsHost s = (
    (refl, views-IsByte c st shar 6 s refl),
    (refl, views-IsByte c st gar 4 s refl),
    (refl, views-IsByte c st subr 4 s refl),
    (refl, views-IsByte c st sipr 4 s refl),
  )

  host-set_host : (h : Host) (s : c.State) → IsHost h → host (set_host h s) ≡ h
  unfolding set_shar set_gar set_subr set_sipr is_steady
  host-set_host (mac, gw, sn, ip) s ((lm, bm), (lg, bg), (ls, bs), (li, bi)) =
      let s1 = c.write_buf shar mac s in
      let s2 = c.write_buf gar gw s1 in
      let s3 = c.write_buf subr sn s2 in
      rw
        (
          take_all 6 mac lm,
          take_all 4 gw lg,
          take_all 4 sn ls,
          take_all 4 ip li,
          views-write_buf_other c st shar 6 sipr ip 4 s3 li refl refl refl,
          views-write_buf_other c st shar 6 subr sn 4 s2 ls refl refl refl,
          views-write_buf_other c st shar 6 gar gw 4 s1 lg refl refl refl,
          views-write_buf c st shar 6 mac s lm refl bm,
          views-write_buf_other c st gar 4 sipr ip 4 s3 li refl refl refl,
          views-write_buf_other c st gar 4 subr sn 4 s2 ls refl refl refl,
          views-write_buf c st gar 4 gw s1 lg refl bg,
          views-write_buf_other c st subr 4 sipr ip 4 s3 li refl refl refl,
          views-write_buf c st subr 4 sn s2 ls refl bs,
          views-write_buf c st sipr 4 ip s3 li refl bi,
          set_shar,
          set_gar,
          set_subr,
          set_sipr,
        )
        refl

  get_host-host : (s : c.State) → (get_host s).0 ≡ host s
  unfolding get_shar get_gar get_subr get_sipr is_steady
  get_host-host s =
      let s1 = (c.read_buf shar 6 s).1 in
      let s2 = (c.read_buf gar 4 s1).1 in
      let s3 = (c.read_buf subr 4 s2).1 in
      rw
        (
          st.read_buf-views shar 6 s refl,
          st.read_buf-views gar 4 s1 refl,
          st.read_buf-views subr 4 s2 refl,
          st.read_buf-views sipr 4 s3 refl,
          views-read_buf c st gar 4 shar 6 s refl,
          views-read_buf c st subr 4 gar 4 s1 refl,
          views-read_buf c st subr 4 shar 6 s refl,
          views-read_buf c st sipr 4 subr 4 s2 refl,
          views-read_buf c st sipr 4 gar 4 s1 refl,
          views-read_buf c st sipr 4 shar 6 s refl,
          get_shar,
          get_gar,
          get_subr,
          get_sipr,
        )
        refl

  -- On a chip whose registers keep what was written, a software reset leaves the MAC, gateway, subnet
  -- and IP addresses as they were, although the reset itself may clear them.
  pub wizchip_sw_reset-keeps : (s : c.State) → host (wizchip_sw_reset c s) ≡ host s
  unfolding wizchip_sw_reset
  wizchip_sw_reset-keeps s =
      let saved : (get_host s).0 ≡ host s = get_host-host s in
      let s5 = (get_mr c (set_mr c 0x80 (get_host s).1)).1 in
      ap (λ h. host (set_host h s5)) saved ∙ host-set_host (host s) s5 (host-IsHost s)

  -- On a chip whose registers keep what was written, wizchip_getnetinfo() gives back the addresses,
  -- the DNS server and the DHCP mode that wizchip_setnetinfo() was given, of 6 and 4 bytes.
  pub wizchip_getnetinfo-set :
      (info : WizNetInfo) (n : Network c.State)
      → IsHost (info.mac, info.gw, info.sn, info.ip)
      → length info.dns ≡ 4
      → (wizchip_getnetinfo c (wizchip_setnetinfo c info n)).0 ≡ info
  unfolding wizchip_getnetinfo wizchip_setnetinfo
  wizchip_getnetinfo-set info n ok dns =
      let h : Host = (info.mac, info.gw, info.sn, info.ip) in
      let got : (get_host (set_host h n.chip)).0 ≡ h =
        get_host-host (set_host h n.chip) ∙ host-set_host h n.chip ok in
      let kept : take 4 (take 4 info.dns) ≡ info.dns =
        ap (take 4) (take_all 4 info.dns dns) ∙ take_all 4 info.dns dns in
      let build : Host × List ℕ → WizNetInfo = λ ((mac, gw, sn, ip), dns). record {
        mac = mac;
        ip = ip;
        sn = sn;
        gw = gw;
        dns = dns;
        dhcp = info.dhcp;
      } in
      ap build (λ i. (got i, kept i))
