-- ===== src/Dhcp/Options.antt =====
-- dhcp.c: parseDHCPMSG().
pub mod Bounds
use x_wizchip_io_library_dri.Base.{
  ℕ, zero, suc, ◌+◌, ◌-◌, ◌*◌, ◌%◌, ◌^◌, ◌==◌, ltb, not, ◌&&◌, if◌then◌else◌, Bool, true, false,
  List, [], ◌∷◌,
}
use x_wizchip_io_library_dri.Dns.Name.{
  Parsed, ok, too_long, outside, no_fuel, ◌>>=◌, byte_at, bytes_at,
}

-- What the client learns from the server: DHCP_SIP, DHCP_REAL_SIP, DHCP_allocated_sn, _gw and
-- _dns, and dhcp_lease_time.
pub record Learned : Type 0 where
  pub sip : List ℕ
  pub real_sip : List ℕ
  pub allocated_sn : List ℕ
  pub allocated_gw : List ℕ
  pub allocated_dns : List ℕ
  pub lease_time : ℕ

-- A message in the buffer: `*pDHCPMSG`, and what recvfrom() gave.
pub record Arrived : Type 0 where
  pub bytes : List ℕ
  pub len : ℕ
  pub svr_addr : List ℕ
  pub svr_port : ℕ

-- The options that the switch has a case for.
pub data OptionCode : Type 0 where
  end_option pad_option dhcp_message_type subnet_mask : OptionCode
  routers_on_subnet dns dhcp_ip_addr_lease_time dhcp_server_identifier : OptionCode
  other_option : OptionCode

unfoldable pub option_code : ℕ → OptionCode
option_code b =
    if b == 255
    then end_option
    else if b == 0
    then pad_option
    else if b == 53
    then dhcp_message_type
    else if b == 1
    then subnet_mask
    else if b == 3
    then routers_on_subnet
    else if b == 6
    then dns
    else if b == 51
    then dhcp_ip_addr_lease_time
    else if b == 54
    then dhcp_server_identifier
    else other_option

-- Where the parser stands: `p`, `type`, and what is learned so far.
pub record At : Type 0 where
  pub p : ℕ
  pub type : ℕ
  pub learned : Learned

unfoldable pub number : List ℕ → ℕ → ℕ
number [] n = n
number (x ∷ xs) n = number xs ((n * 256 + x) % 2 ^ 32)

-- The switch, for the option that stands at `s.p`.
unfoldable pub parse_option : List ℕ → List ℕ → ℕ → OptionCode → At → Parsed At
parse_option msg svr_addr e end_option s = ok (record s { p = e })
parse_option msg svr_addr e pad_option s = ok (record s { p = s.p + 1 })
parse_option msg svr_addr e dhcp_message_type s = do
  type ← byte_at msg (s.p + 2)
  ok (record s { p = s.p + 3; type = type })
parse_option msg svr_addr e subnet_mask s = do
  sn ← bytes_at msg (s.p + 2) 4
  ok (record s { p = s.p + 6; learned = record s.learned { allocated_sn = sn } })
parse_option msg svr_addr e routers_on_subnet s = do
  opt_len ← byte_at msg (s.p + 1)
  gw ← bytes_at msg (s.p + 2) 4
  ok (record s { p = s.p + 6 + opt_len - 4; learned = record s.learned { allocated_gw = gw } })
parse_option msg svr_addr e dns s = do
  opt_len ← byte_at msg (s.p + 1)
  ip ← bytes_at msg (s.p + 2) 4
  ok (record s { p = s.p + 6 + opt_len - 4; learned = record s.learned { allocated_dns = ip } })
parse_option msg svr_addr e dhcp_ip_addr_lease_time s = do
  opt_len ← byte_at msg (s.p + 1)
  time ← bytes_at msg (s.p + 2) 4
  ok (record s { p = s.p + 6; learned = record s.learned { lease_time = number time 0 } })
parse_option msg svr_addr e dhcp_server_identifier s = do
  opt_len ← byte_at msg (s.p + 1)
  ip ← bytes_at msg (s.p + 2) 4
  ok (record s { p = s.p + 6; learned = record s.learned { sip = ip; real_sip = svr_addr } })
parse_option msg svr_addr e other_option s = do
  opt_len ← byte_at msg (s.p + 1)
  ok (record s { p = s.p + 2 + opt_len })

-- while (p < e)
unfoldable pub parse_options : ℕ → List ℕ → List ℕ → ℕ → At → Parsed At
parse_options zero msg svr_addr e s = elim (ltb s.p e) [ false ↦ ok s | true ↦ no_fuel ]
parse_options (suc n) msg svr_addr e s = elim (ltb s.p e) [
  | false ↦ ok s
  | true ↦ (do
    b ← byte_at msg s.p
    s' ← parse_option msg svr_addr e (option_code b) s
    parse_options n msg svr_addr e s')
]

unfoldable pub same_bytes : List ℕ → List ℕ → Bool
same_bytes [] [] = true
same_bytes (x ∷ xs) (y ∷ ys) = x == y && same_bytes xs ys
same_bytes _ _ = false

-- The options stand behind 240 bytes, and every one of them is a byte at least.
unfoldable pub parse_body : Arrived → Learned → Parsed At
parse_body m learned =
    parse_options m.len m.bytes m.svr_addr m.len (record { p = 240; type = 0; learned = learned })

-- A message counts if it comes from the server's port, names this client's hardware address, and
-- comes from the server that is known, if one is. Else the type is 0.
unfoldable pub parse_dhcp_msg : List ℕ → Arrived → Learned → Parsed (ℕ × Learned)
parse_dhcp_msg chaddr m learned = elim (m.svr_port == 67) [
  | false ↦ ok (0, learned)
  | true ↦ (do
    addressee ← bytes_at m.bytes 28 6
    elim (same_bytes addressee chaddr) [
      | false ↦ ok (0, learned)
      | true ↦
          elim (not (same_bytes learned.sip (0 ∷ 0 ∷ 0 ∷ 0 ∷ []))
            && (not (same_bytes m.svr_addr learned.sip)
                && not (same_bytes m.svr_addr learned.real_sip))) [
                  | true ↦ ok (0, learned)
                  | false ↦ (do s ← parse_body m learned; ok (s.type, s.learned))
                ]
    ])
]
