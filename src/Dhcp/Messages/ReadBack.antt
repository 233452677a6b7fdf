-- ===== src/Dhcp/Messages/ReadBack.antt =====
-- The messages read by the client's own parser.
use x_wizchip_io_library_dri.Base.{
  ℕ, ◌≡◌, refl, ◌==◌, if◌then◌else◌, true, false, Bool-cases, inl, inr, List, [], length, get_or,
}
use x_wizchip_io_library_dri.Dns.Name.{Parsed, ok, byte_at, bytes_at}
use x_wizchip_io_library_dri.Dhcp.Options.{
  Learned, Arrived, At, option_code, parse_option, parse_options, parse_body,
}
use x_wizchip_io_library_dri.Dhcp.State.{Dhcp, Call, send_to, zero_ip}
use x_wizchip_io_library_dri.Dhcp.Messages.Written.{HasSizes, by_bytes}
use x_wizchip_io_library_dri.Dhcp.Messages.{
  make_dhcp_msg, host_name_option, complete, send_dhcp_discover, send_dhcp_request,
  send_dhcp_decline, discover_options, request_options, decline_options, extends_lease,
}

-- A message as it arrives at a client, from a server's port.
abbrev pub mail : List ℕ → List ℕ → Arrived
mail svr_addr bytes = record { bytes = bytes; len = 548; svr_addr = svr_addr; svr_port = 67 }

abbrev pub payload : Call → List ℕ
payload (send_to ip port bytes) = bytes
payload _ = []

abbrev pub destination : Call → List ℕ
destination (send_to ip port bytes) = ip
destination _ = []

-- Read to its end, with a type, and with the server that it names.
abbrev pub read_as : ℕ → Learned → Parsed At
read_as type l = ok (record { p = 548; type = type; learned = l })

abbrev pub names_server : List ℕ → List ℕ → Learned → Learned
names_server sip svr_addr l = record l { sip = sip; real_sip = svr_addr }

module _ (l : Learned) (svr_addr : List ℕ) where
  -- What the parser makes of a message with these options, of any head.
  abbrev Reads : List ℕ → List ℕ → ℕ → Learned → Type 0
  Reads head options type l' =
      parse_body (mail svr_addr (complete head options)) l ≡ read_as type l'

  -- All option lists that are sent, behind any head.
  abbrev ReadBack : ℕ → Dhcp → List ℕ → Type 0
  ReadBack flags d ciaddr =
      (let named = names_server d.learned.sip svr_addr l in
        let head = make_dhcp_msg flags ciaddr d in
        Reads head (discover_options d) 1 l
        × Reads head (request_options true d) 3 named
        × Reads head (request_options false d) 3 l
        × Reads head (decline_options d) 4 named)

  read_back :
      (flags : ℕ) (d : Dhcp) (ciaddr : List ℕ)
      → HasSizes d
      → length ciaddr ≡ 4
      → ReadBack flags d ciaddr
  unfolding parse_body parse_options parse_option option_code make_dhcp_msg host_name_option byte_at
      bytes_at
  read_back flags =
      by_bytes (ReadBack flags)
        λ m0 m1 m2 m3 m4 m5 i0 i1 i2 i3 s0 s1 s2 s3 c0 c1 c2 c3 d. (refl, refl, refl, refl)

  -- For a hardware address of 6 bytes and addresses of 4: the option loop of parseDHCPMSG() reads each
  -- message of the client to its end; a DISCOVER is read as type 1, a DECLINE as type 4 that names the
  -- client's server, and a REQUEST as type 3, which names the server exactly when the last byte of the
  -- address it is sent to is 255.
  pub messages-ReadBack :
      (d : Dhcp)
      → HasSizes d
      → (let named = names_server d.learned.sip svr_addr l in
          let request = send_dhcp_request d in
          (parse_body (mail svr_addr (payload (send_dhcp_discover d).1)) l ≡ read_as 1 l)
          × (parse_body (mail svr_addr (payload request)) l
              ≡ read_as 3 (if get_or (destination request) 3 0 == 255 then named else l))
          × (parse_body (mail svr_addr (payload (send_dhcp_decline d))) l ≡ read_as 4 named))
  unfolding send_dhcp_discover send_dhcp_request send_dhcp_decline
  messages-ReadBack d sizes =
      let plain : ReadBack 0x8000 d zero_ip = read_back 0x8000 d zero_ip sizes refl in
      let direct : ReadBack 0x0000 d d.allocated_ip =
        read_back 0x0000 d d.allocated_ip sizes sizes.1 in
      let declined : ReadBack 0x0000 d zero_ip = read_back 0x0000 d zero_ip sizes refl in
      let request : _ = elim (Bool-cases (extends_lease d.dhcp_state)) [
        | inr fresh ↦ rw fresh plain.1
        | inl extending ↦ elim (Bool-cases (get_or d.learned.sip 3 0 == 255)) [
          | inl odd ↦ rw (extending, odd) direct.1
          | inr usual ↦ rw (extending, usual) direct.2
        ]
      ] in
      (plain.0, request, declined.3)
