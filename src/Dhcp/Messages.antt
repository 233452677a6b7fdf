-- ===== src/Dhcp/Messages.antt =====
-- dhcp.c: makeDHCPMSG() and the functions that send DISCOVER, REQUEST and DECLINE.
--
-- A message is built as one list, its fields in the order of RIP_MSG and the options in that of `k`.
pub mod Written
pub mod Sent
pub mod ReadBack
use x_wizchip_io_library_dri.Base.{
  ℕ, ◌+◌, ◌-◌, ◌/◌, ◌%◌, ◌==◌, leb, bit_and, if◌then◌else◌, ◌||◌, Bool, true, false, List, [], ◌∷◌,
  ◌++◌, replicate, length, get_or,
}
use x_wizchip_io_library_dri.Dhcp.Options.{Learned}
use x_wizchip_io_library_dri.Dhcp.State.{
  Dhcp, DhcpState, state_leased, state_rerequest, Call, send_to, zero_ip,
}

abbrev pub opt_size : ℕ
opt_size = 312

abbrev pub rip_msg_size : ℕ
rip_msg_size = 236 + opt_size

abbrev pub dhcp_server_port : ℕ
dhcp_server_port = 67

abbrev pub broadcast_ip : List ℕ
broadcast_ip = 255 ∷ 255 ∷ 255 ∷ 255 ∷ []

-- "WIZnet", without the zeros behind it
abbrev pub host_name : List ℕ
host_name = 0x57 ∷ 0x49 ∷ 0x5A ∷ 0x6E ∷ 0x65 ∷ 0x74 ∷ []

unfoldable pub nibble_to_hex : ℕ → ℕ
nibble_to_hex nibble =
    let low = bit_and nibble 0x0F in if leb low 9 then low + 0x30 else low + (0x41 - 0x0A)

-- The fields before OPT, with `flags` and `ciaddr` as they are sent, and the magic cookie.
unfoldable pub make_dhcp_msg : ℕ → List ℕ → Dhcp → List ℕ
make_dhcp_msg flags ciaddr d =
    (1 ∷ 1 ∷ 6 ∷ 0 ∷ [])
    ++ (d.dhcp_xid / 16777216 % 256
        ∷ d.dhcp_xid / 65536 % 256
        ∷ d.dhcp_xid / 256 % 256
        ∷ d.dhcp_xid % 256
        ∷ [])
    ++ (0 ∷ 0 ∷ flags / 256 % 256 ∷ flags % 256 ∷ [])
    ++ ciaddr
    ++ replicate 4 0
    ++ replicate 4 0
    ++ replicate 4 0
    ++ d.chaddr
    ++ replicate 10 0
    ++ replicate 64 0
    ++ replicate 128 0
    ++ (0x63 ∷ 0x82 ∷ 0x53 ∷ 0x63 ∷ [])

-- A code, a length and the bytes.
abbrev pub option : ℕ → ℕ → List ℕ → List ℕ
option code len bytes = code ∷ len ∷ bytes

abbrev pub hex_pair : ℕ → List ℕ
hex_pair b = nibble_to_hex (b / 16) ∷ nibble_to_hex b ∷ []

-- Behind the name stand the last three bytes of the hardware address.
unfoldable pub host_name_option : Dhcp → List ℕ
host_name_option d = option 12 (length host_name + 6) (
    host_name
    ++ hex_pair (get_or d.chaddr 3 0)
    ++ hex_pair (get_or d.chaddr 4 0)
    ++ hex_pair (get_or d.chaddr 5 0))

-- The type of the message and the client identifier stand first in all three.
abbrev pub first_options : ℕ → Dhcp → List ℕ
first_options type d = option 53 1 (type ∷ []) ++ option 61 7 (1 ∷ d.chaddr)

-- The requested address and the server.
abbrev pub server_options : Dhcp → List ℕ
server_options d = option 50 4 d.allocated_ip ++ option 54 4 d.learned.sip

-- The message with its options, and zeros up to OPT_SIZE; 4 bytes of OPT are the cookie.
abbrev pub complete : List ℕ → List ℕ → List ℕ
complete head options = head ++ options ++ replicate (opt_size - (4 + length options)) 0

abbrev pub message_to : List ℕ → List ℕ → Call
message_to ip msg = send_to ip dhcp_server_port msg

abbrev pub discover_options : Dhcp → List ℕ
discover_options d =
    first_options 1 d
    ++ host_name_option d
    ++ option 55 6 (1 ∷ 3 ∷ 6 ∷ 15 ∷ 58 ∷ 59 ∷ [])
    ++ 255 ∷ []

-- DHCP_SIP and DHCP_REAL_SIP are cleared; the message does not contain them.
unfoldable pub send_dhcp_discover : Dhcp → Dhcp × Call
send_dhcp_discover d = (
  record d { learned = record d.learned { sip = zero_ip; real_sip = zero_ip } },
  message_to broadcast_ip (complete (make_dhcp_msg 0x8000 zero_ip d) (discover_options d)),
)

-- Whether a REQUEST extends a lease.
abbrev pub extends_lease : DhcpState → Bool
extends_lease state_leased = true
extends_lease state_rerequest = true
extends_lease _ = false

abbrev pub request_options : Bool → Dhcp → List ℕ
request_options broadcast d =
    first_options 3 d
    ++ (if broadcast then server_options d else [])
    ++ host_name_option d
    ++ option 55 8 (1 ∷ 3 ∷ 6 ∷ 15 ∷ 58 ∷ 59 ∷ 31 ∷ 33 ∷ [])
    ++ 255 ∷ []

unfoldable pub send_dhcp_request : Dhcp → Call
send_dhcp_request d =
    let extending = extends_lease d.dhcp_state in
    let ip = if extending then d.learned.sip else broadcast_ip in
    let head =
      if extending then make_dhcp_msg 0x0000 d.allocated_ip d else make_dhcp_msg 0x8000 zero_ip d in
    message_to ip (complete head (request_options (get_or ip 3 0 == 255) d))

abbrev pub decline_options : Dhcp → List ℕ
decline_options d = first_options 4 d ++ server_options d ++ 255 ∷ []

unfoldable pub send_dhcp_decline : Dhcp → Call
send_dhcp_decline d =
    message_to broadcast_ip (complete (make_dhcp_msg 0x0000 zero_ip d) (decline_options d))
