-- ===== src/Dhcp/Init.antt =====
-- dhcp.c: DHCP_init(), the default handlers of the addresses, their registration, and the getters.
pub mod Addresses
use x_wizchip_io_library_dri.Base.{
  ℕ, ◌+◌, ◌%◌, ◌^◌, ◌==◌, if◌then◌else◌, bit_or, bit_xor, Option, none, some, List, [], ◌∷◌, get_or,
}
use x_wizchip_io_library_dri.Chip.{Chip}
use x_wizchip_io_library_dri.W5500.Common.{
  get_shar, set_shar, set_gar, set_subr, set_sipr, set_mr, get_mr,
}
use x_wizchip_io_library_dri.Dhcp.Options.{Learned}
use x_wizchip_io_library_dri.Dhcp.State.{Dhcp, state_init, reset_dhcp_timeout, zero_ip}

-- The OR of the six bytes
abbrev pub any_of : List ℕ → ℕ
any_of [] = 0
any_of (x ∷ xs) = bit_or x (any_of xs)

abbrev pub temporary_mac : List ℕ
temporary_mac = 0x00 ∷ 0x08 ∷ 0xdc ∷ 0x00 ∷ 0x00 ∷ 0x00 ∷ []

-- DHCP_CHADDR, of what SHAR holds
abbrev pub chaddr_of : List ℕ → List ℕ
chaddr_of mac = if any_of mac == 0 then temporary_mac else mac

-- DHCP_XID, of the last three bytes of DHCP_CHADDR
abbrev pub xid_of : List ℕ → ℕ
xid_of mac =
    let b3 = get_or mac 3 0 in
    let b4 = get_or mac 4 0 in
    let b5 = get_or mac 5 0 in (0x12345678 + b3 + b4 + b5 + bit_xor (bit_xor b3 b4) b5) % 2 ^ 32

-- What DHCP_init() does to the variables, with `mac` what SHAR holds.
unfoldable pub init_dhcp : ℕ → List ℕ → Dhcp → Dhcp
init_dhcp socket mac d = record (reset_dhcp_timeout d) {
  dhcp_socket = socket;
  dhcp_state = state_init;
  dhcp_xid = xid_of (chaddr_of mac);
  chaddr = chaddr_of mac;
}

-- The handlers that are called for the addresses, by number where they are the user's.
pub data Handler : Type 0 where
  default_handler : Handler
  user_handler : ℕ → Handler

pub record Handlers : Type 0 where
  pub ip_assign : Handler
  pub ip_update : Handler
  pub ip_conflict : Handler

abbrev pub handler_or : Option ℕ → Handler
handler_or none = default_handler
handler_or (some f) = user_handler f

-- A null pointer is `none`. What was registered before does not matter.
unfoldable pub reg_dhcp_cbfunc : Option ℕ → Option ℕ → Option ℕ → Handlers → Handlers
reg_dhcp_cbfunc assign update conflict before = record {
  ip_assign = handler_or assign;
  ip_update = handler_or update;
  ip_conflict = handler_or conflict;
}

unfoldable pub get_ip_from_dhcp : Dhcp → List ℕ
get_ip_from_dhcp d = d.allocated_ip

unfoldable pub get_gw_from_dhcp : Dhcp → List ℕ
get_gw_from_dhcp d = d.learned.allocated_gw

unfoldable pub get_sn_from_dhcp : Dhcp → List ℕ
get_sn_from_dhcp d = d.learned.allocated_sn

unfoldable pub get_dns_from_dhcp : Dhcp → List ℕ
get_dns_from_dhcp d = d.learned.allocated_dns

unfoldable pub get_dhcp_leasetime : Dhcp → ℕ
get_dhcp_leasetime d = d.learned.lease_time

module _ (c : Chip) where
  open c use {State}

  unfoldable pub dhcp_init : ℕ → Dhcp × State → Dhcp × State
  dhcp_init socket (d, s) =
      let (mac, s1) = get_shar c s in
      let s2 = if any_of mac == 0 then set_shar c temporary_mac s1 else s1 in
      (init_dhcp socket mac d, set_gar c zero_ip (set_sipr c zero_ip s2))

  unfoldable pub default_ip_assign : Dhcp → State → State
  default_ip_assign d s =
      set_gar c d.learned.allocated_gw
        (set_subr c d.learned.allocated_sn (set_sipr c d.allocated_ip s))

  unfoldable pub default_ip_update : Dhcp → State → State
  default_ip_update d s =
      let (delay, s1) = get_mr c (set_mr c 0x80 s) in set_shar c d.chaddr (default_ip_assign d s1)

  unfoldable pub default_ip_conflict : Dhcp → State → State
  default_ip_conflict d s = let (delay, s1) = get_mr c (set_mr c 0x80 s) in set_shar c d.chaddr s1
