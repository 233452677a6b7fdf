-- ===== src/Dhcp/Messages/Sent.antt =====
-- The sizes of what is sent.
use x_wizchip_io_library_dri.Base.{
  ℕ, ◌≡◌, ◌⊎◌, inl, inr, refl, List, length, ◌==◌, get_or, true, false, Bool-cases,
}
use x_wizchip_io_library_dri.Dhcp.Options.Bounds.{IsLearned}
use x_wizchip_io_library_dri.Dhcp.State.{Dhcp, Call, send_to, zero_ip}
use x_wizchip_io_library_dri.Dhcp.Messages.Written.{HasSizes, by_bytes}
use x_wizchip_io_library_dri.Dhcp.Messages.{
  make_dhcp_msg, host_name_option, complete, send_dhcp_discover, send_dhcp_request,
  send_dhcp_decline, discover_options, request_options, decline_options, extends_lease,
}

-- The addresses of the client have their sizes.
pub record IsSized (d : Dhcp) : Type 0 where
  pub chaddr : length d.chaddr ≡ 6
  pub allocated_ip : length d.allocated_ip ≡ 4
  pub learned : IsLearned d.learned

-- A message goes to the server's port and has the size of RIP_MSG; the probe has 17 bytes.
abbrev pub IsSent : Call → Type 0
IsSent (send_to ip port bytes) =
    (length ip ≡ 4) × (((port ≡ 67) × (length bytes ≡ 548)) ⊎ ((port ≡ 5000) × (length bytes ≡ 17)))
IsSent _ = Unit {0}

-- Every message that is sent has the size of RIP_MSG.
abbrev Complete : ℕ → Dhcp → List ℕ → Type 0
Complete flags d ciaddr =
    (let head = make_dhcp_msg flags ciaddr d in
      (length (complete head (discover_options d)) ≡ 548)
      × (length (complete head (request_options true d)) ≡ 548)
      × (length (complete head (request_options false d)) ≡ 548)
      × (length (complete head (decline_options d)) ≡ 548))

all-Complete :
    (flags : ℕ) (d : Dhcp) (ciaddr : List ℕ)
    → HasSizes d
    → length ciaddr ≡ 4
    → Complete flags d ciaddr
unfolding make_dhcp_msg host_name_option
all-Complete flags =
    by_bytes (Complete flags)
      λ m0 m1 m2 m3 m4 m5 i0 i1 i2 i3 s0 s1 s2 s3 c0 c1 c2 c3 d. (refl, refl, refl, refl)

abbrev sizes_of : (d : Dhcp) → IsSized d → HasSizes d
sizes_of d h = (h.chaddr, h.allocated_ip, h.learned.sip)

pub send_dhcp_discover-IsSent :
    (d : Dhcp) → IsSized d → IsSized (send_dhcp_discover d).0 × IsSent (send_dhcp_discover d).1
unfolding send_dhcp_discover
send_dhcp_discover-IsSent d h = (
  record {
    chaddr = h.chaddr;
    allocated_ip = h.allocated_ip;
    learned = record {
      sip = refl;
      real_sip = refl;
      allocated_sn = h.learned.allocated_sn;
      allocated_gw = h.learned.allocated_gw;
      allocated_dns = h.learned.allocated_dns;
    };
  },
  (refl, inl (refl, (all-Complete 0x8000 d zero_ip (sizes_of d h) refl).0)),
)

pub send_dhcp_request-IsSent : (d : Dhcp) → IsSized d → IsSent (send_dhcp_request d)
unfolding send_dhcp_request
send_dhcp_request-IsSent d h =
    let plain : Complete 0x8000 d zero_ip = all-Complete 0x8000 d zero_ip (sizes_of d h) refl in
    let direct : Complete 0x0000 d d.allocated_ip =
      all-Complete 0x0000 d d.allocated_ip (sizes_of d h) h.allocated_ip in
    elim (Bool-cases (extends_lease d.dhcp_state)) [
      | inr fresh ↦ rw fresh (refl, inl (refl, plain.1))
      | inl extending ↦ elim (Bool-cases (get_or d.learned.sip 3 0 == 255)) [
        | inl odd ↦ rw (extending, odd) (h.learned.sip, inl (refl, direct.1))
        | inr usual ↦ rw (extending, usual) (h.learned.sip, inl (refl, direct.2))
      ]
    ]

pub send_dhcp_decline-IsSent : (d : Dhcp) → IsSized d → IsSent (send_dhcp_decline d)
unfolding send_dhcp_decline
send_dhcp_decline-IsSent d h =
    (refl, inl (refl, (all-Complete 0x0000 d zero_ip (sizes_of d h) refl).3))
