-- ===== src/Tests/DhcpRuns.antt =====
-- Runs of the functions of dhcp.c.
use x_wizchip_io_library_dri.Base.{◌≤◌, ◌≡◌, ◌≢◌, refl, true, false, none, [], ◌∷◌, ◌++◌, replicate}
use x_wizchip_io_library_dri.Dns.Name.{ok}
use x_wizchip_io_library_dri.Dns.Name.Bounds.{Ends}
use x_wizchip_io_library_dri.Dhcp.Options.{Arrived, parse_dhcp_msg}
use x_wizchip_io_library_dri.Dhcp.Options.Bounds.{IsLearned, parse_dhcp_msg-Ends}
use x_wizchip_io_library_dri.Base.{ℕ, List, get_or, ◌==◌, if◌then◌else◌, some, arith}
use x_wizchip_io_library_dri.W5500.Common.{subr}
use x_wizchip_io_library_dri.Conf.Steady.{views}
use x_wizchip_io_library_dri.Conf.Net.Kept.{host}
use x_wizchip_io_library_dri.Tests.ConfRuns.{plain, plain-Steady, blank}
use x_wizchip_io_library_dri.Dhcp.Options.{parse_body}
use x_wizchip_io_library_dri.Dhcp.State.{
  Dhcp, dhcp_start, dhcp_ip_changed, dhcp_running, state_discover, open_socket, zero_ip,
}
use x_wizchip_io_library_dri.Dhcp.Messages.{
  send_dhcp_discover, send_dhcp_request, send_dhcp_decline,
}
use x_wizchip_io_library_dri.Dhcp.Messages.Sent.{IsSized}
use x_wizchip_io_library_dri.Dhcp.Messages.ReadBack.{
  mail, payload, destination, read_as, names_server, messages-ReadBack,
}
use x_wizchip_io_library_dri.Dhcp.Init.{dhcp_init, default_ip_update, any_of}
use x_wizchip_io_library_dri.Dhcp.Init.Addresses.{default_ip_update-host, dhcp_init-host}
use x_wizchip_io_library_dri.Dhcp.Machine.{Step, step, dhcp_run, run_state, receive}
use x_wizchip_io_library_dri.Dhcp.Machine.Sending.{Sends, dhcp_run-Sends}
use x_wizchip_io_library_dri.Dhcp.Machine.Reachable.{started, dhcp_run-unchanged}

-- An offer from 10.0.0.1 with a subnet mask.
abbrev offer : Arrived
offer = record {
  bytes =
      replicate 240 0
      ++ (53 ∷ 1 ∷ 2 ∷ 1 ∷ 4 ∷ 255 ∷ 255 ∷ 255 ∷ 0 ∷ 54 ∷ 4 ∷ 10 ∷ 0 ∷ 0 ∷ 1 ∷ 255 ∷ []);
  len = 256;
  svr_addr = 10 ∷ 0 ∷ 0 ∷ 1 ∷ [];
  svr_port = 67;
}

parse_dhcp_msg-Ends_example :
    Ends (λ r. IsLearned r.1) (parse_dhcp_msg (0 ∷ 0 ∷ 0 ∷ 0 ∷ 0 ∷ 0 ∷ []) offer dhcp_start.learned)
parse_dhcp_msg-Ends_example =
    parse_dhcp_msg-Ends (0 ∷ 0 ∷ 0 ∷ 0 ∷ 0 ∷ 0 ∷ []) offer dhcp_start.learned refl (record {
      sip = refl;
      real_sip = refl;
      allocated_sn = refl;
      allocated_gw = refl;
      allocated_dns = refl;
    })

-- The first run sends DISCOVER.
abbrev first : Step
first =
    step dhcp_running (record dhcp_start { dhcp_state = state_discover })
      (open_socket ∷ (send_dhcp_discover dhcp_start).1 ∷ [])

first_run : dhcp_run false none true dhcp_start ≡ ok first
unfolding dhcp_run run_state receive send_dhcp_discover
first_run = refl

dhcp_run-unchanged_example : (first.ret ≢ dhcp_ip_changed) × (first.dhcp.dhcp_retry_count ≤ 2)
dhcp_run-unchanged_example = dhcp_run-unchanged false none true dhcp_start first started first_run

start-IsLearned : IsLearned dhcp_start.learned
start-IsLearned = record {
  sip = refl;
  real_sip = refl;
  allocated_sn = refl;
  allocated_gw = refl;
  allocated_dns = refl;
}

-- A client of 10.0.0.7 that waits for the offer.
abbrev waiting : Dhcp
waiting = record dhcp_start { dhcp_state = state_discover; allocated_ip = 10 ∷ 0 ∷ 0 ∷ 7 ∷ [] }

waiting-IsSized : IsSized waiting
waiting-IsSized = record { chaddr = refl; allocated_ip = refl; learned = start-IsLearned }

dhcp_run-Sends_example : Ends Sends (dhcp_run true (some offer) true waiting)
dhcp_run-Sends_example = dhcp_run-Sends true (some offer) true waiting refl waiting-IsSized

messages-ReadBack_example :
    (let l = dhcp_start.learned in
      let server : List ℕ = 10 ∷ 0 ∷ 0 ∷ 1 ∷ [] in
      let named = names_server zero_ip server l in
      (parse_body (mail server (payload (send_dhcp_discover waiting).1)) l ≡ read_as 1 l)
      × (parse_body (mail server (payload (send_dhcp_request waiting))) l
          ≡ read_as 3
              (if get_or (destination (send_dhcp_request waiting)) 3 0 == 255 then named else l))
      × (parse_body (mail server (payload (send_dhcp_decline waiting))) l ≡ read_as 4 named))
messages-ReadBack_example =
    messages-ReadBack dhcp_start.learned (10 ∷ 0 ∷ 0 ∷ 1 ∷ []) waiting (refl, refl, refl)

default_ip_update-host_example :
    host plain plain-Steady (default_ip_update plain waiting blank)
    ≡ (waiting.chaddr, zero_ip, zero_ip, waiting.allocated_ip)
default_ip_update-host_example =
    default_ip_update-host plain plain-Steady waiting blank (refl, ground arith)
      (refl, ground arith) (refl, ground arith) (refl, ground arith)

dhcp_init-host_example :
    (let r = dhcp_init plain 3 (waiting, blank) in
      (host plain plain-Steady r.1
        ≡ (r.0.chaddr, zero_ip, views plain-Steady.view subr 4 blank, zero_ip))
      × ((any_of r.0.chaddr == 0) ≡ false))
dhcp_init-host_example = dhcp_init-host plain plain-Steady 3 waiting blank
