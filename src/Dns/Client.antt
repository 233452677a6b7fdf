-- ===== src/Dns/Client.antt =====
-- dns.c: check_DNS_timeout(), DNS_time_handler() and DNS_run().
pub mod Silence
use x_wizchip_io_library_dri.Base.{
  ℕ, zero, suc, ◌+◌, ◌%◌, ◌^◌, ◌==◌, ltb, leb, if◌then◌else◌, Bool, true, false, Option, none, some,
  List, [], ◌∷◌, ◌++◌, length, drop, take,
}
use x_wizchip_io_library_dri.Base.Int.{ℤ, pos, negsuc}
use x_wizchip_io_library_dri.Chip.{Chip, World, M, pure, ◌>>=◌, ◌>>◌, polling, done, hung, fault}
use x_wizchip_io_library_dri.W5500.Buffers.{get_sn_rx_rsr}
use x_wizchip_io_library_dri.Socket.Codes.{mr_udp}
use x_wizchip_io_library_dri.Socket.State.{branch}
use x_wizchip_io_library_dri.Socket.Open.{socket, close}
use x_wizchip_io_library_dri.Socket.Udp.{sendto, recvfrom, Received}
use x_wizchip_io_library_dri.Dns.Name.{Parsed, ok, too_long, outside, no_fuel}
use x_wizchip_io_library_dri.Dns.Message.{parse_dns_msg, Reply}
use x_wizchip_io_library_dri.Dns.Query.{dns_makequery}

abbrev pub max_dns_buf_size : ℕ
max_dns_buf_size = 256

abbrev pub max_dns_retry : ℕ
max_dns_retry = 2

abbrev pub dns_wait_time : ℕ
dns_wait_time = 3

abbrev pub ipport_domain : ℕ
ipport_domain = 53

-- The variables dns_1s_tick and retry_count.
pub record Timer : Type 0 where
  pub dns_1s_tick : ℕ
  pub retry_count : ℕ

unfoldable pub dns_time_handler : Timer → Timer
dns_time_handler t = record t { dns_1s_tick = (t.dns_1s_tick + 1) % 2 ^ 32 }

-- What check_DNS_timeout() returns: -1, 0 and 1.
pub data Timeout : Type 0 where
  timed_out retry not_over : Timeout

unfoldable pub check_dns_timeout : Timer → Timeout × Timer
check_dns_timeout t =
    if leb dns_wait_time t.dns_1s_tick
    then (if leb max_dns_retry t.retry_count
        then (timed_out, record { dns_1s_tick = 0; retry_count = 0 })
        else (retry, record { dns_1s_tick = 0; retry_count = (t.retry_count + 1) % 256 }))
    else (not_over, t)

-- `n` calls of the timer's handler
unfoldable pub elapse : ℕ → Timer → Timer
elapse zero t = t
elapse (suc n) t = elapse n (dns_time_handler t)

-- The buffer after the first bytes of it are written.
abbrev pub overlay : List ℕ → List ℕ → List ℕ
overlay bytes buf = bytes ++ drop (length bytes) buf

-- The result of DNS_run(), and what it wrote to `ip_from_dns`.
pub record Run : Type 0 where
  pub ret : ℤ
  pub ip_from_dns : Option (List ℕ)

-- A read behind the message is a fault.
unfoldable pub run_of : {S : Type 0} → Parsed Reply → M S Run
run_of (ok reply) w = done (record { ret = pos reply.ret; ip_from_dns = reply.ip_from_dns }) w
run_of too_long w = done (record { ret = negsuc 0; ip_from_dns = none }) w
run_of outside w = fault
run_of no_fuel w = hung

module _ (c : Chip) (polls sn : ℕ) (dns_ip : List ℕ) where
  -- A message has arrived; `len` is Sn_RX_RSR. What recvfrom() returns goes into `len` only.
  unfoldable pub dns_receive : ℕ → List ℕ → M c.State Run
  dns_receive len buf = do
    r ← recvfrom c polls sn (if ltb max_dns_buf_size len then max_dns_buf_size else len)
    run ← run_of (parse_dns_msg (overlay r.bytes buf))
    _ ← close c polls sn
    pure run

  -- Behind check_DNS_timeout(): the end, another query with the `len` that was read last, or nothing;
  -- `again` is the rest of the loop.
  unfoldable pub dns_pass : Timeout → ℕ → List ℕ → M c.State Run → M c.State Run
  dns_pass timed_out len buf again = do
    _ ← close c polls sn
    pure (record { ret = pos 0; ip_from_dns = none })
  dns_pass retry len buf again = do _ ← sendto c polls sn buf len dns_ip ipport_domain; again
  dns_pass not_over len buf again = again

  -- The loop of DNS_run(). The list has, for each pass, how often the timer's handler has run since
  -- the pass before; the loop is cut off at its end.
  unfoldable pub dns_wait : List ℕ → Timer → List ℕ → M c.State Run
  dns_wait [] t buf = λ w. hung
  dns_wait (n ∷ ns) t buf = do
    len ← polling (get_sn_rx_rsr c polls sn)
    branch (len == 0)
        (dns_pass (check_dns_timeout (elapse n t)).0 len buf
          (dns_wait ns (check_dns_timeout (elapse n t)).1 buf))
        (dns_receive len buf)

  -- `id` is DNS_MSGID before the call, `buf` what pDNSMSG points at. A name that does not fit into
  -- `sname` is a fault.
  unfoldable pub dns_run : ℕ → List ℕ → List ℕ → List ℕ → M c.State Run
  dns_run id name buf ns = do
    _ ← socket c polls sn mr_udp 0 0
    elim (dns_makequery ((id + 1) % 2 ^ 16) 0 name) [
      | none ↦ (λ w. fault)
      | some query ↦ (do
        _ ← sendto c polls sn (overlay query buf) (length query) dns_ip ipport_domain
        dns_wait ns (record { dns_1s_tick = 0; retry_count = 0 }) (overlay query buf))
    ]
