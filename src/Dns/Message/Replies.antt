-- ===== src/Dns/Message/Replies.antt =====
-- parseDNSMSG() on a reply of a server.
use x_wizchip_io_library_dri.Base.{ℕ, ◌+◌, ◌*◌, ◌/◌, ◌%◌}

-- The number that the two bytes of put16() make.
abbrev read16 : ℕ → ℕ
read16 n = (n / 256 % 256 * 256 + n % 256) % 65536
