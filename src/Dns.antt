-- ===== src/Dns.antt =====
-- dns.c, the DNS client.
pub mod Name
pub mod Message
pub mod Query
pub mod Client
