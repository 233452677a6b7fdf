-- ===== src/Dhcp.antt =====
-- dhcp.c, the DHCP client.
pub mod Options
pub mod State
pub mod Messages
pub mod Init
pub mod Machine
