-- ===== src/Socket.antt =====
-- Ethernet/socket.c for the W5500: the Berkeley style socket calls.
pub mod Codes
pub mod State
pub mod Open
pub mod Tcp
pub mod Udp
pub mod Options
