-- ===== src/W5500.antt =====
-- Ethernet/W5500: the register map and the socket buffers of the W5500 (_WIZCHIP_ is W5500).
pub mod Regs
pub mod Common
pub mod Buffers
pub mod Spi
