-- ===== src/Atc.antt =====
-- atcmd.c: the AT commands, up to their handlers.
pub mod State
pub mod History
pub mod Divide
pub mod Run
