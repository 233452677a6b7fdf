-- ===== src/Ftp.antt =====
-- Internet/FTPServer/ftpd.c, without F_FILESYSTEM.
pub mod State
pub mod Commands
pub mod Port
pub mod Replies
pub mod Process
pub mod Daemon
