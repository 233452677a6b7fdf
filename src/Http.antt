-- ===== src/Http.antt =====
-- Internet/httpServer/httpParser.c: the texts of HTTP requests and responses.
pub mod Text
pub mod Url
pub mod Numbers
pub mod Pages
pub mod Request
pub mod Content
pub mod Response
pub mod Server
