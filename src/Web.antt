-- ===== src/Web.antt =====
-- The archived downloaders of web pages in archive/web-downloader/.
pub mod Response
pub mod Secure
pub mod Simple
