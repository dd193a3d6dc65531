-- ===== src/Ftp.antt =====
-- ftp/server.c and ftp/client.c: chunks of a file over TCP.
pub mod Server
pub mod Client
pub mod Main
