-- ===== src/Tftp.antt =====
-- tftp/server.c and tftp/client.c: chunks of a file over UDP, with one acknowledgement for each
-- packet.
pub mod Packet
pub mod AckQueue
pub mod Server
pub mod Client
pub mod Main
