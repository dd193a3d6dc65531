-- ===== src/Tcp.antt =====
-- archive/file-transfer/tcp-file-transfer/: an earlier transfer of a file in segments over TCP.
pub mod Server
pub mod Client
pub mod Segment
