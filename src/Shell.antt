-- ===== src/Shell.antt =====
-- The archived remote shell, archive/shell/src: the rounds of the server's child for one connection,
-- and those of the client.
pub mod Server
pub mod Client
