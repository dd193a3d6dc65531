-- ===== src/Irc.antt =====
-- irc/server.c and irc/client.c: a chat, where a server brings two clients together and they then talk
-- to one another.
pub mod Server
pub mod Client
pub mod Meeting
