-- ===== src/Chat.antt =====
-- archive/chat/: the list of clients, the server over it, and the client.
pub mod ClientList
pub mod Server
pub mod Client
