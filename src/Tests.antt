-- ===== src/Tests.antt =====
-- The theorems at concrete inputs, one module for each part.
mod Tftp
mod Wire
mod Ftp
mod Irc
mod IrcClient
mod Chat
mod Https
mod Web
mod Tcp
mod Shell
