-- ===== src/Https.antt =====
-- https/client.c: what it makes of a URL and of the response.
pub mod Client
