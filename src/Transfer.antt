-- ===== src/Transfer.antt =====
-- What the TCP programs (ftp) and the UDP programs (tftp) share: the text protocol of requests and
-- replies, and the split of a file into chunks.
pub mod Protocol
pub mod Plan
pub mod Output
