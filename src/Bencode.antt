-- ===== src/Bencode.antt =====
-- Bencode, the format of torrent files, tracker replies and DHT messages: inc/bencode, src/bencode.
pub mod Types
pub mod Encoder
pub mod Parser
