-- ===== src/PeerWire.antt =====
-- The peer wire protocol: inc/peer_wire and src/peer_wire.
pub mod Message
pub mod Handshake
pub mod Pieces
pub mod Disk
pub mod Connection
pub mod TorrentManager
