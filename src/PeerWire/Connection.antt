-- ===== src/PeerWire/Connection.antt =====
-- inc/peer_wire/peer_connection.h, src/peer_wire/peer_connection.cpp: one peer connection.
pub mod State
pub mod Requests
pub mod Handlers
pub mod Tiling
pub mod Serving
pub mod Bitfield
