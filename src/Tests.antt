-- ===== src/Tests.antt =====
-- Runs on concrete inputs, and each theorem about the code at one.
mod Pieces
mod Wire
mod Encoding
mod Table
mod Nodes
mod Disk
mod Client
mod Swarm
mod Torrent
mod Http
