-- ===== src/Dht.antt =====
-- The DHT node (src/dht/, inc/dht/).
pub mod NodeId
pub mod RoutingTable
pub mod KademliaLookup
pub mod PeerStore
pub mod Announce
pub mod Token
pub mod CompactNode
pub mod Krpc
pub mod LookupManager
pub mod DhtClient
