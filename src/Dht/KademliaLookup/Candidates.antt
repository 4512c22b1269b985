-- ===== src/Dht/KademliaLookup/Candidates.antt =====
-- src/dht/kademlia_lookup.cpp, `merge_nodes`: which candidates a lookup keeps.
use bittorent_client.Dht.NodeId.{NodeId}
use bittorent_client.Dht.KademliaLookup.{KademliaLookup}
