-- ===== src/Dht/KademliaLookup.antt =====
-- inc/dht/kademlia_lookup.h, src/dht/kademlia_lookup.cpp: the state of one iterative lookup. A
-- `std::set` is a list that is searched, and never holds an element twice.
pub mod Selection
pub mod Candidates
use bittorent_client.Common.{
  ℕ, zero, suc, Bytes, Bool, true, false, not, ◌&&◌, ◌||◌, List, [], ◌∷◌, ◌++◌, leb, if◌then◌else◌,
  take,
}
use bittorent_client.Common.ByteStrings.{bytes_eq}
use bittorent_client.Common.Sort.{sort}
use bittorent_client.InfoHash.{InfoHash}
use bittorent_client.PeerAddress.{PeerAddress, same_peer}
use bittorent_client.Dht.NodeId.{NodeId}
use bittorent_client.Dht.RoutingTable.{RoutingEntry, closer, k_nodes}

pub record KademliaLookup : Type 0 where
  pub info_hash : InfoHash
  pub target : NodeId
  pub candidates : List RoutingEntry
  pub queried : List PeerAddress
  pub pending_txns : List Bytes
  pub started : ℕ

-- `NodeId::from_info_hash` copies the bytes.
abbrev pub new : ℕ → InfoHash → List RoutingEntry → KademliaLookup
new now info_hash seed_candidates = record {
  info_hash = info_hash;
  target = info_hash;
  candidates = seed_candidates;
  queried = [];
  pending_txns = [];
  started = now;
}

unfoldable pub was_queried : PeerAddress → List PeerAddress → Bool
was_queried pa [] = false
was_queried pa (q ∷ queried) = same_peer pa q || was_queried pa queried

unfoldable pub all_queried : List PeerAddress → List RoutingEntry → Bool
unfolding was_queried
all_queried queried [] = true
all_queried queried (node ∷ nodes) = was_queried node.pa queried && all_queried queried nodes

abbrev pub all_candidates_queried : KademliaLookup → Bool
all_candidates_queried l = all_queried l.queried l.candidates

unfoldable pub has_txn : Bytes → List Bytes → Bool
has_txn txn [] = false
has_txn txn (t ∷ txns) = bytes_eq txn t || has_txn txn txns

unfoldable pub without_txn : Bytes → List Bytes → List Bytes
without_txn txn [] = []
without_txn txn (t ∷ txns) = if bytes_eq txn t then txns else t ∷ without_txn txn txns

abbrev pub has_pending : KademliaLookup → Bool
has_pending l = elim l.pending_txns [ [] ↦ false | _ ∷ _ ↦ true ]

unfoldable pub add_pending_txn : Bytes → KademliaLookup → KademliaLookup
unfolding has_txn
add_pending_txn txn l =
    if has_txn txn l.pending_txns then l else record l { pending_txns = txn ∷ l.pending_txns }

unfoldable pub remove_pending_txn : Bytes → KademliaLookup → KademliaLookup
unfolding without_txn
remove_pending_txn txn l = record l { pending_txns = without_txn txn l.pending_txns }

-- the nodes that are not this one
unfoldable pub others : NodeId → List RoutingEntry → List RoutingEntry
others self_id [] = []
others self_id (n ∷ nodes) =
    let rest = others self_id nodes in if bytes_eq n.id self_id then rest else n ∷ rest

unfoldable pub merge_nodes : List RoutingEntry → NodeId → KademliaLookup → KademliaLookup
unfolding others
merge_nodes nodes self_id l = record l {
  candidates = take k_nodes (sort (closer l.target) (l.candidates ++ others self_id nodes));
}

-- The loop of `select_next_candidates`, with the number of nodes that may still be selected.
unfoldable pub select_from :
    ℕ → List PeerAddress → List RoutingEntry → List RoutingEntry × List PeerAddress
unfolding was_queried
select_from room queried [] = ([], queried)
select_from zero queried (node ∷ nodes) = ([], queried)
select_from (suc room) queried (node ∷ nodes) =
    let skipped = select_from (suc room) queried nodes in
    let chosen = select_from room (node.pa ∷ queried) nodes in
    if was_queried node.pa queried then skipped else (node ∷ chosen.0, chosen.1)

unfoldable pub select_next_candidates : ℕ → KademliaLookup → List RoutingEntry × KademliaLookup
unfolding select_from
select_next_candidates count l =
    let r = select_from count l.queried l.candidates in (r.0, record l { queried = r.1 })
