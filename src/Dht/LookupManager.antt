-- ===== src/Dht/LookupManager.antt =====
-- inc/dht/get_peers_lookup_manager.h, src/dht/get_peers_lookup_manager.cpp: the lookups for the peers
-- of info hashes, one for each hash, and which transaction belongs to which lookup. An
-- `unordered_map` is a list of its entries, in an order of no meaning. The mutex makes each method
-- one step; `now` is `steady_clock::now()`, and `random_txn` gives them in turn.
pub mod Steps
pub mod Bounds
pub mod Reach
pub mod Busy
pub mod Start
pub mod Expiry
pub mod Once
use bittorent_client.Common.{
  ℕ, zero, suc, ◌+◌, ◌-◌, ◌*◌, ◌^◌, Bytes, Bool, true, false, not, ◌&&◌, ◌||◌, Option, none, some,
  List, [], ◌∷◌, ◌++◌, leb, ◌==◌, if◌then◌else◌, length,
}
use mathlib.Core.List.{lookup}
use bittorent_client.Common.ByteStrings.{bytes_eq, bytes_dec}
use bittorent_client.InfoHash.{InfoHash}
use bittorent_client.PeerAddress.{PeerAddress}
use bittorent_client.LruCache.{unlink}
use bittorent_client.Dht.NodeId.{NodeId}
use bittorent_client.Dht.RoutingTable.{RoutingEntry, RoutingTable, closest, k_nodes, minute}
use bittorent_client.Dht.Announce.{assign}
use bittorent_client.Dht.Krpc.{KrpcMessage, make_get_peers}
use bittorent_client.Dht.KademliaLookup.{
  KademliaLookup, new, all_candidates_queried, has_pending, add_pending_txn, remove_pending_txn,
  merge_nodes, select_next_candidates,
}

abbrev pub get_peers_txn_ttl : ℕ
get_peers_txn_ttl = 30 * 10 ^ 9

abbrev pub get_peers_lookup_ttl : ℕ
get_peers_lookup_ttl = 5 * minute

abbrev pub lookup_alpha : ℕ
lookup_alpha = 6

pub record OutboundKrpc : Type 0 where
  pub msg : Bytes
  pub pa : PeerAddress

-- A transaction's hash, and when it was sent.
abbrev pub Pending : Type 0
Pending = List (Bytes × (InfoHash × ℕ))

abbrev pub Lookups : Type 0
Lookups = List (InfoHash × KademliaLookup)

-- `draws` counts the calls of `random_txn`.
pub record LookupManager : Type 0 where
  pub self_id : NodeId
  pub pending_lookups : Pending
  pub kademlia_lookups : Lookups
  pub draws : ℕ

pub record AdvanceResult : Type 0 where
  pub outbound : List OutboundKrpc
  pub lookup_completed : Bool

pub record StartResult : Type 0 where
  pub outbound : List OutboundKrpc
  pub started_new : Bool
  pub skipped_pending : Bool
  pub cleared_exhausted : Bool
  pub no_candidates : Bool
  pub lookup_completed : Bool

pub record ResponseResult : Type 0 where
  pub txn_known : Bool
  pub info_hash : Option InfoHash
  pub outbound : List OutboundKrpc
  pub lookup_completed : Bool

abbrev pub nothing_sent : AdvanceResult
nothing_sent = record { outbound = []; lookup_completed = false }

abbrev pub completed : AdvanceResult
completed = record { outbound = []; lookup_completed = true }

abbrev pub nothing_started : StartResult
nothing_started = record {
  outbound = [];
  started_new = false;
  skipped_pending = false;
  cleared_exhausted = false;
  no_candidates = false;
  lookup_completed = false;
}

abbrev pub none_sent : List OutboundKrpc → Bool
none_sent [] = true
none_sent (o ∷ outbound) = false

-- a change to the lookup of a hash, where there is one
unfoldable pub modify : InfoHash → (KademliaLookup → KademliaLookup) → Lookups → Lookups
modify k f [] = []
modify k f (e ∷ l) =
    let rest = modify k f l in
    elim (bytes_dec k e.0) [ yes _ ↦ (e.0, f (e.1)) ∷ l | no _ ↦ e ∷ rest ]

abbrev pub find_lookup : InfoHash → LookupManager → Option KademliaLookup
find_lookup hash m = lookup bytes_dec hash m.kademlia_lookups

-- `pending_lookups_.erase(txn)` for each of them
unfoldable pub erase_txns : List Bytes → Pending → Pending
erase_txns [] p = p
erase_txns (txn ∷ txns) p = erase_txns txns (unlink bytes_dec txn p)

-- the loop of `expire_pending_lookups_locked`
unfoldable pub expire_pending_from : ℕ → Pending → Lookups → Pending × Lookups
unfolding modify
expire_pending_from now [] ls = ([], ls)
expire_pending_from now (e ∷ p) ls =
    let dropped = expire_pending_from now p (modify (e.1.0) (remove_pending_txn e.0) ls) in
    let kept = expire_pending_from now p ls in
    if leb (e.1.1 + get_peers_txn_ttl) now then dropped else (e ∷ kept.0, kept.1)

unfoldable pub expire_pending_lookups : ℕ → LookupManager → LookupManager
expire_pending_lookups now m =
    let r = expire_pending_from now m.pending_lookups m.kademlia_lookups in
    record m { pending_lookups = r.0; kademlia_lookups = r.1 }

-- the loop of `expire_active_lookups_locked`
unfoldable pub expire_active_from : ℕ → Lookups → Pending → Lookups × Pending
unfolding erase_txns
expire_active_from now [] p = ([], p)
expire_active_from now (e ∷ ls) p =
    let dropped = expire_active_from now ls (erase_txns (e.1.pending_txns) p) in
    let kept = expire_active_from now ls p in
    if leb (e.1.started + get_peers_lookup_ttl) now then dropped else (e ∷ kept.0, kept.1)

unfoldable pub expire_active_lookups : ℕ → LookupManager → LookupManager
expire_active_lookups now m =
    let r = expire_active_from now m.kademlia_lookups m.pending_lookups in
    record m { kademlia_lookups = r.0; pending_lookups = r.1 }

abbrev pub finish : InfoHash → LookupManager → Option KademliaLookup → LookupManager
finish hash m none = m
finish hash m (some l) = record m {
  pending_lookups = erase_txns l.pending_txns m.pending_lookups;
  kademlia_lookups = unlink bytes_dec hash m.kademlia_lookups;
}

unfoldable pub finish_lookup : InfoHash → LookupManager → LookupManager
finish_lookup hash m = finish hash m (find_lookup hash m)

unfoldable pub info_hash_for_txn : Bytes → LookupManager → Option InfoHash
info_hash_for_txn txn m = elim (lookup bytes_dec txn m.pending_lookups) [
  | none ↦ none
  | some b ↦ some b.0
]

unfoldable pub bound_to : InfoHash → Pending → Bool
bound_to hash [] = false
bound_to hash (e ∷ p) = bytes_eq (e.1.0) hash || bound_to hash p

unfoldable pub has_pending_lookup : InfoHash → LookupManager → Bool
has_pending_lookup hash m =
    elim (find_lookup hash m) [ none ↦ false | some l ↦ has_pending l ]
    || bound_to hash m.pending_lookups
