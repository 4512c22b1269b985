-- ===== src/Dht/LookupManager/Steps.antt =====
-- src/dht/get_peers_lookup_manager.cpp: how a lookup goes on, at the time `now` of a call. The calls
-- of `random_txn` are numbered, and `table` is the routing table.
use bittorent_client.Common.{
  ℕ, ◌+◌, ◌-◌, Bytes, Bool, true, false, not, ◌||◌, Option, none, some, List, [], ◌∷◌, ◌++◌, leb,
  if◌then◌else◌, length,
}
use mathlib.Core.List.{lookup}
use bittorent_client.Common.ByteStrings.{bytes_dec}
use bittorent_client.InfoHash.{InfoHash}
use bittorent_client.LruCache.{unlink}
use bittorent_client.Dht.NodeId.{NodeId}
use bittorent_client.Dht.RoutingTable.{RoutingEntry, RoutingTable, closest, k_nodes}
use bittorent_client.Dht.Announce.{assign}
use bittorent_client.Dht.Krpc.{KrpcMessage, make_get_peers}
use bittorent_client.Dht.KademliaLookup.{
  KademliaLookup, new, all_candidates_queried, has_pending, add_pending_txn, remove_pending_txn,
  merge_nodes, select_next_candidates,
}
use bittorent_client.Dht.LookupManager.{
  lookup_alpha, OutboundKrpc, LookupManager, AdvanceResult, StartResult, ResponseResult,
  nothing_sent, completed, nothing_started, none_sent, modify, find_lookup, expire_pending_lookups,
  expire_active_lookups, finish_lookup,
}

-- What the routing table adds, where it has nodes.
abbrev pub replenished : NodeId → List RoutingEntry → KademliaLookup → Bool × KademliaLookup
replenished self_id [] l = (true, l)
replenished self_id (n ∷ nodes) l =
    let l' = merge_nodes (n ∷ nodes) self_id l in
    if all_candidates_queried l' then (true, l') else (false, l')

module _ (now : ℕ) (random_txn : ℕ → Bytes) (table : RoutingTable) where
  -- Whether a lookup is over, and the lookup, which may have got candidates.
  unfoldable pub lookup_should_finish : NodeId → InfoHash → KademliaLookup → Bool × KademliaLookup
  lookup_should_finish self_id hash l =
      if has_pending l || not (all_candidates_queried l)
      then (false, l)
      else replenished self_id (closest hash k_nodes table) l

  -- The loop over the chosen nodes.
  unfoldable pub send_queries :
      InfoHash
      → List RoutingEntry
      → KademliaLookup
      → LookupManager
      → List OutboundKrpc × (KademliaLookup × LookupManager)
  send_queries hash [] l m = ([], (l, m))
  send_queries hash (node ∷ nodes) l m =
      let txn = random_txn m.draws in
      let rest = send_queries hash nodes (add_pending_txn txn l) (record m {
        pending_lookups = assign bytes_dec txn (hash, now) m.pending_lookups;
        draws = m.draws + 1;
      }) in
      (record { msg = make_get_peers txn m.self_id hash; pa = node.pa } ∷ rest.0, rest.1)

  -- The lookup is a reference into the map.
  abbrev pub store : InfoHash → KademliaLookup → LookupManager → LookupManager
  store hash l m = record m { kademlia_lookups = modify hash (λ _. l) m.kademlia_lookups }

  -- behind the loop of `advance_lookup`
  abbrev pub settle :
      InfoHash
      → List OutboundKrpc × (KademliaLookup × LookupManager)
      → AdvanceResult × LookupManager
  settle hash ([], (l, m)) =
      let (over, l') = lookup_should_finish m.self_id hash l in
      let m' = store hash l' m in
      if over then (completed, finish_lookup hash m') else (nothing_sent, m')
  settle hash (o ∷ outbound, (l, m)) =
      (record { outbound = o ∷ outbound; lookup_completed = false }, store hash l m)

  abbrev pub advance : InfoHash → LookupManager → KademliaLookup → AdvanceResult × LookupManager
  advance hash m l =
      let (over, l1) = lookup_should_finish m.self_id hash l in
      let in_flight = length l1.pending_txns in
      let (next, l2) = select_next_candidates (lookup_alpha - in_flight) l1 in
      if over
      then (completed, finish_lookup hash (store hash l1 m))
      else if leb lookup_alpha in_flight
      then (nothing_sent, store hash l1 m)
      else settle hash (send_queries hash next l2 m)

  abbrev pub advance_found :
      InfoHash → LookupManager → Option KademliaLookup → AdvanceResult × LookupManager
  advance_found hash m none = (nothing_sent, m)
  advance_found hash m (some l) = advance hash m l

  unfoldable pub advance_lookup : InfoHash → LookupManager → AdvanceResult × LookupManager
  advance_lookup hash m = advance_found hash m (find_lookup hash m)

  abbrev pub respond : InfoHash → KrpcMessage → LookupManager → KademliaLookup → LookupManager
  respond hash msg m l =
      let heard = merge_nodes msg.nodes m.self_id (remove_pending_txn msg.txn l) in
      let (over, l') = lookup_should_finish m.self_id hash heard in
      let m' = store hash l' m in if over then finish_lookup hash m' else m'

  abbrev pub respond_found :
      InfoHash → KrpcMessage → LookupManager → Option KademliaLookup → LookupManager
  respond_found hash msg m none = m
  respond_found hash msg m (some l) = respond hash msg m l

  unfoldable pub on_lookup_response : KrpcMessage → InfoHash → LookupManager → LookupManager
  on_lookup_response msg hash m = respond_found hash msg m (find_lookup hash m)

  -- the part of `on_response` for a lookup that is active
  abbrev pub continue_lookup :
      InfoHash → LookupManager → Option KademliaLookup → AdvanceResult × LookupManager
  continue_lookup hash m none = (completed, m)
  continue_lookup hash m (some l) = advance_lookup hash m

  abbrev pub answer :
      InfoHash → KrpcMessage → LookupManager → Option KademliaLookup → AdvanceResult × LookupManager
  answer hash msg m none = (nothing_sent, m)
  answer hash msg m (some _) =
      let m' = on_lookup_response msg hash m in continue_lookup hash m' (find_lookup hash m')

  abbrev pub forget : Bytes → LookupManager → LookupManager
  forget txn m = record m { pending_lookups = unlink bytes_dec txn m.pending_lookups }

  abbrev pub routed :
      KrpcMessage → LookupManager → Option (InfoHash × ℕ) → ResponseResult × LookupManager
  routed msg m none =
      (record { txn_known = false; info_hash = none; outbound = []; lookup_completed = false }, m)
  routed msg m (some b) =
      let (r, m') = answer b.0 msg m (find_lookup b.0 m) in
      (
        record {
          txn_known = true;
          info_hash = some b.0;
          outbound = r.outbound;
          lookup_completed = r.lookup_completed;
        },
        forget msg.txn m',
      )

  unfoldable pub on_response : KrpcMessage → LookupManager → ResponseResult × LookupManager
  on_response msg m = routed msg m (lookup bytes_dec msg.txn m.pending_lookups)

  -- The lookup that the map has for the hash.
  abbrev pub visit : InfoHash → LookupManager → Option KademliaLookup → StartResult × LookupManager
  visit hash m none = (nothing_started, m)
  visit hash m (some l) =
      let (over, l') = lookup_should_finish m.self_id hash l in
      let m' = store hash l' m in
      let (r, advanced) = advance_lookup hash m' in
      if has_pending l
      then (record nothing_started { skipped_pending = true }, m)
      else if over
      then (
        record nothing_started { cleared_exhausted = true; lookup_completed = true },
        finish_lookup hash m',
      )
      else (
        record nothing_started { outbound = r.outbound; lookup_completed = r.lookup_completed },
        advanced,
      )

  -- a lookup with the nodes closest to the hash, where there is none
  abbrev pub begin :
      InfoHash
      → List RoutingEntry
      → StartResult × LookupManager
      → Option KademliaLookup
      → StartResult × LookupManager
  begin hash nodes (r, m) (some _) = (r, m)
  begin hash nodes (r, m) none =
      let l = new now hash nodes in
      let (a, m') =
        advance_lookup hash (record m { kademlia_lookups = (hash, l) ∷ m.kademlia_lookups }) in
      if none_sent r.outbound
      then (
        record r {
          outbound = a.outbound;
          started_new = true;
          lookup_completed = a.lookup_completed;
        },
        m',
      )
      else (r, m)

  abbrev pub start_with : InfoHash → LookupManager → List RoutingEntry → StartResult × LookupManager
  start_with hash m [] = (record nothing_started { no_candidates = true }, m)
  start_with hash m (n ∷ nodes) =
      let m' = expire_active_lookups now (expire_pending_lookups now m) in
      let r = visit hash m' (find_lookup hash m') in begin hash (n ∷ nodes) r (find_lookup hash r.1)

  unfoldable pub start_or_advance : InfoHash → LookupManager → StartResult × LookupManager
  start_or_advance hash m = start_with hash m (closest hash k_nodes table)

  -- the loop of `tick` over the hashes
  unfoldable pub advance_all :
      List (InfoHash × KademliaLookup) → LookupManager → List OutboundKrpc × LookupManager
  advance_all [] m = ([], m)
  advance_all (e ∷ ls) m =
      let (r, m1) = advance_lookup e.0 m in
      let (out, m2) = advance_all ls m1 in (r.outbound ++ out, m2)

  unfoldable pub tick : LookupManager → List OutboundKrpc × LookupManager
  unfolding advance_all
  tick m = let m' = expire_pending_lookups now m in advance_all m'.kademlia_lookups m'
