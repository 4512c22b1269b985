-- ===== src/Dht/LookupManager/Reach.antt =====
-- inc/dht/get_peers_lookup_manager.h: the public operations as steps, and what holds after any of
-- them.
use bittorent_client.Common.{
  ℕ, Bytes, Option, none, some, List, [], ◌∷◌, Bool-cases, inl, inr, arith,
}
use mathlib.Core.List.{lookup}
use bittorent_client.Common.ByteStrings.{bytes_dec}
use bittorent_client.InfoHash.{InfoHash}
use bittorent_client.Dht.NodeId.{NodeId}
use bittorent_client.Dht.RoutingTable.{RoutingEntry, RoutingTable, closest, k_nodes}
use bittorent_client.Dht.Krpc.{KrpcMessage}
use bittorent_client.Dht.KademliaLookup.{
  KademliaLookup, new, remove_pending_txn, merge_nodes, has_pending,
}
use bittorent_client.Dht.LookupManager.{
  LookupManager, Lookups, StartResult, find_lookup, none_sent, expire_pending_lookups,
  expire_active_lookups,
}
use bittorent_client.Dht.LookupManager.Steps.{
  lookup_should_finish, advance_found, advance_lookup, respond_found, on_lookup_response,
  continue_lookup, answer, routed, on_response, visit, begin, start_with, start_or_advance,
  advance_all, tick,
}
use bittorent_client.Dht.LookupManager.Bounds.{
  IsBounded, InFlight, Holds, lookup-AllBounded, remove_pending_txn-IsBounded,
  finish_lookup-InFlight, expire_pending_from-AllBounded, expire_active_from-AllBounded,
  store-InFlight, over-IsBounded, advance-InFlight,
}

-- One public call, at a time, with draws and a routing table of its own.
pub data Step : LookupManager → LookupManager → Type 0 where
  starts :
      (now : ℕ) (random_txn : ℕ → Bytes) (table : RoutingTable) (hash : InfoHash)
      {m : LookupManager}
      → Step m (start_or_advance now random_txn table hash m).1
  responds :
      (now : ℕ) (random_txn : ℕ → Bytes) (table : RoutingTable) (msg : KrpcMessage)
      {m : LookupManager}
      → Step m (on_response now random_txn table msg m).1
  ticks :
      (now : ℕ) (random_txn : ℕ → Bytes) (table : RoutingTable) {m : LookupManager}
      → Step m (tick now random_txn table m).1
  expires_pending : (now : ℕ) {m : LookupManager} → Step m (expire_pending_lookups now m)
  expires_active : (now : ℕ) {m : LookupManager} → Step m (expire_active_lookups now m)

-- The calls made on a manager that has no lookup.
pub data Reachable (self_id : NodeId) : LookupManager → Type 0 where
  fresh :
      Reachable self_id
        (record { self_id = self_id; pending_lookups = []; kademlia_lookups = []; draws = 0 })
  after : {m n : LookupManager} → Reachable self_id m → Step m n → Reachable self_id n

expire_pending_lookups-InFlight :
    (now : ℕ) (m : LookupManager) → InFlight m → InFlight (expire_pending_lookups now m)
unfolding expire_pending_lookups
expire_pending_lookups-InFlight now m a =
    expire_pending_from-AllBounded now m.pending_lookups m.kademlia_lookups a

expire_active_lookups-InFlight :
    (now : ℕ) (m : LookupManager) → InFlight m → InFlight (expire_active_lookups now m)
unfolding expire_active_lookups
expire_active_lookups-InFlight now m a =
    expire_active_from-AllBounded now m.kademlia_lookups m.pending_lookups a

found : (hash : InfoHash) (m : LookupManager) → InFlight m → Holds (find_lookup hash m)
found hash m a = lookup-AllBounded hash m.kademlia_lookups a

heard-IsBounded :
    (msg : KrpcMessage) (self_id : NodeId) (l : KademliaLookup)
    → IsBounded l
    → IsBounded (merge_nodes msg.nodes self_id (remove_pending_txn msg.txn l))
unfolding merge_nodes
heard-IsBounded msg self_id l b = remove_pending_txn-IsBounded msg.txn l b

module _ (now : ℕ) (random_txn : ℕ → Bytes) (table : RoutingTable) where
  advance_found-InFlight :
      (hash : InfoHash) (m : LookupManager) (o : Option KademliaLookup)
      → Holds o
      → InFlight m
      → InFlight (advance_found now random_txn table hash m o).1
  advance_found-InFlight hash m none b a = a
  advance_found-InFlight hash m (some l) b a = advance-InFlight now random_txn table hash m l b a

  advance_lookup-InFlight :
      (hash : InfoHash) (m : LookupManager)
      → InFlight m
      → InFlight (advance_lookup now random_txn table hash m).1
  unfolding advance_lookup
  advance_lookup-InFlight hash m a =
      advance_found-InFlight hash m (find_lookup hash m) (found hash m a) a

  respond_found-InFlight :
      (hash : InfoHash) (msg : KrpcMessage) (m : LookupManager) (o : Option KademliaLookup)
      → Holds o
      → InFlight m
      → InFlight (respond_found now random_txn table hash msg m o)
  respond_found-InFlight hash msg m none b a = a
  respond_found-InFlight hash msg m (some l) b a =
      let heard = merge_nodes msg.nodes m.self_id (remove_pending_txn msg.txn l) in
      let r = lookup_should_finish now random_txn table m.self_id hash heard in
      let a' =
        store-InFlight now random_txn table hash r.1 m
          (over-IsBounded now random_txn table m.self_id hash heard
            (heard-IsBounded msg m.self_id l b))
          a in
      elim (Bool-cases r.0) [
        | inl over ↦ simp over (finish_lookup-InFlight hash _ a')
        | inr goes_on ↦ simp goes_on a'
      ]

  on_lookup_response-InFlight :
      (msg : KrpcMessage) (hash : InfoHash) (m : LookupManager)
      → InFlight m
      → InFlight (on_lookup_response now random_txn table msg hash m)
  unfolding on_lookup_response
  on_lookup_response-InFlight msg hash m a =
      respond_found-InFlight hash msg m (find_lookup hash m) (found hash m a) a

  continue_lookup-InFlight :
      (hash : InfoHash) (m : LookupManager) (o : Option KademliaLookup)
      → InFlight m
      → InFlight (continue_lookup now random_txn table hash m o).1
  continue_lookup-InFlight hash m none a = a
  continue_lookup-InFlight hash m (some l) a = advance_lookup-InFlight hash m a

  answer-InFlight :
      (hash : InfoHash) (msg : KrpcMessage) (m : LookupManager) (o : Option KademliaLookup)
      → InFlight m
      → InFlight (answer now random_txn table hash msg m o).1
  answer-InFlight hash msg m none a = a
  answer-InFlight hash msg m (some l) a =
      continue_lookup-InFlight hash _ _ (on_lookup_response-InFlight msg hash m a)

  routed-InFlight :
      (msg : KrpcMessage) (m : LookupManager) (o : Option (InfoHash × ℕ))
      → InFlight m
      → InFlight (routed now random_txn table msg m o).1
  routed-InFlight msg m none a = a
  routed-InFlight msg m (some b) a = answer-InFlight b.0 msg m (find_lookup b.0 m) a

  on_response-InFlight :
      (msg : KrpcMessage) (m : LookupManager)
      → InFlight m
      → InFlight (on_response now random_txn table msg m).1
  unfolding on_response
  on_response-InFlight msg m a =
      routed-InFlight msg m (lookup bytes_dec msg.txn m.pending_lookups) a

  visit-InFlight :
      (hash : InfoHash) (m : LookupManager) (o : Option KademliaLookup)
      → Holds o
      → InFlight m
      → InFlight (visit now random_txn table hash m o).1
  visit-InFlight hash m none b a = a
  visit-InFlight hash m (some l) b a =
      let r = lookup_should_finish now random_txn table m.self_id hash l in
      let a' =
        store-InFlight now random_txn table hash r.1 m
          (over-IsBounded now random_txn table m.self_id hash l b) a in
      elim (Bool-cases (has_pending l)) [
        | inl waits ↦ simp waits a
        | inr idle ↦ simp idle (elim (Bool-cases r.0) [
          | inl over ↦ simp over (finish_lookup-InFlight hash _ a')
          | inr goes_on ↦ simp goes_on (advance_lookup-InFlight hash _ a')
        ])
      ]

  begin-InFlight :
      (hash : InfoHash) (nodes : List RoutingEntry) (r : StartResult) (m : LookupManager)
      (o : Option KademliaLookup)
      → InFlight m
      → InFlight (begin now random_txn table hash nodes (r, m) o).1
  begin-InFlight hash nodes r m (some l) a = a
  begin-InFlight hash nodes r m none a =
      let a' : InFlight
          (record m { kademlia_lookups = (hash, new now hash nodes) ∷ m.kademlia_lookups }) =
        (omega arith, a) in
      elim (Bool-cases (none_sent r.outbound)) [
        | inl silent ↦ simp silent (advance_lookup-InFlight hash _ a')
        | inr sent ↦ simp sent a
      ]

  start_with-InFlight :
      (hash : InfoHash) (m : LookupManager) (nodes : List RoutingEntry)
      → InFlight m
      → InFlight (start_with now random_txn table hash m nodes).1
  start_with-InFlight hash m [] a = a
  start_with-InFlight hash m (n ∷ nodes) a =
      let m1 = expire_pending_lookups now m in
      let m2 = expire_active_lookups now m1 in
      let a2 = expire_active_lookups-InFlight now m1 (expire_pending_lookups-InFlight now m a) in
      let r = visit now random_txn table hash m2 (find_lookup hash m2) in
      let a3 = visit-InFlight hash m2 (find_lookup hash m2) (found hash m2 a2) a2 in
      begin-InFlight hash (n ∷ nodes) (r.0) (r.1) (find_lookup hash r.1) a3

  start_or_advance-InFlight :
      (hash : InfoHash) (m : LookupManager)
      → InFlight m
      → InFlight (start_or_advance now random_txn table hash m).1
  unfolding start_or_advance
  start_or_advance-InFlight hash m a = start_with-InFlight hash m (closest hash k_nodes table) a

  advance_all-InFlight :
      (ls : Lookups) (m : LookupManager)
      → InFlight m
      → InFlight (advance_all now random_txn table ls m).1
  unfolding advance_all
  advance_all-InFlight [] m a = a
  advance_all-InFlight (e ∷ ls) m a = advance_all-InFlight ls _ (advance_lookup-InFlight (e.0) m a)

  tick-InFlight : (m : LookupManager) → InFlight m → InFlight (tick now random_txn table m).1
  unfolding tick
  tick-InFlight m a =
      let m' = expire_pending_lookups now m in
      advance_all-InFlight m'.kademlia_lookups m' (expire_pending_lookups-InFlight now m a)

Step-InFlight : {m n : LookupManager} → Step m n → InFlight m → InFlight n
Step-InFlight (starts now random_txn table hash) a =
    start_or_advance-InFlight now random_txn table hash _ a
Step-InFlight (responds now random_txn table msg) a =
    on_response-InFlight now random_txn table msg _ a
Step-InFlight (ticks now random_txn table) a = tick-InFlight now random_txn table _ a
Step-InFlight (expires_pending now) a = expire_pending_lookups-InFlight now _ a
Step-InFlight (expires_active now) a = expire_active_lookups-InFlight now _ a

-- After any calls, at any times and with any draws and routing tables, no lookup has more than six
-- transactions in flight.
pub reachable-InFlight : {self_id : NodeId} {m : LookupManager} → Reachable self_id m → InFlight m
reachable-InFlight fresh = tt
reachable-InFlight (after r s) = Step-InFlight s (reachable-InFlight r)
