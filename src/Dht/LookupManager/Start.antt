-- ===== src/Dht/LookupManager/Start.antt =====
-- src/dht/get_peers_lookup_manager.cpp, `start_or_advance`: every case of it.
use bittorent_client.Common.{
  ℕ, zero, suc, ◌-◌, ◌≤◌, ◌≡◌, refl, sym, Bytes, true, false, Option, none, some, List, [], ◌∷◌,
  length, leb, Bool-cases, inl, inr, arith,
}
use mathlib.Core.Path.{subst}
use mathlib.Core.List.{lookup}
use bittorent_client.Common.ByteStrings.{bytes_dec}
use bittorent_client.InfoHash.{InfoHash}
use bittorent_client.LruCache.Lookup.{IsUnique, lookup-unlink}
use bittorent_client.Dht.NodeId.{NodeId}
use bittorent_client.Dht.RoutingTable.{RoutingEntry, RoutingTable, closest, k_nodes}
use bittorent_client.Dht.KademliaLookup.{
  KademliaLookup, new, was_queried, all_queried, select_next_candidates, all_candidates_queried,
  has_pending, merge_nodes,
}
use bittorent_client.Dht.LookupManager.{
  LookupManager, StartResult, find_lookup, none_sent, nothing_started, expire_pending_lookups,
  expire_active_lookups, finish, finish_lookup, lookup_alpha,
}
use bittorent_client.Dht.LookupManager.Steps.{
  lookup_should_finish, replenished, store, advance, advance_found, advance_lookup, visit, begin,
  start_with, start_or_advance,
}
use bittorent_client.Dht.LookupManager.Busy.{
  IsBusy, is_empty, select_from-unqueried, lookup-modify, modify-IsUnique,
  expire_pending_from-IsUnique, expire_active_from-IsUnique, none_waits, settle-IsBusy,
}

-- Nothing of the lookup is in flight, and it knows a node that it has not asked.
abbrev CanSend : KademliaLookup → Type 0
CanSend l = (has_pending l ≡ false) × (all_candidates_queried l ≡ false)

select_next_candidates-unqueried :
    (count : ℕ) (l : KademliaLookup)
    → 1 ≤ count
    → all_candidates_queried l ≡ false
    → is_empty (select_next_candidates count l).0 ≡ false
unfolding select_next_candidates
select_next_candidates-unqueried zero l p h = absurd (omega arith)
select_next_candidates-unqueried (suc room) l p h =
    select_from-unqueried room l.queried l.candidates h

replenished-CanSend :
    (self_id : NodeId) (nodes : List RoutingEntry) (l : KademliaLookup)
    → has_pending l ≡ false
    → (replenished self_id nodes l).0 ≡ false
    → CanSend (replenished self_id nodes l).1
unfolding merge_nodes
replenished-CanSend self_id [] l h g = absurd (ground (arith, g))
replenished-CanSend self_id (n ∷ nodes) l h g =
    elim (Bool-cases (all_candidates_queried (merge_nodes (n ∷ nodes) self_id l))) [
      | inl over ↦ absurd (ground (arith, g, over))
      | inr left ↦ simp left (h, refl)
    ]

-- `erase` of the only entry
finished :
    (hash : InfoHash) (m : LookupManager) (l : KademliaLookup)
    → find_lookup hash m ≡ some l
    → IsUnique bytes_dec m.kademlia_lookups
    → find_lookup hash (finish_lookup hash m) ≡ none
unfolding finish_lookup
finished hash m l f u =
    subst (λ o. find_lookup hash (finish hash m o) ≡ none) (sym f)
      (lookup-unlink bytes_dec hash m.kademlia_lookups u)

module _ (now : ℕ) (random_txn : ℕ → Bytes) (table : RoutingTable) where
  lookup_should_finish-idle :
      (self_id : NodeId) (hash : InfoHash) (l : KademliaLookup)
      → CanSend l
      → lookup_should_finish now random_txn table self_id hash l ≡ (false, l)
  unfolding lookup_should_finish
  lookup_should_finish-idle self_id hash l c = rw (c.0, c.1) refl

  lookup_should_finish-CanSend :
      (self_id : NodeId) (hash : InfoHash) (l : KademliaLookup)
      → has_pending l ≡ false
      → (lookup_should_finish now random_txn table self_id hash l).0 ≡ false
      → CanSend (lookup_should_finish now random_txn table self_id hash l).1
  unfolding lookup_should_finish
  lookup_should_finish-CanSend self_id hash l h =
      rw h (elim (Bool-cases (all_candidates_queried l)) [
        | inl asked ↦ rw asked (replenished-CanSend self_id (closest hash k_nodes table) l h)
        | inr left ↦ rw left (λ g. (h, left))
      ])

  advance-IsBusy :
      (hash : InfoHash) (m : LookupManager) (l : KademliaLookup)
      → find_lookup hash m ≡ some l
      → CanSend l
      → IsBusy hash (advance now random_txn table hash m l).1
  advance-IsBusy hash m l f c =
      let none_sent : length l.pending_txns ≡ 0 = none_waits l.pending_txns c.0 in
      let next = select_next_candidates (lookup_alpha - length l.pending_txns) l in
      let some_node =
        select_next_candidates-unqueried (lookup_alpha - length l.pending_txns) l
          (omega (arith, none_sent)) c.1 in
      let busy = settle-IsBusy now random_txn table hash m next.1 l next.0 f some_node in
      simp (lookup_should_finish-idle m.self_id hash l c)
        (elim (Bool-cases (leb lookup_alpha (length l.pending_txns))) [
          | inl full ↦ absurd (ground (arith, full, none_sent))
          | inr room ↦ simp room busy
        ])

  advance_lookup-IsBusy :
      (hash : InfoHash) (m : LookupManager) (l : KademliaLookup)
      → find_lookup hash m ≡ some l
      → CanSend l
      → IsBusy hash (advance_lookup now random_txn table hash m).1
  unfolding advance_lookup
  advance_lookup-IsBusy hash m l f c =
      subst (λ o. IsBusy hash (advance_found now random_txn table hash m o).1) (sym f)
        (advance-IsBusy hash m l f c)

  begun :
      (hash : InfoHash) (n : RoutingEntry) (nodes : List RoutingEntry) (r : StartResult)
      (m : LookupManager)
      → none_sent r.outbound ≡ true
      → IsBusy hash (begin now random_txn table hash (n ∷ nodes) (r, m) none).1
  unfolding lookup all_queried was_queried
  begun hash n nodes r m h =
      let l = new now hash (n ∷ nodes) in
      let m' = record m { kademlia_lookups = (hash, l) ∷ m.kademlia_lookups } in
      let there : find_lookup hash m' ≡ some l = ground arith in
      simp h (advance_lookup-IsBusy hash m' l there (refl, refl))

  -- the case of a hash that has a lookup
  visited :
      (hash : InfoHash) (n : RoutingEntry) (nodes : List RoutingEntry) (m : LookupManager)
      (l : KademliaLookup)
      → IsUnique bytes_dec m.kademlia_lookups
      → find_lookup hash m ≡ some l
      → IsBusy hash
          (begin now random_txn table hash
            (n ∷ nodes)
            (visit now random_txn table hash m (some l))
            (find_lookup hash (visit now random_txn table hash m (some l)).1)).1
  visited hash n nodes m l u f =
      let r = lookup_should_finish now random_txn table m.self_id hash l in
      let m' = store now random_txn table hash r.1 m in
      let there = lookup-modify hash (λ _. r.1) m.kademlia_lookups l f in
      let u' = modify-IsUnique hash (λ _. r.1) m.kademlia_lookups u in
      elim (Bool-cases (has_pending l)) [
        | inl waits ↦ simp (waits, f) (l, refl, waits)
        | inr idle ↦ simp idle (elim (Bool-cases r.0) [
          | inl over ↦ simp over (
              rw (finished hash m' r.1 there u') (
                begun hash n nodes
                  (record nothing_started { cleared_exhausted = true; lookup_completed = true })
                  (finish_lookup hash m') refl))
          | inr goes_on ↦ simp goes_on (
              let a = advance_lookup now random_txn table hash m' in
              let busy =
                advance_lookup-IsBusy hash m' r.1 there
                  (lookup_should_finish-CanSend m.self_id hash l idle goes_on) in
              subst
                (λ o.
                  IsBusy hash
                    (begin now random_txn table hash (n ∷ nodes)
                      (
                        record nothing_started {
                          outbound = a.0.outbound;
                          lookup_completed = a.0.lookup_completed;
                        },
                        a.1,
                      )
                      o).1)
                (sym busy.1) busy)
        ])
      ]

  visit-IsBusy :
      (hash : InfoHash) (n : RoutingEntry) (nodes : List RoutingEntry) (m : LookupManager)
      (o : Option KademliaLookup)
      → IsUnique bytes_dec m.kademlia_lookups
      → find_lookup hash m ≡ o
      → IsBusy hash
          (begin now random_txn table hash
            (n ∷ nodes)
            (visit now random_txn table hash m o)
            (find_lookup hash (visit now random_txn table hash m o).1)).1
  visit-IsBusy hash n nodes m none u f = simp f (begun hash n nodes nothing_started m refl)
  visit-IsBusy hash n nodes m (some l) u f = visited hash n nodes m l u f

  start_with-IsBusy :
      (hash : InfoHash) (m : LookupManager) (nodes : List RoutingEntry)
      → IsUnique bytes_dec m.kademlia_lookups
      → is_empty nodes ≡ false
      → IsBusy hash (start_with now random_txn table hash m nodes).1
  unfolding expire_pending_lookups expire_active_lookups
  start_with-IsBusy hash m [] u h = absurd (ground (arith, h))
  start_with-IsBusy hash m (n ∷ nodes) u h =
      let m1 = expire_pending_lookups now m in
      let m2 = expire_active_lookups now m1 in
      let u2 =
        expire_active_from-IsUnique now m1.kademlia_lookups m1.pending_lookups
          (expire_pending_from-IsUnique now m.pending_lookups m.kademlia_lookups u) in
      visit-IsBusy hash n nodes m2 (find_lookup hash m2) u2 refl

  -- When the routing table has a node, `start_or_advance` leaves a lookup for the hash with at least
  -- one query in flight, whatever state the lookups of the manager were in; the hashes of its map
  -- are distinct.
  pub start_or_advance-IsBusy :
      (hash : InfoHash) (m : LookupManager)
      → IsUnique bytes_dec m.kademlia_lookups
      → is_empty (closest hash k_nodes table) ≡ false
      → IsBusy hash (start_or_advance now random_txn table hash m).1
  unfolding start_or_advance
  start_or_advance-IsBusy hash m u h = start_with-IsBusy hash m (closest hash k_nodes table) u h
