-- ===== src/Dht/LookupManager/Bounds.antt =====
-- src/dht/get_peers_lookup_manager.cpp: how many queries of a lookup are in flight.
use bittorent_client.Common.{
  ℕ, suc, ◌+◌, ◌-◌, ◌≤◌, ◌≡◌, refl, sym, Bytes, Option, none, some, List, [], ◌∷◌, length, All,
  arith, leb, Bool-cases, inl, inr,
}
use mathlib.Core.Path.{subst}
use mathlib.Core.List.{lookup}
use mathlib.Core.Logic.{ite}
use bittorent_client.Common.ByteStrings.{bytes_dec}
use bittorent_client.InfoHash.{InfoHash}
use bittorent_client.LruCache.{unlink}
use bittorent_client.Dht.NodeId.{NodeId}
use bittorent_client.Dht.RoutingTable.{RoutingEntry, RoutingTable, closest, k_nodes}
use bittorent_client.Dht.KademliaLookup.{
  KademliaLookup, new, without_txn, add_pending_txn, remove_pending_txn, merge_nodes,
  select_next_candidates,
}
use bittorent_client.Dht.KademliaLookup.Selection.{select_next_candidates_lem}
use bittorent_client.Dht.LookupManager.{
  get_peers_txn_ttl, get_peers_lookup_ttl, lookup_alpha, OutboundKrpc, Pending, Lookups,
  LookupManager, modify, find_lookup, erase_txns, expire_pending_from, expire_active_from, finish,
  finish_lookup,
}
use bittorent_client.Dht.LookupManager.Steps.{
  lookup_should_finish, send_queries, store, settle, advance, replenished,
}

-- At most six queries of the lookup wait for a response.
abbrev pub IsBounded : KademliaLookup → Type 0
IsBounded l = length l.pending_txns ≤ lookup_alpha

abbrev pub AllBounded : Lookups → Type 0
AllBounded ls = All (λ (e : InfoHash × KademliaLookup). IsBounded e.1) ls

abbrev pub InFlight : LookupManager → Type 0
InFlight m = AllBounded m.kademlia_lookups

length-without_txn : (txn : Bytes) (txns : List Bytes) → length (without_txn txn txns) ≤ length txns
unfolding without_txn
length-without_txn txn [] = omega arith
length-without_txn txn (t ∷ txns) = ground (arith, length-without_txn txn txns)

pub remove_pending_txn-IsBounded :
    (txn : Bytes) (l : KademliaLookup) → IsBounded l → IsBounded (remove_pending_txn txn l)
unfolding remove_pending_txn
remove_pending_txn-IsBounded txn l h = omega (arith, length-without_txn txn l.pending_txns)

length-add_pending_txn :
    (txn : Bytes) (l : KademliaLookup)
    → length (add_pending_txn txn l).pending_txns ≤ suc (length l.pending_txns)
unfolding add_pending_txn
length-add_pending_txn txn l = ground arith

modify-AllBounded :
    (hash : InfoHash) (f : KademliaLookup → KademliaLookup) (ls : Lookups)
    → ((l : KademliaLookup) → IsBounded l → IsBounded (f l))
    → AllBounded ls
    → AllBounded (modify hash f ls)
unfolding modify
modify-AllBounded hash f [] g a = tt
modify-AllBounded hash f (e ∷ ls) g a =
    elim (bytes_dec hash e.0)
      as (λ d. AllBounded (elim d [ yes _ ↦ (e.0, f (e.1)) ∷ ls | no _ ↦ e ∷ modify hash f ls ])) [
        | yes _ ↦ (g (e.1) (a.0), a.1)
        | no _ ↦ (a.0, modify-AllBounded hash f ls g (a.1))
      ]

unlink-AllBounded :
    (hash : InfoHash) (ls : Lookups) → AllBounded ls → AllBounded (unlink bytes_dec hash ls)
unfolding unlink
unlink-AllBounded hash [] a = tt
unlink-AllBounded hash (e ∷ ls) a =
    elim (bytes_dec hash e.0)
      as (λ d. AllBounded (elim d [ yes _ ↦ ls | no _ ↦ e ∷ unlink bytes_dec hash ls ])) [
        | yes _ ↦ a.1
        | no _ ↦ (a.0, unlink-AllBounded hash ls (a.1))
      ]

-- what holds of a found lookup
abbrev pub Holds : Option KademliaLookup → Type 0
Holds none = Unit {0}
Holds (some l) = IsBounded l

pub lookup-AllBounded :
    (hash : InfoHash) (ls : Lookups) → AllBounded ls → Holds (lookup bytes_dec hash ls)
unfolding lookup
lookup-AllBounded hash [] a = tt
lookup-AllBounded hash (e ∷ ls) a =
    elim (bytes_dec hash e.0)
      as (λ d. Holds (ite {C = Option KademliaLookup} d (some (e.1)) (lookup bytes_dec hash ls))) [
        | yes _ ↦ a.0
        | no _ ↦ lookup-AllBounded hash ls (a.1)
      ]

finish-InFlight :
    (hash : InfoHash) (m : LookupManager) (o : Option KademliaLookup)
    → InFlight m
    → InFlight (finish hash m o)
finish-InFlight hash m none a = a
finish-InFlight hash m (some l) a = unlink-AllBounded hash m.kademlia_lookups a

pub finish_lookup-InFlight :
    (hash : InfoHash) (m : LookupManager) → InFlight m → InFlight (finish_lookup hash m)
unfolding finish_lookup
finish_lookup-InFlight hash m a = finish-InFlight hash m (find_lookup hash m) a

pub expire_pending_from-AllBounded :
    (now : ℕ) (p : Pending) (ls : Lookups)
    → AllBounded ls
    → AllBounded (expire_pending_from now p ls).1
unfolding expire_pending_from
expire_pending_from-AllBounded now [] ls a = a
expire_pending_from-AllBounded now (e ∷ p) ls a =
    let dropped =
      expire_pending_from-AllBounded now p (modify (e.1.0) (remove_pending_txn e.0) ls) (
        modify-AllBounded (e.1.0) (remove_pending_txn e.0) ls (remove_pending_txn-IsBounded e.0)
          a) in
    let kept = expire_pending_from-AllBounded now p ls a in
    elim (Bool-cases (leb (e.1.1 + get_peers_txn_ttl) now)) [
      | inl old ↦ simp old dropped
      | inr new ↦ simp new kept
    ]

pub expire_active_from-AllBounded :
    (now : ℕ) (ls : Lookups) (p : Pending)
    → AllBounded ls
    → AllBounded (expire_active_from now ls p).0
unfolding expire_active_from
expire_active_from-AllBounded now [] p a = tt
expire_active_from-AllBounded now (e ∷ ls) p a =
    let dropped = expire_active_from-AllBounded now ls (erase_txns (e.1.pending_txns) p) (a.1) in
    let kept = expire_active_from-AllBounded now ls p (a.1) in
    elim (Bool-cases (leb (e.1.started + get_peers_lookup_ttl) now)) [
      | inl old ↦ simp old dropped
      | inr new ↦ simp new (a.0, kept)
    ]

pub replenished-pending :
    (self_id : NodeId) (nodes : List RoutingEntry) (l : KademliaLookup)
    → (replenished self_id nodes l).1.pending_txns ≡ l.pending_txns
unfolding merge_nodes
replenished-pending self_id [] l = refl
replenished-pending self_id (n ∷ nodes) l = ground arith

select_next_candidates-pending :
    (count : ℕ) (l : KademliaLookup)
    → length (select_next_candidates count l).1.pending_txns ≡ length l.pending_txns
unfolding select_next_candidates
select_next_candidates-pending count l = refl

module _ (now : ℕ) (random_txn : ℕ → Bytes) (table : RoutingTable) where
  pub lookup_should_finish-pending :
      (self_id : NodeId) (hash : InfoHash) (l : KademliaLookup)
      → (lookup_should_finish now random_txn table self_id hash l).1.pending_txns ≡ l.pending_txns
  unfolding lookup_should_finish
  lookup_should_finish-pending self_id hash l =
      ground (arith, replenished-pending self_id (closest hash k_nodes table) l)

  length-send_queries :
      (hash : InfoHash) (nodes : List RoutingEntry) (l : KademliaLookup) (m : LookupManager)
      → length (send_queries now random_txn table hash nodes l m).1.0.pending_txns
        ≤ length l.pending_txns + length nodes
  unfolding send_queries
  length-send_queries hash [] l m = omega arith
  length-send_queries hash (n ∷ nodes) l m = omega (
    arith,
    length-add_pending_txn (random_txn m.draws) l,
    length-send_queries hash nodes (add_pending_txn (random_txn m.draws) l) _,
  )

  pub send_queries-lookups :
      (hash : InfoHash) (nodes : List RoutingEntry) (l : KademliaLookup) (m : LookupManager)
      → (send_queries now random_txn table hash nodes l m).1.1.kademlia_lookups ≡ m.kademlia_lookups
  unfolding send_queries
  send_queries-lookups hash [] l m = refl
  send_queries-lookups hash (n ∷ nodes) l m = send_queries-lookups hash nodes _ _

  pub store-InFlight :
      (hash : InfoHash) (l : KademliaLookup) (m : LookupManager)
      → IsBounded l
      → InFlight m
      → InFlight (store now random_txn table hash l m)
  store-InFlight hash l m b a = modify-AllBounded hash (λ _. l) m.kademlia_lookups (λ _ _. b) a

  pub over-IsBounded :
      (self_id : NodeId) (hash : InfoHash) (l : KademliaLookup)
      → IsBounded l
      → IsBounded (lookup_should_finish now random_txn table self_id hash l).1
  over-IsBounded self_id hash l b =
      subst (λ txns. length txns ≤ lookup_alpha) (sym (lookup_should_finish-pending self_id hash l))
        b

  settle-InFlight :
      (hash : InfoHash) (outbound : List OutboundKrpc) (l : KademliaLookup) (m : LookupManager)
      → IsBounded l
      → InFlight m
      → InFlight (settle now random_txn table hash (outbound, (l, m))).1
  settle-InFlight hash [] l m b a =
      let r = lookup_should_finish now random_txn table m.self_id hash l in
      let a' = store-InFlight hash r.1 m (over-IsBounded m.self_id hash l b) a in
      elim (Bool-cases r.0) [
        | inl over ↦ simp over (finish_lookup-InFlight hash _ a')
        | inr goes_on ↦ simp goes_on a'
      ]
  settle-InFlight hash (o ∷ outbound) l m b a = store-InFlight hash l m b a

  pub advance-InFlight :
      (hash : InfoHash) (m : LookupManager) (l : KademliaLookup)
      → IsBounded l
      → InFlight m
      → InFlight (advance now random_txn table hash m l).1
  advance-InFlight hash m l b a =
      let r = lookup_should_finish now random_txn table m.self_id hash l in
      let b1 : IsBounded r.1 = over-IsBounded m.self_id hash l b in
      let a1 = store-InFlight hash r.1 m b1 a in
      let next = select_next_candidates (lookup_alpha - length r.1.pending_txns) r.1 in
      let sent = send_queries now random_txn table hash next.0 next.1 m in
      let b2 : IsBounded sent.1.0 = omega (
        arith,
        b1,
        (select_next_candidates_lem (lookup_alpha - length r.1.pending_txns) r.1).0,
        select_next_candidates-pending (lookup_alpha - length r.1.pending_txns) r.1,
        length-send_queries hash next.0 next.1 m,
      ) in
      let a2 : InFlight sent.1.1 =
        subst AllBounded (sym (send_queries-lookups hash next.0 next.1 m)) a in
      elim (Bool-cases r.0) [
        | inl over ↦ simp over (finish_lookup-InFlight hash _ a1)
        | inr goes_on ↦
            simp goes_on (elim (Bool-cases (leb lookup_alpha (length r.1.pending_txns))) [
              | inl full ↦ simp full a1
              | inr room ↦ simp room (settle-InFlight hash sent.0 sent.1.0 sent.1.1 b2 a2)
            ])
      ]
