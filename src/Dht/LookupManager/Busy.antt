-- ===== src/Dht/LookupManager/Busy.antt =====
-- src/dht/get_peers_lookup_manager.cpp, `start_or_advance`: whether a lookup goes on.
use bittorent_client.Common.{
  ℕ, suc, ◌+◌, ◌≡◌, refl, ap, ◌∙◌, Bytes, Bool, true, false, none, some, List, [], ◌∷◌, length, leb,
  Bool-cases, inl, inr, arith,
}
use mathlib.Core.List.{lookup}
use bittorent_client.Common.ByteStrings.{bytes_dec}
use bittorent_client.InfoHash.{InfoHash}
use bittorent_client.PeerAddress.{PeerAddress}
use bittorent_client.LruCache.Lookup.{IsUnique}
use bittorent_client.Dht.RoutingTable.{RoutingEntry, RoutingTable}
use bittorent_client.Dht.KademliaLookup.{
  KademliaLookup, new, was_queried, all_queried, has_txn, add_pending_txn, select_from, has_pending,
}
use bittorent_client.Dht.LookupManager.{
  LookupManager, Lookups, Pending, find_lookup, modify, erase_txns, expire_pending_from,
  expire_active_from, get_peers_txn_ttl, get_peers_lookup_ttl,
}
use bittorent_client.Dht.LookupManager.Steps.{settle, send_queries}
use bittorent_client.Dht.LookupManager.Bounds.{send_queries-lookups}

-- The hash has a lookup, and a query of it waits for a response.
abbrev pub IsBusy : InfoHash → LookupManager → Type 0
IsBusy hash m = (l : KademliaLookup) × (find_lookup hash m ≡ some l) × (has_pending l ≡ true)

abbrev pub is_empty : List RoutingEntry → Bool
is_empty [] = true
is_empty (n ∷ nodes) = false

has_txn_lem :
    (txn : Bytes) (txns : List Bytes)
    → has_txn txn txns ≡ true
    → (elim txns [ [] ↦ false | _ ∷ _ ↦ true ]) ≡ true
unfolding has_txn
has_txn_lem txn [] h = h
has_txn_lem txn (t ∷ txns) h = refl

add_pending_txn-pending :
    (txn : Bytes) (l : KademliaLookup) → has_pending (add_pending_txn txn l) ≡ true
unfolding add_pending_txn
add_pending_txn-pending txn l = elim (Bool-cases (has_txn txn l.pending_txns)) [
  | inl there ↦ simp there (has_txn_lem txn l.pending_txns there)
  | inr new ↦ simp new refl
]

pub select_from-unqueried :
    (room : ℕ) (queried : List PeerAddress) (nodes : List RoutingEntry)
    → all_queried queried nodes ≡ false
    → is_empty (select_from (suc room) queried nodes).0 ≡ false
unfolding select_from all_queried
select_from-unqueried room queried [] h = absurd (ground (arith, h))
select_from-unqueried room queried (n ∷ nodes) h = elim (Bool-cases (was_queried n.pa queried)) [
  | inl old ↦ simp old (select_from-unqueried room queried nodes (ground (arith, h, old)))
  | inr new ↦ simp new refl
]

pub lookup-modify :
    (hash : InfoHash) (f : KademliaLookup → KademliaLookup) (ls : Lookups) (l : KademliaLookup)
    → lookup bytes_dec hash ls ≡ some l
    → lookup bytes_dec hash (modify hash f ls) ≡ some (f l)
unfolding lookup modify
lookup-modify hash f [] l h = absurd (ground (arith, h))
lookup-modify hash f (e ∷ ls) l h = ground (arith, h, lookup-modify hash f ls l)

none-modify :
    (q hash : InfoHash) (f : KademliaLookup → KademliaLookup) (ls : Lookups)
    → lookup bytes_dec q ls ≡ none
    → lookup bytes_dec q (modify hash f ls) ≡ none
unfolding lookup modify
none-modify q hash f [] h = refl
none-modify q hash f (e ∷ ls) h = ground (arith, h, none-modify q hash f ls)

pub modify-IsUnique :
    (hash : InfoHash) (f : KademliaLookup → KademliaLookup) (ls : Lookups)
    → IsUnique bytes_dec ls
    → IsUnique bytes_dec (modify hash f ls)
unfolding modify
modify-IsUnique hash f [] u = tt
modify-IsUnique hash f (e ∷ ls) u =
    elim (bytes_dec hash e.0)
      as (λ d.
        IsUnique bytes_dec (elim d [ yes _ ↦ (e.0, f (e.1)) ∷ ls | no _ ↦ e ∷ modify hash f ls ])) [
          | yes _ ↦ u
          | no _ ↦ (none-modify e.0 hash f ls u.0, modify-IsUnique hash f ls u.1)
        ]

pub expire_pending_from-IsUnique :
    (now : ℕ) (p : Pending) (ls : Lookups)
    → IsUnique bytes_dec ls
    → IsUnique bytes_dec (expire_pending_from now p ls).1
unfolding expire_pending_from
expire_pending_from-IsUnique now [] ls u = u
expire_pending_from-IsUnique now (e ∷ p) ls u =
    elim (Bool-cases (leb (e.1.1 + get_peers_txn_ttl) now)) [
      | inl old ↦ simp old (expire_pending_from-IsUnique now p _ (modify-IsUnique (e.1.0) _ ls u))
      | inr new ↦ simp new (expire_pending_from-IsUnique now p ls u)
    ]

none-expire_active_from :
    (q : InfoHash) (now : ℕ) (ls : Lookups) (p : Pending)
    → lookup bytes_dec q ls ≡ none
    → lookup bytes_dec q (expire_active_from now ls p).0 ≡ none
unfolding lookup expire_active_from
none-expire_active_from q now [] p h = refl
none-expire_active_from q now (e ∷ ls) p h = ground (
  arith,
  h,
  none-expire_active_from q now ls p,
  none-expire_active_from q now ls (erase_txns (e.1.pending_txns) p),
)

pub expire_active_from-IsUnique :
    (now : ℕ) (ls : Lookups) (p : Pending)
    → IsUnique bytes_dec ls
    → IsUnique bytes_dec (expire_active_from now ls p).0
unfolding expire_active_from
expire_active_from-IsUnique now [] p u = tt
expire_active_from-IsUnique now (e ∷ ls) p u =
    elim (Bool-cases (leb (e.1.started + get_peers_lookup_ttl) now)) [
      | inl old ↦ simp old (expire_active_from-IsUnique now ls _ u.1)
      | inr new ↦
          simp new
            (none-expire_active_from e.0 now ls p u.0, expire_active_from-IsUnique now ls p u.1)
    ]

pub none_waits :
    (txns : List Bytes) → (elim txns [ [] ↦ false | _ ∷ _ ↦ true ]) ≡ false → length txns ≡ 0
none_waits [] e = omega arith
none_waits (t ∷ txns) e = absurd (ground (arith, e))

module _ (now : ℕ) (random_txn : ℕ → Bytes) (table : RoutingTable) where
  send_queries-pending :
      (hash : InfoHash) (nodes : List RoutingEntry) (l : KademliaLookup) (m : LookupManager)
      → has_pending l ≡ true
      → has_pending (send_queries now random_txn table hash nodes l m).1.0 ≡ true
  unfolding send_queries
  send_queries-pending hash [] l m h = h
  send_queries-pending hash (n ∷ nodes) l m h =
      send_queries-pending hash nodes _ _ (add_pending_txn-pending (random_txn m.draws) l)

  -- a lookup that sends goes on
  pub settle-IsBusy :
      (hash : InfoHash) (m : LookupManager) (l l0 : KademliaLookup) (nodes : List RoutingEntry)
      → find_lookup hash m ≡ some l0
      → is_empty nodes ≡ false
      → IsBusy hash
          (settle now random_txn table hash (send_queries now random_txn table hash nodes l m)).1
  unfolding send_queries
  settle-IsBusy hash m l l0 [] f h = absurd (ground (arith, h))
  settle-IsBusy hash m l l0 (n ∷ nodes) f h =
      let r = send_queries now random_txn table hash (n ∷ nodes) l m in
      let same : r.1.1.kademlia_lookups ≡ m.kademlia_lookups =
        send_queries-lookups now random_txn table hash (n ∷ nodes) l m in
      (
        r.1.0,
        lookup-modify hash (λ _. r.1.0) r.1.1.kademlia_lookups l0
            (ap (lookup bytes_dec hash) same ∙ f),
        send_queries-pending hash nodes _ _ (add_pending_txn-pending (random_txn m.draws) l),
      )
