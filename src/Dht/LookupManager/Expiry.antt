-- ===== src/Dht/LookupManager/Expiry.antt =====
-- src/dht/get_peers_lookup_manager.cpp, `expire_pending_lookups_locked`: which transactions are
-- given up.
use bittorent_client.Common.{
  ℕ, ◌+◌, ◌<◌, ◌≡◌, Bytes, false, some, [], ◌∷◌, leb, All, arith, Bool-cases, inl, inr,
}
use mathlib.Core.List.{lookup}
use bittorent_client.Common.ByteStrings.{bytes_dec}
use bittorent_client.InfoHash.{InfoHash}
use bittorent_client.Dht.KademliaLookup.{remove_pending_txn}
use bittorent_client.Dht.LookupManager.{
  LookupManager, Pending, Lookups, get_peers_txn_ttl, modify, expire_pending_from,
  expire_pending_lookups,
}

abbrev IsYoung : ℕ → InfoHash × ℕ → Type 0
IsYoung now b = now < b.1 + get_peers_txn_ttl

expire_pending_from-IsYoung :
    (now : ℕ) (p : Pending) (ls : Lookups)
    → All (λ (e : Bytes × (InfoHash × ℕ)). IsYoung now e.1) (expire_pending_from now p ls).0
unfolding expire_pending_from
expire_pending_from-IsYoung now [] ls = tt
expire_pending_from-IsYoung now (e ∷ p) ls =
    elim (Bool-cases (leb (e.1.1 + get_peers_txn_ttl) now)) [
      | inl old ↦
          simp old (expire_pending_from-IsYoung now p (modify (e.1.0) (remove_pending_txn e.0) ls))
      | inr new ↦ simp new (ground (arith, new), expire_pending_from-IsYoung now p ls)
    ]

kept :
    (now : ℕ) (txn : Bytes) (b : InfoHash × ℕ) (p : Pending) (ls : Lookups)
    → lookup bytes_dec txn p ≡ some b
    → leb (b.1 + get_peers_txn_ttl) now ≡ false
    → lookup bytes_dec txn (expire_pending_from now p ls).0 ≡ some b
unfolding lookup expire_pending_from
kept now txn b [] ls h y = absurd (ground (arith, h))
kept now txn b (e ∷ p) ls h y = ground (
  arith,
  h,
  y,
  kept now txn b p ls,
  kept now txn b p (modify (e.1.0) (remove_pending_txn e.0) ls),
)

young-eq : (now : ℕ) (b : InfoHash × ℕ) → IsYoung now b → leb (b.1 + get_peers_txn_ttl) now ≡ false
young-eq now b h = ground (arith, h)

-- Expiry leaves only transactions that were sent less than thirty seconds ago, and every such
-- transaction stays bound as it was.
pub expire_pending_lookups_lem :
    (now : ℕ) (m : LookupManager)
    → All
        (λ (e : Bytes × (InfoHash × ℕ)). IsYoung now e.1)
        (expire_pending_lookups now m).pending_lookups
      × ((txn : Bytes) (b : InfoHash × ℕ)
          → lookup bytes_dec txn m.pending_lookups ≡ some b
          → IsYoung now b
          → lookup bytes_dec txn (expire_pending_lookups now m).pending_lookups ≡ some b)
unfolding expire_pending_lookups
expire_pending_lookups_lem now m = (
  expire_pending_from-IsYoung now m.pending_lookups m.kademlia_lookups,
  λ txn b h y. kept now txn b m.pending_lookups m.kademlia_lookups h (young-eq now b y),
)
