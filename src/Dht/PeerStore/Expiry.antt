-- ===== src/Dht/PeerStore/Expiry.antt =====
-- src/dht/dht_peer_store.cpp: the order of a bucket by time, on which `expire_stale` relies.
use bittorent_client.Common.{
  ℕ, ◌+◌, ◌≤◌, ◌≡◌, ◌↔◌, refl, true, false, Option, none, some, List, [], ◌∷◌, ltb, leb, length,
  All, arith, Bool-cases, leb→le, inl, inr,
}
use mathlib.Core.Path.{subst, sym}
use mathlib.Core.Logic.{ite}
use mathlib.Core.List.{lookup}
use bittorent_client.InfoHash.{InfoHash}
use bittorent_client.Common.ByteStrings.{bytes_dec}
use bittorent_client.PeerAddress.{PeerAddress, peer_dec}
use bittorent_client.LruCache.{unlink, pop_back, get, put, get_node, put_node}
use bittorent_client.LruCache.Lookup.{IsUnique}
use bittorent_client.Dht.PeerStore.{
  HashBucket, DhtPeerStore, bucket_is_dead, live, peer_entry_ttl, upsert, expire_stale, drop_dead,
  obtain, new_bucket, write_front, live_of,
}

-- The peers by descending time, none later than `t`.
abbrev pub IsRecent : ℕ → List (PeerAddress × ℕ) → Type 0
IsRecent t [] = Unit {0}
IsRecent t (e ∷ l) = (e.1 ≤ t) × IsRecent e.1 l

IsRecent-le : (s t : ℕ) (l : List (PeerAddress × ℕ)) → s ≤ t → IsRecent s l → IsRecent t l
IsRecent-le s t [] h r = tt
IsRecent-le s t (e ∷ l) h r = (omega (arith, r.0), r.1)

unlink-IsRecent :
    (pa : PeerAddress) (t : ℕ) (l : List (PeerAddress × ℕ))
    → IsRecent t l
    → IsRecent t (unlink peer_dec pa l)
unfolding unlink
unlink-IsRecent pa t [] r = tt
unlink-IsRecent pa t (e ∷ l) r =
    elim (peer_dec pa e.0)
      as (λ d. IsRecent t (elim d [ yes _ ↦ l | no _ ↦ e ∷ unlink peer_dec pa l ])) [
        | yes same ↦ IsRecent-le e.1 t l r.0 r.1
        | no differs ↦ (r.0, unlink-IsRecent pa e.1 l r.1)
      ]

pop_back-IsRecent : (t : ℕ) (l : List (PeerAddress × ℕ)) → IsRecent t l → IsRecent t (pop_back l)
unfolding pop_back
pop_back-IsRecent t [] r = tt
pop_back-IsRecent t (e ∷ []) r = tt
pop_back-IsRecent t (e ∷ f ∷ l) r = (r.0, pop_back-IsRecent e.1 (f ∷ l) r.1)

put_node-IsRecent :
    (pa : PeerAddress) (t now : ℕ) (b : HashBucket) (o : Option ℕ)
    → t ≤ now
    → IsRecent t b.items
    → IsRecent now (put_node peer_dec pa now b o).items
put_node-IsRecent pa t now b (some s) h r =
    (omega arith, IsRecent-le t now _ h (unlink-IsRecent pa t b.items r))
put_node-IsRecent pa t now b none h r = elim (Bool-cases (leb b.capacity (length b.items))) [
  | inl full ↦ simp full (omega arith, IsRecent-le t now _ h (pop_back-IsRecent t b.items r))
  | inr room ↦ simp room (omega arith, IsRecent-le t now _ h r)
]

-- Recording a peer at a time that is not before the bucket's latest keeps the bucket ordered, the
-- latest peer in front.
pub put-IsRecent :
    (pa : PeerAddress) (t now : ℕ) (b : HashBucket)
    → t ≤ now
    → IsRecent t b.items
    → IsRecent now (put peer_dec pa now b).items
unfolding put
put-IsRecent pa t now b h r = put_node-IsRecent pa t now b (lookup peer_dec pa b.items) h r

live-nil :
    (now t : ℕ) (l : List (PeerAddress × ℕ))
    → t + peer_entry_ttl ≤ now
    → IsRecent t l
    → live now l ≡ []
unfolding live
live-nil now t [] h r = refl
live-nil now t (e ∷ l) h r =
    let old : ltb now (e.1 + peer_entry_ttl) ≡ false = ground (arith, r.0) in
    rw (old, live-nil now e.1 l (omega (arith, r.0)) r.1) refl

-- In an ordered bucket the test of the front entry alone tells whether no peer is live.
pub bucket_is_dead_iff :
    (now t : ℕ) (l : List (PeerAddress × ℕ))
    → IsRecent t l
    → (bucket_is_dead now l ≡ true) ↔ (live now l ≡ [])
unfolding live
bucket_is_dead_iff now t [] r = (λ h. refl, λ h. refl)
bucket_is_dead_iff now t (e ∷ l) r = (
  λ h.
      let past : e.1 + peer_entry_ttl ≤ now = leb→le _ now h in
      let old : ltb now (e.1 + peer_entry_ttl) ≡ false = ground (arith, past) in
      rw (old, live-nil now e.1 l past r.1) refl,
  λ h. ground (arith, h),
)

-- Every bucket of the store is ordered.
abbrev pub IsOrdered : ℕ → DhtPeerStore → Type 0
IsOrdered t s = All (λ e. IsRecent t (e.1.items)) s.items

module _ (P : InfoHash × HashBucket → Type 0) where
  All-unlink :
      (k : InfoHash) (l : List (InfoHash × HashBucket)) → All P l → All P (unlink bytes_dec k l)
  unfolding unlink
  All-unlink k [] h = tt
  All-unlink k (e ∷ l) h =
      elim (bytes_dec k e.0)
        as (λ d. All P (elim d [ yes _ ↦ l | no _ ↦ e ∷ unlink bytes_dec k l ])) [
          | yes same ↦ h.1
          | no differs ↦ (h.0, All-unlink k l h.1)
        ]

  All-pop_back : (l : List (InfoHash × HashBucket)) → All P l → All P (pop_back l)
  unfolding pop_back
  All-pop_back [] h = tt
  All-pop_back (e ∷ []) h = tt
  All-pop_back (e ∷ f ∷ l) h = (h.0, All-pop_back (f ∷ l) h.1)

  All-put_node :
      (k : InfoHash) (b : HashBucket) (s : DhtPeerStore) (o : Option HashBucket)
      → P (k, b)
      → All P s.items
      → All P (put_node bytes_dec k b s o).items
  All-put_node k b s (some c) p h = (p, All-unlink k s.items h)
  All-put_node k b s none p h = elim (Bool-cases (leb s.capacity (length s.items))) [
    | inl full ↦ simp full (p, All-pop_back s.items h)
    | inr room ↦ simp room (p, h)
  ]

All-lookup :
    (t : ℕ) (k : InfoHash) (l : List (InfoHash × HashBucket)) (b : HashBucket)
    → All (λ e. IsRecent t (e.1.items)) l
    → lookup bytes_dec k l ≡ some b
    → IsRecent t b.items
unfolding lookup
All-lookup t k [] b h e = cc
All-lookup t k (f ∷ l) b h e =
    elim (bytes_dec k f.0)
        as (λ d. ite d (some (f.1)) (lookup bytes_dec k l) ≡ some b → IsRecent t b.items) [
          | yes same ↦
              λ q. let p : f.1 ≡ b = cc q in subst (λ (c : HashBucket). IsRecent t c.items) p h.0
          | no differs ↦ λ q. All-lookup t k l b h.1 q
        ]
      e

obtain-IsOrdered :
    (t : ℕ) (k : InfoHash) (s : DhtPeerStore) (o : Option HashBucket)
    → lookup bytes_dec k s.items ≡ o
    → IsOrdered t s
    → IsRecent t ((obtain k (get_node bytes_dec k s o)).0.items)
      × IsOrdered t (obtain k (get_node bytes_dec k s o)).1
unfolding obtain put
obtain-IsOrdered t k s none e h = (
  tt,
  All-put_node (λ e. IsRecent t (e.1.items)) k new_bucket s (lookup bytes_dec k s.items) tt h,
)
obtain-IsOrdered t k s (some b) e h =
    let r = All-lookup t k s.items b h e in
    (r, (r, All-unlink (λ e. IsRecent t (e.1.items)) k s.items h))

All-write_front :
    (P : InfoHash × HashBucket → Type 0) (Q : InfoHash × HashBucket → Type 0) (b : HashBucket)
    (l : List (InfoHash × HashBucket))
    → ((k : InfoHash) → Q (k, b))
    → ((e : InfoHash × HashBucket) → P e → Q e)
    → All P l
    → All Q (write_front b l)
All-write_front P Q b [] f g h = tt
All-write_front P Q b (e ∷ l) f g h = (f e.0, later l h.1)
  where
    later : (l : List (InfoHash × HashBucket)) → All P l → All Q l
    later [] h = tt
    later (e ∷ l) h = (g e h.0, later l h.1)

-- Recording a peer, at a time that is not before the latest of the store, keeps every bucket
-- ordered by time.
pub upsert-IsOrdered :
    (t now : ℕ) (k : InfoHash) (pa : PeerAddress) (s : DhtPeerStore)
    → t ≤ now
    → IsOrdered t s
    → IsOrdered now (upsert now k pa s)
unfolding upsert get
upsert-IsOrdered t now k pa s l h =
    let o = lookup bytes_dec k s.items in
    let (b, rest) = obtain-IsOrdered t k s o refl h in
    let r = obtain k (get_node bytes_dec k s o) in
    All-write_front (λ e. IsRecent t (e.1.items)) (λ e. IsRecent now (e.1.items))
      (put peer_dec pa now r.0) (r.1.items) (λ k. put-IsRecent pa t now r.0 l b)
      (λ e r. IsRecent-le t now (e.1.items) l r) rest

drop_dead-none :
    (now : ℕ) (k : InfoHash) (l : List (InfoHash × HashBucket))
    → lookup bytes_dec k l ≡ none
    → lookup bytes_dec k (drop_dead now l) ≡ none
unfolding lookup drop_dead
drop_dead-none now k [] h = refl
drop_dead-none now k (e ∷ l) h = ground (arith, h, drop_dead-none now k l)

live_of-drop_dead :
    (now t : ℕ) (k : InfoHash) (l : List (InfoHash × HashBucket))
    → All (λ e. IsRecent t (e.1.items)) l
    → IsUnique bytes_dec l
    → live_of now (lookup bytes_dec k (drop_dead now l)) ≡ live_of now (lookup bytes_dec k l)
unfolding lookup drop_dead
live_of-drop_dead now t k [] h u = refl
live_of-drop_dead now t k (e ∷ l) h u =
    let dead_iff = bucket_is_dead_iff now t (e.1.items) h.0 in
    let rest = live_of-drop_dead now t k l h.1 u.1 in
    let gone : lookup bytes_dec e.0 (drop_dead now l) ≡ none = drop_dead-none now e.0 l u.0 in
    elim (Bool-cases (bucket_is_dead now (e.1.items))) [
      | inl dead ↦
          rw dead
            (elim (bytes_dec k e.0)
              as (λ d.
                live_of now (lookup bytes_dec k (drop_dead now l))
                ≡ live_of now (ite d (some (e.1)) (lookup bytes_dec k l))) [
                  | yes same ↦ rw (same, gone) (sym (dead_iff.0 dead))
                  | no differs ↦ rest
                ])
      | inr alive ↦
          rw alive
            (elim (bytes_dec k e.0)
              as (λ d.
                live_of now (ite d (some (e.1)) (lookup bytes_dec k (drop_dead now l)))
                ≡ live_of now (ite d (some (e.1)) (lookup bytes_dec k l))) [
                  | yes same ↦ refl
                  | no differs ↦ rest
                ])
    ]

drop_dead-All :
    (now : ℕ) (l : List (InfoHash × HashBucket))
    → All (λ e. bucket_is_dead now (e.1.items) ≡ false) (drop_dead now l)
unfolding drop_dead
drop_dead-All now [] = tt
drop_dead-All now (e ∷ l) = elim (Bool-cases (bucket_is_dead now (e.1.items))) [
  | inl dead ↦ rw dead (drop_dead-All now l)
  | inr alive ↦ rw alive (alive, drop_dead-All now l)
]

-- In an ordered store, expiring loses no live peer of any hash, and every hash that stays has a peer
-- that is not past its time in front.
pub expire_stale_lem :
    (now t : ℕ) (k : InfoHash) (s : DhtPeerStore)
    → IsOrdered t s
    → IsUnique bytes_dec s.items
    → (live_of now (lookup bytes_dec k (expire_stale now s).items)
        ≡ live_of now (lookup bytes_dec k s.items))
      × All (λ e. bucket_is_dead now (e.1.items) ≡ false) (expire_stale now s).items
unfolding expire_stale
expire_stale_lem now t k s h u = (live_of-drop_dead now t k s.items h u, drop_dead-All now s.items)
