-- ===== src/Dht/PeerStore.antt =====
-- inc/dht/dht_peer_store.h, src/dht/dht_peer_store.cpp: the peers that are known for an info hash.
-- A time is a number of the clock's ticks, and `now` is `steady_clock::now()`.
pub mod Expiry
use bittorent_client.Common.{
  ℕ, ◌+◌, ◌*◌, Bool, true, false, not, Option, none, some, List, [], ◌∷◌, ltb, leb, if◌then◌else◌,
}
use bittorent_client.Common.ByteStrings.{bytes_dec}
use bittorent_client.InfoHash.{InfoHash}
use bittorent_client.PeerAddress.{PeerAddress, peer_dec}
use bittorent_client.LruCache.{LruCache, get, put}
use bittorent_client.LruCache
use bittorent_client.Dht.RoutingTable.{minute}

abbrev pub peer_entry_ttl : ℕ
peer_entry_ttl = 30 * minute

abbrev pub max_peers_per_hash : ℕ
max_peers_per_hash = 50

abbrev pub max_info_hashes : ℕ
max_info_hashes = 10000

-- a peer, and when it was last seen
abbrev pub HashBucket : Type 0
HashBucket = LruCache PeerAddress ℕ

abbrev pub DhtPeerStore : Type 0
DhtPeerStore = LruCache InfoHash HashBucket

abbrev pub new_store : DhtPeerStore
new_store = LruCache.new max_info_hashes

abbrev pub new_bucket : HashBucket
new_bucket = LruCache.new max_peers_per_hash

-- `peers.empty() || now - peers.begin()->second >= PEER_ENTRY_TTL`
abbrev pub bucket_is_dead : ℕ → List (PeerAddress × ℕ) → Bool
bucket_is_dead now [] = true
bucket_is_dead now (e ∷ _) = leb (e.1 + peer_entry_ttl) now

-- the loop that erases dead buckets
unfoldable pub drop_dead : ℕ → List (InfoHash × HashBucket) → List (InfoHash × HashBucket)
drop_dead now [] = []
drop_dead now (e ∷ l) =
    let rest = drop_dead now l in if bucket_is_dead now (e.1.items) then rest else e ∷ rest

unfoldable pub expire_stale : ℕ → DhtPeerStore → DhtPeerStore
unfolding drop_dead
expire_stale now s = record s { items = drop_dead now s.items }

-- `buckets_.get(info_hash)`, and a new bucket where there is none: it stands in front.
unfoldable pub obtain : InfoHash → Option HashBucket × DhtPeerStore → HashBucket × DhtPeerStore
obtain info_hash (some bucket, s) = (bucket, s)
obtain info_hash (none, s) = (new_bucket, put bytes_dec info_hash new_bucket s)

unfoldable pub ensure_bucket : InfoHash → DhtPeerStore → DhtPeerStore
unfolding obtain
ensure_bucket info_hash s = (obtain info_hash (get bytes_dec info_hash s)).1

-- The bucket is changed in its node, which is the first one.
abbrev pub write_front : HashBucket → List (InfoHash × HashBucket) → List (InfoHash × HashBucket)
write_front bucket [] = []
write_front bucket (e ∷ l) = (e.0, bucket) ∷ l

unfoldable pub upsert : ℕ → InfoHash → PeerAddress → DhtPeerStore → DhtPeerStore
unfolding obtain
upsert now info_hash pa s =
    let r = obtain info_hash (get bytes_dec info_hash s) in
    let bucket = put peer_dec pa now r.0 in record r.1 { items = write_front bucket (r.1.items) }

-- the peers of a bucket that are not past their time
unfoldable pub live : ℕ → List (PeerAddress × ℕ) → List PeerAddress
live now [] = []
live now (e ∷ l) =
    let rest = live now l in if ltb now (e.1 + peer_entry_ttl) then e.0 ∷ rest else rest

abbrev pub live_of : ℕ → Option HashBucket → List PeerAddress
live_of now none = []
live_of now (some bucket) = live now bucket.items

unfoldable pub live_peers : ℕ → InfoHash → DhtPeerStore → List PeerAddress × DhtPeerStore
unfolding live
live_peers now info_hash s = let r = get bytes_dec info_hash s in (live_of now r.0, r.1)
