-- ===== src/Tests/Nodes.antt =====
-- The cache, a lookup, the stored peers, the tokens and the announced torrents.
use bittorent_client.Common.{
  ℕ, ◌+◌, ◌*◌, ◌≡◌, refl, Bytes, true, false, some, List, [], ◌∷◌, ◌++◌, replicate, All, arith,
  ◌==◌,
}
use mathlib.Core.List.{lookup}
use native.Mathlib.Decide.{ℕ_discrete}
use bittorent_client.Common.ByteStrings.{bytes_eq, bytes_dec}
use bittorent_client.PeerAddress.{PeerAddress}
use bittorent_client.LruCache.{LruCache}
use bittorent_client.LruCache.Lookup.{IsUnique}
use bittorent_client.Dht.RoutingTable.{RoutingEntry, minute}
use bittorent_client.Dht.KademliaLookup.{KademliaLookup, new}
use bittorent_client.Dht.PeerStore.{
  DhtPeerStore, bucket_is_dead, live_of, expire_stale, new_store, new_bucket,
}
use bittorent_client.Dht.PeerStore.Expiry.{IsOrdered, expire_stale_lem}
use bittorent_client.Dht.Token.{TokenSecretRotator, issue_token, verify_token, rotate_if_needed}
use bittorent_client.Dht.Token.Validity.{verify_token-rotated}
use bittorent_client.Dht.Announce.{AnnounceCoordinator}

-- a full cache of two entries
abbrev two : LruCache ℕ ℕ
two = record { capacity = 2; items = (1, 10) ∷ (2, 20) ∷ [] }

two-IsUnique : IsUnique ℕ_discrete two.items
unfolding lookup ℕ_discrete
two-IsUnique = (refl, (refl, tt))

abbrev host : ℕ → PeerAddress
host n = record { ip = n ∷ []; port = 6881 }

abbrev contact : ℕ → RoutingEntry
contact n = record { id = replicate 19 0 ++ (n ∷ []); pa = host n; last_seen = 0 }

-- a lookup of the zero hash with two candidates
abbrev search_state : KademliaLookup
search_state = new 0 (replicate 20 0) (contact 4 ∷ contact 9 ∷ [])

-- two hashes, one with a live peer, one with an old one, half an hour later
abbrev store : DhtPeerStore
store = record new_store {
  items =
      ((1 ∷ []), record new_bucket { items = (host 1, 5) ∷ (host 2, 3) ∷ [] })
      ∷ ((2 ∷ []), record new_bucket { items = (host 3, 0) ∷ [] })
      ∷ [];
}

store-IsOrdered : IsOrdered 5 store
store-IsOrdered = ((omega arith, (omega arith, tt)), ((omega arith, tt), tt))

store-IsUnique : IsUnique bytes_dec store.items
unfolding lookup bytes_dec bytes_eq
store-IsUnique = (refl, (refl, tt))

expire_stale_lem_example :
    (live_of
        (30 * minute + 4)
        (lookup bytes_dec (1 ∷ []) (expire_stale (30 * minute + 4) store).items)
      ≡ live_of (30 * minute + 4) (lookup bytes_dec (1 ∷ []) store.items))
    × All
        (λ e. bucket_is_dead (30 * minute + 4) (e.1.items) ≡ false)
        (expire_stale (30 * minute + 4) store).items
expire_stale_lem_example =
    expire_stale_lem (30 * minute + 4) 5 (1 ∷ []) store store-IsOrdered store-IsUnique

abbrev rotator : TokenSecretRotator
rotator = record {
  rotation_interval = 5 * minute;
  current_secret = 1 ∷ [];
  prev_secret = [];
  last_rotation = 0;
  prev_secret_expires = 0;
}

-- the text itself stands for its digest and for its bytes
abbrev same : Bytes → Bytes
same b = b

other_token :
    (n : ℕ)
    → (1 == n) ≡ false
    → bytes_eq (issue_token same same (8 ∷ []) rotator) (n ∷ 8 ∷ []) ≡ false
unfolding bytes_eq issue_token
other_token n h = rw h refl

-- six minutes after the secret was replaced
verify_token-rotated_example :
    verify_token same same
      (11 * minute)
      (issue_token same same (8 ∷ []) rotator)
      (8 ∷ [])
      (rotate_if_needed
        (10 * minute)
        (some (3 ∷ []))
        (rotate_if_needed (5 * minute) (some (2 ∷ [])) rotator).1).1
    ≡ false
verify_token-rotated_example =
    verify_token-rotated same same (5 * minute) (10 * minute) (11 * minute) (2 ∷ []) (3 ∷ [])
      (8 ∷ []) rotator (omega arith) (omega arith) (other_token 2 refl) (other_token 3 refl)

abbrev announced : AnnounceCoordinator
announced = record {
  registered =
      ((1 ∷ []), record { listen_port = 6881; last_refresh = 0; initial_lookup_pending = true })
      ∷ [];
  received_tokens = [];
}

announced-IsUnique : IsUnique bytes_dec announced.registered
unfolding lookup
announced-IsUnique = (refl, tt)
