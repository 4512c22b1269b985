-- ===== src/Trackers/Udp/Response.antt =====
-- inc/trackers/udp_tracker_communicator.h, `AnnounceResp::deserialize`: what is read from the answer
-- of a tracker, by the layout that BEP 15 gives.
use bittorent_client.Common.{
  ℕ, ◌+◌, ◌*◌, ◌/◌, ◌%◌, ◌<◌, ◌≡◌, refl, Bytes, false, List, [], ◌∷◌, ◌++◌, ok, length, take,
  get_or, All, arith, u32_mod, ltb,
}
use bittorent_client.Common.Chunks.{join, chunks-join}
use bittorent_client.ByteOrder.{byte_at, read_be16, read_be32}
use bittorent_client.ByteOrder.Bounds.{byte_at-get_or}
use bittorent_client.PeerAddress.{PeerAddress}
use bittorent_client.Trackers.Udp.{dotted, read_peer, read_peers, deserialize_announce_resp}

abbrev pub be32 : ℕ → Bytes
be32 v = (v / 0x1000000 % 256) ∷ (v / 0x10000 % 256) ∷ (v / 0x100 % 256) ∷ (v % 256) ∷ []

-- the answer to an announce
abbrev pub answer : ℕ → ℕ → ℕ → ℕ → List Bytes → Bytes → Bytes
answer transaction_id interval leechers seeders entries rest =
    be32 1
    ++ (be32 transaction_id
        ++ (be32 interval ++ (be32 leechers ++ (be32 seeders ++ (join entries ++ rest)))))

-- The peer of an entry: four octets and a port.
abbrev pub peer_of : Bytes → PeerAddress
peer_of entry = record {
  ip = dotted (take 4 entry);
  port = get_or entry 4 0 * 256 + get_or entry 5 0;
}

abbrev pub peers_of : List Bytes → List PeerAddress
peers_of [] = []
peers_of (entry ∷ entries) = peer_of entry ∷ peers_of entries

joined :
    (v : ℕ)
    → v < u32_mod
    → v / 0x1000000 % 256 * 0x1000000
        + v / 0x10000 % 256 * 0x10000
        + v / 0x100 % 256 * 0x100
        + v % 256
      ≡ v
joined v h = omega arith

module _ (inet_ntop : Bytes → Bytes) where
  read_peer-eq :
      (entry : Bytes) → length entry ≡ 6 → read_peer inet_ntop false entry ≡ ok (peer_of entry)
  unfolding read_peer read_be16
  read_peer-eq entry h =
      let e4 : byte_at entry (4 + 0) ≡ ok (get_or entry 4 0) =
        byte_at-get_or entry 4 (omega arith) in
      let e5 : byte_at entry (4 + 1) ≡ ok (get_or entry 5 0) =
        byte_at-get_or entry 5 (omega arith) in
      simp (e4, e5) refl

  read_peers-eq :
      (entries : List Bytes)
      → All (λ c. length c ≡ 6) entries
      → read_peers inet_ntop false entries ≡ ok (peers_of entries)
  unfolding read_peers
  read_peers-eq [] h = refl
  read_peers-eq (entry ∷ entries) h =
      rw (read_peer-eq entry (h.0), read_peers-eq entries (h.1)) refl

  -- The answer of a tracker to an announce over IPv4 is read as it was meant: the transaction, the
  -- interval and the two counts are any 32-bit numbers, and the peers are those of the six-byte
  -- entries, all of them and in their order; fewer than six bytes behind them are dropped.
  pub deserialize_announce_resp-answer :
      (transaction_id interval leechers seeders : ℕ) (entries : List Bytes) (rest : Bytes)
      → transaction_id < u32_mod
      → interval < u32_mod
      → leechers < u32_mod
      → seeders < u32_mod
      → All (λ c. length c ≡ 6) entries
      → length rest < 6
      → deserialize_announce_resp inet_ntop false
          (answer transaction_id interval leechers seeders entries rest)
        ≡ ok (record {
          action = 1;
          transaction_id = transaction_id;
          interval = interval;
          leechers = leechers;
          seeders = seeders;
          peers = peers_of entries;
        })
  unfolding deserialize_announce_resp read_be32 byte_at
  deserialize_announce_resp-answer t i l s entries rest ht hi hl hs h short =
      let long : ltb (length (answer t i l s entries rest)) 20 ≡ false = ground arith in
      let whole = chunks-join 6 entries rest (omega arith) h short in
      rw (long, whole, read_peers-eq entries h)
        (λ k. ok (record {
          action = 1;
          transaction_id = joined t ht k;
          interval = joined i hi k;
          leechers = joined l hl k;
          seeders = joined s hs k;
          peers = peers_of entries;
        }))
