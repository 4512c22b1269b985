-- ===== src/PeerAddress/Compact/RoundTrip.antt =====
-- src/peer_address.cpp: the compact form is read back.
use bittorent_client.Common.{
  ℕ, ◌+◌, ◌<◌, ◌≡◌, refl, ap, sym, ◌∙◌, Bytes, List, [], ◌∷◌, ◌++◌, some, arith, length, ltb, false,
  All, get_or-append, length-append, take-length-append,
}
use bittorent_client.Common.Chunks.{join, chunks-join}
use bittorent_client.PeerAddress.{PeerAddress}
use bittorent_client.PeerAddress.Compact.{
  Inet, IsInet, be16, be16_at, ip_bytes, peer_to_compact, peers_of, compact_to_peer,
  parse_compact_peers,
}

-- the two bytes of a number behind a string
pub be16_at-append :
    (xs : Bytes) (v n : ℕ) → n ≡ length xs → v < 65536 → be16_at (xs ++ be16 v) n ≡ v
be16_at-append xs v n e h =
    let high = get_or-append xs (be16 v) n 0 0 (omega arith) in
    let low = get_or-append xs (be16 v) (n + 1) 1 0 (omega arith) in omega (arith, high, low)

module _ (inet : Inet) (law : IsInet inet) where
  -- An address as the library prints it, and a port of 16 bits.
  abbrev pub IsPeer : PeerAddress → Type 0
  IsPeer pa = (b : Bytes) × (length b ≡ 4) × (pa.ip ≡ inet.ntoa b) × (pa.port < 65536)

  pub ip_bytes-ntoa : (b : Bytes) → length b ≡ 4 → ip_bytes inet (inet.ntoa b) ≡ b
  ip_bytes-ntoa b h = rw (law.aton-ntoa b h)

  pub length-peer_to_compact :
      (pa : PeerAddress) → IsPeer pa → length (peer_to_compact inet pa.ip pa.port) ≡ 6
  unfolding peer_to_compact
  length-peer_to_compact pa (b, h, e, p) =
      rw (e, ip_bytes-ntoa b h) (omega (arith, length-append b (be16 pa.port)))

  pub compact_to_peer-peer_to_compact :
      (pa : PeerAddress)
      → IsPeer pa
      → compact_to_peer inet (peer_to_compact inet pa.ip pa.port) 0 ≡ some pa
  unfolding peer_to_compact compact_to_peer
  compact_to_peer-peer_to_compact pa (b, h, e, p) =
      let packed : ip_bytes inet pa.ip ≡ b = ap (ip_bytes inet) e ∙ ip_bytes-ntoa b h in
      let whole : ltb (length (b ++ be16 pa.port)) (0 + 6) ≡ false =
        ground (arith, length-append b (be16 pa.port)) in
      let first = take-length-append b (be16 pa.port) {n = 4} (omega arith) in
      let last = be16_at-append b pa.port 4 (omega arith) p in
      rw (packed, whole, first) (λ i. some (record { ip = (sym e) i; port = last i }))

  abbrev pub compact_all : List PeerAddress → List Bytes
  compact_all [] = []
  compact_all (pa ∷ pas) = peer_to_compact inet pa.ip pa.port ∷ compact_all pas

  pub compact_all-All :
      (pas : List PeerAddress) → All IsPeer pas → All (λ c. length c ≡ 6) (compact_all pas)
  compact_all-All [] h = tt
  compact_all-All (pa ∷ pas) h = (length-peer_to_compact pa h.0, compact_all-All pas h.1)

  pub peers_of-compact_all :
      (pas : List PeerAddress) → All IsPeer pas → peers_of inet (compact_all pas) ≡ pas
  unfolding peers_of
  peers_of-compact_all [] h = refl
  peers_of-compact_all (pa ∷ pas) h =
      rw (compact_to_peer-peer_to_compact pa h.0) (ap (pa ∷◌) (peers_of-compact_all pas h.1))

  -- The compact forms of peers, one behind the other, are read back; what is left over at the end,
  -- shorter than a peer, is ignored.
  pub parse_compact_peers-join :
      (pas : List PeerAddress) (r : Bytes)
      → All IsPeer pas
      → length r < 6
      → parse_compact_peers inet (join (compact_all pas) ++ r) ≡ pas
  unfolding parse_compact_peers
  parse_compact_peers-join pas r h l =
      rw (chunks-join 6 (compact_all pas) r (omega arith) (compact_all-All pas h) l)
        (peers_of-compact_all pas h)
