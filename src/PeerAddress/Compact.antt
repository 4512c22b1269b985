-- ===== src/PeerAddress/Compact.antt =====
-- inc/peer_address.h, src/peer_address.cpp: the compact form of an address, four bytes of IPv4 and
-- two of the port in network byte order. `inet_aton` and `inet_ntoa` are parameters.
pub mod RoundTrip
use bittorent_client.Common.{
  ℕ, ◌+◌, ◌*◌, ◌/◌, ◌%◌, ◌<◌, ◌≡◌, refl, ap, Bytes, Bool, true, false, Option, none, some, List, [],
  ◌∷◌, ◌++◌, arith, ltb, if◌then◌else◌, length, get_or, take, drop, All, length-append,
  take-length-append, drop-length-append, map, sym, ◌∙◌,
}
use bittorent_client.Common.Chunks.{chunks, join, chunks-join}
use bittorent_client.PeerAddress.{PeerAddress}

-- The library's conversions between the text of an address and its four bytes.
pub record Inet : Type 0 where
  pub aton : Bytes → Option Bytes
  pub ntoa : Bytes → Bytes

-- What POSIX says of them: an address has four bytes, and its text is read back.
pub record IsInet (inet : Inet) : Type 0 where
  pub aton-length : (s b : Bytes) → inet.aton s ≡ some b → length b ≡ 4
  pub aton-ntoa : (b : Bytes) → length b ≡ 4 → inet.aton (inet.ntoa b) ≡ some b

abbrev pub be16 : ℕ → Bytes
be16 v = (v / 256 % 256) ∷ (v % 256) ∷ []

abbrev pub be16_at : Bytes → ℕ → ℕ
be16_at bytes i = get_or bytes i 0 * 256 + get_or bytes (i + 1) 0

-- `addr` is zero where the text is no address.
abbrev pub address_or_zero : Option Bytes → Bytes
address_or_zero none = 0 ∷ 0 ∷ 0 ∷ 0 ∷ []
address_or_zero (some b) = b

module _ (inet : Inet) where
  abbrev pub ip_bytes : Bytes → Bytes
  ip_bytes ip = address_or_zero (inet.aton ip)

  unfoldable pub peer_to_compact : Bytes → ℕ → Bytes
  peer_to_compact ip port = ip_bytes ip ++ be16 port

  unfoldable pub compact_to_peer : Bytes → ℕ → Option PeerAddress
  compact_to_peer bytes offset =
      if ltb (length bytes) (offset + 6)
      then none
      else some (record {
        ip = inet.ntoa (take 4 (drop offset bytes));
        port = be16_at bytes (offset + 4);
      })

  abbrev pub push_peer : Option PeerAddress → List PeerAddress → List PeerAddress
  push_peer none peers = peers
  push_peer (some pa) peers = pa ∷ peers

  -- The loop of `parse_compact_peers`, over the six bytes of each round.
  unfoldable pub peers_of : List Bytes → List PeerAddress
  peers_of [] = []
  peers_of (c ∷ cs) = push_peer (compact_to_peer c 0) (peers_of cs)

  unfoldable pub parse_compact_peers : Bytes → List PeerAddress
  unfolding peers_of
  parse_compact_peers bytes = peers_of (chunks 6 bytes)
