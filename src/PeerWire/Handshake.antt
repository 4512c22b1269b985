-- ===== src/PeerWire/Handshake.antt =====
-- inc/peer_wire/peer_message.h, src/peer_wire/peer_message.cpp: the handshake of 68 bytes.
pub mod RoundTrip
use bittorent_client.Common.{
  ℕ, zero, suc, ◌+◌, Bytes, Bool, true, false, not, ◌&&◌, List, [], ◌∷◌, ◌++◌, none, some, Result,
  ok, err, runtime_error, ◌>>=◌, ◌>>◌, throw_if, ltb, ◌==◌, if◌then◌else◌, length, take, drop,
}
use bittorent_client.InfoHash.{InfoHash, try_from_raw}
use bittorent_client.ByteOrder.{byte_at}

abbrev pub protocol_string_length : ℕ
protocol_string_length = 19

-- "BitTorrent protocol"
abbrev pub protocol_string : Bytes
protocol_string =
    b'B' ∷ b'i' ∷ b't' ∷ b'T' ∷ b'o' ∷ b'r' ∷ b'r' ∷ b'e' ∷ b'n' ∷ b't' ∷ b' ' ∷ b'p' ∷ b'r' ∷ b'o'
    ∷ b't' ∷ b'o' ∷ b'c' ∷ b'o' ∷ b'l' ∷ []

abbrev pub handshake_length : ℕ
handshake_length = 1 + 19 + 8 + 20 + 20

-- arrays of 8, 20 and 20 bytes
pub record Handshake : Type 0 where
  pub reserved : Bytes
  pub info_hash : InfoHash
  pub peer_id : Bytes

unfoldable pub serialize : Handshake → Bytes
serialize hs =
    (protocol_string_length ∷ [])
    ++ (protocol_string ++ (hs.reserved ++ (hs.info_hash ++ hs.peer_id)))

-- `memcmp(xs, ys, n) == 0` on as many bytes as both lists have
unfoldable pub same_bytes : Bytes → Bytes → Bool
same_bytes [] [] = true
same_bytes (x ∷ xs) (y ∷ ys) = x == y && same_bytes xs ys
same_bytes _ _ = false

unfoldable pub deserialize : Bytes → Result Handshake
unfolding byte_at same_bytes try_from_raw
deserialize buf = do
  throw_if (ltb (length buf) handshake_length) runtime_error
  pstrlen ← byte_at buf 0
  throw_if (not (pstrlen == protocol_string_length)) runtime_error
  throw_if (not (same_bytes (take 19 (drop 1 buf)) protocol_string)) runtime_error
  let reserved = take 8 (drop 20 buf)
  let raw = take 20 (drop 28 buf)
  elim (try_from_raw raw) [
    | none ↦ err runtime_error
    | some info_hash ↦
        ok (record { reserved = reserved; info_hash = info_hash; peer_id = take 20 (drop 48 buf) })
  ]
