-- ===== src/PeerWire/Message/RoundTrip.antt =====
-- src/peer_wire/peer_message.cpp: every message is read back as it was written.
use bittorent_client.Common.{
  ℕ, suc, ◌+◌, ◌-◌, ◌*◌, ◌/◌, ◌%◌, ◌<◌, ◌≡◌, Bytes, [], ◌∷◌, ◌++◌, ok, arith, u32_mod, length,
  take-length-append, copy_at-zero-replicate, length-append,
}
use bittorent_client.ByteOrder.{byte_at, read_be32}
use bittorent_client.PeerWire.Message.{
  PeerMessage, wire_length, serialize, deserialize, HaveMessage, RequestMessage, PieceMessage,
  CancelMessage, have_to_peer_message, have_from_peer_message, request_to_peer_message,
  request_from_peer_message, piece_to_peer_message, piece_from_peer_message, cancel_to_peer_message,
  cancel_from_peer_message,
}

-- the bytes of a 32-bit value, joined again
abbrev joined : ℕ → ℕ
joined v = v / 16777216 % 256 * 16777216 + v / 65536 % 256 * 65536 + v / 256 % 256 * 256 + v % 256

joined_lem : (v : ℕ) → v < u32_mod → joined v ≡ v
joined_lem v h = omega arith

pub request-RoundTrip :
    (m : RequestMessage)
    → m.index < u32_mod
    → m.begin < u32_mod
    → m.len < u32_mod
    → request_from_peer_message (request_to_peer_message m) ≡ ok m
unfolding request_to_peer_message request_from_peer_message read_be32
request-RoundTrip m h k l = rw (joined_lem m.index h, joined_lem m.begin k, joined_lem m.len l)

pub cancel-RoundTrip :
    (m : CancelMessage)
    → m.index < u32_mod
    → m.begin < u32_mod
    → m.len < u32_mod
    → cancel_from_peer_message (cancel_to_peer_message m) ≡ ok m
unfolding cancel_to_peer_message cancel_from_peer_message read_be32
cancel-RoundTrip m h k l = rw (joined_lem m.index h, joined_lem m.begin k, joined_lem m.len l)

pub have-RoundTrip :
    (m : HaveMessage)
    → m.piece_index < u32_mod
    → have_from_peer_message (have_to_peer_message m) ≡ ok m
unfolding have_to_peer_message have_from_peer_message read_be32
have-RoundTrip m h = rw (joined_lem m.piece_index h)

pub piece-RoundTrip :
    (m : PieceMessage)
    → m.index < u32_mod
    → m.begin < u32_mod
    → piece_from_peer_message (piece_to_peer_message m) ≡ ok m
unfolding piece_to_peer_message piece_from_peer_message read_be32
piece-RoundTrip m h k =
    let e : 8 + length m.block ≡ suc (suc (suc (suc (suc (suc (suc (suc (length m.block)))))))) =
      omega arith in
    rw (e, copy_at-zero-replicate m.block 0, joined_lem m.index h, joined_lem m.begin k)
      (ground arith)

-- The layout of a message that fits: its length in four bytes, its id, its payload.
serialize_layout :
    (msg : PeerMessage)
    → length msg.payload + 5 < u32_mod
    → let v = wire_length msg.payload in
      serialize msg
      ≡ (v / 16777216 % 256)
        ∷ (v / 65536 % 256)
        ∷ (v / 256 % 256)
        ∷ (v % 256)
        ∷ (msg.id % 256)
        ∷ msg.payload
unfolding serialize
serialize_layout msg h =
    let e : (4 + wire_length msg.payload) % u32_mod
        ≡ suc (suc (suc (suc (suc (length msg.payload))))) =
      omega arith in
    rw (e, copy_at-zero-replicate msg.payload 0)

-- What `deserialize` does with a buffer that announces `n` bytes after the length.
deserialize_layout :
    (a b c d id n : ℕ) (payload rest : Bytes)
    → a * 16777216 + b * 65536 + c * 256 + d ≡ n
    → n ≡ suc (length payload)
    → n + 4 < u32_mod
    → deserialize (a ∷ b ∷ c ∷ d ∷ id ∷ (payload ++ rest))
      ≡ ok (record { id = id; payload = payload })
unfolding deserialize read_be32 byte_at
deserialize_layout a b c d id n [] rest p q h = rw p (ground arith)
deserialize_layout a b c d id n (x ∷ payload) rest p q h =
    rw p (
      ground (arith, length-append payload rest, take-length-append (x ∷ payload) rest {n = n - 1}))

-- A message with a byte as its id, and a payload that the 32-bit length can describe, is read back
-- from what is sent, whatever follows it in the buffer.
pub deserialize-serialize :
    (msg : PeerMessage) (rest : Bytes)
    → msg.id < 256
    → length msg.payload + 5 < u32_mod
    → deserialize (serialize msg ++ rest) ≡ ok msg
deserialize-serialize msg rest h k =
    let n = wire_length msg.payload in
    let id_fits : msg.id % 256 ≡ msg.id = omega arith in
    rw (serialize_layout msg k, id_fits)
      (deserialize_layout (n / 16777216 % 256) (n / 65536 % 256) (n / 256 % 256) (n % 256) msg.id n
        msg.payload rest (omega arith) (omega arith) (omega arith))
