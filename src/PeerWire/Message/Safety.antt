-- ===== src/PeerWire/Message/Safety.antt =====
-- src/peer_wire/peer_message.cpp: which reads of `PeerMessage::deserialize` and of the typed
-- messages stay inside of the received buffer.
use bittorent_client.Common.{
  ℕ, ◌+◌, ◌/◌, ◌<◌, ◌≤◌, ◌≡◌, ◌≢◌, Bytes, ◌∷◌, ok, err, bad_access, arith, u32_mod, length,
}
use bittorent_client.ByteOrder.{byte_at, read_be32}
use bittorent_client.ByteOrder.Bounds.{byte_at_of_lt, read_be32_of_le}
use bittorent_client.PeerWire.Message.{
  PeerMessage, deserialize, have_from_peer_message, request_from_peer_message,
  piece_from_peer_message, cancel_from_peer_message, has_piece, BitfieldMessage,
}

-- Reading a message whose announced length is below 2^32 - 4 stays inside of the buffer.
pub deserialize-ne-bad_access :
    (buf : Bytes) (n : ℕ)
    → read_be32 buf 0 ≡ ok n
    → n + 4 < u32_mod
    → deserialize buf ≢ err bad_access
unfolding deserialize read_be32 byte_at
deserialize-ne-bad_access (a ∷ b ∷ c ∷ d ∷ id ∷ buf) n e h = ground arith
deserialize-ne-bad_access buf n e h = ground arith

-- For an announced length of at least 2^32 - 4 the test of the buffer's size wraps around: with four
-- bytes in the buffer, and fewer than announced, the payload is read from outside of it.
pub deserialize-bad_access :
    (buf : Bytes) (n : ℕ)
    → read_be32 buf 0 ≡ ok n
    → n < u32_mod
    → u32_mod ≤ n + 4
    → 4 ≤ length buf
    → length buf < 4 + n
    → deserialize buf ≡ err bad_access
unfolding deserialize read_be32 byte_at
deserialize-bad_access (a ∷ b ∷ c ∷ d ∷ id ∷ buf) n e h k l m = ground arith
deserialize-bad_access buf n e h k l m = ground arith

have-ne-bad_access : (msg : PeerMessage) → have_from_peer_message msg ≢ err bad_access
unfolding have_from_peer_message
have-ne-bad_access msg = grind (arith, read_be32_of_le msg.payload 0)

request-ne-bad_access : (msg : PeerMessage) → request_from_peer_message msg ≢ err bad_access
unfolding request_from_peer_message
request-ne-bad_access msg = grind (
  arith,
  read_be32_of_le msg.payload 0,
  read_be32_of_le msg.payload 4,
  read_be32_of_le msg.payload 8,
)

cancel-ne-bad_access : (msg : PeerMessage) → cancel_from_peer_message msg ≢ err bad_access
unfolding cancel_from_peer_message
cancel-ne-bad_access msg = grind (
  arith,
  read_be32_of_le msg.payload 0,
  read_be32_of_le msg.payload 4,
  read_be32_of_le msg.payload 8,
)

piece-ne-bad_access : (msg : PeerMessage) → piece_from_peer_message msg ≢ err bad_access
unfolding piece_from_peer_message
piece-ne-bad_access msg =
    grind (arith, read_be32_of_le msg.payload 0, read_be32_of_le msg.payload 4)

has_piece-ne-bad_access : (m : BitfieldMessage) (i : ℕ) → has_piece m i ≢ err bad_access
unfolding has_piece
has_piece-ne-bad_access m i = grind (arith, byte_at_of_lt m.bits (i / 8))

-- The parsers of the typed messages, and the bit test of a bitfield at any index, never read
-- outside of the payload: a payload of another size is an exception.
pub from_peer_message-ne-bad_access :
    (msg : PeerMessage) (m : BitfieldMessage) (i : ℕ)
    → (have_from_peer_message msg ≢ err bad_access)
      × (request_from_peer_message msg ≢ err bad_access)
      × (cancel_from_peer_message msg ≢ err bad_access)
      × (piece_from_peer_message msg ≢ err bad_access)
      × (has_piece m i ≢ err bad_access)
from_peer_message-ne-bad_access msg m i = (
  have-ne-bad_access msg,
  request-ne-bad_access msg,
  cancel-ne-bad_access msg,
  piece-ne-bad_access msg,
  has_piece-ne-bad_access m i,
)
