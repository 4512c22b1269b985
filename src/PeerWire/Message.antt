-- ===== src/PeerWire/Message.antt =====
-- inc/peer_wire/peer_message.h, src/peer_wire/peer_message.cpp: length-prefixed peer messages and
-- the typed messages that they carry.
pub mod RoundTrip
pub mod Safety
use bittorent_client.Common.{
  ℕ, ◌+◌, ◌-◌, ◌*◌, ◌/◌, ◌%◌, ◌^◌, Bytes, Bool, true, false, not, [], ◌∷◌, Result, ok, err,
  runtime_error, bad_access, ◌>>=◌, ◌>>◌, throw_if, ltb, leb, ◌==◌, if◌then◌else◌, length, copy_at,
  replicate, take, drop, u32_mod, set,
}
use bittorent_client.ByteOrder.{byte_at, write_be32, read_be32}

-- `MessageId` is an enum over `uint8_t`: `static_cast<MessageId>` keeps any byte, so a message id
-- is a byte, and the enumerators are names of nine of them.
abbrev pub MessageId : Type 0
MessageId = ℕ

abbrev pub choke : MessageId
choke = 0

abbrev pub unchoke : MessageId
unchoke = 1

abbrev pub interested : MessageId
interested = 2

abbrev pub not_interested : MessageId
not_interested = 3

abbrev pub have : MessageId
have = 4

abbrev pub bitfield : MessageId
bitfield = 5

abbrev pub request : MessageId
request = 6

abbrev pub piece : MessageId
piece = 7

abbrev pub cancel : MessageId
cancel = 8

pub record PeerMessage : Type 0 where
  pub id : MessageId
  pub payload : Bytes

-- `1 + static_cast<uint32_t>(payload.size())`, in `uint32_t`
abbrev pub wire_length : Bytes → ℕ
wire_length payload = (1 + length payload % u32_mod) % u32_mod

unfoldable pub serialize : PeerMessage → Bytes
unfolding write_be32
serialize msg =
    let len = wire_length msg.payload in
    let buf = replicate ((4 + len) % u32_mod) 0 in
    let head = set (write_be32 buf 0 len) 4 (msg.id % 256) in copy_at head 5 msg.payload

-- `msg.payload.assign(data + 5, data + 4 + length)`: reads outside of the buffer if that is shorter
unfoldable pub assign : Bytes → ℕ → Result Bytes
assign buf len =
    if ltb (length buf) (4 + len) then err bad_access else ok (take (len - 1) (drop 5 buf))

-- `len` of the C++ code is the number of bytes of `buf`.
unfoldable pub deserialize : Bytes → Result PeerMessage
unfolding assign
deserialize buf = do
  throw_if (ltb (length buf) 4) runtime_error
  len ← read_be32 buf 0
  throw_if (len == 0) runtime_error
  throw_if (ltb (length buf) ((4 + len) % u32_mod)) runtime_error
  id ← byte_at buf 4
  payload ← if ltb 1 len then assign buf len else ok []
  ok (record { id = id; payload = payload })

pub record HaveMessage : Type 0 where
  pub piece_index : ℕ

pub record BitfieldMessage : Type 0 where
  pub bits : Bytes

pub record RequestMessage : Type 0 where
  pub index : ℕ
  pub begin : ℕ
  pub len : ℕ

pub record PieceMessage : Type 0 where
  pub index : ℕ
  pub begin : ℕ
  pub block : Bytes

pub record CancelMessage : Type 0 where
  pub index : ℕ
  pub begin : ℕ
  pub len : ℕ

unfoldable pub have_to_peer_message : HaveMessage → PeerMessage
unfolding write_be32
have_to_peer_message m = record { id = have; payload = write_be32 (replicate 4 0) 0 m.piece_index }

unfoldable pub have_from_peer_message : PeerMessage → Result HaveMessage
have_from_peer_message msg = do
  throw_if (not (msg.id == have)) runtime_error
  throw_if (not (length msg.payload == 4)) runtime_error
  index ← read_be32 msg.payload 0
  ok (record { piece_index = index })

-- `(bitfield[byte_idx] >> bit_idx) & 1`, with the highest bit of a byte for the lowest index
unfoldable pub has_piece : BitfieldMessage → ℕ → Result Bool
has_piece m index = do
  let byte_idx = index / 8
  let bit_idx = 7 - index % 8
  throw_if (leb (length m.bits) byte_idx) runtime_error
  b ← byte_at m.bits byte_idx
  ok (not (b / 2 ^ bit_idx % 2 == 0))

unfoldable pub bitfield_to_peer_message : BitfieldMessage → PeerMessage
bitfield_to_peer_message m = record { id = bitfield; payload = m.bits }

unfoldable pub bitfield_from_peer_message : PeerMessage → Result BitfieldMessage
bitfield_from_peer_message msg = do
  throw_if (not (msg.id == bitfield)) runtime_error
  ok (record { bits = msg.payload })

unfoldable pub request_to_peer_message : RequestMessage → PeerMessage
unfolding write_be32
request_to_peer_message m =
    let p0 = write_be32 (replicate 12 0) 0 m.index in
    let p1 = write_be32 p0 4 m.begin in record { id = request; payload = write_be32 p1 8 m.len }

unfoldable pub request_from_peer_message : PeerMessage → Result RequestMessage
request_from_peer_message msg = do
  throw_if (not (msg.id == request)) runtime_error
  throw_if (not (length msg.payload == 12)) runtime_error
  index ← read_be32 msg.payload 0
  begin ← read_be32 msg.payload 4
  len ← read_be32 msg.payload 8
  ok (record { index = index; begin = begin; len = len })

unfoldable pub piece_to_peer_message : PieceMessage → PeerMessage
unfolding write_be32
piece_to_peer_message m =
    let p0 = write_be32 (replicate (8 + length m.block) 0) 0 m.index in
    let p1 = write_be32 p0 4 m.begin in record { id = piece; payload = copy_at p1 8 m.block }

unfoldable pub piece_from_peer_message : PeerMessage → Result PieceMessage
piece_from_peer_message msg = do
  throw_if (not (msg.id == piece)) runtime_error
  throw_if (ltb (length msg.payload) 8) runtime_error
  index ← read_be32 msg.payload 0
  begin ← read_be32 msg.payload 4
  ok (record { index = index; begin = begin; block = drop 8 msg.payload })

unfoldable pub cancel_to_peer_message : CancelMessage → PeerMessage
unfolding write_be32
cancel_to_peer_message m =
    let p0 = write_be32 (replicate 12 0) 0 m.index in
    let p1 = write_be32 p0 4 m.begin in record { id = cancel; payload = write_be32 p1 8 m.len }

unfoldable pub cancel_from_peer_message : PeerMessage → Result CancelMessage
cancel_from_peer_message msg = do
  throw_if (not (msg.id == cancel)) runtime_error
  throw_if (not (length msg.payload == 12)) runtime_error
  index ← read_be32 msg.payload 0
  begin ← read_be32 msg.payload 4
  len ← read_be32 msg.payload 8
  ok (record { index = index; begin = begin; len = len })
