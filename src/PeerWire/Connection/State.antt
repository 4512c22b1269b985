-- ===== src/PeerWire/Connection/State.antt =====
-- inc/peer_wire/peer_connection.h, src/peer_wire/peer_connection.cpp: the state of one peer
-- connection from the handshake on, and the messages that it sends about itself. A message that is
-- sent is appended to `sent`: the socket gets its `serialize`. Sends are taken to succeed.
use bittorent_client.Common.{
  ℕ, zero, suc, ◌+◌, ◌-◌, ◌/◌, ◌%◌, ◌^◌, bit_or, Bytes, Bool, true, false, ◌||◌, List, [], ◌∷◌,
  ◌++◌, Option, none, some, Result, if◌then◌else◌, length, get_or, set, replicate, u32_mod,
}
use bittorent_client.PeerWire.Message
use bittorent_client.PeerWire.Message.{PeerMessage, bitfield_to_peer_message}
use bittorent_client.PeerWire.Pieces.{PieceManager, block_size, abort_piece, current_bitfield}

-- `MAX_PIPELINE`
abbrev pub max_pipeline : ℕ
max_pipeline = 15

pub record InFlightPiece : Type 0 where
  pub piece_index : ℕ
  pub piece_size : ℕ
  pub next_block_offset : ℕ
  pub requests_in_flight : ℕ
  pub block_data : Bytes
  pub blocks_received : List Bool
  pub blocks_done : ℕ
  pub blocks_total : ℕ

pub record PeerConnection (D : Type 0) : Type 0 where
  pub bytes_downloaded : ℕ
  pub bytes_uploaded : ℕ
  pub blocks_uploaded : ℕ
  pub am_choking : Bool
  pub am_interested : Bool
  pub peer_choking : Bool
  pub peer_interested : Bool
  pub peer_bitfield : List Bool
  pub pieces : PieceManager D
  pub current_piece : Option InFlightPiece
  pub current_piece_exclusive : Bool
  pub sent : List PeerMessage

abbrev pub Outcome : Type 0 → Type 0
Outcome D = PeerConnection D × Result (Unit {0})

-- a message with no payload
abbrev pub bare : ℕ → PeerMessage
bare id = record { id = id; payload = [] }

-- `ifp` of `fill_requests`: nothing is requested or received yet
abbrev pub new_in_flight : ℕ → ℕ → InFlightPiece
new_in_flight index size =
    let num_blocks = (size + block_size + u32_mod - 1) % u32_mod / block_size in
    record {
      piece_index = index;
      piece_size = size;
      next_block_offset = 0;
      requests_in_flight = 0;
      block_data = replicate size 0;
      blocks_received = replicate num_blocks false;
      blocks_done = 0;
      blocks_total = num_blocks;
    }

-- `bitfield[i / 8] |= 1 << (7 - i % 8)` for each piece that is there
unfoldable pub pack_from : ℕ → ℕ → List Bool → Bytes → Bytes
pack_from zero i have bits = bits
pack_from (suc n) i have bits = pack_from n (suc i) have (
    if get_or have i false
    then set bits (i / 8) (bit_or (get_or bits (i / 8) 0) (2 ^ (7 - i % 8)))
    else bits)

abbrev pub pack : List Bool → Bytes
pack have = pack_from (length have) 0 have (replicate ((length have + 7) / 8) 0)

unfoldable pub any_true : List Bool → Bool
any_true [] = false
any_true (b ∷ bs) = b || any_true bs

module _ {D : Type 0} where
  abbrev pub send_message : PeerConnection D → PeerMessage → PeerConnection D
  send_message c msg = record c { sent = c.sent ++ (msg ∷ []) }

  unfoldable pub init : PieceManager D → PeerConnection D
  init pieces = record {
    bytes_downloaded = 0;
    bytes_uploaded = 0;
    blocks_uploaded = 0;
    am_choking = true;
    am_interested = false;
    peer_choking = true;
    peer_interested = false;
    peer_bitfield = replicate pieces.num_pieces false;
    pieces = pieces;
    current_piece = none;
    current_piece_exclusive = false;
    sent = [];
  }

  -- the destructor
  unfoldable pub close : PeerConnection D → PieceManager D
  close c = elim c.current_piece [
    | none ↦ c.pieces
    | some ifp ↦
        if c.current_piece_exclusive then abort_piece c.pieces ifp.piece_index else c.pieces
  ]

  unfoldable pub send_interested : PeerConnection D → PeerConnection D
  send_interested c =
      if c.am_interested
      then c
      else record (send_message c (bare Message.interested)) { am_interested = true }

  unfoldable pub send_unchoke : PeerConnection D → PeerConnection D
  send_unchoke c =
      if c.am_choking
      then record (send_message c (bare Message.unchoke)) { am_choking = false }
      else c

  unfoldable pub send_bitfield : PeerConnection D → PeerConnection D
  unfolding any_true
  send_bitfield c =
      if any_true (current_bitfield c.pieces)
      then send_message c
          (bitfield_to_peer_message (record { bits = pack (current_bitfield c.pieces) }))
      else c
