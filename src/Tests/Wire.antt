-- ===== src/Tests/Wire.antt =====
-- Messages, blocks and bitfields on the wire.
use bittorent_client.Common.{
  ◌+◌, ◌≤◌, ◌≡◌, ◌⊎◌, refl, Bytes, true, false, [], ◌∷◌, ◌++◌, none, ok, err, bad_access, arith,
  length, take, drop, replicate,
}
use bittorent_client.ByteOrder.{read_be32, byte_at}
use bittorent_client.PeerWire.Handshake.{Handshake}
use bittorent_client.PeerWire.Message
use bittorent_client.PeerWire.Message.{
  PeerMessage, RequestMessage, BitfieldMessage, serialize, deserialize, have_from_peer_message,
  request_from_peer_message, cancel_from_peer_message, piece_from_peer_message,
  piece_to_peer_message, has_piece,
}
use bittorent_client.PeerWire.Message.RoundTrip.{deserialize-serialize}
use bittorent_client.PeerWire.Message.Safety.{deserialize-bad_access}
use bittorent_client.PeerWire.Connection.State.{
  PeerConnection, InFlightPiece, new_in_flight, max_pipeline,
}
use bittorent_client.PeerWire.Connection.Requests.{request_blocks}
use bittorent_client.PeerWire.Connection.Handlers.{serve_request}
use bittorent_client.PeerWire.Connection.Tiling.{Tiles, request_blocks-Tiles}
use bittorent_client.PeerWire.Connection.Serving.{IsAcceptable, serve_request_lem}
use bittorent_client.Tests.Pieces.{Disk, memory, digest, half, half-IsStored}

abbrev have_message : PeerMessage
have_message = record { id = Message.have; payload = 0 ∷ 0 ∷ 1 ∷ 7 ∷ [] }

deserialize-serialize_example : deserialize (serialize have_message ++ (9 ∷ [])) ≡ ok have_message
deserialize-serialize_example =
    deserialize-serialize have_message (9 ∷ []) (omega arith) (omega arith)

-- a message of two bytes, of which one is missing
abbrev cut_off : Bytes
cut_off = 0 ∷ 0 ∷ 0 ∷ 2 ∷ 4 ∷ []

announces_two : read_be32 cut_off 0 ≡ ok 2
unfolding read_be32 byte_at
announces_two = refl

abbrev wrapping : Bytes
wrapping = 255 ∷ 255 ∷ 255 ∷ 255 ∷ 4 ∷ []

announces_most : read_be32 wrapping 0 ≡ ok 4294967295
unfolding read_be32 byte_at
announces_most = refl

deserialize-bad_access_example : deserialize wrapping ≡ err bad_access
deserialize-bad_access_example =
    deserialize-bad_access wrapping 4294967295 announces_most (omega arith) (omega arith)
      (omega arith) (omega arith)

abbrev greeting : Handshake
greeting = record { reserved = replicate 8 0; info_hash = replicate 20 1; peer_id = replicate 20 2 }

-- a piece of two blocks, the second one short
abbrev in_flight : InFlightPiece
in_flight = new_in_flight 3 20000

request_blocks-Tiles_example :
    let (requests, ifp') = request_blocks max_pipeline in_flight in
    Tiles 3 0 requests ifp'.next_block_offset
    × (ifp'.next_block_offset ≤ 20000)
    × ((max_pipeline ≤ ifp'.requests_in_flight) ⊎ (ifp'.next_block_offset ≡ 20000))
    × (ifp'.requests_in_flight ≡ 0 + length requests)
request_blocks-Tiles_example =
    request_blocks-Tiles max_pipeline in_flight (omega arith) (omega arith) (omega arith)

-- a connection whose peer may request
abbrev connection : PeerConnection Disk
connection = record {
  bytes_downloaded = 0;
  bytes_uploaded = 0;
  blocks_uploaded = 0;
  am_choking = false;
  am_interested = false;
  peer_choking = true;
  peer_interested = true;
  peer_bitfield = false ∷ false ∷ [];
  pieces = half;
  current_piece = none;
  current_piece_exclusive = false;
  sent = [];
}

abbrev two_bytes : RequestMessage
two_bytes = record { index = 0; begin = 1; len = 2 }

serve_request_lem_example :
    (IsAcceptable digest memory connection two_bytes
      → (block : Bytes) × (digest block ≡ 1 ∷ [])
        × ((serve_request digest memory connection two_bytes).sent
            ≡ []
              ++ (piece_to_peer_message
                    (record { index = 0; begin = 1; block = take 2 (drop 1 block) })
                  ∷ [])))
    × ((serve_request digest memory connection two_bytes ≡ connection)
        ⊎ IsAcceptable digest memory connection two_bytes)
serve_request_lem_example = serve_request_lem digest memory connection two_bytes half-IsStored
