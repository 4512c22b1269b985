-- ===== src/PeerWire/Connection/Requests.antt =====
-- src/peer_wire/peer_connection.cpp, `fill_requests`: which piece is downloaded next, and which of
-- its blocks are requested.
use bittorent_client.Common.{
  ℕ, zero, suc, ◌+◌, ◌-◌, ◌%◌, false, not, ◌&&◌, List, [], ◌∷◌, ◌++◌, none, some, ltb,
  if◌then◌else◌, u32_mod,
}
use Prim.Native.Nat.{min}
use bittorent_client.PeerWire.Message.{PeerMessage, request_to_peer_message}
use bittorent_client.PeerWire.Pieces.{block_size, next_needed, piece_length, have_piece}
use bittorent_client.PeerWire.Connection.State.{
  InFlightPiece, PeerConnection, max_pipeline, new_in_flight,
}

-- the message of one request of `fill_requests`
abbrev pub block_request : ℕ → ℕ → ℕ → PeerMessage
block_request index begin len =
    request_to_peer_message (record { index = index; begin = begin; len = len })

-- The `while` loop of `fill_requests`: what it sends, and the piece that it leaves. A round adds
-- one to `requests_in_flight`, so that `max_pipeline` rounds are enough.
unfoldable pub request_blocks : ℕ → InFlightPiece → List PeerMessage × InFlightPiece
request_blocks zero ifp = ([], ifp)
request_blocks (suc fuel) ifp =
    let block_len = min block_size (ifp.piece_size - ifp.next_block_offset) in
    let rest = request_blocks fuel (record ifp {
      next_block_offset = (ifp.next_block_offset + block_len) % u32_mod;
      requests_in_flight = (ifp.requests_in_flight + 1) % u32_mod;
    }) in
    if ltb ifp.requests_in_flight max_pipeline && ltb ifp.next_block_offset ifp.piece_size
    then (block_request ifp.piece_index ifp.next_block_offset block_len ∷ rest.0, rest.1)
    else ([], ifp)

module _ {D : Type 0} where
  -- drops a piece that another connection completed
  unfoldable pub drop_complete : PeerConnection D → PeerConnection D
  drop_complete c = elim c.current_piece [
    | none ↦ c
    | some ifp ↦
        if have_piece c.pieces ifp.piece_index
        then record c { current_piece = none; current_piece_exclusive = false }
        else c
  ]

  -- picks a piece if none is in flight
  unfoldable pub pick_piece : PeerConnection D → PeerConnection D
  pick_piece c = elim c.current_piece [
    | some ifp ↦ c
    | none ↦
        let (pieces', pick) = next_needed c.pieces c.peer_bitfield in
        elim pick [
          | none ↦ record c { pieces = pieces' }
          | some p ↦ record c {
            pieces = pieces';
            current_piece = some (new_in_flight p.index (piece_length pieces' p.index));
            current_piece_exclusive = p.exclusive;
          }
        ]
  ]

  unfoldable pub send_requests : PeerConnection D → PeerConnection D
  unfolding request_blocks
  send_requests c = elim c.current_piece [
    | none ↦ c
    | some ifp ↦
        let (requests, ifp') = request_blocks max_pipeline ifp in
        record c { current_piece = some ifp'; sent = c.sent ++ requests }
  ]

  unfoldable pub fill_requests : PeerConnection D → PeerConnection D
  fill_requests c =
      if c.peer_choking
      then c
      else if not c.am_interested
      then c
      else send_requests (pick_piece (drop_complete c))
