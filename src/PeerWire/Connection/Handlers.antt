-- ===== src/PeerWire/Connection/Handlers.antt =====
-- src/peer_wire/peer_connection.cpp: the handlers of the received messages. A handler returns the
-- state that it leaves, also when it throws.
use bittorent_client.Common.{
  ℕ, zero, suc, ◌+◌, ◌-◌, ◌/◌, ◌%◌, Bytes, Bool, true, false, not, ◌&&◌, ◌||◌, List, [], ◌∷◌, ◌++◌,
  Option, none, some, Result, ok, err, runtime_error, ltb, leb, ◌==◌, if◌then◌else◌, length, get_or,
  set, copy_at, u32_mod, u64_mod,
}
use bittorent_client.PeerWire.Message
use bittorent_client.PeerWire.Message.{
  PeerMessage, BitfieldMessage, PieceMessage, RequestMessage, have_from_peer_message,
  bitfield_from_peer_message, has_piece, request_from_peer_message, piece_from_peer_message,
  piece_to_peer_message, cancel_from_peer_message,
}
use bittorent_client.PeerWire.Pieces.{
  PieceManager, DiskWriter, block_size, have_piece, abort_piece, complete_piece, read_block,
}
use bittorent_client.PeerWire.Connection.State.{
  InFlightPiece, PeerConnection, Outcome, send_interested, send_unchoke, close,
}
use bittorent_client.PeerWire.Connection.Requests.{fill_requests}

-- The first loop of `handle_bitfield`. `has_piece` throws behind the end of the payload.
unfoldable pub copy_bitfield : ℕ → ℕ → List Bool → BitfieldMessage → List Bool × Result (Unit {0})
copy_bitfield zero i mine bf = (mine, ok tt)
copy_bitfield (suc n) i mine bf = elim (has_piece bf i) [
  | err e ↦ (mine, err e)
  | ok b ↦ copy_bitfield n (suc i) (if b then set mine i true else mine) bf
]

module _ {D : Type 0} where
  unfoldable pub handle_choke : PeerConnection D → PeerConnection D
  handle_choke c = elim c.current_piece [
    | none ↦ record c { peer_choking = true }
    | some ifp ↦ record c {
      peer_choking = true;
      pieces = if c.current_piece_exclusive then abort_piece c.pieces ifp.piece_index else c.pieces;
      current_piece = none;
      current_piece_exclusive = false;
    }
  ]

  abbrev pub handle_unchoke : PeerConnection D → PeerConnection D
  handle_unchoke c = record c { peer_choking = false }

  abbrev pub handle_interested : PeerConnection D → PeerConnection D
  handle_interested c = send_unchoke (record c { peer_interested = true })

  abbrev pub handle_not_interested : PeerConnection D → PeerConnection D
  handle_not_interested c = record c { peer_interested = false }

  -- `handle_have` behind the parser
  unfoldable pub note_have : PeerConnection D → ℕ → Outcome D
  note_have c index =
      if leb (length c.peer_bitfield) index
      then (c, err runtime_error)
      else let c' = record c { peer_bitfield = set c.peer_bitfield index true } in
        (if have_piece c.pieces index then c' else send_interested c', ok tt)

  unfoldable pub handle_have : PeerConnection D → PeerMessage → Outcome D
  handle_have c msg = elim (have_from_peer_message msg) [
    | err e ↦ (c, err e)
    | ok m ↦ note_have c m.piece_index
  ]

  -- The second loop: does the peer have a piece that we lack?
  unfoldable pub has_missing : ℕ → ℕ → List Bool → PieceManager D → Bool
  has_missing zero i mine pm = false
  has_missing (suc n) i mine pm =
      (get_or mine i false && not (have_piece pm i)) || has_missing n (suc i) mine pm

  unfoldable pub handle_bitfield : PeerConnection D → PeerMessage → Outcome D
  handle_bitfield c msg = elim (bitfield_from_peer_message msg) [
    | err e ↦ (c, err e)
    | ok bf ↦
        let num = c.pieces.num_pieces in
        if not (length c.peer_bitfield == num)
        then (c, err runtime_error)
        else let (mine, r) = copy_bitfield num 0 c.peer_bitfield bf in
          let c' = record c { peer_bitfield = mine } in
          elim r [
            | err e ↦ (c', err e)
            | ok _ ↦ (if has_missing num 0 mine c.pieces then send_interested c' else c', ok tt)
          ]
  ]

module _ {D : Type 0} (sha1 : Bytes → Bytes) (writer : DiskWriter D) where
  -- `handle_piece` once all blocks are there
  unfoldable pub finish_piece : PeerConnection D → InFlightPiece → Outcome D
  finish_piece c ifp =
      let (pieces', r) = complete_piece sha1 writer c.pieces ifp.piece_index ifp.block_data in
      let c' = record c { pieces = pieces' } in
      elim r [
        | err e ↦ (c', err e)
        | ok verified ↦ (
          record c' {
            pieces =
                if verified
                then pieces'
                else if c.current_piece_exclusive
                then abort_piece pieces' ifp.piece_index
                else pieces';
            current_piece = none;
            current_piece_exclusive = false;
          },
          ok tt,
        )
      ]

  -- `handle_piece` for a block of the piece in flight
  unfoldable pub take_block : PeerConnection D → InFlightPiece → PieceMessage → Outcome D
  take_block c ifp m =
      let waiting = record ifp {
        requests_in_flight = (ifp.requests_in_flight + u32_mod - 1) % u32_mod;
      } in
      let block_idx = m.begin / block_size in
      let taken = record waiting {
        block_data = copy_at ifp.block_data m.begin m.block;
        blocks_received = set ifp.blocks_received block_idx true;
        blocks_done = (ifp.blocks_done + 1) % u32_mod;
      } in
      let c' = record c {
        current_piece = some taken;
        bytes_downloaded = (c.bytes_downloaded + length m.block) % u64_mod;
      } in
      if ltb (length ifp.block_data) (m.begin + length m.block)
      then (record c { current_piece = some waiting }, ok tt)
      else if leb (length ifp.blocks_received) block_idx
          || get_or ifp.blocks_received block_idx false
      then (record c { current_piece = some waiting }, ok tt)
      else if ltb taken.blocks_done taken.blocks_total
      then (c', ok tt)
      else finish_piece c' taken

  unfoldable pub handle_piece : PeerConnection D → PeerMessage → Outcome D
  handle_piece c msg = elim (piece_from_peer_message msg) [
    | err e ↦ (c, err e)
    | ok m ↦ elim c.current_piece [
      | none ↦ (c, ok tt)
      | some ifp ↦ if not (m.index == ifp.piece_index) then (c, ok tt) else take_block c ifp m
    ]
  ]

  -- `handle_request` behind the parser. An exception of `read_block` is caught.
  unfoldable pub serve_request : PeerConnection D → RequestMessage → PeerConnection D
  serve_request c m =
      if c.am_choking
      then c
      else if m.len == 0 || ltb block_size m.len
      then c
      else elim (read_block sha1 writer c.pieces m.index m.begin m.len) [
        | err e ↦ c
        | ok block ↦ record c {
          sent =
              c.sent
              ++ (piece_to_peer_message (record { index = m.index; begin = m.begin; block = block })
                  ∷ []);
          bytes_uploaded = (c.bytes_uploaded + m.len) % u64_mod;
          blocks_uploaded = (c.blocks_uploaded + 1) % u64_mod;
        }
      ]

  unfoldable pub handle_request : PeerConnection D → PeerMessage → Outcome D
  handle_request c msg = elim (request_from_peer_message msg) [
    | err e ↦ (c, err e)
    | ok m ↦ (serve_request c m, ok tt)
  ]

  unfoldable pub handle_cancel : PeerConnection D → PeerMessage → Outcome D
  handle_cancel c msg = elim (cancel_from_peer_message msg) [
    | err e ↦ (c, err e)
    | ok _ ↦ (c, ok tt)
  ]

  -- the `switch` of `run`; any other id is ignored
  unfoldable pub dispatch : PeerConnection D → PeerMessage → Outcome D
  dispatch c msg =
      if msg.id == Message.choke
      then (handle_choke c, ok tt)
      else if msg.id == Message.unchoke
      then (handle_unchoke c, ok tt)
      else if msg.id == Message.interested
      then (handle_interested c, ok tt)
      else if msg.id == Message.not_interested
      then (handle_not_interested c, ok tt)
      else if msg.id == Message.have
      then handle_have c msg
      else if msg.id == Message.bitfield
      then handle_bitfield c msg
      else if msg.id == Message.piece
      then handle_piece c msg
      else if msg.id == Message.request
      then handle_request c msg
      else if msg.id == Message.cancel
      then handle_cancel c msg
      else (c, ok tt)

  -- One round of `run`: `none` is a keep-alive.
  unfoldable pub step : PeerConnection D → Option PeerMessage → Outcome D
  step c none = (c, ok tt)
  step c (some msg) =
      let (c', r) = dispatch c msg in
      elim r [ err e ↦ (c', err e) | ok _ ↦ (fill_requests c', ok tt) ]

  -- `run` over the messages that arrive until the socket dies or a handler throws, and the piece
  -- manager that the destructor leaves.
  unfoldable pub run : PeerConnection D → List (Option PeerMessage) → PieceManager D
  run c [] = close c
  run c (msg ∷ msgs) = let (c', r) = step c msg in elim r [ err e ↦ close c' | ok _ ↦ run c' msgs ]
