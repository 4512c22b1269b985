-- ===== src/PeerWire/Connection/Tiling.antt =====
-- src/peer_wire/peer_connection.cpp, the loop of `fill_requests`: which blocks are requested.
use bittorent_client.Common.{
  ℕ, zero, suc, ◌+◌, ◌-◌, ◌%◌, ◌<◌, ◌≤◌, ◌≡◌, refl, ◌⊎◌, inl, inr, Bool, true, false, ◌&&◌, List,
  [], ◌∷◌, arith, length, u32_mod, ltb, ltb→lt, Bool-cases,
}
use Prim.Native.Nat.{min}
use bittorent_client.PeerWire.Message.{PeerMessage}
use bittorent_client.PeerWire.Pieces.{block_size}
use bittorent_client.PeerWire.Connection.State.{InFlightPiece, max_pipeline}
use bittorent_client.PeerWire.Connection.Requests.{block_request, request_blocks}

-- The messages request the bytes of a piece from one offset up to another, in order, in blocks of
-- at most 16 KiB, with no gap and no overlap.
abbrev pub Tiles : ℕ → ℕ → List PeerMessage → ℕ → Type 0
Tiles index from [] to = from ≡ to
Tiles index from (r ∷ rs) to =
    (len : ℕ) × (r ≡ block_request index from len)
    × (0 < len)
    × (len ≤ block_size)
    × Tiles index (from + len) rs to

stopped :
    (r next size : ℕ)
    → (ltb r max_pipeline && ltb next size) ≡ false
    → next ≤ size
    → (max_pipeline ≤ r) ⊎ (next ≡ size)
stopped r next size h l = elim (Bool-cases (ltb r max_pipeline)) [
  | inl room ↦ inr (ground arith)
  | inr full ↦ inl (ground arith)
]

both : (a b : Bool) → (a && b) ≡ true → (a ≡ true) × (b ≡ true)
both a b h = ground arith

-- The loop requests blocks from the offset that it starts at up to the one that it leaves, inside
-- of the piece. It stops only when the pipeline is full or the whole piece has been requested, and
-- counts each request. The rounds given are enough.
pub request_blocks-Tiles :
    (fuel : ℕ) (ifp : InFlightPiece)
    → ifp.next_block_offset ≤ ifp.piece_size
    → ifp.piece_size < u32_mod
    → max_pipeline ≤ ifp.requests_in_flight + fuel
    → let (requests, ifp') = request_blocks fuel ifp in
      Tiles ifp.piece_index ifp.next_block_offset requests ifp'.next_block_offset
      × (ifp'.next_block_offset ≤ ifp.piece_size)
      × ((max_pipeline ≤ ifp'.requests_in_flight) ⊎ (ifp'.next_block_offset ≡ ifp.piece_size))
      × (ifp'.requests_in_flight ≡ ifp.requests_in_flight + length requests)
unfolding request_blocks
request_blocks-Tiles zero ifp a b h = (refl, a, inl (omega arith), omega arith)
request_blocks-Tiles (suc fuel) ifp a b h =
    elim (Bool-cases
      (ltb ifp.requests_in_flight max_pipeline && ltb ifp.next_block_offset ifp.piece_size)) [
        | inr done ↦ rw done (
          refl,
          a,
          stopped ifp.requests_in_flight ifp.next_block_offset ifp.piece_size done a,
          omega arith,
        )
        | inl more ↦
            let len = min block_size (ifp.piece_size - ifp.next_block_offset) in
            let (open_pipeline, bytes_left) =
              both (ltb ifp.requests_in_flight max_pipeline)
                (ltb ifp.next_block_offset ifp.piece_size) more in
            let room : ifp.requests_in_flight < max_pipeline = ltb→lt _ _ open_pipeline in
            let left : ifp.next_block_offset < ifp.piece_size = ltb→lt _ _ bytes_left in
            let offset : (ifp.next_block_offset + len) % u32_mod ≡ ifp.next_block_offset + len =
              omega arith in
            let count : (ifp.requests_in_flight + 1) % u32_mod ≡ ifp.requests_in_flight + 1 =
              omega arith in
            let ifp' = record ifp {
              next_block_offset = ifp.next_block_offset + len;
              requests_in_flight = ifp.requests_in_flight + 1;
            } in
            let (tiles, fits, stop, counted) =
              request_blocks-Tiles fuel ifp' (omega arith) b (omega arith) in
            rw (more, offset, count)
              ((len, refl, omega arith, omega arith, tiles), fits, stop, omega arith)
      ]
