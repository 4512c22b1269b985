-- ===== src/PeerWire/Connection/Serving.antt =====
-- src/peer_wire/peer_connection.cpp, `handle_request`: which blocks are sent to a peer.
use bittorent_client.Common.{
  ◌+◌, ◌<◌, ◌≤◌, ◌≡◌, ◌⊎◌, inl, inr, Bytes, true, false, [], ◌∷◌, ◌++◌, err, arith, ltb→lt,
  runtime_error, get_or, take, drop, Bool-cases, ◌||◌, ltb, ◌==◌,
}
use bittorent_client.PeerWire.Message.{RequestMessage, piece_to_peer_message}
use bittorent_client.PeerWire.Pieces.{DiskWriter, block_size, have_piece, piece_length, read_block}
use bittorent_client.PeerWire.Pieces.Serving.{IsStored, read_block_lem}
use bittorent_client.PeerWire.Connection.State.{PeerConnection}
use bittorent_client.PeerWire.Connection.Handlers.{serve_request}

module _ {D : Type 0} (sha1 : Bytes → Bytes) (writer : DiskWriter D) where
  -- The request is one that may be answered.
  pub record IsAcceptable (c : PeerConnection D) (m : RequestMessage) : Type 0 where
    pub unchoked : c.am_choking ≡ false
    pub some_bytes : 0 < m.len
    pub bounded : m.len ≤ block_size
    pub there : have_piece c.pieces m.index ≡ true
    pub inside : m.begin + m.len ≤ piece_length c.pieces m.index

  -- When the pieces that are there are on the disk, a request that is acceptable is answered with the
  -- requested bytes of data with the SHA-1 of the piece, and any other request changes nothing and is
  -- not answered.
  pub serve_request_lem :
      (c : PeerConnection D) (m : RequestMessage)
      → IsStored sha1 writer c.pieces
      → (IsAcceptable c m
          → (block : Bytes) × (sha1 block ≡ get_or c.pieces.piece_hashes m.index [])
            × ((serve_request sha1 writer c m).sent
                ≡ c.sent
                  ++ (piece_to_peer_message (record {
                    index = m.index;
                    begin = m.begin;
                    block = take m.len (drop m.begin block);
                  })
                      ∷ [])))
        × ((serve_request sha1 writer c m ≡ c) ⊎ IsAcceptable c m)
  unfolding serve_request
  serve_request_lem c m s = (
    served,
    elim (Bool-cases c.am_choking) [
      | inl choking ↦ inl (simp choking)
      | inr unchoked ↦ elim (Bool-cases (m.len == 0 || ltb block_size m.len)) [
        | inl bad ↦ inl (simp (unchoked, bad))
        | inr good ↦ elim (Bool-cases (have_piece c.pieces m.index)) [
          | inr lacking ↦ inl (simp (unchoked, good, refuses.0 lacking))
          | inl there ↦ elim (Bool-cases (ltb (piece_length c.pieces m.index) (m.begin + m.len))) [
            | inl outside ↦ inl (simp (unchoked, good, refuses.1 (ltb→lt _ _ outside)))
            | inr inside ↦ inr (record {
              unchoked = unchoked;
              some_bytes = ground arith;
              bounded = ground arith;
              there = there;
              inside = ground arith;
            })
          ]
        ]
      ]
    ],
  )
    where
      refuses :
          (have_piece c.pieces m.index ≡ false
            → read_block sha1 writer c.pieces m.index m.begin m.len ≡ err runtime_error)
          × (piece_length c.pieces m.index < m.begin + m.len
              → read_block sha1 writer c.pieces m.index m.begin m.len ≡ err runtime_error)
      refuses = let (_, a, b) = read_block_lem sha1 writer s m.index m.begin m.len in (a, b)

      served :
          IsAcceptable c m
          → (block : Bytes) × (sha1 block ≡ get_or c.pieces.piece_hashes m.index [])
            × ((serve_request sha1 writer c m).sent
                ≡ c.sent
                  ++ (piece_to_peer_message (record {
                    index = m.index;
                    begin = m.begin;
                    block = take m.len (drop m.begin block);
                  })
                      ∷ []))
      served a =
          let (block, digest, served, _) =
            (read_block_lem sha1 writer s m.index m.begin m.len).0 a.there a.inside in
          let good : (m.len == 0 || ltb block_size m.len) ≡ false = ground arith in
          (block, digest, simp (a.unchoked, good, served))
