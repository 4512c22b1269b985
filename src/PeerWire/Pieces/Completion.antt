-- ===== src/PeerWire/Pieces/Completion.antt =====
-- src/peer_wire/piece_manager.cpp, `complete_piece`: the ways in which it ends.
use bittorent_client.Common.{
  ℕ, ◌+◌, ◌%◌, ◌<◌, ◌≤◌, ◌≡◌, ◌≢◌, refl, Bytes, Bool, true, false, [], ◌∷◌, Result, ok, err,
  runtime_error, arith, set, get_or, u32_mod, u64_mod, leb, inl, inr, Bool-cases,
}
use bittorent_client.PeerWire.Pieces.{
  PieceManager, DiskWriter, piece_length, same_bytes, store_piece, complete_piece,
}

pub same_bytes-eq : (xs ys : Bytes) → same_bytes xs ys ≡ true → xs ≡ ys
unfolding same_bytes
same_bytes-eq [] [] h = refl
same_bytes-eq [] (y ∷ ys) h = cc
same_bytes-eq (x ∷ xs) [] h = cc
same_bytes-eq (x ∷ xs) (y ∷ ys) h = ground (arith, same_bytes-eq xs ys)

pub same_bytes_refl : (xs : Bytes) → same_bytes xs xs ≡ true
unfolding same_bytes
same_bytes_refl [] = refl
same_bytes_refl (x ∷ xs) = ground (arith, same_bytes_refl xs)

-- What a write that returned leaves of a state.
unfoldable pub stored :
    {D : Type 0} (writer : DiskWriter D) (pm : PieceManager D) (index : ℕ) (block : Bytes)
    → PieceManager D
stored writer pm index block = record pm {
  disk = (writer.write_piece pm.disk index block).0;
  curr_downloaded_bytes = (pm.curr_downloaded_bytes + piece_length pm index) % u64_mod;
  completed_count = (pm.completed_count + 1) % u32_mod;
}

module _ {D : Type 0} (sha1 : Bytes → Bytes) (writer : DiskWriter D) where
  -- How a call ends: the index is out of range, the piece was there, the SHA-1 of the data is
  -- another one, or the piece is marked as there and goes to the disk.
  pub data Completion (pm : PieceManager D) (index : ℕ) (block : Bytes)
      (r : PieceManager D × Result Bool) : Type 0 where
    out_of_range : pm.num_pieces ≤ index → r ≡ (pm, err runtime_error) → Completion pm index block r
    was_there :
        index < pm.num_pieces
        → get_or pm.have index false ≡ true
        → r ≡ (pm, ok true)
        → Completion pm index block r
    refused :
        index < pm.num_pieces
        → get_or pm.have index false ≡ false
        → sha1 block ≢ get_or pm.piece_hashes index []
        → r ≡ (record pm { piece_hash_failures = (pm.piece_hash_failures + 1) % u64_mod }, ok false)
        → Completion pm index block r
    storing :
        index < pm.num_pieces
        → get_or pm.have index false ≡ false
        → sha1 block ≡ get_or pm.piece_hashes index []
        → r ≡ store_piece sha1 writer (record pm { have = set pm.have index true }) index block
        → Completion pm index block r

  -- A call of `complete_piece` ends in one of four ways: an index out of range is an exception and
  -- changes nothing; a piece that was there is reported and nothing changes; data with another
  -- SHA-1 than the torrent gives only counts as a failure; data with that SHA-1 marks the piece as
  -- there and goes to the disk, and the result is then that of the disk write and of the counters.
  pub complete_piece-Completion :
      (pm : PieceManager D) (index : ℕ) (block : Bytes)
      → Completion pm index block (complete_piece sha1 writer pm index block)
  unfolding complete_piece
  complete_piece-Completion pm index block = elim (Bool-cases (leb pm.num_pieces index)) [
    | inl a ↦ out_of_range (ground arith) (ground arith)
    | inr a ↦ elim (Bool-cases (get_or pm.have index false)) [
      | inl b ↦ was_there (ground arith) b (rw (a, b))
      | inr b ↦ elim (Bool-cases (same_bytes (sha1 block) (get_or pm.piece_hashes index []))) [
        | inl c ↦ storing (ground arith) b (same_bytes-eq _ _ c) (rw (a, b, c))
        | inr c ↦
            refused (ground arith) b (λ e. cc (c, same_bytes_refl (sha1 block), e)) (rw (a, b, c))
      ]
    ]
  ]

  -- If storing returned, the write did, and the counters went up.
  pub store_piece-eq-ok :
      (pm : PieceManager D) (index : ℕ) (block : Bytes) {pm' : PieceManager D} {r : Bool}
      → store_piece sha1 writer pm index block ≡ (pm', ok r)
      → (pm' ≡ stored writer pm index block)
        × (r ≡ true)
        × ((writer.write_piece pm.disk index block).1 ≡ ok tt)
  unfolding store_piece stored
  store_piece-eq-ok pm index block e = ground arith
