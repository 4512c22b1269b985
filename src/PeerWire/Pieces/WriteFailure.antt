-- ===== src/PeerWire/Pieces/WriteFailure.antt =====
-- src/peer_wire/piece_manager.cpp, `complete_piece`: the piece is marked as there before it is on
-- the disk, and stays marked when the disk write throws.
use bittorent_client.Common.{
  ℕ, suc, ◌+◌, ◌<◌, ◌≡◌, refl, Bytes, Bool, true, false, List, [], ◌∷◌, zero, Error, ok, err, arith,
  length, length-set, set, get_or,
}
use bittorent_client.PeerWire.Pieces.{
  PieceManager, DiskWriter, have_piece, is_complete, store_piece, complete_piece, abort_piece,
}
use bittorent_client.PeerWire.Pieces.Completion.{same_bytes_refl}
use bittorent_client.PeerWire.Pieces.Counting.{count_have, count_have-set, count_have-le}
use bittorent_client.PeerWire.Pieces.Invariant.{IsCounted}

pub get_or-set_self :
    (bs : List Bool) (i : ℕ) → i < length bs → get_or (set bs i true) i false ≡ true
get_or-set_self [] i h = absurd (omega arith)
get_or-set_self (b ∷ bs) zero h = refl
get_or-set_self (b ∷ bs) (suc i) h = get_or-set_self bs i (omega arith)

module _ {D : Type 0} (sha1 : Bytes → Bytes) (writer : DiskWriter D) where
  -- what the failed call leaves
  abbrev pub marked : PieceManager D → ℕ → Bytes → PieceManager D
  marked pm index block = record pm {
    have = set pm.have index true;
    disk = (writer.write_piece pm.disk index block).0;
  }

  fails :
      (pm : PieceManager D) (index : ℕ) (block : Bytes) (e : Error)
      → index < pm.num_pieces
      → get_or pm.have index false ≡ false
      → sha1 block ≡ get_or pm.piece_hashes index []
      → (writer.write_piece pm.disk index block).1 ≡ err e
      → complete_piece sha1 writer pm index block ≡ (marked pm index block, err e)
  unfolding complete_piece store_piece
  fails pm index block e l h d w =
      rw d (ground (arith, same_bytes_refl (get_or pm.piece_hashes index [])))

  stuck :
      (pm : PieceManager D) (index : ℕ) (block later : Bytes)
      → IsCounted pm
      → index < pm.num_pieces
      → get_or pm.have index false ≡ false
      → let pm' = marked pm index block in
        (have_piece pm' index ≡ true)
        × (complete_piece sha1 writer pm' index later ≡ (pm', ok true))
        × (abort_piece pm' index ≡ pm')
        × (pm'.completed_count + 1 ≡ count_have pm'.have)
        × (is_complete pm' ≡ false)
  unfolding complete_piece have_piece abort_piece is_complete
  stuck pm index block later c l h =
      let there = get_or-set_self pm.have index (omega arith) in
      let counted : count_have (set pm.have index true) ≡ count_have pm.have + 1 =
        count_have-set pm.have index (omega arith) h in
      let fits = count_have-le (set pm.have index true) in
      let same : length (set pm.have index true) ≡ length pm.have = length-set pm.have index true in
      (ground arith, ground arith, ground arith, omega arith, ground arith)

  -- When the disk write of a verified piece throws, the exception is passed on, but the piece
  -- counts as there: it can neither be completed again nor be released, no later completion of it
  -- writes anything, and the counter of completed pieces stays behind, so that the torrent is not
  -- complete when every piece is there.
  pub complete_piece-write_fails :
      (pm : PieceManager D) (index : ℕ) (block later : Bytes) (e : Error)
      → IsCounted pm
      → index < pm.num_pieces
      → get_or pm.have index false ≡ false
      → sha1 block ≡ get_or pm.piece_hashes index []
      → (writer.write_piece pm.disk index block).1 ≡ err e
      → let pm' = (complete_piece sha1 writer pm index block).0 in
        ((complete_piece sha1 writer pm index block).1 ≡ err e)
        × (have_piece pm' index ≡ true)
        × (complete_piece sha1 writer pm' index later ≡ (pm', ok true))
        × (abort_piece pm' index ≡ pm')
        × (pm'.completed_count + 1 ≡ count_have pm'.have)
        × (is_complete pm' ≡ false)
  complete_piece-write_fails pm index block later e c l h d w =
      rw (fails pm index block e l h d w)
        (let (a, b, f, n, g) = stuck pm index block later c l h in (refl, a, b, f, n, g))
