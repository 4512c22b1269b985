-- ===== src/PeerWire/Pieces/Invariant.antt =====
-- src/peer_wire/piece_manager.cpp: the counters agree with the pieces that are there.
use bittorent_client.Common.{
  ℕ, ◌+◌, ◌%◌, ◌<◌, ◌≡◌, Bytes, Bool, true, false, List, ◌∙◌, sym, ok, arith, length, set, get_or,
  replicate, length-set, length-replicate, u64_mod, ap,
}
use native.Mathlib.Nat.{zero-add}
use mathlib.Core.Path.{subst}
use bittorent_client.PeerWire.Pieces.Counting.{
  count_have, have_bytes, IsGeometry, count_have-set, have_bytes-set, count_have-le,
  have_bytes-total, count_have-replicate, have_bytes-replicate, all-count_have, count_have-all,
}
use bittorent_client.PeerWire.Pieces.Completion.{
  out_of_range, was_there, refused, storing, complete_piece-Completion, stored, store_piece-eq-ok,
}
use bittorent_client.PeerWire.Pieces.{
  PieceManager, DiskWriter, piece_length, init, next_needed, is_complete, have_piece, abort_piece,
  complete_piece,
}

module _ {D : Type 0} where
  pub record IsCounted (pm : PieceManager D) : Type 0 where
    pub geometry : IsGeometry pm.total_length_bytes pm.num_pieces pm.nominal_piece_length
    pub length_have : length pm.have ≡ pm.num_pieces
    pub length_claimed : length pm.claimed ≡ pm.num_pieces
    pub completed : pm.completed_count ≡ count_have pm.have
    pub downloaded : pm.curr_downloaded_bytes ≡ have_bytes (piece_length pm) 0 pm.have

module _ {D : Type 0} (sha1 : Bytes → Bytes) (writer : DiskWriter D) where
  failed-IsCounted :
      {pm : PieceManager D}
      → IsCounted pm
      → IsCounted (record pm { piece_hash_failures = (pm.piece_hash_failures + 1) % u64_mod })
  failed-IsCounted c = record {
    geometry = c.geometry;
    length_have = c.length_have;
    length_claimed = c.length_claimed;
    completed = c.completed;
    downloaded = c.downloaded;
  }

  stored-IsCounted :
      {pm : PieceManager D} (index : ℕ) (block : Bytes)
      → IsCounted pm
      → index < pm.num_pieces
      → get_or pm.have index false ≡ false
      → IsCounted (stored writer (record pm { have = set pm.have index true }) index block)
  unfolding stored
  stored-IsCounted {pm} index block c l h =
      let g = c.geometry in
      let n = count_have-set pm.have index (omega arith) h in
      let b = have_bytes-set (piece_length pm) 0 pm.have index (omega arith) h in
      let at : piece_length pm (0 + index) ≡ piece_length pm index =
        ap (piece_length pm) (zero-add index) in
      let le = count_have-le (set pm.have index true) in
      let same : length (set pm.have index true) ≡ length pm.have = length-set pm.have index true in
      let (fits, _) = have_bytes-total (set pm.have index true) g (rw length-set c.length_have) in
      record {
        geometry = g;
        length_have = rw length-set c.length_have;
        length_claimed = c.length_claimed;
        completed = omega arith;
        downloaded = omega arith;
      }

  -- Completing a piece keeps the counters right, whether the piece was there, was refused or was
  -- stored: they are right again whenever the call returned and did not throw.
  pub complete_piece-IsCounted :
      {pm pm' : PieceManager D} {r : Bool} (index : ℕ) (block : Bytes)
      → IsCounted pm
      → complete_piece sha1 writer pm index block ≡ (pm', ok r)
      → IsCounted pm'
  complete_piece-IsCounted {pm} index block c e =
      elim (complete_piece-Completion sha1 writer pm index block) [
        | out_of_range l p ↦ cc
        | was_there l h p ↦ subst IsCounted (cc) c
        | refused l h d p ↦ subst IsCounted (cc) (failed-IsCounted c)
        | storing l h d p ↦
            let (q, _, _) =
              store_piece-eq-ok sha1 writer (record pm { have = set pm.have index true }) index
                block (sym p ∙ e) in
            subst IsCounted (sym q) (stored-IsCounted index block c l h)
      ]

  abort_piece-IsCounted :
      {pm : PieceManager D} (index : ℕ) → IsCounted pm → IsCounted (abort_piece pm index)
  unfolding abort_piece
  abort_piece-IsCounted {pm} index c = record {
    geometry = ground arith;
    length_have = ground arith;
    length_claimed = ground (arith, length-set pm.claimed index false);
    completed = ground arith;
    downloaded = ground arith;
  }

module _ {D : Type 0} where
  -- Picking a piece to download keeps the counters right.
  pub next_needed-IsCounted :
      {pm : PieceManager D} (peer : List Bool) → IsCounted pm → IsCounted (next_needed pm peer).0
  unfolding next_needed
  next_needed-IsCounted {pm} peer c = record {
    geometry = ground arith;
    length_have = ground arith;
    length_claimed = grind (arith, length-set {A = Bool} pm.claimed);
    completed = ground arith;
    downloaded = ground arith;
  }

  -- what the constructor leaves
  fresh : ℕ → ℕ → ℕ → List Bytes → D → PieceManager D
  fresh num nominal total hashes disk = record {
    total_length_bytes = total;
    curr_downloaded_bytes = 0;
    num_pieces = num;
    nominal_piece_length = nominal;
    piece_hashes = hashes;
    have = replicate num false;
    claimed = replicate num false;
    completed_count = 0;
    piece_hash_failures = 0;
    disk = disk;
  }

  pub init-IsCounted :
      {num nominal total : ℕ} (hashes : List Bytes) (disk : D) {pm : PieceManager D}
      → IsGeometry total num nominal
      → init num nominal total hashes disk ≡ ok pm
      → IsCounted pm
  unfolding init fresh
  init-IsCounted {num} {nominal} {total} hashes disk {pm} g e =
      let p : pm ≡ fresh num nominal total hashes disk = ground arith in
      subst IsCounted (sym p) (record {
        geometry = g;
        length_have = length-replicate num false;
        length_claimed = length-replicate num false;
        completed = sym (count_have-replicate num);
        downloaded = sym (have_bytes-replicate _ 0 num);
      })

  have_piece-get_or :
      (pm : PieceManager D) (i : ℕ)
      → i < pm.num_pieces
      → have_piece pm i ≡ true
      → get_or pm.have i false ≡ true
  unfolding have_piece
  have_piece-get_or pm i l h = ground arith

  -- A piece manager whose counters are right (`IsCounted`, which `complete_piece` keeps whenever it
  -- returns, and not when its write to the disk throws) is complete exactly if every piece is there,
  -- and then the downloaded bytes are those of the torrent.
  pub is_complete_iff :
      {pm : PieceManager D}
      → IsCounted pm
      → (is_complete pm ≡ true
          → ((i : ℕ) → i < pm.num_pieces → have_piece pm i ≡ true)
            × (pm.curr_downloaded_bytes ≡ pm.total_length_bytes))
        × (((i : ℕ) → i < pm.num_pieces → have_piece pm i ≡ true) → is_complete pm ≡ true)
  unfolding is_complete have_piece
  is_complete_iff {pm} c =
      let counted : length pm.have ≡ pm.num_pieces = c.length_have in
      (
        λ done.
            let all : count_have pm.have ≡ pm.num_pieces = ground arith in
            (
              λ i l. ground (arith, all-count_have pm.have (all ∙ sym counted) i (omega arith)),
              c.downloaded ∙ (have_bytes-total pm.have c.geometry counted).1 all,
            ),
        λ all.
            let n =
              count_have-all pm.have
                (λ i l. have_piece-get_or pm i (omega arith) (all i (omega arith))) in
            ground arith,
      )
