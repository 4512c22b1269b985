-- ===== src/PeerWire/Pieces/Serving.antt =====
-- src/peer_wire/piece_manager.cpp: what the disk holds for the pieces that are there, and
-- what `read_block` serves of it.
use bittorent_client.Common.{
  ℕ, zero, suc, ap, List, ◌∷◌, ◌%◌, u64_mod, ◌+◌, ◌<◌, ◌≤◌, ◌≡◌, ◌≢◌, refl, sym, ◌∙◌, Bytes, Bool,
  true, false, [], ok, err, runtime_error, arith, length, set, get_or, take, drop, length-set,
  length-take, length-drop,
}
use mathlib.Core.Path.{subst}
use bittorent_client.PeerWire.Pieces.Selection.{get_or-true_iff}
use native.Mathlib.Decide.{ℕ_discrete}
use bittorent_client.PeerWire.Pieces.{
  PieceManager, DiskWriter, piece_length, have_piece, complete_piece, read_block,
}
use bittorent_client.PeerWire.Pieces.Completion.{
  out_of_range, was_there, refused, storing, complete_piece-Completion, stored, store_piece-eq-ok,
}

-- What the piece manager relies on, for the pieces below `count` and while the disk is sound: a
-- write that returned is read back and leaves the other pieces alone, the disk is sound still, and
-- data of another length than the piece has are refused.
pub record IsReliable {D : Type 0} (IsSound : D → Type 0) (len : ℕ → ℕ) (count : ℕ)
    (writer : DiskWriter D) : Type 0 where
  pub read_back :
      (d : D) (i : ℕ) (b : Bytes)
      → IsSound d
      → i < count
      → (writer.write_piece d i b).1 ≡ ok tt
      → writer.read_piece (writer.write_piece d i b).0 i ≡ ok b
  pub read_other :
      (d : D) (i j : ℕ) (b : Bytes)
      → IsSound d
      → i < count
      → j < count
      → (writer.write_piece d i b).1 ≡ ok tt
      → j ≢ i
      → writer.read_piece (writer.write_piece d i b).0 j ≡ writer.read_piece d j
  pub kept :
      (d : D) (i : ℕ) (b : Bytes)
      → IsSound d
      → i < count
      → (writer.write_piece d i b).1 ≡ ok tt
      → IsSound (writer.write_piece d i b).0
  pub sized :
      (d : D) (i : ℕ) (b : Bytes)
      → IsSound d
      → i < count
      → (writer.write_piece d i b).1 ≡ ok tt
      → length b ≡ len i

pub get_or-set_ne :
    (bs : List Bool) (i j : ℕ) → j ≢ i → get_or (set bs i true) j false ≡ get_or bs j false
get_or-set_ne [] i j h = refl
get_or-set_ne (b ∷ bs) zero zero h = absurd (h refl)
get_or-set_ne (b ∷ bs) zero (suc j) h = refl
get_or-set_ne (b ∷ bs) (suc i) zero h = refl
get_or-set_ne (b ∷ bs) (suc i) (suc j) h = get_or-set_ne bs i j (λ e. h (ap suc e))

module _ {D : Type 0} (sha1 : Bytes → Bytes) (writer : DiskWriter D) where
  -- Every piece that is there is on the disk, with the SHA-1 and the length of the torrent.
  pub record IsStored (pm : PieceManager D) : Type 0 where
    pub at :
        (i : ℕ)
        → get_or pm.have i false ≡ true
        → (block : Bytes) × (writer.read_piece pm.disk i ≡ ok block)
          × (sha1 block ≡ get_or pm.piece_hashes i [])
          × (length block ≡ piece_length pm i)

  failed-IsStored :
      {pm : PieceManager D}
      → IsStored pm
      → IsStored (record pm { piece_hash_failures = (pm.piece_hash_failures + 1) % u64_mod })
  failed-IsStored s = record { at = s.at }

  -- The disk is sound, and there are as many marks as pieces.
  pub record IsWritable (IsSound : D → Type 0) (pm : PieceManager D) : Type 0 where
    pub sound : IsSound pm.disk
    pub marks : length pm.have ≡ pm.num_pieces

  module _ {IsSound : D → Type 0} {pm : PieceManager D}
      (r : IsReliable IsSound (piece_length pm) pm.num_pieces writer) (v : IsWritable IsSound pm)
      (index : ℕ) (block : Bytes) where
    stored-IsStored :
        index < pm.num_pieces
        → IsStored pm
        → sha1 block ≡ get_or pm.piece_hashes index []
        → (writer.write_piece pm.disk index block).1 ≡ ok tt
        → IsStored (stored writer (record pm { have = set pm.have index true }) index block)
    unfolding stored
    stored-IsStored m s digest w = record {
      at = λ i h. elim (ℕ_discrete i index) [
        | yes same ↦ (
          block,
          rw same (r.read_back pm.disk index block v.sound m w),
          rw same digest,
          rw same (r.sized pm.disk index block v.sound m w),
        )
        | no other ↦
            let there : get_or pm.have i false ≡ true =
              sym (get_or-set_ne pm.have index i other) ∙ h in
            let (known, _, short) = get_or-true_iff pm.have i in
            let within : i < pm.num_pieces = omega (arith, short (known there), v.marks) in
            let (b, p, q, l) = s.at i there in
            (b, r.read_other pm.disk index i block v.sound m within w other ∙ p, q, l)
      ];
    }

    stored-IsWritable :
        index < pm.num_pieces
        → (writer.write_piece pm.disk index block).1 ≡ ok tt
        → IsWritable IsSound
            (stored writer (record pm { have = set pm.have index true }) index block)
    unfolding stored
    stored-IsWritable m w = record {
      sound = r.kept pm.disk index block v.sound m w;
      marks = length-set pm.have index true ∙ v.marks;
    }

    -- With a disk writer that is reliable on a sound disk, a completion that returned, whether it
    -- stored the piece, refused it or found it there, leaves every piece that counts as there on the
    -- disk with the SHA-1 and the length that the torrent gives it, and the disk sound.
    pub complete_piece-IsStored :
        {pm' : PieceManager D} {b : Bool}
        → IsStored pm
        → complete_piece sha1 writer pm index block ≡ (pm', ok b)
        → IsStored pm' × IsWritable IsSound pm'
    complete_piece-IsStored s e = elim (complete_piece-Completion sha1 writer pm index block) [
      | out_of_range l p ↦ absurd (cc)
      | was_there l h p ↦ subst (λ q. IsStored q × IsWritable IsSound q) (cc) (s, v)
      | refused l h d p ↦
          subst (λ q. IsStored q × IsWritable IsSound q) (cc)
            (failed-IsStored s, record { sound = v.sound; marks = v.marks })
      | storing l h d p ↦
          let (q, _, w) =
            store_piece-eq-ok sha1 writer (record pm { have = set pm.have index true }) index block
              (sym p ∙ e) in
          subst (λ q. IsStored q × IsWritable IsSound q) (sym q)
            (stored-IsStored l s d w, stored-IsWritable l w)
    ]

  module _ {pm : PieceManager D} (s : IsStored pm) (index begin len : ℕ) where
    -- Where every piece that is marked as there is on the disk with its length and its SHA-1
    -- (`IsStored`, which `complete_piece` keeps whenever it returns, and not when its write to the disk
    -- throws), a block inside of a piece that is there is served, cut out of data with the SHA-1 of
    -- the piece at the requested offset and length. Any other request is refused with an exception,
    -- and no request reads outside of the piece.
    pub read_block_lem :
        (have_piece pm index ≡ true
          → begin + len ≤ piece_length pm index
          → (block : Bytes) × (sha1 block ≡ get_or pm.piece_hashes index [])
            × (read_block sha1 writer pm index begin len ≡ ok (take len (drop begin block)))
            × (length (take len (drop begin block)) ≡ len))
        × (have_piece pm index ≡ false
            → read_block sha1 writer pm index begin len ≡ err runtime_error)
        × (piece_length pm index < begin + len
            → read_block sha1 writer pm index begin len ≡ err runtime_error)
    unfolding read_block have_piece
    read_block_lem = (served, λ h. ground arith, λ h. ground arith)
      where
        served :
            have_piece pm index ≡ true
            → begin + len ≤ piece_length pm index
            → (block : Bytes) × (sha1 block ≡ get_or pm.piece_hashes index [])
              × (read_block sha1 writer pm index begin len ≡ ok (take len (drop begin block)))
              × (length (take len (drop begin block)) ≡ len)
        served h fits =
            let (block, there, digest, l) = s.at index (ground arith) in
            let size : length (take len (drop begin block)) ≡ len =
              omega (arith, length-take len (drop begin block), length-drop begin block) in
            (block, digest, ground arith, size)
