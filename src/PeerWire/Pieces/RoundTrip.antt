-- ===== src/PeerWire/Pieces/RoundTrip.antt =====
-- src/peer_wire/piece_manager.cpp, `complete_piece` and then `read_block`: a piece is served as it was
-- downloaded.
use bittorent_client.Common.{
  ℕ, ◌+◌, ◌<◌, ◌≤◌, ◌≡◌, ◌≢◌, refl, sym, ◌∙◌, Bytes, true, false, ok, err, runtime_error, arith,
  length, set, get_or, take, drop, leb, Bool-cases, inl, inr, length-take, length-drop,
}
use mathlib.Core.Path.{subst}
use bittorent_client.PeerWire.Pieces.{
  PieceManager, DiskWriter, piece_length, have_piece, complete_piece, read_block,
}
use bittorent_client.PeerWire.Pieces.Completion.{
  out_of_range, was_there, refused, storing, complete_piece-Completion, stored, store_piece-eq-ok,
}
use bittorent_client.PeerWire.Pieces.Serving.{IsReliable, IsWritable, get_or-set_ne}
use bittorent_client.PeerWire.Pieces.WriteFailure.{get_or-set_self}

module _ {D : Type 0} (sha1 : Bytes → Bytes) (writer : DiskWriter D) {IsSound : D → Type 0}
    {pm : PieceManager D} (r : IsReliable IsSound (piece_length pm) pm.num_pieces writer)
    (v : IsWritable sha1 writer IsSound pm) (index : ℕ) (block : Bytes) where
  abbrev marked : PieceManager D
  marked = record pm { have = set pm.have index true }

  served_as_written :
      (begin len : ℕ)
      → index < pm.num_pieces
      → (writer.write_piece pm.disk index block).1 ≡ ok tt
      → begin + len ≤ piece_length pm index
      → read_block sha1 writer (stored writer marked index block) index begin len
        ≡ ok (take len (drop begin block))
  unfolding read_block have_piece stored
  served_as_written begin len l w fits =
      let there = get_or-set_self pm.have index (omega (arith, l, v.marks)) in
      let back = r.read_back pm.disk index block v.sound l w in
      let size = r.sized pm.disk index block v.sound l w in
      rw back (ground (arith, there, size, fits, l))

  outside_refused :
      (begin len : ℕ)
      → index < pm.num_pieces
      → piece_length pm index < begin + len
      → read_block sha1 writer (stored writer marked index block) index begin len
        ≡ err runtime_error
  unfolding read_block have_piece stored
  outside_refused begin len l outside =
      let there = get_or-set_self pm.have index (omega (arith, l, v.marks)) in
      ground (arith, there, l, outside)

  others_as_before :
      (j begin len : ℕ)
      → j ≢ index
      → index < pm.num_pieces
      → (writer.write_piece pm.disk index block).1 ≡ ok tt
      → read_block sha1 writer (stored writer marked index block) j begin len
        ≡ read_block sha1 writer pm j begin len
  unfolding read_block have_piece stored
  others_as_before j begin len n l w = elim (Bool-cases (leb pm.num_pieces j)) [
    | inl none_such ↦ rw none_such refl
    | inr there ↦
        let same = r.read_other pm.disk index j block v.sound l (ground (arith, there)) w n in
        rw (there, get_or-set_ne pm.have index j n, same) refl
  ]

  -- A piece that was not there and whose download was accepted is served as it was downloaded: a
  -- block inside of it is the downloaded data from its offset on, of the requested length, one
  -- that reaches beyond the piece is refused with an exception, and the requests for every other
  -- piece are answered as before. The disk writer is reliable and the disk
  -- is sound before.
  pub read_block-complete_piece :
      {pm' : PieceManager D}
      → get_or pm.have index false ≡ false
      → complete_piece sha1 writer pm index block ≡ (pm', ok true)
      → ((begin len : ℕ)
          → begin + len ≤ piece_length pm index
          → (read_block sha1 writer pm' index begin len ≡ ok (take len (drop begin block)))
            × (length (take len (drop begin block)) ≡ len))
        × ((begin len : ℕ)
            → piece_length pm index < begin + len
            → read_block sha1 writer pm' index begin len ≡ err runtime_error)
        × ((j begin len : ℕ)
            → j ≢ index
            → read_block sha1 writer pm' j begin len ≡ read_block sha1 writer pm j begin len)
  read_block-complete_piece {pm'} new e =
      elim (complete_piece-Completion sha1 writer pm index block) [
        | out_of_range l p ↦ absurd (cc)
        | was_there l h p ↦ absurd (cc)
        | refused l h d p ↦ absurd (cc)
        | storing l h d p ↦
            let (q, _, w) = store_piece-eq-ok sha1 writer marked index block (sym p ∙ e) in
            subst
              (λ after.
                ((begin len : ℕ)
                  → begin + len ≤ piece_length pm index
                  → (read_block sha1 writer after index begin len
                      ≡ ok (take len (drop begin block)))
                    × (length (take len (drop begin block)) ≡ len))
                × ((begin len : ℕ)
                    → piece_length pm index < begin + len
                    → read_block sha1 writer after index begin len ≡ err runtime_error)
                × ((j begin len : ℕ)
                    → j ≢ index
                    → read_block sha1 writer after j begin len
                      ≡ read_block sha1 writer pm j begin len))
              (sym q)
              (
                λ begin len fits. (served_as_written begin len l w fits, cut begin len l w fits),
                λ begin len outside. outside_refused begin len l outside,
                λ j begin len n. others_as_before j begin len n l w,
              )
      ]
    where
      cut :
          (begin len : ℕ)
          → index < pm.num_pieces
          → (writer.write_piece pm.disk index block).1 ≡ ok tt
          → begin + len ≤ piece_length pm index
          → length (take len (drop begin block)) ≡ len
      cut begin len l w fits =
          let size = r.sized pm.disk index block v.sound l w in
          omega (arith, length-take len (drop begin block), length-drop begin block, size, fits)
