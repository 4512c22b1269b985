-- ===== src/PeerWire/Disk/Reliable.antt =====
-- src/peer_wire/disk_writer.cpp keeps what src/peer_wire/piece_manager.cpp relies on.
use bittorent_client.Common.{
  ℕ, ◌+◌, ◌-◌, ◌*◌, ◌%◌, ◌≤◌, ◌<◌, ◌≡◌, sym, ◌∙◌, Bytes, true, false, ok, err, runtime_error, arith,
  length, u32_mod, u64_mod, ltb, ◌==◌, ◌⊎◌, inl, inr, Bool-cases,
}
use native.Mathlib.Nat.{mul-le-mul_right}
use mathlib.Core.Path.{subst}
use bittorent_client.PeerWire.Pieces as Pieces
use bittorent_client.PeerWire.Pieces.{piece_length_of}
use bittorent_client.PeerWire.Pieces.Serving.{IsReliable}
use bittorent_client.PeerWire.Disk.{DiskWriter, Files, write_piece, read_piece, min_of}
use bittorent_client.PeerWire.Disk.Pieces.{
  IsSound, Exists, size_of, piece_length_lem, read_piece-write_piece, read_piece-write_piece_ne,
}

-- what the piece manager uses of a disk writer
abbrev pub operations : DiskWriter → Pieces.DiskWriter Files
operations w = record { write_piece = write_piece w; read_piece = read_piece w }

-- The torrent has `count` pieces: the last one begins inside of it and reaches its end.
pub record IsGeometry (w : DiskWriter) (count : ℕ) : Type 0 where
  pub some_piece : 0 < count
  pub fits : count < u32_mod
  pub starts : (count - 1) * w.piece_size < w.total_size
  pub ends : w.total_size ≤ (count - 1) * w.piece_size + w.piece_size

module _ {w : DiskWriter} {disk : Files} (s : IsSound w disk) (i : ℕ) (e : Exists w i) where
  write_piece_refused :
      (block : Bytes)
      → (length block == size_of w i) ≡ false
      → (write_piece w disk i block).1 ≡ err runtime_error
  unfolding write_piece
  write_piece_refused block other = simp s.ready (rw (piece_length_lem s i e) (rw other))

  write_piece-sized :
      (block : Bytes) → (write_piece w disk i block).1 ≡ ok tt → length block ≡ size_of w i
  write_piece-sized block h = elim (Bool-cases (length block == size_of w i)) [
    | inl same ↦ ground (arith, same)
    | inr other ↦ absurd (cc (h, write_piece_refused block other))
  ]

lt_or_le : (a b : ℕ) → (a < b) ⊎ (b ≤ a)
lt_or_le a b = grind arith

full_length : (a size total : ℕ) → a + size ≤ total → size ≡ min_of (a + size) total - a
full_length a size total h = ground arith

last_length :
    (a size total : ℕ)
    → a < total
    → total ≤ a + size
    → total + size < u64_mod
    → size < u32_mod
    → (total + u64_mod - a % u64_mod) % u64_mod % u32_mod ≡ min_of (a + size) total - a
last_length a size total h l room small = ground arith

module _ {w : DiskWriter} {count : ℕ} (g : IsGeometry w count) (i : ℕ) (h : i < count) where
  below_last : i * w.piece_size ≤ (count - 1) * w.piece_size
  below_last = mul-le-mul_right w.piece_size (omega arith)

  exists : Exists w i
  exists = omega (arith, below_last, g.starts)

  -- Both classes give a piece the same length.
  piece_length_of-eq-size_of :
      w.total_size + w.piece_size < u64_mod
      → w.piece_size < u32_mod
      → piece_length_of w.total_size count w.piece_size i ≡ size_of w i
  unfolding piece_length_of
  piece_length_of-eq-size_of room small = elim (lt_or_le (i + 1) count) [
    | inl later ↦
        let more : ltb ((i + 1) % u32_mod) count ≡ true = ground (arith, g.fits) in
        let full : i * w.piece_size + w.piece_size ≤ (count - 1) * w.piece_size =
          omega (arith, mul-le-mul_right {m = i + 1} {n = count - 1} w.piece_size (omega arith)) in
        rw more
          (full_length (i * w.piece_size) w.piece_size w.total_size (omega (arith, full, g.starts)))
    | inr last ↦
        let no_more : ltb ((i + 1) % u32_mod) count ≡ false = ground (arith, g.fits) in
        let index : (count + u32_mod - 1) % u32_mod ≡ i = ground (arith, g.fits) in
        let swapped : w.piece_size * i ≡ i * w.piece_size = omega arith in
        let this_one : count - 1 ≡ i = omega arith in
        let reach : w.total_size ≤ i * w.piece_size + w.piece_size =
          subst (λ n. w.total_size ≤ n * w.piece_size + w.piece_size) this_one g.ends in
        rw (no_more, index, swapped)
          (last_length (i * w.piece_size) w.piece_size w.total_size exists reach room small)
  ]

-- For the pieces of a torrent, and on files that hold it, the disk writer keeps what the piece
-- manager relies on: a write that returned is read back, the other pieces and the files' lengths
-- stay as they are, and data of another length than the piece manager expects are refused.
pub operations-IsReliable :
    (w : DiskWriter) (count : ℕ)
    → IsGeometry w count
    → IsReliable (IsSound w) (piece_length_of w.total_size count w.piece_size) count (operations w)
operations-IsReliable w count g = record {
  read_back = λ d i b s m r.
      (read_piece-write_piece s i (exists g i m) b (write_piece-sized s i (exists g i m) b r)).2;
  read_other = λ d i j b s m n r other.
      read_piece-write_piece_ne s i (exists g i m) b (write_piece-sized s i (exists g i m) b r) j
        (exists g j n) other;
  kept = λ d i b s m r.
      (read_piece-write_piece s i (exists g i m) b (write_piece-sized s i (exists g i m) b r)).1;
  sized = λ d i b s m r.
      write_piece-sized s i (exists g i m) b r
      ∙ sym (piece_length_of-eq-size_of g i m s.fits s.piece_fits);
}
