-- ===== src/PeerWire/Disk/Pieces.antt =====
-- src/peer_wire/disk_writer.cpp: `write_piece` and `read_piece` on files that were preallocated.
use bittorent_client.Common.{
  ℕ, ◌+◌, ◌-◌, ◌*◌, ◌≤◌, ◌<◌, ◌≡◌, ◌≢◌, sym, ◌∙◌, ap, Bytes, true, ok, arith, length, take, drop,
  u32_mod, u64_mod, ◌==◌, ◌⊎◌, inl, inr,
}
use native.Mathlib.Nat.{mul-le-mul_right}
use mathlib.Core.Path.{subst}
use bittorent_client.PeerWire.Disk.{
  DiskWriter, Files, all_mapped, piece_global_offset, min_of, piece_length, write_at, write_files,
  write_piece, read_piece,
}
use bittorent_client.PeerWire.Disk.Splice.{
  length-write_at, slice-write_at, slice-write_at_before, drop-write_at_behind,
}
use bittorent_client.PeerWire.Disk.Flat.{flat, IsLaidOut, write_files_lem, read_files_lem}

-- The files are preallocated and hold the torrent, whose offsets fit in 64 bits.
pub record IsSound (w : DiskWriter) (disk : Files) : Type 0 where
  pub ready : w.files_preallocated ≡ true
  pub laid_out : IsLaidOut 0 w.files disk
  pub total : length (flat disk) ≡ w.total_size
  pub fits : w.total_size + w.piece_size < u64_mod
  pub piece_fits : w.piece_size < u32_mod

-- Piece `index` begins inside of the torrent.
abbrev pub Exists : DiskWriter → ℕ → Type 0
Exists w index = index * w.piece_size < w.total_size

abbrev pub size_of : DiskWriter → ℕ → ℕ
size_of w index = min_of (index * w.piece_size + w.piece_size) w.total_size - index * w.piece_size

lt_or_le : (i j : ℕ) → (i < j) ⊎ (j ≤ i)
lt_or_le i j = grind arith

apart : (i j k : ℕ) → j ≢ i → (i * k + k ≤ j * k) ⊎ (j * k + k ≤ i * k)
apart i j k h = elim (lt_or_le i j) [
  | inl l ↦ inl (omega (arith, mul-le-mul_right {m = i + 1} {n = j} k (omega arith)))
  | inr l ↦ inr (omega (arith, mul-le-mul_right {m = j + 1} {n = i} k (grind arith)))
]

module _ {w : DiskWriter} {disk : Files} (s : IsSound w disk) (i : ℕ) (e : Exists w i) where
  offset-eq : piece_global_offset w i ≡ i * w.piece_size
  offset-eq = ground (arith, s.fits, e)

  size-le : i * w.piece_size + size_of w i ≤ w.total_size
  size-le = ground (arith, e)

  pub piece_length_lem : piece_length w i ≡ ok (size_of w i)
  unfolding piece_length
  piece_length_lem = rw offset-eq (ground (arith, s.fits, s.piece_fits, e))

  pub read_piece_lem :
      read_piece w disk i ≡ ok (take (size_of w i) (drop (i * w.piece_size) (flat disk)))
  unfolding read_piece
  read_piece_lem =
      let r =
        read_files_lem w.files disk 0 (i * w.piece_size) (i * w.piece_size) (size_of w i) s.laid_out
          (omega arith) (omega (arith, s.total, size-le)) in
      simp s.ready (rw piece_length_lem (rw (offset-eq, r)))

  write_piece-eq :
      (block : Bytes)
      → length block ≡ size_of w i
      → write_piece w disk i block ≡ all_mapped (write_files w.files disk (i * w.piece_size) block)
  unfolding write_piece
  write_piece-eq block l =
      let same : (length block == size_of w i) ≡ true = ground arith in
      simp s.ready (rw piece_length_lem (rw (same, offset-eq)))

  -- What a write of a piece has done.
  pub write_piece_lem :
      (block : Bytes)
      → length block ≡ size_of w i
      → ((write_piece w disk i block).1 ≡ ok tt)
        × IsSound w ((write_piece w disk i block).0)
        × (flat ((write_piece w disk i block).0) ≡ write_at (flat disk) (i * w.piece_size) block)
  write_piece_lem block l =
      let r =
        write_files_lem w.files disk 0 (i * w.piece_size) (i * w.piece_size) block s.laid_out
          (omega arith) (omega (arith, s.total, size-le)) in
      let result : write_piece w disk i block
          ≡ all_mapped (write_files w.files disk (i * w.piece_size) block) =
        write_piece-eq block l in
      subst
        (λ p.
          (p.1 ≡ ok tt)
          × IsSound w (p.0)
          × (flat (p.0) ≡ write_at (flat disk) (i * w.piece_size) block))
        (sym result)
        (
          simp r.done,
          record {
            ready = s.ready;
            laid_out = r.laid_out;
            total =
                ap length r.holds
                ∙ length-write_at (flat disk) (i * w.piece_size) block
                    (omega (arith, s.total, size-le))
                ∙ s.total;
            fits = s.fits;
            piece_fits = s.piece_fits;
          },
          r.holds,
        )

module _ {w : DiskWriter} {disk : Files} (s : IsSound w disk) (i : ℕ) (e : Exists w i) where
  -- On files that hold the torrent a piece that exists is written when the data have its length, and
  -- the same data are read back; the files hold the torrent still.
  pub read_piece-write_piece :
      (block : Bytes)
      → length block ≡ size_of w i
      → ((write_piece w disk i block).1 ≡ ok tt)
        × IsSound w ((write_piece w disk i block).0)
        × (read_piece w ((write_piece w disk i block).0) i ≡ ok block)
  read_piece-write_piece block l =
      let (done, sound, holds) = write_piece_lem s i e block l in
      let back =
        slice-write_at (flat disk) (i * w.piece_size) block
          (omega (arith, s.total, size-le s i e)) in
      (
        done,
        sound,
        read_piece_lem sound i e
            ∙ ap (λ b. ok (take (size_of w i) (drop (i * w.piece_size) b))) holds
            ∙ ap
                (λ n. ok (
                  take n (drop (i * w.piece_size) (write_at (flat disk) (i * w.piece_size) block))))
                (sym l)
            ∙ ap ok back,
      )

  -- A write of one piece leaves what is read of every other piece as it was.
  pub read_piece-write_piece_ne :
      (block : Bytes)
      → length block ≡ size_of w i
      → (j : ℕ) → Exists w j
      → j ≢ i
      → read_piece w ((write_piece w disk i block).0) j ≡ read_piece w disk j
  read_piece-write_piece_ne block l j f ne =
      let (done, sound, holds) = write_piece_lem s i e block l in
      let bound : i * w.piece_size + length block ≤ length (flat disk) =
        omega (arith, s.total, size-le s i e) in
      let kept : take (size_of w j)
            (drop (j * w.piece_size) (write_at (flat disk) (i * w.piece_size) block))
          ≡ take (size_of w j) (drop (j * w.piece_size) (flat disk)) =
        elim (apart i j w.piece_size ne) [
          | inl behind ↦ ap (take (size_of w j)) (
              drop-write_at_behind (flat disk) (i * w.piece_size) (j * w.piece_size) block bound
                (ground (arith, l, behind, e)))
          | inr before ↦
              slice-write_at_before (flat disk) (i * w.piece_size) (j * w.piece_size) (size_of w j)
                block bound (ground (arith, before, f))
        ] in
      read_piece_lem sound j f
      ∙ ap (λ b. ok (take (size_of w j) (drop (j * w.piece_size) b))) holds
      ∙ ap ok kept
      ∙ sym (read_piece_lem s j f)
