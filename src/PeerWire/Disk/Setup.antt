-- ===== src/PeerWire/Disk/Setup.antt =====
-- src/peer_wire/disk_writer.cpp: the constructor and `preallocate_files`.
use bittorent_client.Common.{
  ℕ, ◌+◌, ◌%◌, ◌<◌, ◌≡◌, refl, sym, false, List, [], ◌∷◌, ok, arith, length, replicate,
  length-append, length-replicate, u32_mod, u64_mod,
}
use mathlib.Core.Path.{subst}
use bittorent_client.PeerWire.Disk.{DiskWriter, entries, init, preallocate_each, preallocate_files}
use bittorent_client.PeerWire.Disk.Flat.{flat, IsLaidOut}
use bittorent_client.PeerWire.Disk.Pieces.{IsSound}

-- the bytes of a layout
abbrev pub sum_of : List ℕ → ℕ
sum_of [] = 0
sum_of (l ∷ ls) = l + sum_of ls

-- What the loop of the constructor leaves: the entries follow one another from an offset on.
entries_lem :
    (base : ℕ) (ls : List ℕ)
    → base + sum_of ls < u64_mod
    → IsLaidOut base ((entries base ls).0) (preallocate_each ((entries base ls).0))
      × ((entries base ls).1 ≡ base + sum_of ls)
      × (length (flat (preallocate_each ((entries base ls).0))) ≡ sum_of ls)
unfolding entries flat
entries_lem base [] h = (omega arith, omega arith, refl)
entries_lem base (l ∷ ls) h =
    let wrap : (base + l) % u64_mod ≡ base + l = ground arith in
    let (laid, running, size) = entries_lem (base + l) ls (omega arith) in
    rw wrap (
      (refl, omega arith, length-replicate {A = ℕ} l 0, laid),
      omega (arith, running),
      omega (
        arith,
        size,
        length-replicate {A = ℕ} l 0,
        length-append (replicate l 0) (flat (preallocate_each ((entries (base + l) ls).0))),
      ),
    )

-- What a constructor that returned has made of the layout.
init-eq-ok :
    (piece_size total : ℕ) (ls : List ℕ) {w : DiskWriter}
    → init piece_size total ls ≡ ok w
    → ((entries 0 ls).1 ≡ total)
      × (w ≡ record {
        piece_size = piece_size;
        total_size = total;
        files = (entries 0 ls).0;
        files_preallocated = false;
      })
unfolding init
init-eq-ok piece_size total ls h = (ground (arith, h), ground (arith, h))

-- A torrent whose layout, with one piece more, fits in 64 bits, and whose pieces fit in 32: when the
-- constructor returned, the preallocated files hold the torrent, so that pieces can be written.
pub preallocate_files-IsSound :
    (piece_size total : ℕ) (ls : List ℕ) {w : DiskWriter}
    → piece_size < u32_mod
    → total + piece_size < u64_mod
    → sum_of ls < u64_mod
    → init piece_size total ls ≡ ok w
    → IsSound ((preallocate_files w).0) ((preallocate_files w).1)
unfolding preallocate_files
preallocate_files-IsSound piece_size total ls p t f h =
    let (running, made) = init-eq-ok piece_size total ls h in
    let (laid, sum, size) = entries_lem 0 ls (omega arith) in
    subst (λ v. IsSound ((preallocate_files v).0) ((preallocate_files v).1)) (sym made)
      (record {
        ready = refl;
        laid_out = laid;
        total = omega (arith, size, sum, running);
        fits = t;
        piece_fits = p;
      })
