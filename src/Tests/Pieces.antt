-- ===== src/Tests/Pieces.antt =====
-- The piece manager on a torrent of two pieces, four bytes and three.
use bittorent_client.Common.{
  ℕ, zero, suc, ◌+◌, ◌<◌, ◌≤◌, ◌≡◌, ◌≢◌, refl, Bytes, Bool, true, false, [], ◌∷◌, Result, ok, err,
  runtime_error, arith, ◌==◌, if◌then◌else◌, length, take, drop, get_or, List,
}
use bittorent_client.PeerWire.Pieces.{
  PieceManager, DiskWriter, piece_length, piece_length_of, complete_piece, store_piece, same_bytes,
  next_needed, read_block, have_piece, is_complete, abort_piece,
}
use bittorent_client.PeerWire.Pieces.Counting.{IsGeometry, count_have, have_bytes}
use bittorent_client.PeerWire.Pieces.Selection.{Picks, next_needed-Picks}
use bittorent_client.PeerWire.Pieces.Invariant.{
  IsCounted, complete_piece-IsCounted, is_complete_iff,
}
use bittorent_client.PeerWire.Pieces.Serving.{
  IsReliable, IsStored, IsWritable, complete_piece-IsStored,
}
use bittorent_client.PeerWire.Pieces.RoundTrip.{read_block-complete_piece}
use bittorent_client.PeerWire.Pieces.WriteFailure.{complete_piece-write_fails}

abbrev pub Disk : Type 0
Disk = ℕ → Bytes

-- a disk in memory that refuses data of another length than the piece has
abbrev pub written : Bool → Disk → ℕ → Bytes → Disk × Result (Unit {0})
written true d i b = (λ j. if j == i then b else d j, ok tt)
written false d i b = (d, err runtime_error)

abbrev pub memory : DiskWriter Disk
memory = record {
  write_piece = λ d i b. written (length b == piece_length_of 7 2 4 i) d i b;
  read_piece = λ d i. ok (d i);
}

-- a disk that is full
abbrev full_disk : DiskWriter Disk
full_disk = record { write_piece = λ d i b. (d, err runtime_error); read_piece = λ d i. ok (d i) }

-- the first byte stands for the digest
abbrev pub digest : Bytes → Bytes
digest b = take 1 b

abbrev pub fresh : PieceManager Disk
fresh = record {
  total_length_bytes = 7;
  curr_downloaded_bytes = 0;
  num_pieces = 2;
  nominal_piece_length = 4;
  piece_hashes = (1 ∷ []) ∷ (5 ∷ []) ∷ [];
  have = false ∷ false ∷ [];
  claimed = false ∷ false ∷ [];
  completed_count = 0;
  piece_hash_failures = 0;
  disk = λ i. [];
}

abbrev pub first_piece : Bytes
first_piece = 1 ∷ 2 ∷ 3 ∷ 4 ∷ []

abbrev pub half : PieceManager Disk
half = record fresh {
  curr_downloaded_bytes = 4;
  have = true ∷ false ∷ [];
  completed_count = 1;
  disk = λ j. if j == 0 then first_piece else [];
}

-- every content of this disk is sound
memory-IsReliable : IsReliable (λ d. Unit {0}) (piece_length half) half.num_pieces memory
memory-IsReliable = record {
  read_back = λ d i b _ _ h. back (length b == piece_length_of 7 2 4 i) d i b h;
  read_other = λ d i j b _ _ _ h n. other (length b == piece_length_of 7 2 4 i) d i j b h n;
  kept = λ d i b _ _ _. tt;
  sized = λ d i b _ _ h. size (length b) (piece_length_of 7 2 4 i) d i b h;
}
  where
    back :
        (t : Bool) (d : Disk) (i : ℕ) (b : Bytes)
        → (written t d i b).1 ≡ ok tt
        → ok ((written t d i b).0 i) ≡ ok b
    back true d i b h = ground arith
    back false d i b h = cc

    other :
        (t : Bool) (d : Disk) (i j : ℕ) (b : Bytes)
        → (written t d i b).1 ≡ ok tt
        → j ≢ i
        → ok ((written t d i b).0 j) ≡ ok (d j)
    other true d i j b h n = ground (arith, n)
    other false d i j b h n = cc

    accepts :
        (m n : ℕ) (t : Bool) (d : Disk) (i : ℕ) (b : Bytes)
        → (m == n) ≡ t
        → (written t d i b).1 ≡ ok tt
        → m ≡ n
    accepts m n true d i b e h = ground arith
    accepts m n false d i b e h = cc

    size : (m n : ℕ) (d : Disk) (i : ℕ) (b : Bytes) → (written (m == n) d i b).1 ≡ ok tt → m ≡ n
    size m n d i b h = accepts m n (m == n) d i b refl h

geometry : IsGeometry 7 2 4
geometry = record {
  some_piece = omega arith;
  num_fits = omega arith;
  nominal_fits = omega arith;
  total_fits = omega arith;
  above = omega arith;
  below = omega arith;
}

half-IsCounted : IsCounted half
unfolding piece_length_of count_have have_bytes
half-IsCounted = record {
  geometry = geometry;
  length_have = refl;
  length_claimed = refl;
  completed = refl;
  downloaded = refl;
}

length_first : length first_piece ≡ piece_length half 0
unfolding piece_length_of
length_first = refl

pub half-IsStored : IsStored digest memory half
half-IsStored = record { at = there }
  where
    there :
        (i : ℕ)
        → get_or half.have i false ≡ true
        → (block : Bytes) × (memory.read_piece half.disk i ≡ ok block)
          × (digest block ≡ get_or half.piece_hashes i [])
          × (length block ≡ piece_length half i)
    there zero h = (first_piece, refl, refl, length_first)
    there (suc zero) h = cc
    there (suc (suc i)) h = cc

abbrev after : Bytes → PieceManager Disk
after block = (complete_piece digest memory half 1 block).0

storing_returns :
    complete_piece digest memory half 1 (5 ∷ 6 ∷ 7 ∷ []) ≡ (after (5 ∷ 6 ∷ 7 ∷ []), ok true)
unfolding complete_piece store_piece same_bytes piece_length_of
storing_returns = refl

complete_piece-IsStored_example :
    IsStored digest memory (after (5 ∷ 6 ∷ 7 ∷ []))
    × IsWritable digest memory (λ d. Unit {0}) (after (5 ∷ 6 ∷ 7 ∷ []))
complete_piece-IsStored_example =
    complete_piece-IsStored digest memory memory-IsReliable (record { sound = tt; marks = refl }) 1
      (5 ∷ 6 ∷ 7 ∷ []) half-IsStored storing_returns

complete_piece-IsCounted_example : IsCounted (after (5 ∷ 6 ∷ 7 ∷ []))
complete_piece-IsCounted_example =
    complete_piece-IsCounted digest memory 1 (5 ∷ 6 ∷ 7 ∷ []) half-IsCounted storing_returns

-- a peer that has both pieces
abbrev seeder : List Bool
seeder = true ∷ true ∷ []

next_needed-Picks_example :
    Picks half seeder (next_needed half seeder).0 (next_needed half seeder).1
next_needed-Picks_example = next_needed-Picks half seeder

is_complete_iff_example :
    (is_complete half ≡ true
      → ((i : ℕ) → i < 2 → have_piece half i ≡ true) × (half.curr_downloaded_bytes ≡ 7))
    × (((i : ℕ) → i < 2 → have_piece half i ≡ true) → is_complete half ≡ true)
is_complete_iff_example = is_complete_iff half-IsCounted

abbrev last_piece : Bytes
last_piece = 5 ∷ 6 ∷ 7 ∷ []

read_block-complete_piece_example :
    let pm' = after last_piece in
    ((begin len : ℕ)
      → begin + len ≤ piece_length half 1
      → (read_block digest memory pm' 1 begin len ≡ ok (take len (drop begin last_piece)))
        × (length (take len (drop begin last_piece)) ≡ len))
    × ((begin len : ℕ)
        → piece_length half 1 < begin + len
        → read_block digest memory pm' 1 begin len ≡ err runtime_error)
    × ((j begin len : ℕ)
        → j ≢ 1
        → read_block digest memory pm' j begin len ≡ read_block digest memory half j begin len)
read_block-complete_piece_example =
    read_block-complete_piece digest memory memory-IsReliable (record { sound = tt; marks = refl })
      1 last_piece refl storing_returns

complete_piece-write_fails_example :
    let pm' = (complete_piece digest full_disk half 1 last_piece).0 in
    ((complete_piece digest full_disk half 1 (5 ∷ 6 ∷ 7 ∷ [])).1 ≡ err runtime_error)
    × (have_piece pm' 1 ≡ true)
    × (complete_piece digest full_disk pm' 1 (5 ∷ []) ≡ (pm', ok true))
    × (abort_piece pm' 1 ≡ pm')
    × (pm'.completed_count + 1 ≡ count_have pm'.have)
    × (is_complete pm' ≡ false)
complete_piece-write_fails_example =
    complete_piece-write_fails digest full_disk half 1 (5 ∷ 6 ∷ 7 ∷ []) (5 ∷ []) runtime_error
      half-IsCounted (omega arith) refl refl refl
