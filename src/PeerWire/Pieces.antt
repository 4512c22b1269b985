-- ===== src/PeerWire/Pieces.antt =====
-- inc/peer_wire/piece_manager.h, src/peer_wire/piece_manager.cpp: which pieces a torrent has, and
-- which peer threads download. Each method runs here as one step over the atomics.
pub mod Selection
pub mod Counting
pub mod Invariant
pub mod Completion
pub mod Serving
pub mod RoundTrip
pub mod WriteFailure
use bittorent_client.Common.{
  ℕ, zero, suc, ◌+◌, ◌-◌, ◌*◌, ◌%◌, Bytes, Bool, true, false, not, ◌||◌, List, [], ◌∷◌, Option,
  none, some, Result, ok, err, runtime_error, bad_access, ◌>>=◌, ◌>>◌, throw_if, ltb, leb, ◌==◌,
  if◌then◌else◌, length, get_or, set, replicate, take, drop, u32_mod, u64_mod,
}

-- `BLOCK_SIZE`, 16 KiB
abbrev pub block_size : ℕ
block_size = 16384

pub record NeededPiece : Type 0 where
  pub index : ℕ
  pub exclusive : Bool

-- What the piece manager uses of `DiskWriter`, over a type of disk contents. A write may throw
-- after it has changed the disk.
pub record DiskWriter (D : Type 0) : Type 0 where
  pub write_piece : D → ℕ → Bytes → D × Result (Unit {0})
  pub read_piece : D → ℕ → Result Bytes

-- The contents of the disk stand beside the fields of the class.
pub record PieceManager (D : Type 0) : Type 0 where
  pub total_length_bytes : ℕ
  pub curr_downloaded_bytes : ℕ
  pub num_pieces : ℕ
  pub nominal_piece_length : ℕ
  pub piece_hashes : List Bytes
  pub have : List Bool
  pub claimed : List Bool
  pub completed_count : ℕ
  pub piece_hash_failures : ℕ
  pub disk : D

unfoldable pub same_bytes : Bytes → Bytes → Bool
same_bytes [] [] = true
same_bytes (x ∷ xs) (y ∷ ys) = if x == y then same_bytes xs ys else false
same_bytes _ _ = false

unfoldable pub piece_length_of : ℕ → ℕ → ℕ → ℕ → ℕ
piece_length_of total num nominal index =
    if ltb ((index + 1) % u32_mod) num
    then nominal
    else (total + u64_mod - nominal * ((num + u32_mod - 1) % u32_mod) % u64_mod) % u64_mod % u32_mod

module _ {D : Type 0} where
  unfoldable pub init : ℕ → ℕ → ℕ → List Bytes → D → Result (PieceManager D)
  init num_pieces piece_length total_length piece_hashes disk = do
    throw_if (not (length piece_hashes == num_pieces)) runtime_error
    ok (record {
      total_length_bytes = total_length;
      curr_downloaded_bytes = 0;
      num_pieces = num_pieces;
      nominal_piece_length = piece_length;
      piece_hashes = piece_hashes;
      have = replicate num_pieces false;
      claimed = replicate num_pieces false;
      completed_count = 0;
      piece_hash_failures = 0;
      disk = disk;
    })

  -- The two `continue` tests of both loops: the peer lacks the piece, or we have it.
  abbrev pub skipped : PieceManager D → List Bool → ℕ → Bool
  skipped pm peer_bitfield i =
      (leb (length peer_bitfield) i || not (get_or peer_bitfield i false)) || get_or pm.have i false

  -- The first loop of `next_needed`, with `n` rounds left: the piece that it claims.
  unfoldable pub claim_from : ℕ → ℕ → PieceManager D → List Bool → Option ℕ
  claim_from zero i pm peer_bitfield = none
  claim_from (suc n) i pm peer_bitfield =
      let rest = claim_from n (suc i) pm peer_bitfield in
      if skipped pm peer_bitfield i
      then rest
      else if get_or pm.claimed i false
      then rest
      else some i

  -- The second loop: a piece that another peer has claimed.
  unfoldable pub endgame_from : ℕ → ℕ → PieceManager D → List Bool → Option ℕ
  endgame_from zero i pm peer_bitfield = none
  endgame_from (suc n) i pm peer_bitfield =
      let rest = endgame_from n (suc i) pm peer_bitfield in
      if skipped pm peer_bitfield i then rest else some i

  unfoldable pub next_needed : PieceManager D → List Bool → PieceManager D × Option NeededPiece
  next_needed pm peer_bitfield = elim (claim_from pm.num_pieces 0 pm peer_bitfield) [
    | some i ↦ (
      record pm { claimed = set pm.claimed i true },
      some (record { index = i; exclusive = true }),
    )
    | none ↦ elim (endgame_from pm.num_pieces 0 pm peer_bitfield) [
      | some i ↦ (pm, some (record { index = i; exclusive = false }))
      | none ↦ (pm, none)
    ]
  ]

  abbrev pub piece_length : PieceManager D → ℕ → ℕ
  piece_length pm = piece_length_of pm.total_length_bytes pm.num_pieces pm.nominal_piece_length

  unfoldable pub is_complete : PieceManager D → Bool
  is_complete pm = pm.completed_count == pm.num_pieces

  unfoldable pub have_piece : PieceManager D → ℕ → Bool
  have_piece pm index = if leb pm.num_pieces index then false else get_or pm.have index false

  -- `have` holds an entry for each piece
  abbrev pub current_bitfield : PieceManager D → List Bool
  current_bitfield pm = pm.have

  unfoldable pub abort_piece : PieceManager D → ℕ → PieceManager D
  abort_piece pm index =
      if leb pm.num_pieces index
      then pm
      else if get_or pm.have index false
      then pm
      else record pm { claimed = set pm.claimed index false }

-- SHA-1 and the disk writer are parameters.
module _ {D : Type 0} (sha1 : Bytes → Bytes) (writer : DiskWriter D) where
  -- What follows the compare-and-swap that set `have`: the disk write, then the two counters.
  unfoldable pub store_piece : PieceManager D → ℕ → Bytes → PieceManager D × Result Bool
  store_piece pm index block =
      let (disk', written) = writer.write_piece pm.disk index block in
      elim written [
        | err e ↦ (record pm { disk = disk' }, err e)
        | ok _ ↦ (
          record pm {
            disk = disk';
            curr_downloaded_bytes = (pm.curr_downloaded_bytes + piece_length pm index) % u64_mod;
            completed_count = (pm.completed_count + 1) % u32_mod;
          },
          ok true,
        )
      ]

  unfoldable pub complete_piece : PieceManager D → ℕ → Bytes → PieceManager D × Result Bool
  complete_piece pm index block =
      if leb pm.num_pieces index
      then (pm, err runtime_error)
      else if get_or pm.have index false
      then (pm, ok true)
      else if not (same_bytes (sha1 block) (get_or pm.piece_hashes index []))
      then (record pm { piece_hash_failures = (pm.piece_hash_failures + 1) % u64_mod }, ok false)
      else store_piece (record pm { have = set pm.have index true }) index block

  -- The caller gets `length` bytes of the piece, or an exception; a disk that returned a shorter
  -- piece would make the C++ code read outside of it.
  unfoldable pub read_block : PieceManager D → ℕ → ℕ → ℕ → Result Bytes
  unfolding have_piece
  read_block pm index begin len = do
    throw_if (not (have_piece pm index)) runtime_error
    let plen = piece_length pm index
    throw_if (ltb plen begin || ltb (plen - begin) len) runtime_error
    block ← writer.read_piece pm.disk index
    throw_if (ltb (length block) (begin + len)) bad_access
    ok (take len (drop begin block))
