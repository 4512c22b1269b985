-- ===== src/Tests/Disk.antt =====
-- The disk writer on a torrent of seven bytes in two files, three bytes and four, with pieces of four.
use bittorent_client.Common.{
  ◌+◌, ◌≤◌, ◌≡◌, refl, Bytes, true, false, [], ◌∷◌, some, ok, arith, length,
}
use bittorent_client.PeerWire.Pieces.{piece_length_of}
use bittorent_client.PeerWire.Pieces.Serving.{IsReliable}
use bittorent_client.PeerWire.Disk.{
  DiskWriter, Files, entries, init, write_at, write_files, write_piece, read_piece,
}
use bittorent_client.PeerWire.Disk.Flat.{flat, IsLaidOut, Writes, write_files_lem}
use bittorent_client.PeerWire.Disk.Pieces.{IsSound, read_piece-write_piece}
use bittorent_client.PeerWire.Disk.Reliable.{operations, operations-IsReliable}

abbrev two_files : DiskWriter
two_files = record {
  piece_size = 4;
  total_size = 7;
  files = record { length = 3; offset = 0 } ∷ record { length = 4; offset = 3 } ∷ [];
  files_preallocated = false;
}

init-two_files : init 4 7 (3 ∷ 4 ∷ []) ≡ ok two_files
unfolding init entries
init-two_files = refl

abbrev writer : DiskWriter
writer = record two_files { files_preallocated = true }

abbrev zeros : Files
zeros = some (0 ∷ 0 ∷ 0 ∷ []) ∷ some (0 ∷ 0 ∷ 0 ∷ 0 ∷ []) ∷ []

zeros-IsLaidOut : IsLaidOut 0 writer.files zeros
zeros-IsLaidOut = (refl, omega arith, refl, (refl, omega arith, refl, omega arith))

zeros-IsSound : IsSound writer zeros
unfolding flat
zeros-IsSound = record {
  ready = refl;
  laid_out = zeros-IsLaidOut;
  total = refl;
  fits = omega arith;
  piece_fits = omega arith;
}

abbrev block : Bytes
block = 1 ∷ 2 ∷ 3 ∷ 4 ∷ []

block-fits : 0 + length block ≤ length (flat zeros)
unfolding flat
block-fits = omega arith

-- the block ends in the second file
write_files_lem_example :
    Writes 0 writer.files (write_files writer.files zeros 0 block) (write_at (flat zeros) 0 block)
write_files_lem_example =
    write_files_lem writer.files zeros 0 0 0 block zeros-IsLaidOut (omega arith) block-fits

read_piece-write_piece_example :
    ((write_piece writer zeros 0 block).1 ≡ ok tt)
    × IsSound writer ((write_piece writer zeros 0 block).0)
    × (read_piece writer ((write_piece writer zeros 0 block).0) 0 ≡ ok block)
read_piece-write_piece_example = read_piece-write_piece zeros-IsSound 0 (omega arith) block refl

operations-IsReliable_example :
    IsReliable (IsSound writer) (piece_length_of 7 2 4) 2 (operations writer)
operations-IsReliable_example = operations-IsReliable writer 2 (record {
  some_piece = omega arith;
  fits = omega arith;
  starts = omega arith;
  ends = omega arith;
})
