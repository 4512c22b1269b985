-- ===== src/PeerWire/Disk.antt =====
-- inc/peer_wire/disk_writer.h, src/peer_wire/disk_writer.cpp: the pieces of a torrent in its files,
-- which follow one another. `std::fstream` is an optional content: a file that is missing does not
-- open. The paths of the layout are taken to be different, so that file `i` of the disk is that of
-- entry `i`; a device that is full, and the locks of the files, are not modelled.
pub mod Splice
pub mod Flat
pub mod Pieces
pub mod Setup
pub mod Reliable
use bittorent_client.Common.{
  ℕ, zero, suc, ◌+◌, ◌-◌, ◌*◌, ◌%◌, Bytes, Bool, true, false, not, List, [], ◌∷◌, ◌++◌, Option,
  none, some, Result, ok, err, runtime_error, ◌>>=◌, ◌>>◌, throw_if, ltb, leb, ◌==◌, if◌then◌else◌,
  length, take, drop, replicate, map, u32_mod, u64_mod,
}

pub record FileEntry : Type 0 where
  pub length : ℕ
  pub offset : ℕ

pub record DiskWriter : Type 0 where
  pub piece_size : ℕ
  pub total_size : ℕ
  pub files : List FileEntry
  pub files_preallocated : Bool

abbrev pub Files : Type 0
Files = List (Option Bytes)

-- The loop of the constructor: the entries for the lengths of the layout, and their total.
unfoldable pub entries : ℕ → List ℕ → List FileEntry × ℕ
entries running [] = ([], running)
entries running (l ∷ ls) =
    let rest = entries ((running + l) % u64_mod) ls in
    (record { length = l; offset = running } ∷ rest.0, rest.1)

unfoldable pub init : ℕ → ℕ → List ℕ → Result DiskWriter
unfolding entries
init piece_size total_size layout = do
  throw_if (piece_size == 0) runtime_error
  throw_if (total_size == 0) runtime_error
  let (files, running) = entries 0 layout
  throw_if (length files == 0) runtime_error
  throw_if (not (running == total_size)) runtime_error
  ok (record {
    piece_size = piece_size;
    total_size = total_size;
    files = files;
    files_preallocated = false;
  })

-- A file that is created, or emptied, and gets its last byte is filled with zeros.
abbrev pub preallocated : FileEntry → Option Bytes
preallocated f = some (replicate f.length 0)

abbrev pub preallocate_each : List FileEntry → Files
preallocate_each [] = []
preallocate_each (f ∷ fs) = preallocated f ∷ preallocate_each fs

unfoldable pub preallocate_files : DiskWriter → DiskWriter × Files
preallocate_files w = (record w { files_preallocated = true }, preallocate_each w.files)

abbrev pub piece_global_offset : DiskWriter → ℕ → ℕ
piece_global_offset w index = index * w.piece_size % u64_mod

abbrev pub min_of : ℕ → ℕ → ℕ
min_of a b = if ltb b a then b else a

unfoldable pub piece_length : DiskWriter → ℕ → Result ℕ
piece_length w index =
    let begin = piece_global_offset w index in
    if leb w.total_size begin
    then err runtime_error
    else ok (
        (min_of ((begin + w.piece_size) % u64_mod) w.total_size + u64_mod - begin)
        % u64_mod
        % u32_mod)

-- `seekp` and `write`: behind the end of a file the gap is filled with zeros.
unfoldable pub write_at : Bytes → ℕ → Bytes → Bytes
write_at [] zero bytes = bytes
write_at [] (suc k) bytes = 0 ∷ write_at [] k bytes
write_at (x ∷ xs) zero [] = x ∷ xs
write_at (x ∷ xs) zero (b ∷ bytes) = b ∷ write_at xs zero bytes
write_at (x ∷ xs) (suc k) bytes = x ∷ write_at xs k bytes

-- One file of `write_piece` is opened and written; `rest` are the later ones.
abbrev pub write_chunk : Option Bytes → Files → ℕ → Bytes → Files × Result ℕ → Files × Result ℕ
write_chunk none later start bytes rest = (none ∷ later, err runtime_error)
write_chunk (some content) later start bytes rest =
    (some (write_at content start bytes) ∷ rest.0, rest.1)

-- how far into a file an offset of the torrent is
abbrev pub start_in_file : FileEntry → ℕ → ℕ
start_in_file f offset = if ltb f.offset offset then offset - f.offset else 0

-- The loop of `write_piece` at an offset, for the data that remain: how many bytes of them are
-- left when it ends.
unfoldable pub write_files : List FileEntry → Files → ℕ → Bytes → Files × Result ℕ
unfolding write_at
write_files (f ∷ fs) (c ∷ cs) offset bytes =
    let remaining = length bytes in
    let start = start_in_file f offset in
    let chunk = min_of remaining (f.length - start) in
    let skip = write_files fs cs offset bytes in
    let rest = write_files fs cs ((offset + chunk) % u64_mod) (drop chunk bytes) in
    if remaining == 0
    then (c ∷ cs, ok 0)
    else if leb ((f.offset + f.length) % u64_mod) offset
    then (c ∷ skip.0, skip.1)
    else if leb ((offset + remaining) % u64_mod) f.offset
    then (c ∷ cs, ok remaining)
    else write_chunk c cs start (take chunk bytes) rest
write_files _ cs offset bytes = (cs, ok (length bytes))

-- The data that the loop left over is an exception.
abbrev pub all_mapped : Files × Result ℕ → Files × Result (Unit {0})
all_mapped (cs, r) = (cs, r >>= λ remaining. throw_if (not (remaining == 0)) runtime_error)

abbrev pub write_checked : DiskWriter → Files → ℕ → Bytes → Result ℕ → Files × Result (Unit {0})
write_checked w disk index bytes (err e) = (disk, err e)
write_checked w disk index bytes (ok expected) =
    if not (length bytes == expected)
    then (disk, err runtime_error)
    else all_mapped (write_files w.files disk (piece_global_offset w index) bytes)

unfoldable pub write_piece : DiskWriter → Files → ℕ → Bytes → Files × Result (Unit {0})
unfolding write_files piece_length
write_piece w disk index bytes =
    if not w.files_preallocated
    then (disk, err runtime_error)
    else write_checked w disk index bytes (piece_length w index)

-- One file of `read_piece`: `read` and `gcount`.
unfoldable pub read_chunk : Option Bytes → ℕ → ℕ → Result Bytes
read_chunk none start chunk = err runtime_error
read_chunk (some content) start chunk = do
  let bytes = take chunk (drop start content)
  throw_if (not (length bytes == chunk)) runtime_error
  ok bytes

-- The loop of `read_piece`: the chunks follow one another in `out`. It returns what they are, and
-- how many bytes remain.
unfoldable pub read_files : List FileEntry → Files → ℕ → ℕ → Result (Bytes × ℕ)
unfolding read_chunk
read_files (f ∷ fs) (c ∷ cs) offset remaining =
    let start = start_in_file f offset in
    let chunk = min_of remaining (f.length - start) in
    let skip = read_files fs cs offset remaining in
    let rest = read_files fs cs ((offset + chunk) % u64_mod) (remaining - chunk) in
    if remaining == 0
    then ok ([], 0)
    else if leb ((f.offset + f.length) % u64_mod) offset
    then skip
    else if leb ((offset + remaining) % u64_mod) f.offset
    then ok ([], remaining)
    else (do bytes ← read_chunk c start chunk; (later, left) ← rest; ok (bytes ++ later, left))
read_files _ cs offset remaining = ok ([], remaining)

unfoldable pub read_piece : DiskWriter → Files → ℕ → Result Bytes
unfolding read_files piece_length
read_piece w disk index = do
  throw_if (not w.files_preallocated) runtime_error
  len ← piece_length w index
  (out, remaining) ← read_files w.files disk (piece_global_offset w index) len
  throw_if (not (remaining == 0)) runtime_error
  ok out
