-- ===== src/Torrent/Layout.antt =====
-- src/torrent_file.cpp with src/peer_wire/disk_writer.cpp: the sizes that a torrent gives, and the
-- disk writer that is made with them.
use bittorent_client.Common.{
  ℕ, ◌+◌, ◌*◌, ◌%◌, ◌<◌, ◌≡◌, refl, Bytes, Bool, true, false, not, List, [], ◌∷◌, Result, ok, err,
  runtime_error, ◌>>=◌, ◌>>◌, throw_if, ltb, ◌==◌, length, u64_mod, arith, Bool-cases, inl, inr,
}
use mathlib.Core.Path.{subst}
use bittorent_client.Common.Int.{ℤ, pos, negsuc}
use bittorent_client.Common.Text.{text}
use bittorent_client.Bencode.Types.{
  BList, BDict, nil, item, has_key, get_val, as_integer, as_string, as_list, as_dictionary,
}
use bittorent_client.Torrent.Tracker.{extract_tracker_information}
use bittorent_client.Torrent.{
  File, TorrentFile, to_u64, is_power_of_two, read_file, read_files, read_sizes, announce_list,
  make, file_entries, file_layout,
}
use bittorent_client.PeerWire.Disk.{DiskWriter, entries, init}

-- what holds of the value of a call that returned
abbrev Yields : {A : Type 0} → (A → Type 0) → Result A → Type 0
Yields P (err e) = Unit {0}
Yields P (ok a) = P a

bind-Yields :
    {A B : Type 0} (P : B → Type 0) (r : Result A) (k : A → Result B)
    → ((a : A) → r ≡ ok a → Yields P (k a))
    → Yields P (r >>= k)
bind-Yields P (err e) k f = tt
bind-Yields P (ok a) k f = f a refl

throw_if-Yields :
    {B : Type 0} (P : B → Type 0) (b : Bool) (k : Result B)
    → (b ≡ false → Yields P k)
    → Yields P (throw_if b runtime_error >> k)
throw_if-Yields P true k f = tt
throw_if-Yields P false k f = f refl

-- The lengths that the disk writer gets.
abbrev pub lengths : List (List Bytes × ℕ) → List ℕ
lengths [] = []
lengths (e ∷ es) = e.1 ∷ lengths es

-- The files add up to the total.
abbrev AddsUp : List ℕ → ℕ → Type 0
AddsUp sizes total = (entries 0 sizes).1 ≡ total

read_files-Yields :
    (l : BList) (total : ℕ)
    → Yields (λ r. (entries total (lengths (file_entries r.0))).1 ≡ r.1) (read_files total l)
unfolding read_files entries
read_files-Yields nil total = refl
read_files-Yields (item v l) total = bind-Yields _ (read_file v) _ (λ f _.
    bind-Yields _ (read_files ((total + f.length) % u64_mod) l) _ (λ r e.
      subst
        (Yields
          (λ q. (entries ((total + f.length) % u64_mod) (lengths (file_entries q.0))).1 ≡ q.1))
        e (read_files-Yields l ((total + f.length) % u64_mod))))

to_u64-lt : (i : ℤ) → to_u64 i < u64_mod
unfolding to_u64
to_u64-lt (pos n) = omega arith
to_u64-lt (negsuc n) = omega arith

-- The sizes, by whether the torrent has several files.
abbrev AreSizes : Bool → List File × ℕ → Type 0
AreSizes true r = AddsUp (lengths (file_entries r.0)) r.1
AreSizes false r = AddsUp (r.1 ∷ []) r.1

read_sizes-Yields : (b : Bool) (info : BDict) → Yields (AreSizes b) (read_sizes b info)
unfolding read_sizes entries
read_sizes-Yields true info =
    bind-Yields _ (get_val as_list info (text "files")) _ (λ l _. read_files-Yields l 0)
read_sizes-Yields false info =
    bind-Yields _ (get_val as_integer info (text "length")) _ (λ i _. omega (arith, to_u64-lt i))

abbrev pub IsSized : TorrentFile → Type 0
IsSized t = (0 < t.piece_size) × AddsUp (lengths (file_layout t)) t.total_size

layout-AddsUp :
    (t : TorrentFile)
    → AreSizes t.is_multifile (t.files, t.total_size)
    → AddsUp (lengths (file_layout t)) t.total_size
unfolding file_layout
layout-AddsUp t h = elim (Bool-cases t.is_multifile) [
  | inl several ↦ rw several (rw several at h)
  | inr one ↦ rw one (rw one at h)
]

make-Yields :
    (sha1 : Bytes → Bytes) (d : BDict) (info_bytes : Bytes)
    → Yields IsSized (make sha1 d info_bytes)
unfolding make
make-Yields sha1 d info_bytes = throw_if-Yields _ (length info_bytes == 0) _ (λ _.
    throw_if-Yields _ (not (has_key (text "announce") d)) _ (λ _.
      bind-Yields _ (get_val as_string d (text "announce")) _ (λ announce _.
        bind-Yields _ (extract_tracker_information announce) _ (λ tracker _.
          bind-Yields _ (announce_list d) _ (λ tiers _.
            throw_if-Yields _ (not (has_key (text "info") d)) _ (λ _.
              bind-Yields _ (get_val as_dictionary d (text "info")) _ (λ info _.
                bind-Yields _ (get_val as_string info (text "name")) _ (λ name _.
                  bind-Yields _ (get_val as_integer info (text "piece length")) _ (λ piece_length _.
                    throw_if-Yields _ (not (is_power_of_two (to_u64 piece_length))) _ (λ _.
                      throw_if-Yields _ (ltb (to_u64 piece_length) (16 * 1024)) _ (λ large.
                        bind-Yields _ (read_sizes (has_key (text "files") info) info) _ (λ r e.
                          bind-Yields _ (get_val as_string info (text "pieces")) _ (λ pieces_str _.
                            (
                              ground (arith, large),
                              layout-AddsUp _ (
                                  subst (Yields (AreSizes (has_key (text "files") info))) e
                                    (read_sizes-Yields (has_key (text "files") info) info)),
                            ))))))))))))))

init_of-AddsUp :
    (piece_size total : ℕ) (sizes : List ℕ)
    → 0 < piece_size
    → 0 < total
    → AddsUp sizes total
    → (w : DiskWriter) × (init piece_size total sizes ≡ ok w)
unfolding init entries
init_of-AddsUp piece_size total [] p t s = absurd (omega arith)
init_of-AddsUp piece_size total (n ∷ sizes) p t s =
    let some_size : (piece_size == 0) ≡ false = ground (arith, p) in
    let some_total : (total == 0) ≡ false = ground (arith, t) in
    let same : ((entries ((0 + n) % u64_mod) sizes).1 == total) ≡ true = ground (arith, s) in
    let some_file : (length (entries 0 (n ∷ sizes)).0 == 0) ≡ false = ground arith in
    let made : DiskWriter = record {
      piece_size = piece_size;
      total_size = total;
      files = (entries 0 (n ∷ sizes)).0;
      files_preallocated = false;
    } in
    (made, rw (some_size, some_total, some_file, same) refl)

-- A torrent that is accepted gives the disk writer sizes that it accepts: the pieces have a size, and
-- the files of the layout add up to the total, so that the writer is made unless the total is zero.
pub init-make :
    (sha1 : Bytes → Bytes) (d : BDict) (info_bytes : Bytes) (t : TorrentFile)
    → make sha1 d info_bytes ≡ ok t
    → 0 < t.total_size
    → (w : DiskWriter) × (init t.piece_size t.total_size (lengths (file_layout t)) ≡ ok w)
init-make sha1 d info_bytes t e l =
    let sized : IsSized t = subst (Yields IsSized) e (make-Yields sha1 d info_bytes) in
    init_of-AddsUp t.piece_size t.total_size (lengths (file_layout t)) sized.0 l sized.1
