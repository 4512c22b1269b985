-- ===== src/Torrent.antt =====
-- inc/torrent_file.h, src/torrent_file.cpp: the fields of a torrent, from its parsed dictionary.
pub mod Tracker
pub mod Layout
use bittorent_client.Common.{
  ℕ, zero, suc, ◌+◌, ◌-◌, ◌*◌, ◌%◌, ◌^◌, Bytes, bit_and, Bool, true, false, not, ◌&&◌, Option, none,
  some, List, [], ◌∷◌, ◌++◌, Result, ok, err, runtime_error, ◌>>=◌, ◌>>◌, throw_if, ltb, ◌==◌,
  if◌then◌else◌, length, u64_mod,
}
use bittorent_client.Common.Int.{ℤ, pos, negsuc}
use bittorent_client.Common.Text.{text}
use bittorent_client.Common.Chunks.{chunks}
use bittorent_client.Bencode.Types.{
  BType, BList, BDict, nil, item, integer, string, list, dictionary, has_key, get_val, as_integer,
  as_string, as_list, as_dictionary,
}
use bittorent_client.InfoHash.{InfoHash}
use bittorent_client.Torrent.Tracker.{TrackerDetails, extract_tracker_information}

-- `path` has the parts that `/=` joins.
pub record File : Type 0 where
  pub length : ℕ
  pub path : List Bytes
  pub mtime : Bytes
  pub sha1 : Bytes
  pub crc32 : Bytes
  pub md5 : Bytes

pub record TorrentFile : Type 0 where
  pub torrent_name : Bytes
  pub is_multifile : Bool
  pub total_size : ℕ
  pub piece_size : ℕ
  pub files : List File
  pub info_hash : InfoHash
  pub pieces : List Bytes
  pub announce_tracker : TrackerDetails
  pub announce_list_trackers : List (List TrackerDetails)

-- an `int64_t` as a `uint64_t`
unfoldable pub to_u64 : ℤ → ℕ
to_u64 (pos n) = n % u64_mod
to_u64 (negsuc n) = (u64_mod - suc n % u64_mod) % u64_mod

-- `utils::is_power_of_two`
abbrev pub is_power_of_two : ℕ → Bool
is_power_of_two n = ltb 0 n && (bit_and n (n - 1) == 0)

unfoldable pub load_list_of_bstrings : BList → Result (List Bytes)
load_list_of_bstrings nil = ok []
load_list_of_bstrings (item v l) = do s ← as_string v; rest ← load_list_of_bstrings l; ok (s ∷ rest)

unfoldable pub trackers_of : List Bytes → Result (List TrackerDetails)
trackers_of [] = ok []
trackers_of (announce ∷ announces) = do
  td ← extract_tracker_information announce
  rest ← trackers_of announces
  ok (td ∷ rest)

-- the loop over the tiers of the announce list
unfoldable pub tiers_of : BList → Result (List (List TrackerDetails))
unfolding load_list_of_bstrings trackers_of
tiers_of nil = ok []
tiers_of (item v l) = do
  tier ← as_list v
  announces ← load_list_of_bstrings tier
  td_list ← trackers_of announces
  rest ← tiers_of l
  ok (td_list ∷ rest)

-- a field that may be missing
abbrev pub string_field : BDict → Bytes → Result Bytes
string_field d key = if has_key key d then get_val as_string d key else ok []

unfoldable pub read_file : BType → Result File
unfolding to_u64 load_list_of_bstrings
read_file elem = do
  d ← as_dictionary elem
  crc32 ← string_field d (text "crc32")
  size ← get_val as_integer d (text "length")
  md5 ← string_field d (text "md5")
  mtime ← string_field d (text "mtime")
  sha1 ← string_field d (text "sha1")
  parts ← get_val as_list d (text "path")
  path ← load_list_of_bstrings parts
  ok (record {
    length = to_u64 size;
    path = path;
    mtime = mtime;
    sha1 = sha1;
    crc32 = crc32;
    md5 = md5;
  })

-- The loop over the files, with the total so far.
unfoldable pub read_files : ℕ → BList → Result (List File × ℕ)
unfolding read_file
read_files total nil = ok ([], total)
read_files total (item v l) = do
  f ← read_file v
  (fs, sum) ← read_files ((total + f.length) % u64_mod) l
  ok (f ∷ fs, sum)

-- The files and the total size, for one file or several.
unfoldable pub read_sizes : Bool → BDict → Result (List File × ℕ)
unfolding to_u64 read_files
read_sizes false info = do size ← get_val as_integer info (text "length"); ok ([], to_u64 size)
read_sizes true info = do l ← get_val as_list info (text "files"); read_files 0 l

abbrev pub announce_list : BDict → Result (List (List TrackerDetails))
announce_list d =
    if has_key (text "announce-list") d
    then (get_val as_list d (text "announce-list") >>= tiers_of)
    else ok []

unfoldable pub make : (Bytes → Bytes) → BDict → Bytes → Result TorrentFile
unfolding to_u64 read_sizes
make sha1 d info_bytes = do
  throw_if (length info_bytes == 0) runtime_error
  throw_if (not (has_key (text "announce") d)) runtime_error
  announce ← get_val as_string d (text "announce")
  tracker ← extract_tracker_information announce
  tiers ← announce_list d
  throw_if (not (has_key (text "info") d)) runtime_error
  info ← get_val as_dictionary d (text "info")
  name ← get_val as_string info (text "name")
  piece_length ← get_val as_integer info (text "piece length")
  throw_if (not (is_power_of_two (to_u64 piece_length))) runtime_error
  throw_if (ltb (to_u64 piece_length) (16 * 1024)) runtime_error
  (files, total) ← read_sizes (has_key (text "files") info) info
  pieces_str ← get_val as_string info (text "pieces")
  ok (record {
    torrent_name = name;
    is_multifile = has_key (text "files") info;
    total_size = total;
    piece_size = to_u64 piece_length;
    files = files;
    info_hash = sha1 info_bytes;
    pieces = chunks 20 pieces_str;
    announce_tracker = tracker;
    announce_list_trackers = tiers;
  })

-- the path and the length of each file
abbrev pub file_entries : List File → List (List Bytes × ℕ)
file_entries [] = []
file_entries (f ∷ fs) = (f.path, f.length) ∷ file_entries fs

unfoldable pub file_layout : TorrentFile → List (List Bytes × ℕ)
file_layout t =
    if t.is_multifile then file_entries t.files else (t.torrent_name ∷ [], t.total_size) ∷ []
