-- ===== src/Tests/Torrent.antt =====
-- A torrent of two files with a UDP tracker.
use bittorent_client.Common.{◌≡◌, refl, Bytes, true, inr, [], ◌∷◌, ok, arith, replicate}
use bittorent_client.Common.Int.{pos}
use bittorent_client.Common.Text.{text}
use bittorent_client.Common.Chunks.{chunks}
use bittorent_client.Common.ByteStrings.{bytes_eq}
use bittorent_client.Common.Decimal.{leading_digits, signed, value}
use bittorent_client.Bencode.Types.{
  BDict, integer, string, list, dictionary, nil, item, end, entry, find, has_key, as_string,
  as_list, as_dictionary, as_integer,
}
use bittorent_client.Dht.Krpc.{to_u16}
use bittorent_client.PeerWire.Disk.{DiskWriter, init}
use bittorent_client.Torrent.{
  File, TorrentFile, to_u64, load_list_of_bstrings, trackers_of, tiers_of, read_file, read_files,
  read_sizes, make, file_layout,
}
use bittorent_client.Torrent.Layout.{lengths, init-make}
use bittorent_client.Torrent.Tracker.{
  http, udp, from_scheme, split_at, split_scheme, skip_spaces, stoi, details_to_string,
  extract_tracker_information,
}
use bittorent_client.Torrent.Tracker.RoundTrip.{extract_tracker_information-details_to_string}

abbrev file : Bytes → BDict
file name =
    entry (text "length") (integer (pos 20000))
      (entry (text "path") (list (item (string (text "d")) (item (string name) nil))) end)

abbrev info : BDict
info =
    entry (text "files")
      (list (item (dictionary (file (text "a"))) (item (dictionary (file (text "b"))) nil)))
      (entry (text "name") (string (text "n")) (
        entry (text "piece length") (integer (pos 32768))
          (entry (text "pieces") (string (replicate 40 7)) end)))

abbrev torrent : BDict
torrent = entry (text "announce") (string (text "udp://t.org:81/announce")) (
    entry (text "announce-list") (list (item (list (item (string (text "http://t.org")) nil)) nil))
      (entry (text "info") (dictionary info) end))

abbrev part : Bytes → File
part name = record {
  length = 20000;
  path = text "d" ∷ name ∷ [];
  mtime = [];
  sha1 = [];
  crc32 = [];
  md5 = [];
}

abbrev whole : TorrentFile
whole = record {
  torrent_name = text "n";
  is_multifile = true;
  total_size = 40000;
  piece_size = 32768;
  files = part (text "a") ∷ part (text "b") ∷ [];
  info_hash = 5 ∷ [];
  pieces = replicate 20 7 ∷ replicate 20 7 ∷ [];
  announce_tracker = record {
    protocol = udp;
    hostname = text "t.org";
    port = 81;
    path = text "/announce";
  };
  announce_list_trackers =
      (record { protocol = http; hostname = text "t.org"; port = 80; path = text "/" } ∷ []) ∷ [];
}

make-whole : make (λ s. 5 ∷ []) torrent (text "de") ≡ ok whole
unfolding make to_u64 read_sizes read_files read_file load_list_of_bstrings trackers_of tiers_of
    extract_tracker_information split_scheme split_at stoi skip_spaces from_scheme bytes_eq
    leading_digits signed value to_u16 chunks find has_key as_string as_list as_dictionary
    as_integer
make-whole = refl

init-make_example : (w : DiskWriter) × (init 32768 40000 (lengths (file_layout whole)) ≡ ok w)
init-make_example = init-make (λ s. 5 ∷ []) torrent (text "de") whole make-whole (omega arith)

extract_tracker_information-details_to_string_example :
    extract_tracker_information (
      details_to_string
        (record { protocol = udp; hostname = text "t.org"; port = 6881; path = text "/a" }))
    ≡ ok (record { protocol = udp; hostname = text "t.org"; port = 6881; path = text "/a" })
extract_tracker_information-details_to_string_example =
    extract_tracker_information-details_to_string udp (text "t.org") 6881 (text "a")
      (inr (inr refl)) (refl, (refl, (refl, (refl, (refl, tt)))))
      (refl, (refl, (refl, (refl, (refl, tt))))) (omega arith)
