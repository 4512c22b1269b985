-- ===== src/Trackers/Http/Scrape.antt =====
-- src/trackers/http_tracker_communicator.cpp, the scrape: its URL and its reply.
use bittorent_client.Common.{
  ℕ, ◌-◌, ◌≡◌, refl, Bytes, Bool, true, ◌&&◌, Option, none, some, List, ◌++◌, Result, ok, ◌>>=◌,
  ◌>>◌, leb, if◌then◌else◌, length, take, drop, arith, length-append, take-length-append,
  drop-length-append,
}
use bittorent_client.Common.Text.{text}
use bittorent_client.Common.ByteStrings.{bytes_eq}
use bittorent_client.Bencode.Types.{BDict, has_key, get_val, at, as_integer, as_dictionary}
use bittorent_client.Bencode.Parser.{parse_value}
use bittorent_client.InfoHash.{InfoHash, to_raw}
use bittorent_client.Torrent.{to_u64}
use bittorent_client.Torrent.Tracker.{TrackerDetails}
use bittorent_client.Trackers.Http.{
  Answer, url_encode, split_on, refuse_failure, send_http_tracker_get,
}

abbrev pub announce_suffix : Bytes
announce_suffix = text "/announce"

abbrev pub scrape_suffix : Bytes
scrape_suffix = text "/scrape"

abbrev pub ends_with : Bytes → Bytes → Bool
ends_with suffix path =
    leb (length suffix) (length path) && bytes_eq (drop (length path - length suffix) path) suffix

abbrev pub replace_first : Bytes → Bytes × Option Bytes → Bytes
replace_first path (before, some after) = before ++ (scrape_suffix ++ after)
replace_first path (before, none) =
    if bytes_eq path (text "announce") then text "scrape" else scrape_suffix

unfoldable pub announce_path_to_scrape_path : Bytes → Bytes
unfolding split_on
announce_path_to_scrape_path path =
    if ends_with announce_suffix path
    then take (length path - length announce_suffix) path ++ scrape_suffix
    else replace_first path (split_on announce_suffix path)

abbrev pub scrape_tracker_from_announce : TrackerDetails → TrackerDetails
scrape_tracker_from_announce announce = record announce {
  path = announce_path_to_scrape_path announce.path;
}

abbrev pub build_scrape_query_string : InfoHash → Bytes
build_scrape_query_string info_hash = text "info_hash=" ++ url_encode info_hash

pub record TrackerScrapeStats : Type 0 where
  pub complete : ℕ
  pub incomplete : ℕ
  pub downloaded : Option ℕ

abbrev pub no_stats : TrackerScrapeStats
no_stats = record { complete = 0; incomplete = 0; downloaded = none }

-- `get_val<BInteger>` as a `uint64_t`, where the key is there
abbrev pub count_of : BDict → Bytes → Result (Option ℕ)
count_of d key =
    if has_key key d then (get_val as_integer d key >>= λ i. ok (some (to_u64 i))) else ok none

abbrev pub or_zero : Option ℕ → ℕ
or_zero none = 0
or_zero (some n) = n

abbrev pub downloads : BDict → Result (Option ℕ)
downloads d =
    if has_key (text "downloaded") d
    then count_of d (text "downloaded")
    else count_of d (text "download")

abbrev pub read_stats : BDict → Result TrackerScrapeStats
read_stats file_stats = do
  complete ← count_of file_stats (text "complete")
  incomplete ← count_of file_stats (text "incomplete")
  downloaded ← downloads file_stats
  ok (record {
    complete = or_zero complete;
    incomplete = or_zero incomplete;
    downloaded = downloaded;
  })

abbrev pub stats_in : InfoHash → BDict → Result TrackerScrapeStats
stats_in info_hash files =
    if has_key (to_raw info_hash) files
    then (at files (to_raw info_hash) >>= as_dictionary >>= read_stats)
    else ok no_stats

abbrev pub files_in : InfoHash → BDict → Result TrackerScrapeStats
files_in info_hash dict =
    if has_key (text "files") dict
    then (at dict (text "files") >>= as_dictionary >>= stats_in info_hash)
    else ok no_stats

unfoldable pub parse_http_scrape_response : Bytes → InfoHash → Result TrackerScrapeStats
unfolding to_u64
parse_http_scrape_response body info_hash = do
  (root, rest) ← parse_value body
  dict ← as_dictionary root
  refuse_failure dict
  files_in info_hash dict

unfoldable pub scrape :
    (TrackerDetails → Bytes → List Answer) → TrackerDetails → InfoHash → Result TrackerScrapeStats
unfolding announce_path_to_scrape_path parse_http_scrape_response send_http_tracker_get url_encode
scrape net tracker info_hash =
    send_http_tracker_get net (scrape_tracker_from_announce tracker)
      (build_scrape_query_string info_hash)
    >>= λ body. parse_http_scrape_response body info_hash

-- A path that ends with `/announce` is scraped at the same path with `/scrape` in its place.
announce_path_to_scrape_path-append :
    (path : Bytes) → announce_path_to_scrape_path (path ++ announce_suffix) ≡ path ++ scrape_suffix
unfolding announce_path_to_scrape_path bytes_eq
announce_path_to_scrape_path-append path =
    let cut : length (path ++ announce_suffix) - length announce_suffix ≡ length path =
      omega (arith, length-append path announce_suffix) in
    let long : leb (length announce_suffix) (length (path ++ announce_suffix)) ≡ true =
      ground (arith, length-append path announce_suffix) in
    let last = drop-length-append path announce_suffix {n = length path} refl in
    let first = take-length-append path announce_suffix {n = length path} refl in
    rw (cut, long, last, first) refl
