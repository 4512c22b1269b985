-- ===== src/Trackers/Http.antt =====
-- src/trackers/http_tracker_communicator.cpp with inc/trackers/tracker_scrape_stats.h: the requests
-- to an HTTP tracker, its replies, and the scrape. What each address replies is an argument.
pub mod Url
pub mod Reply
pub mod Exchange
pub mod Scrape
use bittorent_client.Common.{
  ℕ, ◌+◌, ◌-◌, ◌/◌, ◌%◌, Bytes, Bool, true, false, not, ◌&&◌, ◌||◌, Option, none, some, List, [],
  ◌∷◌, ◌++◌, Result, ok, err, runtime_error, ◌>>=◌, ◌>>◌, throw_if, ltb, leb, ◌==◌, if◌then◌else◌,
  length, take, drop,
}
use bittorent_client.Common.Int.{ℤ, pos, negsuc}
use bittorent_client.Common.Text.{text}
use bittorent_client.Common.ByteStrings.{bytes_eq}
use bittorent_client.Common.Decimal.{to_string}
use bittorent_client.Bencode.Types.{
  BType, BList, BDict, nil, item, integer, string, list, dictionary, has_key, get_val, at,
  as_integer, as_string, as_dictionary,
}
use bittorent_client.Bencode.Parser.{parse_value}
use bittorent_client.InfoHash.{InfoHash, to_raw}
use bittorent_client.PeerAddress.{PeerAddress}
use bittorent_client.PeerAddress.Compact.{Inet, parse_compact_peers}
use bittorent_client.Dht.Krpc.{to_u16}
use bittorent_client.Torrent.{to_u64}
use bittorent_client.Torrent.Tracker.{TrackerProtocol, TrackerDetails, http, https, split_at, stoi}

abbrev pub is_unreserved : ℕ → Bool
is_unreserved b =
    (leb 48 b && leb b 57)
    || ((leb 65 b && leb b 90)
        || ((leb 97 b && leb b 122) || (b == b'-' || (b == b'_' || (b == b'.' || b == b'~')))))

abbrev pub upper_digit : ℕ → ℕ
upper_digit d = if ltb d 10 then 48 + d else 55 + d

-- `crypto::url_encode`
unfoldable pub url_encode : Bytes → Bytes
url_encode [] = []
url_encode (b ∷ bytes) =
    let rest = url_encode bytes in
    if is_unreserved b then b ∷ rest else b'%' ∷ upper_digit (b / 16) ∷ upper_digit (b % 16) ∷ rest

unfoldable pub event_to_string : ℕ → Bytes
event_to_string event =
    if event == 1
    then text "completed"
    else if event == 2
    then text "started"
    else if event == 3
    then text "stopped"
    else []

abbrev pub event_parameter : Bytes → Bytes
event_parameter [] = []
event_parameter (c ∷ ev) = text "&event=" ++ (c ∷ ev)

unfoldable pub build_query_string : InfoHash → Bytes → ℕ → ℕ → ℕ → ℕ → ℕ → Bytes
unfolding url_encode event_to_string
build_query_string info_hash my_peer_id downloaded left uploaded event port =
    text "info_hash="
    ++ (url_encode info_hash
        ++ (text "&peer_id="
            ++ (url_encode my_peer_id
                ++ (text "&port="
                    ++ (to_string port
                        ++ (text "&uploaded="
                            ++ (to_string uploaded
                                ++ (text "&downloaded="
                                    ++ (to_string downloaded
                                        ++ (text "&left="
                                            ++ (to_string left
                                                ++ (text "&compact=1"
                                                    ++ event_parameter
                                                        (event_to_string event)))))))))))))

abbrev pub is_protocol : TrackerProtocol → TrackerProtocol → Bool
is_protocol p q = bytes_eq p.scheme q.scheme

unfoldable pub build_host_header : TrackerDetails → Bytes
build_host_header tracker =
    if (is_protocol tracker.protocol http && tracker.port == 80)
      || (is_protocol tracker.protocol https && tracker.port == 443)
    then tracker.hostname
    else tracker.hostname ++ (b':' ∷ to_string tracker.port)

abbrev pub crlf : Bytes
crlf = 13 ∷ 10 ∷ []

unfoldable pub build_http_request : TrackerDetails → Bytes → Bytes
unfolding build_host_header
build_http_request tracker query_string =
    text "GET "
    ++ (tracker.path
        ++ (b'?'
            ∷ (query_string
                ++ (text " HTTP/1.1"
                    ++ (crlf
                        ++ (text "Host: "
                            ++ (build_host_header tracker
                                ++ (crlf
                                    ++ (text "Connection: close"
                                        ++ (crlf
                                            ++ (text "Accept-Encoding: identity"
                                                ++ (crlf ++ crlf))))))))))))

-- `raw.find(pattern)`: what stands before the pattern, and what follows it
unfoldable pub split_on : Bytes → Bytes → Bytes × Option Bytes
split_on pattern [] = ([], none)
split_on pattern (x ∷ s) =
    let rest = split_on pattern s in
    if bytes_eq (take (length pattern) (x ∷ s)) pattern
    then ([], some (drop (length pattern) (x ∷ s)))
    else (x ∷ rest.0, rest.1)

pub record HttpResponse : Type 0 where
  pub status_code : ℤ
  pub body : Bytes

abbrev pub read_status : Option Bytes → Result ℤ
read_status none = err runtime_error
read_status (some s) = stoi (split_at b' ' s).0

abbrev pub read_response : Bytes → Option Bytes → Result HttpResponse
read_response raw none = err runtime_error
read_response raw (some body) =
    let status_line = (split_on crlf raw).0 in
    read_status (split_at b' ' status_line).1 >>= λ status_code.
    ok (record { status_code = status_code; body = body })

unfoldable pub parse_http_response : Bytes → Result HttpResponse
unfolding split_on split_at stoi
parse_http_response raw = read_response raw (split_on (crlf ++ crlf) raw).1

-- the loop over the peers in the form of dictionaries
unfoldable pub dictionary_peers : BList → Result (List PeerAddress)
unfolding to_u16
dictionary_peers nil = ok []
dictionary_peers (item v l) = do
  pd ← as_dictionary v
  ip ← get_val as_string pd (text "ip")
  port ← get_val as_integer pd (text "port")
  rest ← dictionary_peers l
  ok (record { ip = ip; port = to_u16 port } ∷ rest)

abbrev pub read_peers : Inet → BType → Result (List PeerAddress)
read_peers inet (string compact) = ok (parse_compact_peers inet compact)
read_peers inet (list l) = dictionary_peers l
read_peers inet (integer i) = err runtime_error
read_peers inet (dictionary d) = err runtime_error

-- A reply that names a failure is thrown.
abbrev pub refuse_failure : BDict → Result (Unit {0})
refuse_failure dict =
    if has_key (text "failure reason") dict
    then (get_val as_string dict (text "failure reason") >>= λ reason. err runtime_error)
    else ok tt

-- The interval is read for the log.
abbrev pub check_interval : BDict → Result (Unit {0})
check_interval dict =
    if has_key (text "interval") dict
    then (get_val as_integer dict (text "interval") >>= λ interval. ok tt)
    else ok tt

abbrev pub peers_in : Inet → BDict → Result (List PeerAddress)
peers_in inet dict =
    if has_key (text "peers") dict then (at dict (text "peers") >>= read_peers inet) else ok []

unfoldable pub parse_tracker_response : Inet → Bytes → Result (List PeerAddress)
unfolding dictionary_peers
parse_tracker_response inet body = do
  (root, rest) ← parse_value body
  dict ← as_dictionary root
  refuse_failure dict
  check_interval dict
  peers_in inet dict

-- What an address does with the request: it fails, or it sends bytes and closes.
pub data Answer : Type 0 where
  failed : Answer
  answered : Bytes → Answer

abbrev pub is_success : ℤ → Bool
is_success (pos n) = n == 200
is_success (negsuc n) = false

abbrev pub body_of : Result HttpResponse → Option Bytes
body_of (err e) = none
body_of (ok r) = if is_success r.status_code then some r.body else none

-- the body that one round of the loop returns, if it does
unfoldable pub usable : Answer → Option Bytes
unfolding parse_http_response
usable failed = none
usable (answered []) = none
usable (answered (c ∷ raw)) = body_of (parse_http_response (c ∷ raw))

abbrev pub or_else : Option Bytes → Result Bytes → Result Bytes
or_else none next = next
or_else (some body) next = ok body

-- the loop over the addresses that the name has
unfoldable pub first_usable : List Answer → Result Bytes
unfolding usable
first_usable [] = err runtime_error
first_usable (a ∷ answers) = or_else (usable a) (first_usable answers)

-- `net` has what the addresses of a tracker answer to a request.
module _ (net : TrackerDetails → Bytes → List Answer) where
  unfoldable pub send_http_tracker_get : TrackerDetails → Bytes → Result Bytes
  unfolding build_http_request first_usable
  send_http_tracker_get tracker query_string =
      first_usable (net tracker (build_http_request tracker query_string))

  unfoldable pub announce :
      Inet → TrackerDetails → InfoHash → Bytes → ℕ → ℕ → ℕ → ℕ → ℕ → Result (List PeerAddress)
  unfolding send_http_tracker_get build_query_string parse_tracker_response
  announce inet tracker info_hash my_peer_id downloaded left uploaded event port =
      send_http_tracker_get tracker
        (build_query_string info_hash my_peer_id downloaded left uploaded event port)
      >>= parse_tracker_response inet
