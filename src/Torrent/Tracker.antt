-- ===== src/Torrent/Tracker.antt =====
-- inc/trackers/tracker_protocol.h, inc/trackers/tracker_details.h, and `extract_tracker_information`
-- of src/torrent_file.cpp: the URL of a tracker.
pub mod RoundTrip
use bittorent_client.Common.{
  ℕ, zero, suc, ◌+◌, ◌-◌, ◌^◌, Bytes, Bool, true, false, ◌&&◌, ◌||◌, Option, none, some, List, [],
  ◌∷◌, ◌++◌, Result, ok, err, runtime_error, invalid_argument, out_of_range, ◌>>=◌, ltb, leb, ◌==◌,
  if◌then◌else◌, length, take, drop,
}
use bittorent_client.Common.Int.{ℤ, pos, negsuc}
use bittorent_client.Common.Text.{text}
use bittorent_client.Common.ByteStrings.{bytes_eq}
use bittorent_client.Common.Decimal.{to_string, leading_digits, signed}
use bittorent_client.Dht.Krpc.{to_u16}

pub record TrackerProtocol : Type 0 where
  pub scheme : Bytes
  pub default_port : ℕ

abbrev pub http : TrackerProtocol
http = record { scheme = text "http"; default_port = 80 }

abbrev pub https : TrackerProtocol
https = record { scheme = text "https"; default_port = 443 }

abbrev pub udp : TrackerProtocol
udp = record { scheme = text "udp"; default_port = 6969 }

unfoldable pub from_scheme : Bytes → Result TrackerProtocol
from_scheme s =
    if bytes_eq s (text "http")
    then ok http
    else if bytes_eq s (text "https")
    then ok https
    else if bytes_eq s (text "udp")
    then ok udp
    else err runtime_error

pub record TrackerDetails : Type 0 where
  pub protocol : TrackerProtocol
  pub hostname : Bytes
  pub port : ℕ
  pub path : Bytes

unfoldable pub details_to_string : TrackerDetails → Bytes
details_to_string td =
    td.protocol.scheme ++ (text "://" ++ (td.hostname ++ (b':' ∷ (to_string td.port ++ td.path))))

-- `s.find(c)`: what stands before the character, and what follows it
unfoldable pub split_at : ℕ → Bytes → Bytes × Option Bytes
split_at c [] = ([], none)
split_at c (x ∷ s) =
    let rest = split_at c s in if x == c then ([], some s) else (x ∷ rest.0, rest.1)

-- `s.find("://")`, in the same way
unfoldable pub split_scheme : Bytes → Bytes × Option Bytes
split_scheme (x ∷ y ∷ z ∷ s) =
    let rest = split_scheme (y ∷ z ∷ s) in
    if x == b':' && (y == b'/' && z == b'/') then ([], some s) else (x ∷ rest.0, rest.1)
split_scheme (x ∷ y ∷ []) = (x ∷ y ∷ [], none)
split_scheme (x ∷ []) = (x ∷ [], none)
split_scheme [] = ([], none)

abbrev pub is_space : ℕ → Bool
is_space c = c == 32 || (leb 9 c && leb c 13)

unfoldable pub skip_spaces : Bytes → Bytes
skip_spaces [] = []
skip_spaces (c ∷ s) = let rest = skip_spaces s in if is_space c then rest else c ∷ s

abbrev pub in_int : ℤ → Result ℤ
in_int (pos n) = if ltb n (2 ^ 31) then ok (pos n) else err out_of_range
in_int (negsuc n) = if ltb n (2 ^ 31) then ok (negsuc n) else err out_of_range

abbrev pub number_of : Bytes → Result ℤ
number_of [] = err invalid_argument
number_of (c ∷ s) =
    if c == b'-'
    then signed true (leading_digits s)
    else if c == b'+'
    then signed false (leading_digits s)
    else signed false (leading_digits (c ∷ s))

-- `std::stoi`: what follows the digits is ignored.
unfoldable pub stoi : Bytes → Result ℤ
unfolding skip_spaces leading_digits signed
stoi s = number_of (skip_spaces s) >>= in_int

-- The path begins with its `/`, which it has where the URL has none.
abbrev pub path_of : Option Bytes → Bytes
path_of none = b'/' ∷ []
path_of (some s) = b'/' ∷ s

-- the port of the URL, or that of the protocol
abbrev pub port_of : TrackerProtocol → Option Bytes → Result ℕ
port_of protocol none = ok protocol.default_port
port_of protocol (some s) = stoi s >>= λ i. ok (to_u16 i)

abbrev pub read_location : TrackerProtocol → Bytes → Result TrackerDetails
read_location protocol s =
    let (location, path) = split_at b'/' s in
    let (host, port_text) = split_at b':' location in
    port_of protocol port_text >>= λ port.
    ok (record { protocol = protocol; hostname = host; port = port; path = path_of path })

abbrev pub read_url : Bytes × Option Bytes → Result TrackerDetails
read_url (scheme, none) = err runtime_error
read_url (scheme, some s) = from_scheme scheme >>= λ protocol. read_location protocol s

unfoldable pub extract_tracker_information : Bytes → Result TrackerDetails
unfolding split_scheme split_at stoi from_scheme
extract_tracker_information announce = read_url (split_scheme announce)
