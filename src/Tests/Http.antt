-- ===== src/Tests/Http.antt =====
-- An announce to an HTTP tracker with three addresses.
use bittorent_client.Common.{Bytes, List, [], ◌∷◌}
use bittorent_client.Common.Int.{pos}
use bittorent_client.Common.Text.{text}
use bittorent_client.Common.Chunks.{join}
use bittorent_client.Bencode.Types.{BDict, integer, string, dictionary, end, entry}
use bittorent_client.Bencode.Encoder
use bittorent_client.Bencode.Encoder.{encode}
use bittorent_client.PeerAddress.{PeerAddress}
use bittorent_client.PeerAddress.Compact.RoundTrip.{compact_all}
use bittorent_client.Torrent.Tracker.{TrackerDetails, http}
use bittorent_client.Trackers.Http.{Answer, failed, answered}
use bittorent_client.Trackers.Http.Reply.{response}
use bittorent_client.Tests.Client.{inet, inet-IsInet, host}

abbrev tracker : TrackerDetails
tracker = record { protocol = http; hostname = text "t.org"; port = 80; path = text "/announce" }

abbrev peers : List PeerAddress
peers = host 1 ∷ host 2 ∷ []

abbrev reply : BDict
reply =
    entry (text "interval") (integer (pos 1800))
      (entry (text "peers") (string (join (compact_all inet inet-IsInet peers))) end)

abbrev lines : List Bytes
lines = text "Date: 1" ∷ []

abbrev refused : List Answer
refused = failed ∷ answered [] ∷ []

abbrev net : TrackerDetails → Bytes → List Answer
net t request =
    failed
    ∷ answered []
    ∷ answered (response (text "HTTP/1.1") 200 (text "OK") lines (encode (dictionary reply)))
    ∷ []
