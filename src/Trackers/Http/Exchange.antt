-- ===== src/Trackers/Http/Exchange.antt =====
-- src/trackers/http_tracker_communicator.cpp, `announce`: the request, the loop over the addresses, and
-- the peers of the reply that is used.
use bittorent_client.Common.{◌≡◌, refl, Bytes, true, some, ok}
use bittorent_client.Bencode.Types.{BType, BDict, find, has_key, at}
use bittorent_client.InfoHash.{InfoHash}
use bittorent_client.PeerAddress.{PeerAddress}

pub has_key-find : (k : Bytes) (d : BDict) (v : BType) → find k d ≡ some v → has_key k d ≡ true
unfolding has_key
has_key-find k d v e = rw (e, has_key) refl

pub at-find : (k : Bytes) (d : BDict) (v : BType) → find k d ≡ some v → at d k ≡ ok v
unfolding at
at-find k d v e = rw (e, at) refl
