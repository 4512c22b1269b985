-- ===== src/Dht/Announce.antt =====
-- inc/dht/announce_coordinator.h, src/dht/announce_coordinator.cpp: which torrents are announced,
-- and with which tokens. An `unordered_map` is a list of its entries, in an order of no meaning.
-- `now` is `steady_clock::now()`; the mutex makes each method one step.
pub mod Refresh
use bittorent_client.Common.{
  ℕ, ◌+◌, ◌*◌, Bytes, Bool, true, false, not, Option, none, some, List, [], ◌∷◌, ◌++◌, leb,
  if◌then◌else◌,
}
use mathlib.Core.List.{lookup}
use bittorent_client.Common.ByteStrings.{bytes_dec}
use bittorent_client.InfoHash.{InfoHash}
use bittorent_client.PeerAddress.{PeerAddress, peer_dec}
use bittorent_client.LruCache.{unlink}
use bittorent_client.Dht.RoutingTable.{minute}
use bittorent_client.Dht.Token.{is_empty}

pub record AnnounceRequest : Type 0 where
  pub pa : PeerAddress
  pub info_hash : InfoHash
  pub listen_port : ℕ
  pub token : Bytes

pub record RegisteredTorrent : Type 0 where
  pub listen_port : ℕ
  pub last_refresh : ℕ
  pub initial_lookup_pending : Bool

pub record AnnounceCoordinator : Type 0 where
  pub registered : List (InfoHash × RegisteredTorrent)
  pub received_tokens : List (PeerAddress × Bytes)

abbrev pub announce_refresh_interval : ℕ
announce_refresh_interval = 12 * minute

-- `map[key] = value`
abbrev pub assign : {K V : Type 0} → Discrete K → K → V → List (K × V) → List (K × V)
assign dec k v m = (k, v) ∷ unlink dec k m

unfoldable pub register_torrent : ℕ → InfoHash → ℕ → AnnounceCoordinator → AnnounceCoordinator
register_torrent now info_hash port c =
    let torrent : RegisteredTorrent = record {
      listen_port = port;
      last_refresh = now;
      initial_lookup_pending = true;
    } in
    record c { registered = assign bytes_dec info_hash torrent c.registered }

unfoldable pub unregister_torrent : InfoHash → AnnounceCoordinator → AnnounceCoordinator
unregister_torrent info_hash c = record c { registered = unlink bytes_dec info_hash c.registered }

abbrev pub clear : AnnounceCoordinator → AnnounceCoordinator
clear c = record { registered = []; received_tokens = [] }

abbrev pub requests_for :
    InfoHash → PeerAddress → Bytes → Option RegisteredTorrent → List AnnounceRequest
requests_for info_hash pa token none = []
requests_for info_hash pa token (some t) =
    record { pa = pa; info_hash = info_hash; listen_port = t.listen_port; token = token } ∷ []

-- The requests that the caller has collected, with zero or one more, and the new state.
unfoldable pub on_get_peers_response :
    InfoHash
    → PeerAddress
    → Bytes
    → List AnnounceRequest
    → AnnounceCoordinator
    → List AnnounceRequest × AnnounceCoordinator
on_get_peers_response info_hash pa token out c = if is_empty token then (out, c) else (
  out ++ requests_for info_hash pa token (lookup bytes_dec info_hash c.registered),
  record c { received_tokens = assign peer_dec pa token c.received_tokens },
)

unfoldable pub requests_all : InfoHash → ℕ → List (PeerAddress × Bytes) → List AnnounceRequest
requests_all info_hash port [] = []
requests_all info_hash port (e ∷ l) =
    record { pa = e.0; info_hash = info_hash; listen_port = port; token = e.1 }
    ∷ requests_all info_hash port l

unfoldable pub collect_announce_all :
    InfoHash → ℕ → List AnnounceRequest → AnnounceCoordinator → List AnnounceRequest
unfolding requests_all
collect_announce_all info_hash port out c = out ++ requests_all info_hash port c.received_tokens

-- the keys of the torrents that pass a test
unfoldable pub keys_where :
    (RegisteredTorrent → Bool) → List (InfoHash × RegisteredTorrent) → List InfoHash
keys_where p [] = []
keys_where p (e ∷ l) = let rest = keys_where p l in if p (e.1) then e.0 ∷ rest else rest

abbrev pub is_due : ℕ → RegisteredTorrent → Bool
is_due now t = leb (t.last_refresh + announce_refresh_interval) now

unfoldable pub torrents_needing_refresh : ℕ → AnnounceCoordinator → List InfoHash
unfolding keys_where
torrents_needing_refresh now c = keys_where (is_due now) c.registered

unfoldable pub torrents_needing_initial_lookup : AnnounceCoordinator → List InfoHash
unfolding keys_where
torrents_needing_initial_lookup c = keys_where (λ t. t.initial_lookup_pending) c.registered

-- a change to the value of a key, where the map has the key
unfoldable pub update :
    InfoHash
    → (RegisteredTorrent → RegisteredTorrent)
    → List (InfoHash × RegisteredTorrent)
    → List (InfoHash × RegisteredTorrent)
update k f [] = []
update k f (e ∷ l) =
    let rest = update k f l in
    elim (bytes_dec k e.0) [ yes _ ↦ (e.0, f (e.1)) ∷ l | no _ ↦ e ∷ rest ]

abbrev pub refreshed : ℕ → RegisteredTorrent → RegisteredTorrent
refreshed now t = record t { last_refresh = now }

unfoldable pub mark_refreshed : InfoHash → ℕ → AnnounceCoordinator → AnnounceCoordinator
unfolding update
mark_refreshed info_hash now c = record c {
  registered = update info_hash (refreshed now) c.registered;
}

unfoldable pub mark_initial_lookup_started : InfoHash → AnnounceCoordinator → AnnounceCoordinator
unfolding update
mark_initial_lookup_started info_hash c = record c {
  registered = update info_hash (λ t. record t { initial_lookup_pending = false }) c.registered;
}
