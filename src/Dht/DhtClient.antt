-- ===== src/Dht/DhtClient.antt =====
-- inc/dht/dht_client.h, src/dht/dht_client.cpp: the node. Its components are fields, and what it does
-- outside is written down in the order in which it is done: `sent` for the datagrams given to the
-- socket, `told` for the calls of the torrents' callback.
pub mod Handlers
pub mod Kept
pub mod Table
pub mod Peers
pub mod Exchange
pub mod Silence
use bittorent_client.Common.{
  ℕ, ◌+◌, ◌-◌, ◌*◌, ◌^◌, Bytes, Bool, true, false, not, ◌&&◌, ◌||◌, Option, none, some, List, [],
  ◌∷◌, ◌++◌, Result, ok, err, leb, ◌==◌, if◌then◌else◌,
}
use bittorent_client.InfoHash.{InfoHash, to_hex}
use bittorent_client.PeerAddress.{PeerAddress}
use bittorent_client.PeerAddress.Compact.{Inet, compact_to_peer}
use bittorent_client.Dht.NodeId.{NodeId, is_zero}
use bittorent_client.Dht.RoutingTable.{RoutingEntry, RoutingTable, add, size, all_unlocked, is_good}
use bittorent_client.Dht.PeerStore.{DhtPeerStore, ensure_bucket, upsert}
use bittorent_client.Dht.Token.{TokenSecretRotator, rotate_if_needed, is_empty}
use bittorent_client.Dht.Announce.{
  AnnounceCoordinator, AnnounceRequest, collect_announce_all, mark_initial_lookup_started,
  mark_refreshed, torrents_needing_initial_lookup, torrents_needing_refresh,
}
use bittorent_client.Dht.Announce
use bittorent_client.Dht.Krpc.{make_ping, make_announce_peer}
use bittorent_client.Dht.LookupManager.{
  LookupManager, OutboundKrpc, StartResult, has_pending_lookup,
}
use bittorent_client.Dht.LookupManager.Steps.{start_or_advance, tick}

-- What is not the program's own: the conversions of addresses, SHA1, the random numbers, and the
-- clock, which gives one time to all that one call does.
pub record Env : Type 0 where
  pub inet : Inet
  pub sha1 : Bytes → Bytes
  pub ip_address_bytes : Bytes → Bytes
  pub random_txn : ℕ → Bytes
  pub random_secret : Option Bytes
  pub now : ℕ

-- The lookup manager counts the draws of `random_txn`, those of the client too. A time that is not
-- set is `none`, and a latency is a number of ticks.
pub record DhtClient : Type 0 where
  pub self_id : NodeId
  pub running : Bool
  pub socket_open : Bool
  pub routing_table : RoutingTable
  pub lookup_manager : LookupManager
  pub peer_store : DhtPeerStore
  pub token_rotator : TokenSecretRotator
  pub announce_coordinator : AnnounceCoordinator
  pub has_callback : Bool
  pub last_lookup_tick : ℕ
  pub bootstrap_complete : Bool
  pub bootstrap_skipped : Bool
  pub bootstrap_start_time : Option ℕ
  pub bootstrap_latency : Option ℕ
  pub sent : List OutboundKrpc
  pub told : List (Bytes × PeerAddress)

abbrev pub lookup_tick_interval : ℕ
lookup_tick_interval = 5 * 10 ^ 9

unfoldable pub send_krpc : Bytes → PeerAddress → DhtClient → DhtClient
send_krpc msg pa c =
    if c.socket_open then record c { sent = c.sent ++ (record { msg = msg; pa = pa } ∷ []) } else c

unfoldable pub invoke_peer_callback : Bytes → PeerAddress → DhtClient → DhtClient
invoke_peer_callback info_hash_hex pa c =
    if c.has_callback then record c { told = c.told ++ ((info_hash_hex, pa) ∷ []) } else c

-- `for (const auto& o : outbound) send_krpc(o.msg, o.pa);`
unfoldable pub send_all : List OutboundKrpc → DhtClient → DhtClient
send_all [] c = c
send_all (o ∷ outbound) c = send_all outbound (send_krpc o.msg o.pa c)

-- a call of `random_txn` of the client's own
abbrev pub drawn : DhtClient → DhtClient
drawn c = record c {
  lookup_manager = record c.lookup_manager { draws = c.lookup_manager.draws + 1 };
}

unfoldable pub count_good : ℕ → List RoutingEntry → ℕ
count_good now [] = 0
count_good now (e ∷ es) = let rest = count_good now es in if is_good now e then rest + 1 else rest

unfoldable pub count_good_routing_entries : ℕ → DhtClient → ℕ
unfolding count_good all_unlocked
count_good_routing_entries now c = count_good now (all_unlocked c.routing_table.buckets)

-- the time from `bootstrap_start_time_`, where that is set
abbrev pub latency_since : ℕ → Option ℕ → ℕ
latency_since now none = 0
latency_since now (some start) = now - start

unfoldable pub maybe_mark_bootstrap_complete : ℕ → DhtClient → DhtClient
unfolding count_good_routing_entries
maybe_mark_bootstrap_complete now c =
    if c.bootstrap_complete
    then c
    else if count_good_routing_entries now c == 0
    then c
    else record c {
      bootstrap_complete = true;
      bootstrap_latency =
          some (if c.bootstrap_skipped then 0 else latency_since now c.bootstrap_start_time);
    }

module _ (env : Env) where
  unfoldable pub ping : PeerAddress → DhtClient → DhtClient
  ping pa c = send_krpc (make_ping (env.random_txn c.lookup_manager.draws) c.self_id) pa (drawn c)

  unfoldable pub send_announce_requests : List AnnounceRequest → DhtClient → DhtClient
  send_announce_requests [] c = c
  send_announce_requests (req ∷ requests) c =
      let txn = env.random_txn c.lookup_manager.draws in
      let msg = make_announce_peer txn c.self_id req.info_hash req.listen_port req.token true in
      send_announce_requests requests
        (if is_empty req.token then c else send_krpc msg req.pa (drawn c))

  unfoldable pub announce : InfoHash → ℕ → DhtClient → DhtClient
  announce info_hash port c =
      send_announce_requests (collect_announce_all info_hash port [] c.announce_coordinator) c

  -- what `get_peers` does with the result
  abbrev pub started : InfoHash → StartResult → DhtClient → DhtClient
  started info_hash r c =
      if r.no_candidates
      then c
      else send_all r.outbound (record c {
        announce_coordinator = mark_initial_lookup_started info_hash c.announce_coordinator;
      })

  unfoldable pub get_peers : InfoHash → DhtClient → DhtClient
  get_peers info_hash c =
      let (r, m) =
        start_or_advance env.now env.random_txn c.routing_table info_hash c.lookup_manager in
      started info_hash r
        (record c { peer_store = ensure_bucket info_hash c.peer_store; lookup_manager = m })

  unfoldable pub register_torrent : InfoHash → ℕ → DhtClient → DhtClient
  register_torrent info_hash port c =
      let registered = Announce.register_torrent env.now info_hash port c.announce_coordinator in
      let c' = record c { announce_coordinator = registered } in
      if c.running then get_peers info_hash c' else c'

  unfoldable pub unregister_torrent : InfoHash → DhtClient → DhtClient
  unregister_torrent info_hash c = record c {
    announce_coordinator = Announce.unregister_torrent info_hash c.announce_coordinator;
  }

  -- the loop of `try_pending_initial_lookups` over the hashes
  unfoldable pub start_each : List InfoHash → DhtClient → DhtClient
  start_each [] c = c
  start_each (hash ∷ hashes) c =
      start_each hashes (if has_pending_lookup hash c.lookup_manager then c else get_peers hash c)

  unfoldable pub try_pending_initial_lookups : DhtClient → DhtClient
  unfolding start_each
  try_pending_initial_lookups c =
      if size c.routing_table == 0
      then c
      else start_each (torrents_needing_initial_lookup c.announce_coordinator) c

  -- the loop of `maintain_registered_torrents` over the hashes to refresh
  unfoldable pub refresh_each : List InfoHash → DhtClient → DhtClient
  refresh_each [] c = c
  refresh_each (hash ∷ hashes) c =
      let c' = get_peers hash c in
      let refreshed = record c' {
        announce_coordinator = mark_refreshed hash env.now c'.announce_coordinator;
      } in
      refresh_each hashes (if has_pending_lookup hash c.lookup_manager then c else refreshed)

  unfoldable pub maintain_registered_torrents : DhtClient → DhtClient
  unfolding refresh_each try_pending_initial_lookups
  maintain_registered_torrents c =
      let c' = try_pending_initial_lookups c in
      refresh_each (torrents_needing_refresh env.now c'.announce_coordinator) c'

  -- the lookups' tick of `recv_loop`, behind each message or timeout
  unfoldable pub tick_lookups : DhtClient → DhtClient
  tick_lookups c =
      let (outbound, m) = tick env.now env.random_txn c.routing_table c.lookup_manager in
      if leb (c.last_lookup_tick + lookup_tick_interval) env.now
      then send_all outbound (record c { last_lookup_tick = env.now; lookup_manager = m })
      else c
