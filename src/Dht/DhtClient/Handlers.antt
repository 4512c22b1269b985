-- ===== src/Dht/DhtClient/Handlers.antt =====
-- src/dht/dht_client.cpp: what the node does with a message. An exception that a handler passes on is
-- caught in `recv_loop`, with the state that it left.
use bittorent_client.Common.{
  ℕ, Bytes, true, Option, none, some, List, [], ◌∷◌, Result, ok, err, if◌then◌else◌,
}
use bittorent_client.Common.Text.{text}
use bittorent_client.Common.Int.{pos}
use bittorent_client.InfoHash.{InfoHash, to_hex}
use bittorent_client.PeerAddress.{PeerAddress}
use bittorent_client.PeerAddress.Compact.{compact_to_peer}
use bittorent_client.Dht.NodeId.{is_zero}
use bittorent_client.Dht.RoutingTable.{RoutingEntry, RoutingTable, add, closest}
use bittorent_client.Dht.PeerStore.{upsert, expire_stale, live_peers}
use bittorent_client.Dht.Token.{
  TokenSecretRotator, rotate_if_needed, issue_token, verify_token, is_empty,
}
use bittorent_client.Dht.Announce.{AnnounceCoordinator, AnnounceRequest, on_get_peers_response}
use bittorent_client.Dht.Krpc.{
  KrpcMessage, KrpcType, query, response, error, KrpcQuery, ping, find_node, get_peers,
  announce_peer, make_response, make_nodes_response, make_peers_response, make_nodes_response_gp,
  make_error,
}
use bittorent_client.Dht.LookupManager.{ResponseResult, info_hash_for_txn}
use bittorent_client.Dht.LookupManager.Steps
use bittorent_client.Dht.DhtClient.{
  Env, DhtClient, send_krpc, invoke_peer_callback, send_all, maybe_mark_bootstrap_complete,
  send_announce_requests, try_pending_initial_lookups,
}

-- `for (const auto& n : msg.nodes) routing_table_.add(n);`
unfoldable pub add_nodes : ℕ → List RoutingEntry → RoutingTable → RoutingTable
add_nodes now [] t = t
add_nodes now (n ∷ nodes) t = add_nodes now nodes (add now true n t)

abbrev pub with_nodes : ℕ → List RoutingEntry → DhtClient → DhtClient
with_nodes now [] c = c
with_nodes now (n ∷ nodes) c =
    maybe_mark_bootstrap_complete now
      (record c { routing_table = add_nodes now (n ∷ nodes) c.routing_table })

module _ (env : Env) where
  unfoldable pub on_ping : KrpcMessage → PeerAddress → DhtClient → DhtClient
  on_ping msg pa c = send_krpc (make_response msg.txn c.self_id) pa c

  unfoldable pub on_find_node : KrpcMessage → PeerAddress → DhtClient → DhtClient
  on_find_node msg pa c =
      send_krpc
        (make_nodes_response env.inet msg.txn c.self_id (closest msg.target 8 c.routing_table)) pa c

  -- `token_rotator_.rotate_if_needed()`, and the rest where that does not throw
  abbrev pub rotated :
      (DhtClient → DhtClient)
      → Result (Unit {0}) × TokenSecretRotator
      → DhtClient
      → Result (Unit {0}) × DhtClient
  rotated next (err e, r) c = (err e, record c { token_rotator = r })
  rotated next (ok u, r) c = (ok u, next (record c { token_rotator = r }))

  -- peers where some are known, nodes elsewhere
  abbrev pub get_peers_reply : KrpcMessage → InfoHash → Bytes → List PeerAddress → DhtClient → Bytes
  get_peers_reply msg info_hash token [] c =
      make_nodes_response_gp env.inet msg.txn c.self_id token (closest info_hash 8 c.routing_table)
  get_peers_reply msg info_hash token (p ∷ known) c =
      make_peers_response env.inet msg.txn c.self_id token (p ∷ known)

  unfoldable pub answer_get_peers : KrpcMessage → PeerAddress → InfoHash → DhtClient → DhtClient
  answer_get_peers msg pa info_hash c =
      let token = issue_token env.sha1 env.ip_address_bytes pa.ip c.token_rotator in
      let (known, store) = live_peers env.now info_hash (expire_stale env.now c.peer_store) in
      send_krpc (get_peers_reply msg info_hash token known c) pa (record c { peer_store = store })

  unfoldable pub accept_announce : KrpcMessage → PeerAddress → InfoHash → DhtClient → DhtClient
  accept_announce msg pa info_hash c =
      let peer = if msg.implied_port then pa else record pa { port = msg.peer_port } in
      let c' = record c { peer_store = upsert env.now info_hash peer c.peer_store } in
      send_krpc (make_response msg.txn c.self_id) peer
        (invoke_peer_callback (to_hex info_hash) peer c')

  unfoldable pub answer_announce : KrpcMessage → PeerAddress → InfoHash → DhtClient → DhtClient
  answer_announce msg pa info_hash c =
      if verify_token env.sha1 env.ip_address_bytes env.now msg.token pa.ip c.token_rotator
      then accept_announce msg pa info_hash c
      else send_krpc (make_error msg.txn (pos 203) (text "Bad token")) pa c

  -- `if (!msg.info_hash) return;`
  abbrev pub with_hash :
      Option InfoHash
      → (InfoHash → DhtClient → DhtClient)
      → DhtClient
      → Result (Unit {0}) × DhtClient
  with_hash none next c = (ok tt, c)
  with_hash (some h) next c =
      rotated (next h) (rotate_if_needed env.now env.random_secret c.token_rotator) c

  unfoldable pub on_get_peers :
      KrpcMessage → PeerAddress → DhtClient → Result (Unit {0}) × DhtClient
  on_get_peers msg pa c = with_hash msg.info_hash (answer_get_peers msg pa) c

  unfoldable pub on_announce_peer :
      KrpcMessage → PeerAddress → DhtClient → Result (Unit {0}) × DhtClient
  on_announce_peer msg pa c = with_hash msg.info_hash (answer_announce msg pa) c

  abbrev pub learn_peer : InfoHash → Option PeerAddress → DhtClient → DhtClient
  learn_peer hash none c = c
  learn_peer hash (some pa) c =
      let c' = record c { peer_store = upsert env.now hash pa c.peer_store } in
      invoke_peer_callback (to_hex hash) pa c'

  -- the loop over the peers of a response
  unfoldable pub learn_values : InfoHash → List Bytes → DhtClient → DhtClient
  learn_values hash [] c = c
  learn_values hash (compact ∷ values) c =
      learn_values hash values (learn_peer hash (compact_to_peer env.inet compact 0) c)

  -- The announces that a token allows.
  abbrev pub announces_for :
      KrpcMessage
      → PeerAddress
      → Option InfoHash
      → AnnounceCoordinator
      → List AnnounceRequest × AnnounceCoordinator
  announces_for msg pa none a = ([], a)
  announces_for msg pa (some h) a =
      if is_empty msg.token then ([], a) else on_get_peers_response h pa msg.token [] a

  -- behind `lookup_manager_.on_response(msg)`
  abbrev pub follow_up :
      KrpcMessage → List AnnounceRequest → Option InfoHash → ResponseResult → DhtClient → DhtClient
  follow_up msg requests none r c = send_announce_requests env requests c
  follow_up msg requests (some h) r c =
      try_pending_initial_lookups env
        (send_announce_requests env requests (send_all r.outbound (learn_values h msg.values c)))

  unfoldable pub on_response : KrpcMessage → PeerAddress → DhtClient → DhtClient
  on_response msg pa c0 =
      let c = with_nodes env.now msg.nodes c0 in
      let (requests, announces) =
        announces_for msg pa (info_hash_for_txn msg.txn c.lookup_manager) c.announce_coordinator in
      let (r, m) = Steps.on_response env.now env.random_txn c.routing_table msg c.lookup_manager in
      follow_up msg requests r.info_hash r
        (record c { lookup_manager = m; announce_coordinator = announces })

  abbrev pub on_query :
      Option KrpcQuery → KrpcMessage → PeerAddress → DhtClient → Result (Unit {0}) × DhtClient
  on_query none msg pa c = (ok tt, c)
  on_query (some ping) msg pa c = (ok tt, on_ping msg pa c)
  on_query (some find_node) msg pa c = (ok tt, on_find_node msg pa c)
  on_query (some get_peers) msg pa c = on_get_peers msg pa c
  on_query (some announce_peer) msg pa c = on_announce_peer msg pa c

  abbrev pub dispatch :
      KrpcType → KrpcMessage → PeerAddress → DhtClient → Result (Unit {0}) × DhtClient
  dispatch query msg pa c = on_query msg.query_type msg pa c
  dispatch response msg pa c = (ok tt, on_response msg pa c)
  dispatch error msg pa c = (ok tt, c)

  -- A node that is heard from goes into the routing table.
  abbrev pub heard_from : KrpcMessage → PeerAddress → DhtClient → DhtClient
  heard_from msg pa c =
      let n : RoutingEntry = record { id = msg.sender_id; pa = pa; last_seen = env.now } in
      if is_zero msg.sender_id
      then c
      else maybe_mark_bootstrap_complete env.now
          (record c { routing_table = add env.now true n c.routing_table })

  unfoldable pub handle_message :
      KrpcMessage → PeerAddress → DhtClient → Result (Unit {0}) × DhtClient
  handle_message msg pa c = dispatch msg.kind msg pa (heard_from msg pa c)
