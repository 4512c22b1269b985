-- ===== src/Dht/DhtClient/Kept.antt =====
-- src/dht/dht_client.cpp: what every handler keeps, when the calls that they are made of keep it.
use bittorent_client.Common.{
  Bytes, true, Option, none, some, List, [], ◌∷◌, Result, ok, err, Bool-cases, inl, inr,
  if◌then◌else◌, ◌==◌,
}
use bittorent_client.InfoHash.{InfoHash, to_hex}
use bittorent_client.PeerAddress.{PeerAddress}
use bittorent_client.PeerAddress.Compact.{compact_to_peer}
use bittorent_client.Dht.NodeId.{is_zero}
use bittorent_client.Dht.RoutingTable.{RoutingEntry, add, size}
use bittorent_client.Dht.PeerStore.{DhtPeerStore, upsert, ensure_bucket, expire_stale, live_peers}
use bittorent_client.Dht.Token.{TokenSecretRotator, rotate_if_needed, verify_token, is_empty}
use bittorent_client.Dht.Announce.{
  AnnounceCoordinator, AnnounceRequest, mark_initial_lookup_started,
  torrents_needing_initial_lookup,
}
use bittorent_client.Dht.Krpc.{
  KrpcMessage, KrpcType, query, response, error, KrpcQuery, ping, find_node, get_peers,
  announce_peer,
}
use bittorent_client.Dht.LookupManager.{
  LookupManager, OutboundKrpc, StartResult, ResponseResult, has_pending_lookup, info_hash_for_txn,
}
use bittorent_client.Dht.LookupManager.Steps
use bittorent_client.Dht.DhtClient.{
  Env, DhtClient, send_krpc, invoke_peer_callback, send_all, maybe_mark_bootstrap_complete, drawn,
  send_announce_requests, started, start_each, try_pending_initial_lookups,
}
use bittorent_client.Dht.DhtClient
use bittorent_client.Dht.DhtClient.Handlers.{
  add_nodes, with_nodes, on_ping, on_find_node, rotated, answer_get_peers, accept_announce,
  answer_announce, with_hash, on_get_peers, on_announce_peer, learn_peer, learn_values,
  announces_for, follow_up, on_response, on_query, dispatch, heard_from, handle_message,
}

-- A predicate that the sends, the callback, a node for the table, the end of the bootstrap and any
-- change of the other components keep.
pub record IsKept (env : Env) (P : DhtClient → Type 0) : Type 0 where
  pub sends : (msg : Bytes) (pa : PeerAddress) (c : DhtClient) → P c → P (send_krpc msg pa c)
  pub tells :
      (hex : Bytes) (pa : PeerAddress) (c : DhtClient) → P c → P (invoke_peer_callback hex pa c)
  pub adds :
      (n : RoutingEntry) (c : DhtClient)
      → P c
      → P (record c { routing_table = add env.now true n c.routing_table })
  pub marks : (c : DhtClient) → P c → P (maybe_mark_bootstrap_complete env.now c)
  pub changes :
      (m : LookupManager) (s : DhtPeerStore) (r : TokenSecretRotator) (a : AnnounceCoordinator)
      (c : DhtClient)
      → P c
      → P (record c {
        lookup_manager = m;
        peer_store = s;
        token_rotator = r;
        announce_coordinator = a;
      })

module _ {env : Env} {P : DhtClient → Type 0} (kept : IsKept env P) where
  send_all-kept : (outbound : List OutboundKrpc) (c : DhtClient) → P c → P (send_all outbound c)
  unfolding send_all
  send_all-kept [] c p = p
  send_all-kept (o ∷ outbound) c p =
      send_all-kept outbound (send_krpc o.msg o.pa c) (kept.sends o.msg o.pa c p)

  add_nodes-kept :
      (nodes : List RoutingEntry) (c : DhtClient)
      → P c
      → P (record c { routing_table = add_nodes env.now nodes c.routing_table })
  unfolding add_nodes
  add_nodes-kept [] c p = p
  add_nodes-kept (n ∷ nodes) c p =
      add_nodes-kept nodes (record c { routing_table = add env.now true n c.routing_table })
        (kept.adds n c p)

  with_nodes-kept :
      (nodes : List RoutingEntry) (c : DhtClient) → P c → P (with_nodes env.now nodes c)
  with_nodes-kept [] c p = p
  with_nodes-kept (n ∷ nodes) c p =
      kept.marks (record c { routing_table = add_nodes env.now (n ∷ nodes) c.routing_table })
        (add_nodes-kept (n ∷ nodes) c p)

  send_announce_requests-kept :
      (requests : List AnnounceRequest) (c : DhtClient)
      → P c
      → P (send_announce_requests env requests c)
  unfolding send_announce_requests
  send_announce_requests-kept [] c p = p
  send_announce_requests-kept (req ∷ requests) c p = elim (Bool-cases (is_empty req.token)) [
    | inl no_token ↦ simp no_token (send_announce_requests-kept requests c p)
    | inr token ↦ simp token (
        send_announce_requests-kept requests _ (
          kept.sends _ req.pa (drawn c) (
            kept.changes (drawn c).lookup_manager c.peer_store c.token_rotator
              c.announce_coordinator c p)))
  ]

  started-kept :
      (hash : InfoHash) (r : StartResult) (c : DhtClient) → P c → P (started env hash r c)
  started-kept hash r c p = elim (Bool-cases r.no_candidates) [
    | inl none_known ↦ simp none_known p
    | inr some_known ↦ simp some_known (
        send_all-kept r.outbound _ (
          kept.changes c.lookup_manager c.peer_store c.token_rotator
            (mark_initial_lookup_started hash c.announce_coordinator) c p))
  ]

  pub get_peers-kept : (hash : InfoHash) (c : DhtClient) → P c → P (DhtClient.get_peers env hash c)
  unfolding DhtClient.get_peers
  get_peers-kept hash c p =
      let r = Steps.start_or_advance env.now env.random_txn c.routing_table hash c.lookup_manager in
      started-kept hash r.0 _ (
        kept.changes r.1 (ensure_bucket hash c.peer_store) c.token_rotator c.announce_coordinator c
          p)

  start_each-kept : (hashes : List InfoHash) (c : DhtClient) → P c → P (start_each env hashes c)
  unfolding start_each
  start_each-kept [] c p = p
  start_each-kept (hash ∷ hashes) c p =
      elim (Bool-cases (has_pending_lookup hash c.lookup_manager)) [
        | inl waits ↦ simp waits (start_each-kept hashes c p)
        | inr idle ↦ simp idle (start_each-kept hashes _ (get_peers-kept hash c p))
      ]

  try_pending_initial_lookups-kept : (c : DhtClient) → P c → P (try_pending_initial_lookups env c)
  unfolding try_pending_initial_lookups
  try_pending_initial_lookups-kept c p = elim (Bool-cases (size c.routing_table == 0)) [
    | inl empty ↦ simp empty p
    | inr filled ↦
        simp filled (start_each-kept (torrents_needing_initial_lookup c.announce_coordinator) c p)
  ]

  learn_values-kept :
      (hash : InfoHash) (values : List Bytes) (c : DhtClient)
      → P c
      → P (learn_values env hash values c)
  unfolding learn_values
  learn_values-kept hash [] c p = p
  learn_values-kept hash (v ∷ values) c p =
      learn_values-kept hash values _ (learn_peer-kept (compact_to_peer env.inet v 0))
    where
      learn_peer-kept : (o : Option PeerAddress) → P (learn_peer env hash o c)
      learn_peer-kept none = p
      learn_peer-kept (some pa) = kept.tells (to_hex hash) pa _ (
          kept.changes c.lookup_manager (upsert env.now hash pa c.peer_store) c.token_rotator
            c.announce_coordinator c p)

  follow_up-kept :
      (msg : KrpcMessage) (requests : List AnnounceRequest) (o : Option InfoHash)
      (r : ResponseResult) (c : DhtClient)
      → P c
      → P (follow_up env msg requests o r c)
  follow_up-kept msg requests none r c p = send_announce_requests-kept requests c p
  follow_up-kept msg requests (some h) r c p = try_pending_initial_lookups-kept _ (
      send_announce_requests-kept requests _
        (send_all-kept r.outbound _ (learn_values-kept h msg.values c p)))

  on_response-kept :
      (msg : KrpcMessage) (pa : PeerAddress) (c : DhtClient) → P c → P (on_response env msg pa c)
  unfolding on_response
  on_response-kept msg pa c0 p =
      let c = with_nodes env.now msg.nodes c0 in
      let q = with_nodes-kept msg.nodes c0 p in
      let a =
        announces_for env msg pa (info_hash_for_txn msg.txn c.lookup_manager)
          c.announce_coordinator in
      let r = Steps.on_response env.now env.random_txn c.routing_table msg c.lookup_manager in
      follow_up-kept msg a.0 r.0.info_hash r.0 _
        (kept.changes r.1 c.peer_store c.token_rotator a.1 c q)

  rotated-kept :
      (next : DhtClient → DhtClient) (r : Result (Unit {0}) × TokenSecretRotator) (c : DhtClient)
      → ((d : DhtClient) → P d → P (next d))
      → P c
      → P (rotated env next r c).1
  rotated-kept next (err e, r) c k p =
      kept.changes c.lookup_manager c.peer_store r c.announce_coordinator c p
  rotated-kept next (ok u, r) c k p =
      k _ (kept.changes c.lookup_manager c.peer_store r c.announce_coordinator c p)

  with_hash-kept :
      (o : Option InfoHash) (next : InfoHash → DhtClient → DhtClient) (c : DhtClient)
      → ((h : InfoHash) (d : DhtClient) → P d → P (next h d))
      → P c
      → P (with_hash env o next c).1
  with_hash-kept none next c k p = p
  with_hash-kept (some h) next c k p =
      rotated-kept (next h) (rotate_if_needed env.now env.random_secret c.token_rotator) c (k h) p

  answer_get_peers-kept :
      (msg : KrpcMessage) (pa : PeerAddress) (h : InfoHash) (c : DhtClient)
      → P c
      → P (answer_get_peers env msg pa h c)
  unfolding answer_get_peers
  answer_get_peers-kept msg pa h c p = kept.sends _ pa _ (
      kept.changes c.lookup_manager (live_peers env.now h (expire_stale env.now c.peer_store)).1
        c.token_rotator c.announce_coordinator c p)

  answer_announce-kept :
      (msg : KrpcMessage) (pa : PeerAddress) (h : InfoHash) (c : DhtClient)
      → P c
      → P (answer_announce env msg pa h c)
  unfolding answer_announce accept_announce
  answer_announce-kept msg pa h c p =
      let peer = if msg.implied_port then pa else record pa { port = msg.peer_port } in
      elim (Bool-cases
        (verify_token env.sha1 env.ip_address_bytes env.now msg.token pa.ip c.token_rotator)) [
          | inl good ↦ simp good (
              kept.sends _ peer _ (
                kept.tells (to_hex h) peer _ (
                  kept.changes c.lookup_manager (upsert env.now h peer c.peer_store) c.token_rotator
                    c.announce_coordinator c p)))
          | inr bad ↦ simp bad (kept.sends _ pa c p)
        ]

  on_query-kept :
      (o : Option KrpcQuery) (msg : KrpcMessage) (pa : PeerAddress) (c : DhtClient)
      → P c
      → P (on_query env o msg pa c).1
  unfolding on_ping on_find_node on_get_peers on_announce_peer
  on_query-kept none msg pa c p = p
  on_query-kept (some ping) msg pa c p = kept.sends _ pa c p
  on_query-kept (some find_node) msg pa c p = kept.sends _ pa c p
  on_query-kept (some get_peers) msg pa c p =
      with_hash-kept msg.info_hash (answer_get_peers env msg pa) c (answer_get_peers-kept msg pa) p
  on_query-kept (some announce_peer) msg pa c p =
      with_hash-kept msg.info_hash (answer_announce env msg pa) c (answer_announce-kept msg pa) p

  dispatch-kept :
      (kind : KrpcType) (msg : KrpcMessage) (pa : PeerAddress) (c : DhtClient)
      → P c
      → P (dispatch env kind msg pa c).1
  dispatch-kept query msg pa c p = on_query-kept msg.query_type msg pa c p
  dispatch-kept response msg pa c p = on_response-kept msg pa c p
  dispatch-kept error msg pa c p = p

  heard_from-kept :
      (msg : KrpcMessage) (pa : PeerAddress) (c : DhtClient) → P c → P (heard_from env msg pa c)
  heard_from-kept msg pa c p =
      let n : RoutingEntry = record { id = msg.sender_id; pa = pa; last_seen = env.now } in
      elim (Bool-cases (is_zero msg.sender_id)) [
        | inl unknown ↦ simp unknown p
        | inr known ↦ simp known (kept.marks _ (kept.adds n c p))
      ]

  pub handle_message-kept :
      (msg : KrpcMessage) (pa : PeerAddress) (c : DhtClient)
      → P c
      → P (handle_message env msg pa c).1
  unfolding handle_message
  handle_message-kept msg pa c p =
      dispatch-kept msg.kind msg pa (heard_from env msg pa c) (heard_from-kept msg pa c p)
