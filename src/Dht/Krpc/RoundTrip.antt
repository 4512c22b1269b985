-- ===== src/Dht/Krpc/RoundTrip.antt =====
-- src/dht/krpc.cpp: the parser reads what the builders make.
use bittorent_client.Common.{
  ℕ, ◌<◌, ◌≡◌, refl, sym, ap, ◌∙◌, Bytes, Bool, true, false, some, List, [], ◌∷◌, arith, ◌==◌,
  if◌then◌else◌, length, replicate, All, u16_mod, u64_mod, inl, inr, List-cases,
}
use bittorent_client.Common.Int.{ℤ, pos, negsuc, IsInt64}
use bittorent_client.Common.ByteStrings.{bytes_lt, bytes_eq}
use bittorent_client.Bencode.Types.{dictionary, find}
use bittorent_client.Bencode.Encoder.{encode}
use bittorent_client.Bencode.Parser.RoundTrip.{IsValue, AreItems, parse_value-encode}
use bittorent_client.Common.Chunks.{chunks}
use bittorent_client.InfoHash.{InfoHash, try_from_raw}
use bittorent_client.PeerAddress.{PeerAddress}
use bittorent_client.PeerAddress.Compact.{Inet, IsInet, peer_to_compact}
use bittorent_client.PeerAddress.Compact.RoundTrip.{IsPeer, compact_all, length-peer_to_compact}
use bittorent_client.Dht.NodeId.{NodeId, from_string}
use bittorent_client.Dht.RoutingTable.{RoutingEntry}
use bittorent_client.Dht.CompactNode.{nodes_to_compact, parse_nodes, add_nodes}
use bittorent_client.Dht.CompactNode.RoundTrip.{
  IsNode, AreDistinct, keys, all_seen, parse_nodes-nodes_to_compact,
}
use bittorent_client.Dht.Krpc.{
  KrpcType, KrpcQuery, KrpcMessage, blank, to_u16, to_int, peers_of, parse_peers, parse_query,
  read_nodes, parse_response, parse_root, parse_krpc,
}
use bittorent_client.Dht.Krpc.Messages.{
  Outgoing, ping, response, find_node, get_peers, announce_peer, nodes, peers, nodes_gp, error,
  IsInt32, send, strings, root_of, send-eq-encode,
}

module _ (inet : Inet) (law : IsInet inet) where
  -- Identifiers and info hashes of 20 bytes, ports of 16 bits, codes of 32, peers and nodes with
  -- addresses, and no node twice in a message.
  abbrev pub IsSendable : Outgoing → Type 0
  IsSendable (ping txn id) = length id ≡ 20
  IsSendable (response txn id) = length id ≡ 20
  IsSendable (find_node txn id target) = (length id ≡ 20) × (length target ≡ 20)
  IsSendable (get_peers txn id h) = (length id ≡ 20) × (length h ≡ 20)
  IsSendable (announce_peer txn id h port token implied) =
      (length id ≡ 20) × (length h ≡ 20) × (port < u16_mod)
  IsSendable (nodes txn id ns) =
      (length id ≡ 20) × All (IsNode inet law) ns × AreDistinct inet law (keys inet law ns)
  IsSendable (peers txn id token pas) = (length id ≡ 20) × All (IsPeer inet law) pas
  IsSendable (nodes_gp txn id token ns) =
      (length id ≡ 20) × All (IsNode inet law) ns × AreDistinct inet law (keys inet law ns)
  IsSendable (error txn code msg) = IsInt32 code

  -- What another node reads: nodes are seen at the time of the reading.
  abbrev pub received : ℕ → Outgoing → KrpcMessage
  received now (ping txn id) = record (blank KrpcType.query txn) {
    query_type = some KrpcQuery.ping;
    sender_id = id;
  }
  received now (response txn id) = record (blank KrpcType.response txn) { sender_id = id }
  received now (find_node txn id target) = record (blank KrpcType.query txn) {
    query_type = some KrpcQuery.find_node;
    sender_id = id;
    target = target;
  }
  received now (get_peers txn id h) = record (blank KrpcType.query txn) {
    query_type = some KrpcQuery.get_peers;
    sender_id = id;
    info_hash = some h;
  }
  received now (announce_peer txn id h port token implied) = record (blank KrpcType.query txn) {
    query_type = some KrpcQuery.announce_peer;
    sender_id = id;
    info_hash = some h;
    peer_port = port;
    token = token;
    implied_port = implied;
  }
  received now (nodes txn id ns) = record (blank KrpcType.response txn) {
    sender_id = id;
    nodes = all_seen inet law now ns;
    node_counts = replicate (length ns) 1;
  }
  received now (peers txn id token pas) = record (blank KrpcType.response txn) {
    sender_id = id;
    token = token;
    values = compact_all inet law pas;
  }
  received now (nodes_gp txn id token ns) = record (blank KrpcType.response txn) {
    sender_id = id;
    nodes = all_seen inet law now ns;
    node_counts = replicate (length ns) 1;
    token = token;
  }
  received now (error txn code msg) = record (blank KrpcType.error txn) {
    error_code = code;
    error_msg = msg;
  }

  strings-AreItems : (ss : List Bytes) → AreItems (strings inet ss)
  strings-AreItems [] = tt
  strings-AreItems (s ∷ ss) = (tt, strings-AreItems ss)

  IsInt32-IsInt64 : (code : ℤ) → IsInt32 code → IsInt64 code
  IsInt32-IsInt64 (pos n) h = omega arith
  IsInt32-IsInt64 (negsuc n) h = omega arith

  implied-IsInt64 : (b : Bool) → IsInt64 (pos (if b then 1 else 0))
  implied-IsInt64 true = omega arith
  implied-IsInt64 false = omega arith

  root_of-IsValue : (m : Outgoing) → IsSendable m → IsValue (dictionary (root_of inet law m))
  unfolding bytes_lt
  root_of-IsValue (announce_peer txn id hash port token implied) h =
      ground (arith, implied-IsInt64 implied, h.2)
  root_of-IsValue (peers txn id token pas) h =
      ground (arith, strings-AreItems (compact_all inet law pas))
  root_of-IsValue (error txn code msg) h = ground (arith, IsInt32-IsInt64 code h)
  root_of-IsValue _ h = ground arith

  from_string_id : (id : NodeId) → length id ≡ 20 → from_string id ≡ id
  unfolding from_string
  from_string_id id h = ground arith

  try_from_raw_hash : (h : InfoHash) → length h ≡ 20 → try_from_raw h ≡ some h
  unfolding try_from_raw
  try_from_raw_hash h l = ground arith

  to_int_lem : (code : ℤ) → IsInt32 code → to_int code ≡ code
  unfolding to_int
  to_int_lem (pos n) h = ground arith
  to_int_lem (negsuc n) h = ground arith

  to_u16_lem : (port : ℕ) → port < u16_mod → to_u16 (pos port) ≡ port
  unfolding to_u16
  to_u16_lem port h = ground arith

  peers_of-strings :
      (pas : List PeerAddress)
      → All (IsPeer inet law) pas
      → peers_of (strings inet (compact_all inet law pas)) ≡ compact_all inet law pas
  unfolding peers_of
  peers_of-strings [] h = refl
  peers_of-strings (pa ∷ pas) h =
      let six : (length (peer_to_compact inet pa.ip pa.port) == 6) ≡ true =
        ground (arith, length-peer_to_compact inet law pa h.0) in
      rw six (ap (peer_to_compact inet pa.ip pa.port ∷◌) (peers_of-strings pas h.1))

  parse_nodes-nil : (now : ℕ) → parse_nodes inet now [] ≡ ([], [])
  unfolding parse_nodes add_nodes chunks
  parse_nodes-nil now = refl

  read_nodes-nodes_to_compact :
      (now : ℕ) (ns : List RoutingEntry)
      → All (IsNode inet law) ns
      → AreDistinct inet law (keys inet law ns)
      → read_nodes inet now (nodes_to_compact inet ns)
        ≡ (all_seen inet law now ns, replicate (length ns) 1)
  read_nodes-nodes_to_compact now ns h d =
      let found = parse_nodes-nodes_to_compact inet law now ns h d in
      elim (List-cases (nodes_to_compact inet ns)) [
        | inl empty ↦
            ap (read_nodes inet now) empty
            ∙ sym (parse_nodes-nil now)
            ∙ ap (parse_nodes inet now) (sym empty)
            ∙ found
        | inr (b, bytes, some_bytes) ↦
            ap (read_nodes inet now) some_bytes ∙ ap (parse_nodes inet now) (sym some_bytes) ∙ found
      ]

  parse_root-root_of :
      (now : ℕ) (m : Outgoing)
      → IsSendable m
      → parse_root inet now (root_of inet law m) ≡ some (received now m)
  unfolding parse_root bytes_eq find parse_query parse_response parse_peers
  parse_root-root_of now (ping txn id) h = ground (arith, from_string_id id h)
  parse_root-root_of now (response txn id) h = ground (arith, from_string_id id h)
  parse_root-root_of now (find_node txn id target) h =
      ground (arith, from_string_id id h.0, from_string_id target h.1)
  parse_root-root_of now (get_peers txn id hash) h =
      ground (arith, from_string_id id h.0, try_from_raw_hash hash h.1)
  parse_root-root_of now (announce_peer txn id hash port token true) h =
      ground (arith, from_string_id id h.0, try_from_raw_hash hash h.1, to_u16_lem port h.2)
  parse_root-root_of now (announce_peer txn id hash port token false) h =
      ground (arith, from_string_id id h.0, try_from_raw_hash hash h.1, to_u16_lem port h.2)
  parse_root-root_of now (nodes txn id ns) h =
      ground (arith, from_string_id id h.0, read_nodes-nodes_to_compact now ns h.1 h.2)
  parse_root-root_of now (peers txn id token pas) h =
      ground (arith, from_string_id id h.0, peers_of-strings pas h.1)
  parse_root-root_of now (nodes_gp txn id token ns) h =
      ground (arith, from_string_id id h.0, read_nodes-nodes_to_compact now ns h.1 h.2)
  parse_root-root_of now (error txn code msg) h = ground (arith, to_int_lem code h)

  -- Every message that a builder makes, shorter than 2^64 bytes, is read as what was put into it:
  -- nodes as seen now, once each, and peers by their compact form.
  pub parse_krpc-send :
      (now : ℕ) (m : Outgoing)
      → IsSendable m
      → length (send inet m) < u64_mod
      → parse_krpc inet now (send inet m) ≡ some (received now m)
  unfolding parse_krpc
  parse_krpc-send now m h l =
      let e = send-eq-encode inet law m in
      let small : length (encode (dictionary (root_of inet law m))) < u64_mod = rw (← e) l in
      rw (e, parse_value-encode (dictionary (root_of inet law m)) (root_of-IsValue m h) small)
        (parse_root-root_of now m h)
