-- ===== src/Dht/Krpc/Messages.antt =====
-- src/dht/krpc.cpp: what the builders make, as values.
use bittorent_client.Common.{ℕ, ◌^◌, ◌<◌, ◌≡◌, refl, ap, Bytes, Bool, List, [], ◌∷◌, if◌then◌else◌}
use bittorent_client.Common.Int.{ℤ, pos, negsuc}
use bittorent_client.Common.Text.{text}
use bittorent_client.Bencode.Types.{
  BList, BDict, integer, string, list, dictionary, nil, item, end, entry,
}
use bittorent_client.Bencode.Encoder
use bittorent_client.Bencode.Encoder.{encode}
use bittorent_client.InfoHash.{InfoHash}
use bittorent_client.PeerAddress.{PeerAddress}
use bittorent_client.PeerAddress.Compact.{Inet, IsInet, peer_to_compact}
use bittorent_client.PeerAddress.Compact.RoundTrip.{compact_all}
use bittorent_client.Dht.NodeId.{NodeId}
use bittorent_client.Dht.RoutingTable.{RoutingEntry}
use bittorent_client.Dht.CompactNode.{nodes_to_compact}
use bittorent_client.Dht.Krpc.{
  make_ping, make_find_node, make_get_peers, make_announce_peer, make_response, make_error,
  make_nodes_response, make_peers_response, make_nodes_response_gp, encoded,
}

-- A call of one of the builders, which all get a transaction and this node's identifier.
pub data Outgoing : Type 0 where
  ping response : Bytes → NodeId → Outgoing
  find_node : Bytes → NodeId → NodeId → Outgoing
  get_peers : Bytes → NodeId → InfoHash → Outgoing
  announce_peer : Bytes → NodeId → InfoHash → ℕ → Bytes → Bool → Outgoing
  nodes : Bytes → NodeId → List RoutingEntry → Outgoing
  peers : Bytes → NodeId → Bytes → List PeerAddress → Outgoing
  nodes_gp : Bytes → NodeId → Bytes → List RoutingEntry → Outgoing
  error : Bytes → ℤ → Bytes → Outgoing

-- an `int`
abbrev pub IsInt32 : ℤ → Type 0
IsInt32 (pos n) = n < 2 ^ 31
IsInt32 (negsuc n) = n < 2 ^ 31

module _ (inet : Inet) where
  abbrev pub send : Outgoing → Bytes
  send (ping txn id) = make_ping txn id
  send (response txn id) = make_response txn id
  send (find_node txn id target) = make_find_node txn id target
  send (get_peers txn id h) = make_get_peers txn id h
  send (announce_peer txn id h port token implied) = make_announce_peer txn id h port token implied
  send (nodes txn id ns) = make_nodes_response inet txn id ns
  send (peers txn id token pas) = make_peers_response inet txn id token pas
  send (nodes_gp txn id token ns) = make_nodes_response_gp inet txn id token ns
  send (error txn code msg) = make_error txn code msg

  abbrev pub id_entry : NodeId → BDict → BDict
  id_entry id d = entry (text "id") (string id) d

  abbrev pub query_root : Bytes → BDict → Bytes → BDict
  query_root q args txn = entry (text "a") (dictionary args) (
      entry (text "q") (string q)
        (entry (text "t") (string txn) (entry (text "y") (string (text "q")) end)))

  abbrev pub response_root : BDict → Bytes → BDict
  response_root r txn =
      entry (text "r") (dictionary r)
        (entry (text "t") (string txn) (entry (text "y") (string (text "r")) end))

  abbrev pub strings : List Bytes → BList
  strings [] = nil
  strings (s ∷ ss) = item (string s) (strings ss)

  module _ (law : IsInet inet) where
    -- the message as a value
    abbrev pub root_of : Outgoing → BDict
    root_of (ping txn id) = query_root (text "ping") (id_entry id end) txn
    root_of (response txn id) = response_root (id_entry id end) txn
    root_of (find_node txn id target) =
        query_root (text "find_node") (id_entry id (entry (text "target") (string target) end)) txn
    root_of (get_peers txn id h) =
        query_root (text "get_peers") (id_entry id (entry (text "info_hash") (string h) end)) txn
    root_of (announce_peer txn id h port token implied) =
        query_root (text "announce_peer")
          (id_entry id (
            entry (text "implied_port") (integer (pos (if implied then 1 else 0))) (
              entry (text "info_hash") (string h) (
                entry (text "port") (integer (pos port))
                  (entry (text "token") (string token) end)))))
          txn
    root_of (nodes txn id ns) =
        response_root (id_entry id (entry (text "nodes") (string (nodes_to_compact inet ns)) end))
          txn
    root_of (peers txn id token pas) =
        response_root
          (id_entry id (
            entry (text "token") (string token)
              (entry (text "values") (list (strings (compact_all inet law pas))) end)))
          txn
    root_of (nodes_gp txn id token ns) =
        response_root
          (id_entry id (
            entry (text "nodes") (string (nodes_to_compact inet ns))
              (entry (text "token") (string token) end)))
          txn
    root_of (error txn code msg) =
        entry (text "e") (list (item (integer code) (item (string msg) nil)))
          (entry (text "t") (string txn) (entry (text "y") (string (text "e")) end))

    encoded-eq :
        (pas : List PeerAddress)
        → encoded inet pas ≡ Encoder.encode_items (strings (compact_all inet law pas))
    unfolding encoded encode
    encoded-eq [] = refl
    encoded-eq (p ∷ pas) =
        ap (Encoder.string (peer_to_compact inet p.ip p.port) ∷◌) (encoded-eq pas)

    pub send-eq-encode : (m : Outgoing) → send m ≡ encode (dictionary (root_of m))
    unfolding encode make_ping make_find_node make_get_peers make_announce_peer make_response
        make_error make_nodes_response make_peers_response make_nodes_response_gp
    send-eq-encode (ping txn id) = refl
    send-eq-encode (response txn id) = refl
    send-eq-encode (find_node txn id target) = refl
    send-eq-encode (get_peers txn id h) = refl
    send-eq-encode (announce_peer txn id h port token implied) = refl
    send-eq-encode (nodes txn id ns) = refl
    send-eq-encode (peers txn id token pas) = rw (encoded-eq pas) refl
    send-eq-encode (nodes_gp txn id token ns) = refl
    send-eq-encode (error txn code msg) = refl
