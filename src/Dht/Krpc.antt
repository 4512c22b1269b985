-- ===== src/Dht/Krpc.antt =====
-- inc/dht/krpc.h, src/dht/krpc.cpp: the messages of the DHT as bencoded dictionaries. The summaries
-- that are logged are not modelled.
pub mod Messages
pub mod RoundTrip
use bittorent_client.Common.{
  ℕ, zero, suc, ◌+◌, ◌-◌, ◌^◌, ◌%◌, Bytes, Bool, true, false, not, ◌&&◌, Option, none, some, List,
  [], ◌∷◌, Result, ok, err, ltb, ◌==◌, if◌then◌else◌, length, u16_mod, u32_mod,
}
use bittorent_client.Common.Int.{ℤ, pos, negsuc}
use bittorent_client.Common.Text.{text}
use bittorent_client.Common.ByteStrings.{bytes_eq}
use bittorent_client.Bencode.Types.{
  BType, BList, BDict, integer, string, list, dictionary, nil, item, end, entry, find,
}
use bittorent_client.Bencode.Encoder
use bittorent_client.Bencode.Parser.{parse_value}
use bittorent_client.InfoHash.{InfoHash, try_from_raw}
use bittorent_client.PeerAddress.{PeerAddress}
use bittorent_client.PeerAddress.Compact.{Inet, peer_to_compact}
use bittorent_client.Dht.NodeId.{NodeId, from_string}
use bittorent_client.Dht.RoutingTable.{RoutingEntry}
use bittorent_client.Dht.CompactNode.{nodes_to_compact, parse_nodes}

pub data KrpcType : Type 0 where
  query response error : KrpcType

pub data KrpcQuery : Type 0 where
  ping find_node get_peers announce_peer : KrpcQuery

pub record KrpcMessage : Type 0 where
  pub kind : KrpcType
  pub txn : Bytes
  pub query_type : Option KrpcQuery
  pub sender_id : NodeId
  pub target : NodeId
  pub info_hash : Option InfoHash
  pub peer_port : ℕ
  pub token : Bytes
  pub implied_port : Bool
  pub nodes : List RoutingEntry
  pub node_counts : List ℕ
  pub values : List Bytes
  pub error_code : ℤ
  pub error_msg : Bytes

abbrev pub zero_id : NodeId
zero_id = from_string []

-- what the fields hold before the parser sets them
abbrev pub blank : KrpcType → Bytes → KrpcMessage
blank kind txn = record {
  kind = kind;
  txn = txn;
  query_type = none;
  sender_id = zero_id;
  target = zero_id;
  info_hash = none;
  peer_port = 0;
  token = [];
  implied_port = false;
  nodes = [];
  node_counts = [];
  values = [];
  error_code = pos 0;
  error_msg = [];
}

-- The message of a query: its arguments, its name and the transaction.
abbrev pub query_message : List (Bytes × Bytes) → Bytes → Bytes → Bytes
query_message args q txn = Encoder.dict (
    (text "a", Encoder.dict args)
    ∷ (text "q", Encoder.string q)
    ∷ (text "t", Encoder.string txn)
    ∷ (text "y", Encoder.string (text "q"))
    ∷ [])

abbrev pub response_message : List (Bytes × Bytes) → Bytes → Bytes
response_message r txn = Encoder.dict (
    (text "r", Encoder.dict r)
    ∷ (text "t", Encoder.string txn)
    ∷ (text "y", Encoder.string (text "r"))
    ∷ [])

unfoldable pub make_ping : Bytes → NodeId → Bytes
make_ping txn self_id = query_message ((text "id", Encoder.string self_id) ∷ []) (text "ping") txn

unfoldable pub make_find_node : Bytes → NodeId → NodeId → Bytes
make_find_node txn self_id target =
    query_message
      ((text "id", Encoder.string self_id) ∷ (text "target", Encoder.string target) ∷ [])
      (text "find_node") txn

unfoldable pub make_get_peers : Bytes → NodeId → InfoHash → Bytes
make_get_peers txn self_id info_hash =
    query_message
      ((text "id", Encoder.string self_id) ∷ (text "info_hash", Encoder.string info_hash) ∷ [])
      (text "get_peers") txn

unfoldable pub make_announce_peer : Bytes → NodeId → InfoHash → ℕ → Bytes → Bool → Bytes
make_announce_peer txn self_id info_hash port token implied_port =
    query_message
      ((text "id", Encoder.string self_id)
        ∷ (text "implied_port", Encoder.integer (pos (if implied_port then 1 else 0)))
        ∷ (text "info_hash", Encoder.string info_hash)
        ∷ (text "port", Encoder.integer (pos port))
        ∷ (text "token", Encoder.string token)
        ∷ [])
      (text "announce_peer") txn

unfoldable pub make_response : Bytes → NodeId → Bytes
make_response txn self_id = response_message ((text "id", Encoder.string self_id) ∷ []) txn

unfoldable pub make_error : Bytes → ℤ → Bytes → Bytes
make_error txn code msg = Encoder.dict (
    (text "e", Encoder.list (Encoder.integer code ∷ Encoder.string msg ∷ []))
    ∷ (text "t", Encoder.string txn)
    ∷ (text "y", Encoder.string (text "e"))
    ∷ [])

-- the casts to `uint16_t` and to `int`
unfoldable pub to_u16 : ℤ → ℕ
to_u16 (pos n) = n % u16_mod
to_u16 (negsuc n) = (u16_mod - suc n % u16_mod) % u16_mod

abbrev pub from_u32 : ℕ → ℤ
from_u32 w = if ltb w (2 ^ 31) then pos w else negsuc (u32_mod - w - 1)

unfoldable pub to_int : ℤ → ℤ
to_int (pos n) = from_u32 (n % u32_mod)
to_int (negsuc n) = from_u32 ((u32_mod - suc n % u32_mod) % u32_mod)

-- `bstring`, `binteger`, `bdict` and `blist`, by what `find` gives
abbrev pub string_or_empty : Option BType → Bytes
string_or_empty (some (string s)) = s
string_or_empty _ = []

unfoldable pub bstring : BDict → Bytes → Bytes
bstring d key = string_or_empty (find key d)

abbrev pub integer_or : ℤ → Option BType → ℤ
integer_or def (some (integer i)) = i
integer_or def _ = def

unfoldable pub binteger : BDict → Bytes → ℤ
binteger d key = integer_or (pos 0) (find key d)

abbrev pub dictionary? : Option BType → Option BDict
dictionary? (some (dictionary d)) = some d
dictionary? _ = none

unfoldable pub bdict : BDict → Bytes → Option BDict
bdict d key = dictionary? (find key d)

abbrev pub list? : Option BType → Option BList
list? (some (list l)) = some l
list? _ = none

unfoldable pub blist : BDict → Bytes → Option BList
blist d key = list? (find key d)

unfoldable pub peers_of : BList → List Bytes
peers_of nil = []
peers_of (item (string s) l) = let rest = peers_of l in if length s == 6 then s ∷ rest else rest
peers_of (item _ l) = peers_of l

unfoldable pub parse_peers : Option BList → List Bytes
unfolding peers_of
parse_peers none = []
parse_peers (some l) = peers_of l

-- A query by its name; the message has its sender.
abbrev pub with_info_hash : Option InfoHash → (InfoHash → Option KrpcMessage) → Option KrpcMessage
with_info_hash none next = none
with_info_hash (some h) next = next h

unfoldable pub parse_query : KrpcMessage → Bytes → BDict → Option KrpcMessage
unfolding bstring binteger to_u16 from_string try_from_raw
parse_query msg q a =
    if bytes_eq q (text "ping")
    then some (record msg { query_type = some ping })
    else if bytes_eq q (text "find_node")
    then some (record msg {
      query_type = some find_node;
      target = from_string (bstring a (text "target"));
    })
    else if bytes_eq q (text "get_peers")
    then with_info_hash (try_from_raw (bstring a (text "info_hash")))
        (λ h. some (record msg { query_type = some get_peers; info_hash = some h }))
    else if bytes_eq q (text "announce_peer")
    then with_info_hash (try_from_raw (bstring a (text "info_hash"))) (λ h. some (record msg {
      query_type = some announce_peer;
      info_hash = some h;
      token = bstring a (text "token");
      peer_port = to_u16 (binteger a (text "port"));
      implied_port = elim (binteger a (text "implied_port")) [
        | pos n ↦ not (n == 0)
        | negsuc _ ↦ true
      ];
    }))
    else none

-- `error_code` and `error_msg`, from a list of two elements or more
abbrev pub read_error : Option BList → KrpcMessage → KrpcMessage
read_error (some (item code (item m _))) msg = record msg {
  error_code = elim code [ integer i ↦ to_int i | _ ↦ msg.error_code ];
  error_msg = elim m [ string s ↦ s | _ ↦ msg.error_msg ];
}
read_error _ msg = msg

module _ (inet : Inet) where
  unfoldable pub make_nodes_response : Bytes → NodeId → List RoutingEntry → Bytes
  make_nodes_response txn self_id nodes =
      response_message
        ((text "id", Encoder.string self_id)
          ∷ (text "nodes", Encoder.string (nodes_to_compact inet nodes))
          ∷ [])
        txn

  unfoldable pub encoded : List PeerAddress → List Bytes
  encoded [] = []
  encoded (p ∷ pas) = Encoder.string (peer_to_compact inet p.ip p.port) ∷ encoded pas

  unfoldable pub make_peers_response : Bytes → NodeId → Bytes → List PeerAddress → Bytes
  make_peers_response txn self_id token pas =
      response_message
        ((text "id", Encoder.string self_id)
          ∷ (text "token", Encoder.string token)
          ∷ (text "values", Encoder.list (encoded pas))
          ∷ [])
        txn

  unfoldable pub make_nodes_response_gp : Bytes → NodeId → Bytes → List RoutingEntry → Bytes
  make_nodes_response_gp txn self_id token nodes =
      response_message
        ((text "id", Encoder.string self_id)
          ∷ (text "nodes", Encoder.string (nodes_to_compact inet nodes))
          ∷ (text "token", Encoder.string token)
          ∷ [])
        txn

  abbrev pub read_nodes : ℕ → Bytes → List RoutingEntry × List ℕ
  read_nodes now [] = ([], [])
  read_nodes now (b ∷ bytes) = parse_nodes inet now (b ∷ bytes)

  unfoldable pub parse_response : ℕ → KrpcMessage → BDict → KrpcMessage
  unfolding bstring blist from_string
  parse_response now msg r =
      let found = read_nodes now (bstring r (text "nodes")) in
      record msg {
        sender_id = from_string (bstring r (text "id"));
        nodes = found.0;
        node_counts = found.1;
        token = bstring r (text "token");
        values = parse_peers (blist r (text "values"));
      }

  abbrev pub read_query : KrpcMessage → Bytes → Option BDict → Option KrpcMessage
  read_query msg q none = none
  read_query msg q (some a) =
      parse_query (record msg { sender_id = from_string (bstring a (text "id")) }) q a

  abbrev pub read_response : ℕ → KrpcMessage → Option BDict → Option KrpcMessage
  read_response now msg none = none
  read_response now msg (some r) = some (parse_response now msg r)

  unfoldable pub parse_root : ℕ → BDict → Option KrpcMessage
  unfolding bstring bdict blist
  parse_root now root =
      let y = bstring root (text "y") in
      let txn = bstring root (text "t") in
      if bytes_eq y (text "q")
      then read_query (blank query txn) (bstring root (text "q")) (bdict root (text "a"))
      else if bytes_eq y (text "r")
      then read_response now (blank response txn) (bdict root (text "r"))
      else if bytes_eq y (text "e")
      then some (read_error (blist root (text "e")) (blank error txn))
      else none

  abbrev pub read_root {ℓ} : {A : Type ℓ} → ℕ → Result (BType × A) → Option KrpcMessage
  read_root now (ok (dictionary root, _)) = parse_root now root
  read_root now _ = none

  -- Any exception of the parser gives no message.
  unfoldable pub parse_krpc : ℕ → Bytes → Option KrpcMessage
  unfolding parse_root
  parse_krpc now bytes = read_root now (parse_value bytes)
