-- ===== src/Tests/Client.antt =====
-- A node that knows one other, and what it exchanges with it.
use bittorent_client.Common.{
  ℕ, ◌<◌, ◌≡◌, ◌⊎◌, refl, ap, sym, Bytes, true, false, Option, none, some, [], ◌∷◌, replicate,
  length, arith, u64_mod,
}
use mathlib.Core.List.{lookup}
use bittorent_client.Common.ByteStrings.{bytes_eq, bytes_dec}
use bittorent_client.Common.Decimal.{to_string, to_string_ℤ}
use bittorent_client.Common.Sort.{sort}
use bittorent_client.Bencode.Encoder
use bittorent_client.InfoHash.{InfoHash}
use bittorent_client.PeerAddress.{PeerAddress}
use bittorent_client.PeerAddress.Compact.{Inet, IsInet}
use bittorent_client.PeerAddress.Compact.RoundTrip.{IsPeer}
use bittorent_client.Dht.NodeId.{NodeId}
use bittorent_client.Dht.RoutingTable.{RoutingTable, RoutingEntry, new, add, closest, k_nodes}
use bittorent_client.Dht.RoutingTable.Invariant.{IsValid, new-IsValid}
use bittorent_client.Dht.CompactNode.RoundTrip.{IsNode}
use bittorent_client.Dht.PeerStore.{new_store}
use bittorent_client.Dht.Token.{issue_token, rotate_if_needed, default_rotation_interval}
use bittorent_client.Dht.Krpc.{
  KrpcMessage, make_announce_peer, query, response, announce_peer, get_peers, parse_krpc, blank,
}
use bittorent_client.Dht.Krpc.Messages.{Outgoing, send}
use bittorent_client.Dht.Krpc.RoundTrip.{received, parse_krpc-send}
use bittorent_client.Dht.LookupManager.{LookupManager}
use bittorent_client.Dht.LookupManager.Steps.{start_or_advance, on_response}
use bittorent_client.Dht.LookupManager.Bounds.{InFlight}
use bittorent_client.Dht.LookupManager.Reach.{starts, fresh, after, reachable-InFlight}
use bittorent_client.Dht.LookupManager.Busy.{IsBusy, is_empty}
use bittorent_client.Dht.LookupManager.Start.{start_or_advance-IsBusy}
use bittorent_client.Dht.LookupManager.Once.{on_response-again}
use bittorent_client.Dht.DhtClient.{Env, DhtClient, send_krpc}
use bittorent_client.Dht.DhtClient.Handlers.{
  handle_message, on_query, on_ping, on_get_peers, on_announce_peer, answer_get_peers,
}
use bittorent_client.Dht.DhtClient.Table.{handle_message-IsValid}
use bittorent_client.Dht.DhtClient.Silence.{IsSilent, handle_message-IsSilent}
use bittorent_client.Dht.DhtClient.Peers.{IsProof, rotated_secrets, on_query-told}
use bittorent_client.Dht.DhtClient.Exchange.{
  at, IsAnswered, IsAccepted, on_announce_peer-on_get_peers,
}

-- The text of an address is its four bytes.
abbrev of_four : Bytes → Option Bytes
of_four (a ∷ b ∷ c ∷ d ∷ []) = some (a ∷ b ∷ c ∷ d ∷ [])
of_four _ = none

abbrev pub inet : Inet
inet = record { aton = of_four; ntoa = λ b. b }

of_four-length : (s b : Bytes) → of_four s ≡ some b → length b ≡ 4
of_four-length [] b h = cc
of_four-length (x ∷ []) b h = cc
of_four-length (x ∷ y ∷ []) b h = cc
of_four-length (x ∷ y ∷ z ∷ []) b h = cc
of_four-length (x ∷ y ∷ z ∷ w ∷ []) b h = ground (arith, h)
of_four-length (x ∷ y ∷ z ∷ w ∷ v ∷ s) b h = cc

of_four-eq : (b : Bytes) → length b ≡ 4 → of_four b ≡ some b
of_four-eq [] h = absurd (omega arith)
of_four-eq (x ∷ []) h = absurd (omega arith)
of_four-eq (x ∷ y ∷ []) h = absurd (omega arith)
of_four-eq (x ∷ y ∷ z ∷ []) h = absurd (omega arith)
of_four-eq (x ∷ y ∷ z ∷ w ∷ []) h = refl
of_four-eq (x ∷ y ∷ z ∷ w ∷ v ∷ s) h = absurd (omega arith)

pub inet-IsInet : IsInet inet
inet-IsInet = record { aton-length = of_four-length; aton-ntoa = of_four-eq }

abbrev pub host : ℕ → PeerAddress
host n = record { ip = 10 ∷ 0 ∷ 0 ∷ n ∷ []; port = 6881 }

pub host-IsPeer : (n : ℕ) → IsPeer inet inet-IsInet (host n)
host-IsPeer n = (10 ∷ 0 ∷ 0 ∷ n ∷ [], refl, refl, omega arith)

abbrev node : ℕ → NodeId
node n = n ∷ replicate 19 0

abbrev contact : ℕ → RoutingEntry
contact n = record { id = node n; pa = host n; last_seen = 7 }

contact-IsNode : (n : ℕ) → IsNode inet inet-IsInet (contact n)
contact-IsNode n = (refl, host-IsPeer n)

abbrev announcement : Outgoing
announcement = Outgoing.announce_peer (b'a' ∷ b'b' ∷ []) (node 1) (node 2) 6881 (b't' ∷ []) false

short : length (send inet announcement) < u64_mod
unfolding make_announce_peer Encoder.dict Encoder.string Encoder.integer to_string to_string_ℤ
short = omega arith

parse_krpc-send_example :
    parse_krpc inet 9 (send inet announcement) ≡ some (received inet inet-IsInet 9 announcement)
parse_krpc-send_example =
    parse_krpc-send inet inet-IsInet 9 announcement (refl, refl, omega arith) short

abbrev txn_of : ℕ → Bytes
txn_of n = n ∷ []

abbrev table : RoutingTable
table = add 7 true (contact 2) (new (node 1))

abbrev no_lookups : LookupManager
no_lookups = record { self_id = node 1; pending_lookups = []; kademlia_lookups = []; draws = 0 }

reachable-InFlight_example : InFlight (start_or_advance 7 txn_of table (node 3) no_lookups).1
reachable-InFlight_example =
    reachable-InFlight {self_id = node 1} (after fresh (starts 7 txn_of table (node 3)))

known : is_empty (closest (node 3) k_nodes table) ≡ false
unfolding closest add sort bytes_eq
known = refl

start_or_advance-IsBusy_example :
    IsBusy (node 3) (start_or_advance 7 txn_of table (node 3) no_lookups).1
start_or_advance-IsBusy_example =
    start_or_advance-IsBusy 7 txn_of table (node 3) no_lookups tt known

abbrev waiting : LookupManager
waiting = record no_lookups { pending_lookups = (0 ∷ [], (node 3, 7)) ∷ [] }

abbrev reply : KrpcMessage
reply = blank response (0 ∷ [])

unbound : lookup {B = InfoHash × ℕ} bytes_dec (0 ∷ []) [] ≡ none
unfolding lookup
unbound = refl

on_response-again_example :
    on_response 8 txn_of table reply (on_response 8 txn_of table reply waiting).1 ≡ (
      record { txn_known = false; info_hash = none; outbound = []; lookup_completed = false },
      (on_response 8 txn_of table reply waiting).1,
    )
on_response-again_example = on_response-again 8 txn_of table reply reply waiting (unbound, tt) refl

abbrev env : Env
env = record {
  inet = inet;
  sha1 = λ b. b;
  ip_address_bytes = λ ip. ip;
  random_txn = txn_of;
  random_secret = some (5 ∷ []);
  now = 7;
}

abbrev client : DhtClient
client = record {
  self_id = node 1;
  running = true;
  socket_open = true;
  routing_table = new (node 1);
  lookup_manager = no_lookups;
  peer_store = new_store;
  token_rotator = record {
    rotation_interval = default_rotation_interval;
    current_secret = 4 ∷ [];
    prev_secret = [];
    last_rotation = 0;
    prev_secret_expires = 0;
  };
  announce_coordinator = record { registered = []; received_tokens = [] };
  has_callback = true;
  last_lookup_tick = 0;
  bootstrap_complete = false;
  bootstrap_skipped = false;
  bootstrap_start_time = none;
  bootstrap_latency = none;
  sent = [];
  told = [];
}

-- the query of a node, for a torrent
abbrev asking : KrpcMessage
asking = record (blank query (b'q' ∷ [])) {
  query_type = some get_peers;
  sender_id = node 2;
  info_hash = some (node 3);
}

handle_message-IsValid_example : IsValid (handle_message env asking (host 2) client).1.routing_table
handle_message-IsValid_example =
    handle_message-IsValid env asking (host 2) client (new-IsValid (node 1))

abbrev closed : DhtClient
closed = record client { socket_open = false }

handle_message-IsSilent_example : IsSilent [] (handle_message env asking (host 2) closed).1
handle_message-IsSilent_example = handle_message-IsSilent env asking (host 2) closed refl

on_query-told_example :
    ((on_query env (some get_peers) asking (host 2) client).1.told ≡ [])
    ⊎ ((some get_peers ≡ some announce_peer)
        × IsProof env asking (host 2) (rotated_secrets env client))
on_query-told_example = on_query-told env (some get_peers) asking (host 2) client

abbrev answered : DhtClient
answered = (on_get_peers (at 7 (5 ∷ []) env) asking (host 2) client).1

abbrev announcing : KrpcMessage
announcing = record asking {
  query_type = some announce_peer;
  peer_port = 51413;
  token = issue_token env.sha1 env.ip_address_bytes ((host 2).ip) answered.token_rotator;
}

-- A ping of another node comes between the two.
abbrev pinged : DhtClient
pinged = on_ping env asking (host 3) answered

same_secrets : pinged.token_rotator ≡ answered.token_rotator
unfolding on_ping send_krpc on_get_peers answer_get_peers rotate_if_needed
same_secrets = refl

still_set : pinged.has_callback ≡ true
unfolding on_ping send_krpc on_get_peers answer_get_peers rotate_if_needed
still_set = refl

still_connected : pinged.socket_open ≡ true
unfolding on_ping send_krpc on_get_peers answer_get_peers rotate_if_needed
still_connected = refl

on_announce_peer-on_get_peers_example :
    IsAnswered env asking (host 2) client announcing.token answered
    × IsAccepted announcing
        (host 2)
        (node 3)
        pinged
        (on_announce_peer (at 10 (6 ∷ []) env) announcing (host 2) pinged).1
on_announce_peer-on_get_peers_example =
    on_announce_peer-on_get_peers env 7 10 (5 ∷ []) (6 ∷ []) asking announcing (host 2) client
      pinged (node 3) (node 3) refl refl refl refl refl same_secrets still_set still_connected
      (ap (issue_token env.sha1 env.ip_address_bytes ((host 2).ip)) (sym same_secrets))
