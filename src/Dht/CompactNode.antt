-- ===== src/Dht/CompactNode.antt =====
-- src/dht/routing_table.cpp: the compact form of a node, 20 bytes of identifier, four of IPv4 and
-- two of the port; `parse_nodes` of src/dht/krpc.cpp reads a string of them.
pub mod RoundTrip
pub mod Repeats
use bittorent_client.Common.{
  ℕ, zero, suc, ◌+◌, ◌<◌, ◌≡◌, ◌≢◌, refl, sym, ap, ◌∙◌, Bytes, Bool, true, false, not, Option, none,
  some, List, [], ◌∷◌, ◌++◌, arith, ltb, if◌then◌else◌, length, get_or, set, take, drop, replicate,
  All, length-append, take-length-append, drop-length-append, append_assoc,
}
use mathlib.Core.List.{lookup}
use bittorent_client.Common.ByteStrings.{bytes_dec}
use bittorent_client.Common.Chunks.{chunks, join, chunks-join}
use bittorent_client.PeerAddress.{PeerAddress}
use bittorent_client.PeerAddress.Compact.{Inet, IsInet, be16, be16_at, ip_bytes}
use bittorent_client.PeerAddress.Compact.RoundTrip.{IsPeer, ip_bytes-ntoa, be16_at-append}
use bittorent_client.Dht.NodeId.{NodeId, from_string}
use bittorent_client.Dht.RoutingTable.{RoutingEntry}

-- An entry that was not filled: the port is not initialised in the C++ code.
abbrev pub no_entry : RoutingEntry
no_entry = record { id = replicate 20 0; pa = record { ip = []; port = 0 }; last_seen = 0 }

-- What the loop of `parse_nodes` has found: where a string of 26 bytes stands, the nodes, and how
-- often each of them was met.
pub record Nodes : Type 0 where
  pub index : List (Bytes × ℕ)
  pub nodes : List RoutingEntry
  pub counts : List ℕ

abbrev pub no_nodes : Nodes
no_nodes = record { index = []; nodes = []; counts = [] }

module _ (inet : Inet) where
  -- `RoutingEntry::compact`
  unfoldable pub compact : RoutingEntry → Bytes
  compact e = e.id ++ (ip_bytes inet e.pa.ip ++ be16 e.pa.port)

  -- `RoutingEntry::from_compact`; `now` is `steady_clock::now()`
  unfoldable pub from_compact : ℕ → Bytes → ℕ → RoutingEntry
  unfolding from_string
  from_compact now bytes offset = if ltb (length bytes) (offset + 26) then no_entry else record {
    id = from_string (take 20 (drop offset bytes));
    pa = record {
      ip = inet.ntoa (take 4 (drop (offset + 20) bytes));
      port = be16_at bytes (offset + 24);
    };
    last_seen = now;
  }

  -- `nodes_to_compact`
  unfoldable pub nodes_to_compact : List RoutingEntry → Bytes
  unfolding compact
  nodes_to_compact [] = []
  nodes_to_compact (n ∷ nodes) = compact n ++ nodes_to_compact nodes

  abbrev pub place_node : ℕ → Bytes → Nodes → Option ℕ → Nodes
  place_node now key s (some i) = record s { counts = set s.counts i (get_or s.counts i 0 + 1) }
  place_node now key s none = record {
    index = (key, length s.nodes) ∷ s.index;
    nodes = s.nodes ++ (from_compact now key 0 ∷ []);
    counts = s.counts ++ (1 ∷ []);
  }

  unfoldable pub add_node : ℕ → Bytes → Nodes → Nodes
  add_node now key s = place_node now key s (lookup bytes_dec key s.index)

  -- the loop of `parse_nodes`
  unfoldable pub add_nodes : ℕ → List Bytes → Nodes → Nodes
  add_nodes now [] s = s
  add_nodes now (key ∷ keys) s = add_nodes now keys (add_node now key s)

  unfoldable pub parse_nodes : ℕ → Bytes → List RoutingEntry × List ℕ
  unfolding add_nodes
  parse_nodes now bytes = let s = add_nodes now (chunks 26 bytes) no_nodes in (s.nodes, s.counts)
