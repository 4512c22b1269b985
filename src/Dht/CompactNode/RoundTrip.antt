-- ===== src/Dht/CompactNode/RoundTrip.antt =====
-- Compact nodes that differ are read back.
use bittorent_client.Common.{
  ℕ, ◌+◌, ◌≡◌, ◌≢◌, refl, sym, ap, ◌∙◌, Bytes, true, false, none, List, [], ◌∷◌, ◌++◌, arith, ltb,
  ◌==◌, length, replicate, All, length-append, take-length-append, drop-length-append, append_assoc,
  append-nil,
}
use mathlib.Core.List.{lookup}
use bittorent_client.Common.ByteStrings.{bytes_dec}
use bittorent_client.Common.Chunks.{chunks, join, chunks-join}
use bittorent_client.PeerAddress.Compact.{Inet, IsInet, be16, be16_at, ip_bytes}
use bittorent_client.PeerAddress.Compact.RoundTrip.{IsPeer, ip_bytes-ntoa, be16_at-append}
use bittorent_client.Dht.RoutingTable.{RoutingEntry}
use bittorent_client.Dht.CompactNode.{
  Nodes, no_nodes, compact, from_compact, nodes_to_compact, place_node, add_node, add_nodes,
  parse_nodes,
}

module _ (inet : Inet) (law : IsInet inet) where
  -- An identifier of 20 bytes at an address.
  abbrev pub IsNode : RoutingEntry → Type 0
  IsNode e = (length e.id ≡ 20) × IsPeer inet law e.pa

  pub length-compact : (e : RoutingEntry) → IsNode e → length (compact inet e) ≡ 26
  unfolding compact
  length-compact e (n, (b, h, q, p)) =
      rw (q, ip_bytes-ntoa inet law b h)
        (omega (arith, length-append e.id (b ++ be16 e.pa.port), length-append b (be16 e.pa.port)))

  abbrev pub seen : ℕ → RoutingEntry → RoutingEntry
  seen now e = record e { last_seen = now }

  pub from_compact-compact :
      (now : ℕ) (e : RoutingEntry)
      → IsNode e
      → from_compact inet now (compact inet e) 0 ≡ seen now e
  unfolding compact from_compact
  from_compact-compact now e (n, (b, h, q, p)) =
      let packed : ip_bytes inet e.pa.ip ≡ b = ap (ip_bytes inet) q ∙ ip_bytes-ntoa inet law b h in
      let tail = b ++ be16 e.pa.port in
      let size : length (e.id ++ tail) ≡ 26 =
        omega (arith, length-append e.id tail, length-append b (be16 e.pa.port)) in
      let whole : ltb (length (e.id ++ tail)) (0 + 26) ≡ false = ground arith in
      let first = take-length-append e.id tail {n = 20} (omega arith) in
      let behind = drop-length-append e.id tail {n = 20} (omega arith) in
      let address = take-length-append b (be16 e.pa.port) {n = 4} (omega arith) in
      let front : e.id ++ tail ≡ (e.id ++ b) ++ be16 e.pa.port =
        sym (append_assoc e.id b (be16 e.pa.port)) in
      let port : be16_at (e.id ++ tail) 24 ≡ e.pa.port =
        ap (λ s. be16_at s 24) front
        ∙ be16_at-append (e.id ++ b) e.pa.port 24 (omega (arith, length-append e.id b)) p in
      let id : (length e.id == 20) ≡ true = ground arith in
      rw (packed, whole, first, id, behind, address)
        (λ i. record { id = e.id; pa = record { ip = (sym q) i; port = port i }; last_seen = now })

  -- What the nodes are as strings of 26 bytes.
  abbrev pub keys : List RoutingEntry → List Bytes
  keys [] = []
  keys (e ∷ es) = compact inet e ∷ keys es

  -- No compact node stands twice.
  abbrev pub AreDistinct : List Bytes → Type 0
  AreDistinct [] = Unit {0}
  AreDistinct (k ∷ ks) = All (λ j. j ≢ k) ks × AreDistinct ks

  abbrev pub all_seen : ℕ → List RoutingEntry → List RoutingEntry
  all_seen now [] = []
  all_seen now (e ∷ es) = seen now e ∷ all_seen now es

  keys-All : (es : List RoutingEntry) → All IsNode es → All (λ c. length c ≡ 26) (keys es)
  keys-All [] h = tt
  keys-All (e ∷ es) h = (length-compact e h.0, keys-All es h.1)

  nodes_to_compact-eq-join : (es : List RoutingEntry) → nodes_to_compact inet es ≡ join (keys es)
  unfolding nodes_to_compact
  nodes_to_compact-eq-join [] = refl
  nodes_to_compact-eq-join (e ∷ es) = ap (compact inet e ++◌) (nodes_to_compact-eq-join es)

  still_new :
      (k : Bytes) (i : ℕ) (index : List (Bytes × ℕ)) (ks : List Bytes)
      → All (λ j. j ≢ k) ks
      → All (λ j. lookup bytes_dec j index ≡ none) ks
      → All (λ j. lookup bytes_dec j ((k, i) ∷ index) ≡ none) ks
  unfolding lookup
  still_new k i index [] d h = tt
  still_new k i index (j ∷ ks) d h = (ground (arith, d.0, h.0), still_new k i index ks d.1 h.1)

  -- Nodes that are new, and differ from one another, are appended with one count each.
  add_nodes-keys :
      (now : ℕ) (es : List RoutingEntry) (s : Nodes)
      → All IsNode es
      → AreDistinct (keys es)
      → All (λ j. lookup bytes_dec j s.index ≡ none) (keys es)
      → ((add_nodes inet now (keys es) s).nodes ≡ s.nodes ++ all_seen now es)
        × ((add_nodes inet now (keys es) s).counts ≡ s.counts ++ replicate (length es) 1)
  unfolding add_nodes add_node
  add_nodes-keys now [] s n d h = (sym (append-nil s.nodes), sym (append-nil s.counts))
  add_nodes-keys now (e ∷ es) s n d h =
      let next : Nodes = record {
        index = (compact inet e, length s.nodes) ∷ s.index;
        nodes = s.nodes ++ (seen now e ∷ []);
        counts = s.counts ++ (1 ∷ []);
      } in
      let (ns, cs) =
        add_nodes-keys now es next n.1 d.1
          (still_new (compact inet e) (length s.nodes) s.index (keys es) d.0 h.1) in
      let placed : add_node inet now (compact inet e) s ≡ next =
        ap (place_node inet now (compact inet e) s) h.0 ∙ λ i. record {
          index = (compact inet e, length s.nodes) ∷ s.index;
          nodes = s.nodes ++ (from_compact-compact now e n.0 i ∷ []);
          counts = s.counts ++ (1 ∷ []);
        } in
      (
        ap (λ r. (add_nodes inet now (keys es) r).nodes) placed
            ∙ ns
            ∙ append_assoc s.nodes (seen now e ∷ []) (all_seen now es),
        ap (λ r. (add_nodes inet now (keys es) r).counts) placed
            ∙ cs
            ∙ append_assoc s.counts (1 ∷ []) (replicate (length es) 1),
      )

  pub nothing_known : (ks : List Bytes) → All (λ j. lookup {B = ℕ} bytes_dec j [] ≡ none) ks
  unfolding lookup
  nothing_known [] = tt
  nothing_known (k ∷ ks) = (refl, nothing_known ks)

  -- Nodes that differ in identifier or address are read back in their order, seen now, once each.
  pub parse_nodes-nodes_to_compact :
      (now : ℕ) (es : List RoutingEntry)
      → All IsNode es
      → AreDistinct (keys es)
      → parse_nodes inet now (nodes_to_compact inet es) ≡ (all_seen now es, replicate (length es) 1)
  unfolding parse_nodes
  parse_nodes-nodes_to_compact now es n d =
      let split : chunks 26 (nodes_to_compact inet es) ≡ keys es =
        ap (chunks 26) (nodes_to_compact-eq-join es ∙ sym (append-nil (join (keys es))))
        ∙ chunks-join 26 (keys es) [] (omega arith) (keys-All es n) (omega arith) in
      let (ns, cs) = add_nodes-keys now es no_nodes n d (nothing_known (keys es)) in
      rw split (λ i. (ns i, cs i))
