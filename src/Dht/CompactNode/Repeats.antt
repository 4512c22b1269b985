-- ===== src/Dht/CompactNode/Repeats.antt =====
-- src/dht/krpc.cpp: the counts of `parse_nodes`, whatever was received.
use bittorent_client.Common.{
  ℕ, zero, suc, ◌+◌, ◌<◌, ◌≡◌, refl, Bytes, some, List, [], ◌∷◌, ◌++◌, arith, length, get_or, set,
  All, length-append, length-set, inl, inr, Option-cases,
}
use mathlib.Core.List.{lookup}
use mathlib.Core.Path.{subst, sym}
use bittorent_client.Common.ByteStrings.{bytes_dec}
use bittorent_client.Common.Chunks.{chunks}
use bittorent_client.PeerAddress.Compact.{Inet}
use bittorent_client.Dht.CompactNode.{
  Nodes, no_nodes, from_compact, place_node, add_node, add_nodes, parse_nodes,
}

abbrev pub sum : List ℕ → ℕ
sum [] = 0
sum (c ∷ cs) = c + sum cs

sum-append : (cs : List ℕ) (c : ℕ) → sum (cs ++ (c ∷ [])) ≡ sum cs + c
sum-append [] c = omega arith
sum-append (d ∷ cs) c = omega (arith, sum-append cs c)

sum-set : (cs : List ℕ) (i : ℕ) → i < length cs → sum (set cs i (get_or cs i 0 + 1)) ≡ sum cs + 1
sum-set [] i h = absurd (omega arith)
sum-set (c ∷ cs) zero h = omega arith
sum-set (c ∷ cs) (suc i) h = omega (arith, sum-set cs i (omega arith))

-- There is a count for each node, the index points to counts, and the counts sum up to `n`.
record IsTally (s : Nodes) (n : ℕ) : Type 0 where
  pub paired : length s.nodes ≡ length s.counts
  pub inside : All (λ e. e.1 < length s.counts) s.index
  pub total : sum s.counts ≡ n

inside_lookup :
    (index : List (Bytes × ℕ)) (n : ℕ) (k : Bytes) (i : ℕ)
    → All (λ e. e.1 < n) index
    → lookup bytes_dec k index ≡ some i
    → i < n
unfolding lookup
inside_lookup [] n k i h e = cc
inside_lookup (x ∷ index) n k i h e = ground (arith, h.0, inside_lookup index n k i h.1)

wider :
    (index : List (Bytes × ℕ)) (m n : ℕ)
    → m < suc n
    → All (λ e. e.1 < m) index
    → All (λ e. e.1 < n) index
wider [] m n l h = tt
wider (x ∷ index) m n l h = (omega (arith, h.0), wider index m n l h.1)

module _ (inet : Inet) (now : ℕ) where
  add_node-IsTally :
      (key : Bytes) (s : Nodes) (n : ℕ) → IsTally s n → IsTally (add_node inet now key s) (n + 1)
  unfolding add_node
  add_node-IsTally key s n t = elim (Option-cases (lookup bytes_dec key s.index)) [
    | inl new ↦
        let e = from_compact inet now key 0 in
        subst (λ o. IsTally (place_node inet now key s o) (n + 1)) (sym new)
          (record {
            paired =
                omega (
                  arith,
                  t.paired,
                  length-append s.nodes (e ∷ []),
                  length-append s.counts (1 ∷ []),
                );
            inside = (
              omega (arith, t.paired, length-append s.counts (1 ∷ [])),
              wider s.index (length s.counts) (length (s.counts ++ (1 ∷ [])))
                  (omega (arith, length-append s.counts (1 ∷ []))) t.inside,
            );
            total = omega (arith, t.total, sum-append s.counts 1);
          })
    | inr (i, known) ↦
        let l = inside_lookup s.index (length s.counts) key i t.inside known in
        let counts = set s.counts i (get_or s.counts i 0 + 1) in
        let same = length-set s.counts i (get_or s.counts i 0 + 1) in
        subst (λ o. IsTally (place_node inet now key s o) (n + 1)) (sym known)
          (record {
            paired = omega (arith, t.paired, same);
            inside = subst (λ m. All (λ e. e.1 < m) s.index) (sym same) t.inside;
            total = omega (arith, t.total, sum-set s.counts i l);
          })
  ]

  add_nodes-IsTally :
      (keys : List Bytes) (s : Nodes) (n : ℕ)
      → IsTally s n
      → IsTally (add_nodes inet now keys s) (n + length keys)
  unfolding add_nodes
  add_nodes-IsTally [] s n t = subst (IsTally s) (omega arith) t
  add_nodes-IsTally (key ∷ keys) s n t =
      subst (IsTally (add_nodes inet now keys (add_node inet now key s))) (omega arith)
        (add_nodes-IsTally keys (add_node inet now key s) (n + 1) (add_node-IsTally key s n t))

  -- Whatever was received, each node has a count, and the counts sum up to the number of strings of
  -- 26 bytes.
  pub parse_nodes-counts :
      (bytes : Bytes)
      → (length ((parse_nodes inet now bytes).0) ≡ length ((parse_nodes inet now bytes).1))
        × (sum ((parse_nodes inet now bytes).1) ≡ length (chunks 26 bytes))
  unfolding parse_nodes
  parse_nodes-counts bytes =
      let t : IsTally (add_nodes inet now (chunks 26 bytes) no_nodes)
          (0 + length (chunks 26 bytes)) =
        add_nodes-IsTally (chunks 26 bytes) no_nodes 0
          (record { paired = refl; inside = tt; total = refl }) in
      (t.paired, omega (arith, t.total))
