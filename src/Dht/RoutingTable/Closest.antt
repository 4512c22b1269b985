-- ===== src/Dht/RoutingTable/Closest.antt =====
-- src/dht/routing_table.cpp, `closest`: the nodes that a lookup is answered with.
use bittorent_client.Common.{
  ℕ, ◌≡◌, ap, sym, ◌∙◌, false, List, ◌++◌, length, length-take, drop, All,
}
use Prim.Native.Nat.{min}
use mathlib.Core.Path.{subst}
use mathlib.Core.List.{Perm}
use bittorent_client.Common.ByteStrings.{bytes_lt_asymm, bytes_le_trans}
use bittorent_client.Common.Sort.{
  sort, IsSorted, sort-perm, sort-IsSorted, length-sort, take-IsSorted, drop-not_less,
  take-append-drop,
}
use bittorent_client.Dht.NodeId.{NodeId, xor}
use bittorent_client.Dht.RoutingTable.{RoutingTable, RoutingEntry, all_unlocked, closer, closest}

module _ (target : NodeId) where
  sorted : (es : List RoutingEntry) → IsSorted (closer target) (sort (closer target) es)
  sorted =
      sort-IsSorted (closer target) (λ a b. bytes_lt_asymm (xor target a.id) (xor target b.id))
        (λ a b c. bytes_le_trans (xor target a.id) (xor target b.id) (xor target c.id))

  -- The entries of the table fall into the returned ones and the others: the returned ones come by
  -- ascending distance, none of the others is nearer than one of them, and there are `k` of them
  -- unless the table has fewer.
  pub closest_lem :
      (k : ℕ) (t : RoutingTable)
      → (others : List RoutingEntry) × Perm (closest target k t ++ others) (all_unlocked t.buckets)
        × IsSorted (closer target) (closest target k t)
        × All (λ o. All (λ e. closer target o e ≡ false) (closest target k t)) others
        × (length (closest target k t) ≡ min k (length (all_unlocked t.buckets)))
  unfolding closest
  closest_lem k t =
      let es = sort (closer target) (all_unlocked t.buckets) in
      (
        drop k es,
        subst (λ xs. Perm xs (all_unlocked t.buckets)) (sym (take-append-drop k es))
            (sort-perm (closer target) (all_unlocked t.buckets)),
        take-IsSorted (closer target) k es (sorted (all_unlocked t.buckets)),
        drop-not_less (closer target) k es (sorted (all_unlocked t.buckets)),
        length-take k es ∙ ap (min k) (length-sort (closer target) (all_unlocked t.buckets)),
      )
