-- ===== src/Tests/Table.antt =====
-- A routing table with two nodes of the last bucket but one.
use bittorent_client.Common.{
  ℕ, zero, suc, ◌<◌, ◌≡◌, ◌⊎◌, refl, IsBytes, true, false, none, List, [], ◌∷◌, ◌++◌, replicate,
  length, get_or, set, All, arith,
}
use Prim.Native.Nat.{min}
use mathlib.Core.List.{Perm}
use bittorent_client.Common.ByteStrings.{bytes_eq}
use bittorent_client.Common.Sort.{IsSorted}
use bittorent_client.Dht.NodeId.{NodeId}
use bittorent_client.Dht.RoutingTable.{
  RoutingTable, RoutingEntry, new, add, find_in_bucket, add_to_bucket, is_good, all_unlocked,
  closer, closest,
}
use bittorent_client.Dht.RoutingTable.Invariant.{IsValid, new-IsValid, add-IsValid}
use bittorent_client.Dht.RoutingTable.Replacement.{IsOldest, add_to_bucket_full}
use bittorent_client.Dht.RoutingTable.Closest.{closest_lem}

-- the identifier whose last byte is given, and which is zero otherwise
abbrev node : ℕ → NodeId
node n = replicate 19 0 ++ (n ∷ [])

abbrev entry_of : ℕ → ℕ → RoutingEntry
entry_of n last_seen = record {
  id = node n;
  pa = record { ip = b'1' ∷ []; port = 6881 };
  last_seen = last_seen;
}

abbrev one_node : RoutingTable
one_node = add 0 true (entry_of 5 0) (new (node 1))

one_node-IsValid : IsValid one_node
one_node-IsValid = add-IsValid 0 true (entry_of 5 0) (new (node 1)) (new-IsValid (node 1))

add-IsValid_example : IsValid (add 7 true (entry_of 4 7) one_node)
add-IsValid_example = add-IsValid 7 true (entry_of 4 7) one_node one_node-IsValid

padded-IsBytes : (m n : ℕ) → n < 256 → IsBytes (replicate m 0 ++ (n ∷ []))
padded-IsBytes zero n h = (h, tt)
padded-IsBytes (suc m) n h = (omega arith, padded-IsBytes m n h)

node-IsBytes : (n : ℕ) → n < 256 → IsBytes (node n)
node-IsBytes n h = padded-IsBytes 19 n h

abbrev full : List RoutingEntry
full =
    entry_of 16 3
    ∷ entry_of 17 2
    ∷ entry_of 18 9
    ∷ entry_of 19 9
    ∷ entry_of 20 9
    ∷ entry_of 21 9
    ∷ entry_of 22 9
    ∷ entry_of 23 9
    ∷ []

unknown : find_in_bucket full (node 24) ≡ none
unfolding find_in_bucket bytes_eq
unknown = refl

add_to_bucket_full_example :
    ((add_to_bucket 100 full (entry_of 24 100) ≡ full) × All (λ f. is_good 100 f ≡ true) full)
    ⊎ ((j : ℕ) × (add_to_bucket 100 full (entry_of 24 100) ≡ set full j (entry_of 24 100))
        × IsOldest (entry_of 24 100) full j
        × (is_good 100 (get_or full j (entry_of 24 100)) ≡ false))
add_to_bucket_full_example = add_to_bucket_full 100 full (entry_of 24 100) unknown (omega arith)

closest_lem_example :
    (others : List RoutingEntry) × Perm
      (closest (node 4) 8 one_node ++ others)
      (all_unlocked one_node.buckets)
    × IsSorted (closer (node 4)) (closest (node 4) 8 one_node)
    × All (λ o. All (λ e. closer (node 4) o e ≡ false) (closest (node 4) 8 one_node)) others
    × (length (closest (node 4) 8 one_node) ≡ min 8 (length (all_unlocked one_node.buckets)))
closest_lem_example = closest_lem (node 4) 8 one_node
