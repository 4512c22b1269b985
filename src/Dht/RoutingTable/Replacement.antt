-- ===== src/Dht/RoutingTable/Replacement.antt =====
-- src/dht/routing_table.cpp, `add`: whom a full bucket gives up for a new node.
use bittorent_client.Common.{
  ℕ, suc, ◌+◌, ◌<◌, ◌≤◌, ◌≡◌, refl, ◌∙◌, true, false, none, List, [], ◌∷◌, ltb, length, get_or, set,
  All, arith, Bool-cases, ltb→lt, ◌⊎◌, inl, inr,
}
use mathlib.Core.Path.{subst, sym}
use bittorent_client.Dht.RoutingTable.{
  RoutingEntry, k_nodes, find_in_bucket, oldest_from, replace_index, is_good, node_good_timeout,
  add_full, add_to_bucket,
}

module _ (d : RoutingEntry) where
  -- when the entry at an index was seen
  abbrev seen : List RoutingEntry → ℕ → ℕ
  seen es j = (get_or es j d).last_seen

  abbrev AreSince : ℕ → List RoutingEntry → Type 0
  AreSince time es = All (λ e. time ≤ e.last_seen) es

  AreSince-le : (a b : ℕ) (es : List RoutingEntry) → a ≤ b → AreSince b es → AreSince a es
  AreSince-le a b [] l h = tt
  AreSince-le a b (e ∷ es) l h = (omega (arith, h.0), AreSince-le a b es l h.1)

  oldest_from-cases :
      (i r o : ℕ) (es : List RoutingEntry)
      → ((oldest_from i r o es ≡ r) × AreSince o es)
        ⊎ ((m : ℕ) × (oldest_from i r o es ≡ i + m)
            × (m < length es)
            × (seen es m < o)
            × AreSince (seen es m) es)
  unfolding oldest_from
  oldest_from-cases i r o [] = inl (refl, tt)
  oldest_from-cases i r o (e ∷ es) = elim (Bool-cases (ltb e.last_seen o)) [
    | inl older ↦ elim (oldest_from-cases (suc i) i e.last_seen es) [
      | inl (p, h) ↦
          rw older (inr (0, p ∙ omega arith, omega arith, ground arith, (omega arith, h)))
      | inr (m, p, l, s, h) ↦
          rw older (inr (suc m, p ∙ omega arith, omega arith, ground arith, (omega arith, h)))
    ]
    | inr newer ↦ elim (oldest_from-cases (suc i) r o es) [
      | inl (p, h) ↦ rw newer (inl (p, (ground arith, h)))
      | inr (m, p, l, s, h) ↦
          rw newer (inr (suc m, p ∙ omega arith, omega arith, s, (ground arith, h)))
    ]
  ]

  -- an entry that none was seen before
  abbrev pub IsOldest : List RoutingEntry → ℕ → Type 0
  IsOldest es j = (j < length es) × AreSince (seen es j) es

  replace_index-IsOldest :
      (e : RoutingEntry) (es : List RoutingEntry) → IsOldest (e ∷ es) (replace_index (e ∷ es))
  unfolding replace_index
  replace_index-IsOldest e es = elim (oldest_from-cases 1 0 e.last_seen es) [
    | inl (p, h) ↦ subst (IsOldest (e ∷ es)) (sym p) (omega arith, (omega arith, h))
    | inr (m, p, l, s, h) ↦ subst (IsOldest (e ∷ es)) (sym (p ∙ omega arith)) (settle m l s h)
  ]
    where
      settle :
          (m : ℕ)
          → m < length es
          → seen es m < e.last_seen
          → AreSince (seen es m) es
          → IsOldest (e ∷ es) (suc m)
      settle m l s h = (omega arith, (omega arith, h))

  are_good :
      (now time : ℕ) (es : List RoutingEntry)
      → now < time + node_good_timeout
      → AreSince time es
      → All (λ e. is_good now e ≡ true) es
  are_good now time [] h a = tt
  are_good now time (e ∷ es) h a = (ground (arith, h, a.0), are_good now time es h a.1)

add_full_lem :
    (now : ℕ) (entry e : RoutingEntry) (es : List RoutingEntry)
    → ((add_full now (e ∷ es) entry ≡ e ∷ es) × All (λ f. is_good now f ≡ true) (e ∷ es))
      ⊎ ((j : ℕ) × (add_full now (e ∷ es) entry ≡ set (e ∷ es) j entry)
          × IsOldest entry (e ∷ es) j
          × (is_good now (get_or (e ∷ es) j entry) ≡ false))
unfolding add_full
add_full_lem now entry e es =
    let j = replace_index (e ∷ es) in
    let oldest = replace_index-IsOldest entry e es in
    elim (Bool-cases (is_good now (get_or (e ∷ es) j entry))) [
      | inl good ↦ inl (
        rw good refl,
        are_good entry now (seen entry (e ∷ es) j) (e ∷ es) (ltb→lt now _ good) oldest.1,
      )
      | inr stale ↦ inr (j, rw stale refl, oldest, stale)
    ]

-- A new node that comes to a full bucket: either all of its entries are good, and the bucket stays
-- as it is, or the new entry takes the place of an entry that is not good and that none of the
-- bucket was seen before.
pub add_to_bucket_full :
    (now : ℕ) (es : List RoutingEntry) (entry : RoutingEntry)
    → find_in_bucket es entry.id ≡ none
    → k_nodes ≤ length es
    → ((add_to_bucket now es entry ≡ es) × All (λ f. is_good now f ≡ true) es)
      ⊎ ((j : ℕ) × (add_to_bucket now es entry ≡ set es j entry)
          × IsOldest entry es j
          × (is_good now (get_or es j entry) ≡ false))
unfolding add_to_bucket
add_to_bucket_full now [] entry h l = absurd (omega arith)
add_to_bucket_full now (e ∷ es) entry h l =
    let full : ltb (length (e ∷ es)) k_nodes ≡ false = ground arith in
    rw (h, full) (add_full_lem now entry e es)
