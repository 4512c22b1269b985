-- ===== src/Dht/KademliaLookup/Selection.antt =====
-- src/dht/kademlia_lookup.cpp, `select_next_candidates`: which nodes are queried next.
use bittorent_client.Common.{
  ℕ, zero, suc, ◌≤◌, ◌≡◌, refl, sym, Bool, true, false, ◌&&◌, List, [], ◌∷◌, length, ◌++◌, ◌⊎◌, ap,
  arith, Bool-cases, inl, inr,
}
use mathlib.Core.Path.{subst}
use bittorent_client.PeerAddress.{PeerAddress, same_peer_refl}
use bittorent_client.Dht.RoutingTable.{RoutingEntry}
use bittorent_client.Dht.KademliaLookup.{
  KademliaLookup, was_queried, all_queried, select_from, select_next_candidates,
}

-- No node of a list was queried, and no two of them have the same address.
abbrev pub AreFresh : List PeerAddress → List RoutingEntry → Type 0
AreFresh queried [] = Unit {0}
AreFresh queried (n ∷ ns) = (was_queried n.pa queried ≡ false) × AreFresh (n.pa ∷ queried) ns

-- The addresses of nodes in front of those that were queried, the last one first.
abbrev pub marks : List RoutingEntry → List PeerAddress → List PeerAddress
marks [] queried = queried
marks (n ∷ ns) queried = marks ns (n.pa ∷ queried)

-- The first list is the second one with some elements left out.
pub data IsPartOf : List RoutingEntry → List RoutingEntry → Type 0 where
  none_of : IsPartOf [] []
  keep :
      (n : RoutingEntry) {xs ys : List RoutingEntry} → IsPartOf xs ys → IsPartOf (n ∷ xs) (n ∷ ys)
  skip : (n : RoutingEntry) {xs ys : List RoutingEntry} → IsPartOf xs ys → IsPartOf xs (n ∷ ys)

-- What a run of the loop has done: it has gone over the first nodes, up to the last one or until it
-- had as many as it may have.
abbrev pub Selects :
    ℕ → List PeerAddress → List RoutingEntry → List RoutingEntry × List PeerAddress → Type 0
Selects room queried nodes r =
    (length r.0 ≤ room)
    × AreFresh queried r.0
    × (r.1 ≡ marks r.0 queried)
    × ((seen : List RoutingEntry) × (rest : List RoutingEntry) × (nodes ≡ seen ++ rest)
        × IsPartOf r.0 seen
        × (all_queried r.1 seen ≡ true)
        × ((length r.0 ≡ room) ⊎ (rest ≡ [])))

marked :
    (pa q : PeerAddress) (queried : List PeerAddress)
    → was_queried pa queried ≡ true
    → was_queried pa (q ∷ queried) ≡ true
unfolding was_queried
marked pa q queried h = ground (arith, h)

itself : (pa : PeerAddress) (queried : List PeerAddress) → was_queried pa (pa ∷ queried) ≡ true
unfolding was_queried
itself pa queried = ground (arith, same_peer_refl pa)

both : {a b : Bool} → a ≡ true → b ≡ true → (a && b) ≡ true
both h k = rw (h, k) refl

marks-was_queried :
    (pa : PeerAddress) (ns : List RoutingEntry) (queried : List PeerAddress)
    → was_queried pa queried ≡ true
    → was_queried pa (marks ns queried) ≡ true
marks-was_queried pa [] queried h = h
marks-was_queried pa (n ∷ ns) queried h =
    marks-was_queried pa ns (n.pa ∷ queried) (marked pa n.pa queried h)

select_from-Selects :
    (room : ℕ) (queried : List PeerAddress) (nodes : List RoutingEntry)
    → Selects room queried nodes (select_from room queried nodes)
unfolding select_from all_queried
select_from-Selects room queried [] =
    (omega arith, tt, refl, ([], [], refl, none_of, refl, inr refl))
select_from-Selects zero queried (node ∷ nodes) =
    (omega arith, tt, refl, ([], node ∷ nodes, refl, none_of, refl, inl refl))
select_from-Selects (suc room) queried (node ∷ nodes) =
    elim (Bool-cases (was_queried node.pa queried)) [
      | inl old ↦
          let r = select_from (suc room) queried nodes in
          let (n, f, m, (seen, rest, cut, part, all, done)) =
            select_from-Selects (suc room) queried nodes in
          let e : select_from (suc room) queried (node ∷ nodes) ≡ r = rw old refl in
          let there : was_queried node.pa r.1 ≡ true =
            subst (λ q. was_queried node.pa q ≡ true) (sym m)
              (marks-was_queried node.pa r.0 queried old) in
          subst (Selects (suc room) queried (node ∷ nodes)) (sym e)
            (n, f, m, (node ∷ seen, rest, ap (◌∷◌ node) cut, skip node part, both there all, done))
      | inr fresh ↦
          let r = select_from room (node.pa ∷ queried) nodes in
          let (n, f, m, (seen, rest, cut, part, all, done)) =
            select_from-Selects room (node.pa ∷ queried) nodes in
          let e : select_from (suc room) queried (node ∷ nodes) ≡ (node ∷ r.0, r.1) =
            rw fresh refl in
          let there : was_queried node.pa r.1 ≡ true =
            subst (λ q. was_queried node.pa q ≡ true) (sym m)
              (marks-was_queried node.pa r.0 (node.pa ∷ queried) (itself node.pa queried)) in
          subst (Selects (suc room) queried (node ∷ nodes)) (sym e) (
            omega arith,
            (fresh, f),
            m,
            (
              node ∷ seen,
              rest,
              ap (◌∷◌ node) cut,
              keep node part,
              both there all,
              one_more rest r.0 room done,
            ),
          )
    ]
  where
    one_more :
        (rest xs : List RoutingEntry) (k : ℕ)
        → (length xs ≡ k) ⊎ (rest ≡ [])
        → (suc (length xs) ≡ suc k) ⊎ (rest ≡ [])
    one_more rest xs k (inl h) = inl (ap suc h)
    one_more rest xs k (inr h) = inr h

pub select_next_candidates_lem :
    (count : ℕ) (l : KademliaLookup)
    → (length (select_next_candidates count l).0 ≤ count)
      × AreFresh l.queried (select_next_candidates count l).0
      × ((select_next_candidates count l).1
          ≡ record l { queried = marks (select_next_candidates count l).0 l.queried })
      × ((seen : List RoutingEntry) × (rest : List RoutingEntry) × (l.candidates ≡ seen ++ rest)
          × IsPartOf (select_next_candidates count l).0 seen
          × (all_queried (select_next_candidates count l).1.queried seen ≡ true)
          × ((length (select_next_candidates count l).0 ≡ count) ⊎ (rest ≡ [])))
unfolding select_next_candidates
select_next_candidates_lem count l =
    let (n, f, m, d) = select_from-Selects count l.queried l.candidates in
    (n, f, ap (λ q. record l { queried = q }) m, d)
