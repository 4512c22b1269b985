-- ===== src/PeerWire/Pieces/Selection.antt =====
-- src/peer_wire/piece_manager.cpp, `next_needed`: which piece a peer thread gets.
use bittorent_client.Common.{
  ℕ, zero, suc, ◌<◌, ◌≡◌, ◌≢◌, refl, sym, inl, inr, Bool, true, false, not, ◌&&◌, List, [], ◌∷◌,
  Option, none, some, arith, set, get_or, get_elem?, Option-cases, length,
}
use mathlib.Core.Path.{subst}
use bittorent_client.Common.Search.{find_from, find_from-some, find_from-none}
use bittorent_client.PeerWire.Pieces.{
  PieceManager, NeededPiece, skipped, claim_from, endgame_from, next_needed,
}

pub get_or-true_iff :
    (xs : List Bool) (i : ℕ)
    → (get_or xs i false ≡ true → get_elem? xs i ≡ some true)
      × (get_elem? xs i ≡ some true → get_or xs i false ≡ true)
      × (get_elem? xs i ≡ some true → i < length xs)
get_or-true_iff [] i = (λ h. cc, λ h. cc, λ h. cc)
get_or-true_iff (x ∷ xs) zero = (λ h. cc, λ h. cc, λ h. omega arith)
get_or-true_iff (x ∷ xs) (suc i) =
    let (a, b, c) = get_or-true_iff xs i in (a, b, λ h. let l = c h in omega arith)

module _ {D : Type 0} (pm : PieceManager D) (peer : List Bool) where
  -- The peer has piece `k` and we do not have it.
  abbrev pub Wanted : ℕ → Type 0
  Wanted k = (get_elem? peer k ≡ some true) × (get_elem? pm.have k ≢ some true)

  abbrev pub Claimed : ℕ → Type 0
  Claimed k = get_elem? pm.claimed k ≡ some true

  abbrev wanted : ℕ → Bool
  wanted k = not (skipped pm peer k)

  abbrev free : ℕ → Bool
  free k = not (skipped pm peer k) && not (get_or pm.claimed k false)

  claim_from-eq-find_from : (n i : ℕ) → claim_from n i pm peer ≡ find_from n i free
  unfolding claim_from find_from
  claim_from-eq-find_from zero i = refl
  claim_from-eq-find_from (suc n) i = ground (arith, claim_from-eq-find_from n (suc i))

  endgame_from-eq-find_from : (n i : ℕ) → endgame_from n i pm peer ≡ find_from n i wanted
  unfolding endgame_from find_from
  endgame_from-eq-find_from zero i = refl
  endgame_from-eq-find_from (suc n) i = ground (arith, endgame_from-eq-find_from n (suc i))

  wanted-Wanted : (k : ℕ) → wanted k ≡ true → Wanted k
  wanted-Wanted k h = ground (arith, get_or-true_iff peer k, get_or-true_iff pm.have k)

  Wanted-wanted : (k : ℕ) → Wanted k → wanted k ≡ true
  Wanted-wanted k h = ground (arith, get_or-true_iff peer k, get_or-true_iff pm.have k)

  free-Wanted : (k : ℕ) → free k ≡ true → Wanted k × (¬ Claimed k)
  free-Wanted k h =
      ground
        (arith, get_or-true_iff peer k, get_or-true_iff pm.have k, get_or-true_iff pm.claimed k)

  not_free-Claimed : (k : ℕ) → free k ≡ false → Wanted k → Claimed k
  not_free-Claimed k h w = ground (arith, Wanted-wanted k w, get_or-true_iff pm.claimed k)

  -- What a pick of piece `i` promises of the state that it leaves.
  abbrev pub PicksPiece : PieceManager D → ℕ → Bool → Type 0
  PicksPiece pm' i true =
      (pm' ≡ record pm { claimed = set pm.claimed i true })
      × (i < pm.num_pieces)
      × Wanted i
      × (¬ Claimed i)
      × ((k : ℕ) → k < i → Wanted k → Claimed k)
  PicksPiece pm' i false =
      (pm' ≡ pm)
      × (i < pm.num_pieces)
      × Wanted i
      × ((k : ℕ) → k < pm.num_pieces → Wanted k → Claimed k)
      × ((k : ℕ) → k < i → ¬ Wanted k)

  abbrev pub Picks : PieceManager D → Option NeededPiece → Type 0
  Picks pm' (some pick) = PicksPiece pm' pick.index pick.exclusive
  Picks pm' none = (pm' ≡ pm) × ((k : ℕ) → k < pm.num_pieces → ¬ Wanted k)

  claims :
      (i : ℕ)
      → claim_from pm.num_pieces 0 pm peer ≡ some i
      → PicksPiece (record pm { claimed = set pm.claimed i true }) i true
  claims i h =
      let (_, fits, p, first) =
        find_from-some free pm.num_pieces 0 i (cc (claim_from-eq-find_from pm.num_pieces 0)) in
      let (w, c) = free-Wanted i p in
      (refl, omega arith, w, c, λ k l. not_free-Claimed k (first k (omega arith) l))

  not_free_all-Claimed :
      claim_from pm.num_pieces 0 pm peer ≡ none → (k : ℕ) → k < pm.num_pieces → Wanted k → Claimed k
  not_free_all-Claimed h k l = not_free-Claimed k (
      find_from-none free pm.num_pieces 0 (cc (claim_from-eq-find_from pm.num_pieces 0)) k
        (omega arith) (omega arith))

  shares :
      (i : ℕ)
      → claim_from pm.num_pieces 0 pm peer ≡ none
      → endgame_from pm.num_pieces 0 pm peer ≡ some i
      → PicksPiece pm i false
  shares i none_free h =
      let (_, fits, p, first) =
        find_from-some wanted pm.num_pieces 0 i (cc (endgame_from-eq-find_from pm.num_pieces 0)) in
      (
        refl,
        omega arith,
        wanted-Wanted i p,
        not_free_all-Claimed none_free,
        λ k l w. cc (Wanted-wanted k w, first k (omega arith) l),
      )

  not_shared-Wanted :
      endgame_from pm.num_pieces 0 pm peer ≡ none → (k : ℕ) → k < pm.num_pieces → ¬ Wanted k
  not_shared-Wanted h k l w = cc (
    Wanted-wanted k w,
    find_from-none wanted pm.num_pieces 0 (cc (endgame_from-eq-find_from pm.num_pieces 0)) k
        (omega arith) (omega arith),
  )

  -- An exclusive pick is the first piece that the peer has, that we lack and that no thread has
  -- claimed; it is claimed then, and nothing else changes. A shared pick changes nothing, and is
  -- the first piece that the peer has and we lack, when all such pieces are claimed. No pick
  -- means that the peer has no piece that we lack.
  pub next_needed-Picks : Picks (next_needed pm peer).0 (next_needed pm peer).1
  unfolding next_needed
  next_needed-Picks = elim (Option-cases (claim_from pm.num_pieces 0 pm peer)) [
    | inr (i, h) ↦
        settle
          (
            record pm { claimed = set pm.claimed i true },
            some (record { index = i; exclusive = true }),
          )
          (rw (h, next_needed)) (claims i h)
    | inl h ↦ elim (Option-cases (endgame_from pm.num_pieces 0 pm peer)) [
      | inr (i, h') ↦
          settle (pm, some (record { index = i; exclusive = false })) (rw (h, h', next_needed))
            (shares i h h')
      | inl h' ↦ settle (pm, none) (rw (h, h', next_needed)) (refl, not_shared-Wanted h')
    ]
  ]
    where
      settle :
          (r : PieceManager D × Option NeededPiece)
          → next_needed pm peer ≡ r
          → Picks r.0 r.1
          → Picks (next_needed pm peer).0 (next_needed pm peer).1
      settle r e t = subst (λ (r : PieceManager D × Option NeededPiece). Picks r.0 r.1) (sym e) t
