-- ===== src/PeerWire/TorrentManager/Spawning.antt =====
-- src/peer_wire/torrent_manager.cpp, `spawn_peers_locked` and `append_unique_peers`.
use bittorent_client.Common.{
  ℕ, zero, suc, ◌+◌, ◌≤◌, ◌≡◌, ◌⊎◌, inl, inr, refl, ap, ◌∙◌, Bool, true, false, List, [], ◌∷◌, ◌++◌,
  ltb, if◌then◌else◌, length, length-append, arith, Bool-cases,
}
use mathlib.Core.Path.{subst}
use bittorent_client.PeerAddress.{PeerAddress, same_peer, same_peer_refl, same_peer-eq}
use bittorent_client.PeerWire.TorrentManager.{
  TorrentManager, Thread, Phase, created, connecting, running, finished, k_max_concurrent_peers,
  is_known, append_unique, may_spawn, spawn_one, spawn_loop, spawn_peers_locked,
}

-- the indices below a number
unfoldable pub range : ℕ → List ℕ
range zero = []
range (suc n) = range n ++ (n ∷ [])

-- No address stands twice.
abbrev pub AreDistinct : List PeerAddress → Type 0
AreDistinct [] = Unit {0}
AreDistinct (p ∷ peers) = (is_known p peers ≡ false) × AreDistinct peers

-- the peers of the threads
unfoldable pub indices : List Thread → List ℕ
indices [] = []
indices (t ∷ ts) = t.peer_index ∷ indices ts

-- one for a worker that has not come to its end
abbrev pub weight : Phase → ℕ
weight created = 1
weight connecting = 1
weight running = 1
weight finished = 0

-- the number of workers that have not come to their end
unfoldable pub live : List Thread → ℕ
live [] = 0
live (t ∷ ts) = weight t.phase + live ts

-- The counter is the number of workers that have not come to their end, which are forty at most; the
-- peers that have had a thread are the first ones of the list, each has had one, in their order; and
-- the list has no peer twice.
abbrev pub IsValid : TorrentManager → Type 0
IsValid c =
    (c.workers_running ≡ live c.threads)
    × (live c.threads ≤ k_max_concurrent_peers)
    × (c.next_peer_index ≤ length c.all_peers)
    × (indices c.threads ≡ range c.next_peer_index)
    × AreDistinct c.all_peers

-- No peer waits for a worker that may be started.
abbrev pub IsSaturated : TorrentManager → Type 0
IsSaturated c =
    (c.stopped ≡ true)
    ⊎ ((c.complete ≡ true)
        ⊎ ((k_max_concurrent_peers ≤ c.workers_running) ⊎ (length c.all_peers ≤ c.next_peer_index)))

indices-append :
    (ts : List Thread) (t : Thread) → indices (ts ++ (t ∷ [])) ≡ indices ts ++ (t.peer_index ∷ [])
unfolding indices
indices-append [] t = refl
indices-append (u ∷ ts) t = ap (◌∷◌ u.peer_index) (indices-append ts t)

live-append : (ts : List Thread) (t : Thread) → live (ts ++ (t ∷ [])) ≡ live ts + weight t.phase
unfolding live
live-append [] t = omega arith
live-append (u ∷ ts) t = omega (arith, live-append ts t)

spawn_one-IsValid : (c : TorrentManager) → IsValid c → may_spawn c ≡ true → IsValid (spawn_one c)
unfolding range
spawn_one-IsValid c (w, l, n, t, d) h =
    let one : Thread = record { peer_index = c.next_peer_index; phase = created } in
    let more = live-append c.threads one in
    (
      omega (arith, w, more),
      ground (arith, h, w, more),
      ground (arith, h),
      indices-append c.threads one
          ∙ ap (λ ts. ts ++ (c.next_peer_index ∷ [])) t
          ∙ next_range c.next_peer_index,
      d,
    )
  where
    next_range : (i : ℕ) → range i ++ (i ∷ []) ≡ range (i + 1)
    next_range i = let e : suc i ≡ i + 1 = omega arith in ap range e

module _ (P : TorrentManager → Type 0) where
  branch :
      (room done : Bool) (c d : TorrentManager)
      → (room ≡ false → P c)
      → (done ≡ true → P c)
      → (room ≡ true → P d)
      → P (if room then if done then c else d else c)
  branch true true c d f g h = g refl
  branch true false c d f g h = h refl
  branch false done c d f g h = f refl

  -- how a round of the loop ends
  spawn_loop-cases :
      (fuel : ℕ) (c : TorrentManager)
      → (may_spawn c ≡ false → P c)
      → (c.complete ≡ true → P c)
      → (may_spawn c ≡ true → P (spawn_loop fuel (spawn_one c)))
      → P (spawn_loop (suc fuel) c)
  unfolding spawn_loop
  spawn_loop-cases fuel c = branch (may_spawn c) c.complete c (spawn_loop fuel (spawn_one c))

spawn_loop-IsValid : (fuel : ℕ) (c : TorrentManager) → IsValid c → IsValid (spawn_loop fuel c)
unfolding spawn_loop
spawn_loop-IsValid zero c v = v
spawn_loop-IsValid (suc fuel) c v =
    spawn_loop-cases IsValid fuel c (λ _. v) (λ _. v)
      (λ room. spawn_loop-IsValid fuel (spawn_one c) (spawn_one-IsValid c v room))

cannot_spawn : (c : TorrentManager) → may_spawn c ≡ false → IsSaturated c
cannot_spawn c h = elim (Bool-cases c.stopped) [
  | inl stopped ↦ inl stopped
  | inr runs ↦ elim (Bool-cases (ltb c.workers_running k_max_concurrent_peers)) [
    | inl room ↦ inr (inr (inr (ground (arith, h, runs, room))))
    | inr full ↦ inr (inr (inl (ground (arith, full))))
  ]
]

-- Forty rounds are enough for the loop.
spawn_loop-IsSaturated :
    (fuel : ℕ) (c : TorrentManager)
    → k_max_concurrent_peers ≤ c.workers_running + fuel
    → IsSaturated (spawn_loop fuel c)
unfolding spawn_loop
spawn_loop-IsSaturated zero c f = inr (inr (inl (omega arith)))
spawn_loop-IsSaturated (suc fuel) c f =
    spawn_loop-cases IsSaturated fuel c (cannot_spawn c) (λ done. inr (inl done))
      (λ _. spawn_loop-IsSaturated fuel (spawn_one c) (omega arith))

pub spawn_peers_locked-IsValid : (c : TorrentManager) → IsValid c → IsValid (spawn_peers_locked c)
unfolding spawn_peers_locked
spawn_peers_locked-IsValid c v = spawn_loop-IsValid k_max_concurrent_peers c v

pub spawn_peers_locked-IsSaturated : (c : TorrentManager) → IsSaturated (spawn_peers_locked c)
unfolding spawn_peers_locked
spawn_peers_locked-IsSaturated c = spawn_loop-IsSaturated k_max_concurrent_peers c (omega arith)

unknown_end :
    (q p : PeerAddress) (peers : List PeerAddress)
    → is_known q peers ≡ false
    → same_peer p q ≡ false
    → is_known q (peers ++ (p ∷ [])) ≡ false
unfolding is_known
unknown_end q p [] h n = rw n refl
unknown_end q p (x ∷ peers) h n = ground (arith, h, n, unknown_end q p peers)

same_peer_comm : (p q : PeerAddress) → same_peer p q ≡ true → same_peer q p ≡ true
same_peer_comm p q h = subst (λ r. same_peer r p ≡ true) (same_peer-eq p q h) (same_peer_refl p)

differs :
    (p q : PeerAddress) (peers : List PeerAddress)
    → is_known p (q ∷ peers) ≡ false
    → same_peer p q ≡ false
unfolding is_known
differs p q peers h = elim (Bool-cases (same_peer p q)) [
  | inl same ↦ absurd (ground (arith, h, same_peer_comm p q same))
  | inr apart ↦ apart
]

distinct_end :
    (p : PeerAddress) (peers : List PeerAddress)
    → is_known p peers ≡ false
    → AreDistinct peers
    → AreDistinct (peers ++ (p ∷ []))
unfolding is_known
distinct_end p [] h d = (refl, tt)
distinct_end p (q ∷ peers) h d =
    (unknown_end q p peers d.0 (differs p q peers h), distinct_end p peers (ground (arith, h)) d.1)

pub append_unique-AreDistinct :
    (peers known : List PeerAddress) → AreDistinct known → AreDistinct (append_unique peers known)
unfolding append_unique
append_unique-AreDistinct [] known d = d
append_unique-AreDistinct (p ∷ peers) known d = elim (Bool-cases (is_known p known)) [
  | inl old ↦ rw old (append_unique-AreDistinct peers known d)
  | inr new ↦
      rw new (append_unique-AreDistinct peers (known ++ (p ∷ [])) (distinct_end p known new d))
]

pub length-append_unique :
    (peers known : List PeerAddress) → length known ≤ length (append_unique peers known)
unfolding append_unique
length-append_unique [] known = omega arith
length-append_unique (p ∷ peers) known = elim (Bool-cases (is_known p known)) [
  | inl old ↦ rw old (length-append_unique peers known)
  | inr new ↦
      rw new (
        omega (arith, length-append_unique peers (known ++ (p ∷ [])), length-append known (p ∷ [])))
]
