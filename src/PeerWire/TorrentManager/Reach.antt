-- ===== src/PeerWire/TorrentManager/Reach.antt =====
-- src/peer_wire/torrent_manager.cpp: the methods as steps, in any order, as the tracker, the DHT, the
-- workers and the session call them.
use bittorent_client.Common.{
  ℕ, ◌+◌, ◌≤◌, ◌≡◌, ◌⊎◌, inl, inr, refl, sym, ap, ◌∙◌, Bool, true, false, List, [], ◌∷◌, ◌==◌,
  if◌then◌else◌, length, arith, Bool-cases,
}
use mathlib.Core.Path.{subst}
use bittorent_client.PeerAddress.{PeerAddress}
use bittorent_client.PeerWire.TorrentManager.{
  TorrentManager, created, connecting, running, k_max_concurrent_peers, append_unique,
  append_unique_peers, spawn_peers_locked, handshake_failed, begin_worker, after_connect, after_run,
  start, stop, add_dht_peer, fresh,
}
use bittorent_client.PeerWire.TorrentManager.Workers.{
  phase_at, peer_at, IsLive, enter-IsValid, leave-IsValid, leave-IsSaturated, begin_worker-keeps,
  after_connect-keeps, after_run-IsValid, after_run-IsSaturated,
}
use bittorent_client.PeerWire.TorrentManager.Spawning.{
  range, indices, weight, live, IsValid, IsSaturated, spawn_peers_locked-IsValid,
  spawn_peers_locked-IsSaturated, append_unique-AreDistinct, length-append_unique,
}

-- A worker takes its next step from where it is.
pub data Step : TorrentManager → TorrentManager → Type 0 where
  starts : (tracker_peers : List PeerAddress) {c : TorrentManager} → Step c (start tracker_peers c)
  discovers : (peer : PeerAddress) {c : TorrentManager} → Step c (add_dht_peer peer c).1
  begins :
      (j : ℕ) (connection : Bool) {c : TorrentManager}
      → phase_at j c.threads ≡ created
      → Step c (begin_worker j (peer_at j c.threads) connection c)
  connects :
      (j : ℕ) (connected : Bool) {c : TorrentManager}
      → phase_at j c.threads ≡ connecting
      → Step c (after_connect j connected c)
  runs :
      (j : ℕ) (returned : Bool) {c : TorrentManager}
      → phase_at j c.threads ≡ running
      → Step c (after_run j returned c)
  completes : {c : TorrentManager} → Step c (record c { complete = true })
  stops : {c : TorrentManager} → Step c (stop c)

pub data Reachable : TorrentManager → Type 0 where
  made : Reachable fresh
  next : {c d : TorrentManager} → Reachable c → Step c d → Reachable d

appended-IsValid :
    (peers : List PeerAddress) (c : TorrentManager)
    → IsValid c
    → IsValid (append_unique_peers peers c)
appended-IsValid peers c (w, l, n, t, d) = (
  w,
  l,
  omega (arith, n, length-append_unique peers c.all_peers),
  t,
  append_unique-AreDistinct peers c.all_peers d,
)

-- `start()` behind its guard
spawned :
    (P : TorrentManager → Type 0) (c : TorrentManager) (peers : List PeerAddress)
    → (peers ≡ [] → P c)
    → P (spawn_peers_locked c)
    → P (elim peers [ [] ↦ c | _ ∷ _ ↦ spawn_peers_locked c ])
spawned P c [] f g = f refl
spawned P c (p ∷ peers) f g = g

start-keeps :
    (P : TorrentManager → Type 0) (peers : List PeerAddress) (c : TorrentManager)
    → P c
    → (let c' = append_unique_peers peers (record c { started = true }) in
        (c'.all_peers ≡ [] → P c') × P (spawn_peers_locked c'))
    → P (start peers c)
unfolding start
start-keeps P peers c p (f, g) = choose c.started
  where
    choose :
        (b : Bool)
        → (let c' = append_unique_peers peers (record c { started = true }) in
            P (if b then c else elim c'.all_peers [ [] ↦ c' | _ ∷ _ ↦ spawn_peers_locked c' ]))
    choose true = p
    choose false =
        spawned P (append_unique_peers peers (record c { started = true }))
          (append_unique peers c.all_peers) f g

add_dht_peer-IsValid :
    (peer : PeerAddress) (c : TorrentManager) → IsValid c → IsValid (add_dht_peer peer c).1
unfolding add_dht_peer
add_dht_peer-IsValid peer c v =
    let c' = append_unique_peers (peer ∷ []) c in
    let v' = appended-IsValid (peer ∷ []) c v in
    elim (Bool-cases (length c'.all_peers == length c.all_peers)) [
      | inl known ↦ simp known v'
      | inr new ↦ simp new (
          spawn_peers_locked-IsValid
            (record c' { dht_peers_discovered = c.dht_peers_discovered + 1 }) v')
    ]

add_dht_peer-IsSaturated :
    (peer : PeerAddress) (c : TorrentManager) → IsSaturated c → IsSaturated (add_dht_peer peer c).1
unfolding add_dht_peer
add_dht_peer-IsSaturated peer c s =
    let c' = append_unique_peers (peer ∷ []) c in
    elim (Bool-cases (length c'.all_peers == length c.all_peers)) [
      | inl known ↦ simp known (same_length c' (ground (arith, known)) s)
      | inr new ↦ simp new (
          spawn_peers_locked-IsSaturated
            (record c' { dht_peers_discovered = c.dht_peers_discovered + 1 }))
    ]
  where
    same_length :
        (c' : TorrentManager)
        → length (append_unique (peer ∷ []) c.all_peers) ≡ length c.all_peers
        → IsSaturated c
        → IsSaturated (append_unique_peers (peer ∷ []) c)
    same_length c' e (inl h) = inl h
    same_length c' e (inr (inl h)) = inr (inl h)
    same_length c' e (inr (inr (inl h))) = inr (inr (inl h))
    same_length c' e (inr (inr (inr h))) = inr (inr (inr (omega (arith, e, h))))

Step-IsValid : {c d : TorrentManager} → Step c d → IsValid c → IsValid d
Step-IsValid (starts peers {c}) v =
    let v' = appended-IsValid peers (record c { started = true }) v in
    start-keeps IsValid peers c v (
      (λ _. v'),
      spawn_peers_locked-IsValid (append_unique_peers peers (record c { started = true })) v',
    )
Step-IsValid (discovers peer {c}) v = add_dht_peer-IsValid peer c v
Step-IsValid (begins j connection {c} e) v =
    let c' = record c { peer_workers_started = c.peer_workers_started + 1 } in
    let h : IsLive j c = ap weight e in
    begin_worker-keeps IsValid j (peer_at j c.threads) connection c (
      leave-IsValid j c' h v,
      enter-IsValid j connecting c' refl h v,
      leave-IsValid j (handshake_failed c') h v,
    )
Step-IsValid (connects j connected {c} e) v =
    let c' = record c { peer_handshakes_ok = c.peer_handshakes_ok + 1 } in
    let h : IsLive j c = ap weight e in
    after_connect-keeps IsValid j connected c (
      leave-IsValid j c' h v,
      enter-IsValid j running c' refl h v,
      leave-IsValid j (handshake_failed c) h v,
    )
Step-IsValid (runs j returned {c} e) v = after_run-IsValid j returned c (ap weight e) v
Step-IsValid completes v = v
Step-IsValid stops v = v

none_left :
    (peers : List PeerAddress) (c : TorrentManager)
    → append_unique peers c.all_peers ≡ []
    → IsSaturated (append_unique_peers peers (record c { started = true }))
none_left peers c e =
    inr (inr (inr (subst (λ l. length l ≤ c.next_peer_index) (sym e) (omega arith))))

Step-IsSaturated : {c d : TorrentManager} → Step c d → IsSaturated c → IsSaturated d
Step-IsSaturated (starts peers {c}) s = start-keeps IsSaturated peers c s (
  none_left peers c,
  spawn_peers_locked-IsSaturated (append_unique_peers peers (record c { started = true })),
)
Step-IsSaturated (discovers peer {c}) s = add_dht_peer-IsSaturated peer c s
Step-IsSaturated (begins j connection {c} e) s =
    let c' = record c { peer_workers_started = c.peer_workers_started + 1 } in
    begin_worker-keeps IsSaturated j (peer_at j c.threads) connection c
      (leave-IsSaturated j c', s, leave-IsSaturated j (handshake_failed c'))
Step-IsSaturated (connects j connected {c} e) s =
    let c' = record c { peer_handshakes_ok = c.peer_handshakes_ok + 1 } in
    after_connect-keeps IsSaturated j connected c
      (leave-IsSaturated j c', s, leave-IsSaturated j (handshake_failed c))
Step-IsSaturated (runs j returned {c} e) s = after_run-IsSaturated j returned c
Step-IsSaturated completes s = inr (inl refl)
Step-IsSaturated stops s = inl refl

-- In whatever order the tracker, the DHT and the workers call, the counter of the workers is the
-- number of threads that have not come to their end, which are never more than forty; the peers that
-- had a thread are the first ones in the list of peers, one thread each and in its order; and the
-- list never has an address twice.
pub reachable-IsValid : {c : TorrentManager} → Reachable c → IsValid c
unfolding range live indices
reachable-IsValid made = (refl, omega arith, omega arith, refl, tt)
reachable-IsValid (next r s) = Step-IsValid s (reachable-IsValid r)

counter-IsSaturated : {c : TorrentManager} → Reachable c → IsSaturated c
counter-IsSaturated made = inr (inr (inr (omega arith)))
counter-IsSaturated (next r s) = Step-IsSaturated s (counter-IsSaturated r)

served :
    (c : TorrentManager)
    → IsValid c
    → IsSaturated c
    → (c.stopped ≡ true)
      ⊎ ((c.complete ≡ true)
          ⊎ ((live c.threads ≡ k_max_concurrent_peers)
              ⊎ (indices c.threads ≡ range (length c.all_peers))))
served c v (inl h) = inl h
served c v (inr (inl h)) = inr (inl h)
served c (w, l, n, t, d) (inr (inr (inl h))) = inr (inr (inl (omega (arith, w, l, h))))
served c (w, l, n, t, d) (inr (inr (inr h))) =
    let all : c.next_peer_index ≡ length c.all_peers = omega (arith, n, h) in
    inr (inr (inr (t ∙ ap range all)))

-- No peer is left waiting: after every step the manager is stopped, or the torrent is complete, or
-- forty threads have not come to their end, or every known peer has had its thread.
pub reachable-IsSaturated :
    {c : TorrentManager}
    → Reachable c
    → (c.stopped ≡ true)
      ⊎ ((c.complete ≡ true)
          ⊎ ((live c.threads ≡ k_max_concurrent_peers)
              ⊎ (indices c.threads ≡ range (length c.all_peers))))
reachable-IsSaturated {c} r = served c (reachable-IsValid r) (counter-IsSaturated r)
