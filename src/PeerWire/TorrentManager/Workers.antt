-- ===== src/PeerWire/TorrentManager/Workers.antt =====
-- src/peer_wire/torrent_manager.cpp, `run_peer_worker` and `on_peer_worker_finished`: the steps of a
-- worker's thread.
use bittorent_client.Common.{
  ℕ, zero, suc, ◌+◌, ◌-◌, ◌≡◌, refl, ap, ◌∙◌, Bool, true, false, List, [], ◌∷◌, leb, if◌then◌else◌,
  length, arith,
}
use bittorent_client.PeerWire.TorrentManager.{
  TorrentManager, Thread, Phase, connecting, running, finished, on_peer_worker_finished, with_phase,
  enter, leave, handshake_failed, begin_worker, after_connect, after_run,
}
use bittorent_client.PeerWire.TorrentManager.Spawning.{
  indices, weight, live, IsValid, IsSaturated, spawn_peers_locked-IsValid,
  spawn_peers_locked-IsSaturated,
}

-- where the thread at a place of the list is, and its peer
unfoldable pub phase_at : ℕ → List Thread → Phase
phase_at j [] = finished
phase_at zero (t ∷ ts) = t.phase
phase_at (suc j) (t ∷ ts) = phase_at j ts

unfoldable pub peer_at : ℕ → List Thread → ℕ
peer_at j [] = 0
peer_at zero (t ∷ ts) = t.peer_index
peer_at (suc j) (t ∷ ts) = peer_at j ts

live-with_phase :
    (j : ℕ) (p : Phase) (ts : List Thread)
    → weight (phase_at j ts) ≡ 1
    → live (with_phase j p ts) + 1 ≡ live ts + weight p
unfolding with_phase phase_at live
live-with_phase j p [] h = absurd (omega (arith, h))
live-with_phase zero p (t ∷ ts) h = omega (arith, h)
live-with_phase (suc j) p (t ∷ ts) h = omega (arith, live-with_phase j p ts h)

indices-with_phase :
    (j : ℕ) (p : Phase) (ts : List Thread) → indices (with_phase j p ts) ≡ indices ts
unfolding with_phase indices
indices-with_phase j p [] = refl
indices-with_phase zero p (t ∷ ts) = refl
indices-with_phase (suc j) p (t ∷ ts) = ap (◌∷◌ t.peer_index) (indices-with_phase j p ts)

-- The worker at a place has not come to its end.
abbrev pub IsLive : ℕ → TorrentManager → Type 0
IsLive j c = weight (phase_at j c.threads) ≡ 1

pub enter-IsValid :
    (j : ℕ) (p : Phase) (c : TorrentManager)
    → weight p ≡ 1
    → IsLive j c
    → IsValid c
    → IsValid (enter j p c)
enter-IsValid j p c one h (w, l, n, t, d) =
    let same = live-with_phase j p c.threads h in
    (
      omega (arith, w, same, one),
      omega (arith, l, same, one),
      n,
      indices-with_phase j p c.threads ∙ t,
      d,
    )

pub leave-IsValid : (j : ℕ) (c : TorrentManager) → IsLive j c → IsValid c → IsValid (leave j c)
unfolding leave on_peer_worker_finished
leave-IsValid j c h (w, l, n, t, d) =
    let less = live-with_phase j finished c.threads h in
    spawn_peers_locked-IsValid
      (record c {
        threads = with_phase j finished c.threads;
        workers_running = c.workers_running - 1;
      })
      (
        omega (arith, w, less),
        omega (arith, l, less),
        n,
        indices-with_phase j finished c.threads ∙ t,
        d,
      )

pub leave-IsSaturated : (j : ℕ) (c : TorrentManager) → IsSaturated (leave j c)
unfolding leave on_peer_worker_finished
leave-IsSaturated j c = spawn_peers_locked-IsSaturated (record c {
  threads = with_phase j finished c.threads;
  workers_running = c.workers_running - 1;
})

-- What holds after each way that a worker goes on holds of its step.
module _ (P : TorrentManager → Type 0) (j : ℕ) where
  pub begin_worker-keeps :
      (i : ℕ) (connection : Bool) (c : TorrentManager)
      → (let c' = record c { peer_workers_started = c.peer_workers_started + 1 } in
          P (leave j c') × P (enter j connecting c') × P (leave j (handshake_failed c')))
      → P (begin_worker j i connection c)
  unfolding begin_worker
  begin_worker-keeps i connection c (gone, there, failed) =
      choose (leb (length c.all_peers) i) connection
    where
      choose :
          (missing m : Bool)
          → (let c' = record c { peer_workers_started = c.peer_workers_started + 1 } in
              P (
                if missing
                then leave j c'
                else if m
                then enter j connecting c'
                else leave j (handshake_failed c')))
      choose true m = gone
      choose false true = there
      choose false false = failed

  pub after_connect-keeps :
      (connected : Bool) (c : TorrentManager)
      → (let c' = record c { peer_handshakes_ok = c.peer_handshakes_ok + 1 } in
          P (leave j c') × P (enter j running c') × P (leave j (handshake_failed c)))
      → P (after_connect j connected c)
  unfolding after_connect
  after_connect-keeps false c (gone, there, failed) = failed
  after_connect-keeps true c (gone, there, failed) = choose c.stopped
    where
      choose :
          (stopped : Bool)
          → (let c' = record c { peer_handshakes_ok = c.peer_handshakes_ok + 1 } in
              P (if stopped then leave j c' else enter j running c'))
      choose true = gone
      choose false = there

pub after_run-IsValid :
    (j : ℕ) (returned : Bool) (c : TorrentManager)
    → IsLive j c
    → IsValid c
    → IsValid (after_run j returned c)
unfolding after_run
after_run-IsValid j true c h v = leave-IsValid j c h v
after_run-IsValid j false c h v =
    leave-IsValid j (record c { peer_run_failed = c.peer_run_failed + 1 }) h v

pub after_run-IsSaturated :
    (j : ℕ) (returned : Bool) (c : TorrentManager) → IsSaturated (after_run j returned c)
unfolding after_run
after_run-IsSaturated j true c = leave-IsSaturated j c
after_run-IsSaturated j false c =
    leave-IsSaturated j (record c { peer_run_failed = c.peer_run_failed + 1 })
