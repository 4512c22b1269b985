-- ===== src/PeerWire/TorrentManager.antt =====
-- inc/peer_wire/torrent_manager.h, src/peer_wire/torrent_manager.cpp: the peers of a torrent, and
-- the threads that work on them. The mutex `m_spawn_mu` makes each method one step, and a worker is
-- one step up to each call of its connection that blocks. How that call ends is an argument.
pub mod Spawning
pub mod Workers
pub mod Reach
use bittorent_client.Common.{
  ℕ, zero, suc, ◌+◌, ◌-◌, Bool, true, false, not, ◌&&◌, List, [], ◌∷◌, ◌++◌, ltb, leb, ◌==◌,
  if◌then◌else◌, length,
}
use bittorent_client.PeerAddress.{PeerAddress, same_peer}

abbrev pub k_max_concurrent_peers : ℕ
k_max_concurrent_peers = 40

-- Where the function of a worker's thread is: not begun, in `connect()`, in `run()`, or at its end,
-- with `on_peer_worker_finished` as its last call.
pub data Phase : Type 0 where
  created connecting running finished : Phase

-- a thread that runs `run_peer_worker(peer_index)`
pub record Thread : Type 0 where
  pub peer_index : ℕ
  pub phase : Phase

-- `complete` is `m_piece_manager.is_complete()`.
pub record TorrentManager : Type 0 where
  pub all_peers : List PeerAddress
  pub next_peer_index : ℕ
  pub workers_running : ℕ
  pub threads : List Thread
  pub started : Bool
  pub stopped : Bool
  pub complete : Bool
  pub dht_peers_discovered : ℕ
  pub peer_workers_started : ℕ
  pub peer_handshakes_ok : ℕ
  pub peer_handshake_failed : ℕ
  pub peer_run_failed : ℕ

unfoldable pub is_known : PeerAddress → List PeerAddress → Bool
is_known pa [] = false
is_known pa (p ∷ peers) = let rest = is_known pa peers in if same_peer p pa then true else rest

unfoldable pub append_unique : List PeerAddress → List PeerAddress → List PeerAddress
unfolding is_known
append_unique [] known = known
append_unique (p ∷ peers) known =
    append_unique peers (if is_known p known then known else known ++ (p ∷ []))

abbrev pub append_unique_peers : List PeerAddress → TorrentManager → TorrentManager
append_unique_peers peers c = record c { all_peers = append_unique peers c.all_peers }

abbrev pub may_spawn : TorrentManager → Bool
may_spawn c =
    not c.stopped
    && (ltb c.workers_running k_max_concurrent_peers && ltb c.next_peer_index (length c.all_peers))

abbrev pub spawn_one : TorrentManager → TorrentManager
spawn_one c = record c {
  next_peer_index = c.next_peer_index + 1;
  workers_running = c.workers_running + 1;
  threads = c.threads ++ (record { peer_index = c.next_peer_index; phase = created } ∷ []);
}

-- the loop of `spawn_peers_locked`, on fuel
unfoldable pub spawn_loop : ℕ → TorrentManager → TorrentManager
spawn_loop zero c = c
spawn_loop (suc fuel) c =
    let rest = spawn_loop fuel (spawn_one c) in
    if may_spawn c then if c.complete then c else rest else c

-- A round starts a worker, and there are never more than forty.
unfoldable pub spawn_peers_locked : TorrentManager → TorrentManager
unfolding spawn_loop
spawn_peers_locked c = spawn_loop k_max_concurrent_peers c

unfoldable pub on_peer_worker_finished : TorrentManager → TorrentManager
unfolding spawn_peers_locked
on_peer_worker_finished c =
    spawn_peers_locked (record c { workers_running = c.workers_running - 1 })

-- the thread at a place of the list, which goes on to a phase
unfoldable pub with_phase : ℕ → Phase → List Thread → List Thread
with_phase j p [] = []
with_phase zero p (t ∷ ts) = record t { phase = p } ∷ ts
with_phase (suc j) p (t ∷ ts) = t ∷ with_phase j p ts

abbrev pub enter : ℕ → Phase → TorrentManager → TorrentManager
enter j p c = record c { threads = with_phase j p c.threads }

-- The last call of a worker.
unfoldable pub leave : ℕ → TorrentManager → TorrentManager
unfolding on_peer_worker_finished with_phase
leave j c = on_peer_worker_finished (enter j finished c)

abbrev pub handshake_failed : TorrentManager → TorrentManager
handshake_failed c = record c { peer_handshake_failed = c.peer_handshake_failed + 1 }

-- the first lines of `run_peer_worker(peer_index)` in thread `j`, up to `conn.connect()`, with whether
-- the connection is made
unfoldable pub begin_worker : ℕ → ℕ → Bool → TorrentManager → TorrentManager
unfolding leave
begin_worker j peer_index connection c =
    let c' = record c { peer_workers_started = c.peer_workers_started + 1 } in
    if leb (length c.all_peers) peer_index
    then leave j c'
    else if connection
    then enter j connecting c'
    else leave j (handshake_failed c')

-- from `conn.connect()`, which returned or threw, up to `conn.run()`
unfoldable pub after_connect : ℕ → Bool → TorrentManager → TorrentManager
unfolding leave
after_connect j connected c =
    let c' = record c { peer_handshakes_ok = c.peer_handshakes_ok + 1 } in
    if connected
    then if c.stopped then leave j c' else enter j running c'
    else leave j (handshake_failed c)

-- behind `conn.run()`, which returned or threw
unfoldable pub after_run : ℕ → Bool → TorrentManager → TorrentManager
unfolding leave
after_run j returned c =
    leave j (if returned then c else record c { peer_run_failed = c.peer_run_failed + 1 })

-- `start()` with the peers that the tracker gives
unfoldable pub start : List PeerAddress → TorrentManager → TorrentManager
unfolding spawn_peers_locked append_unique
start tracker_peers c =
    let c' = append_unique_peers tracker_peers (record c { started = true }) in
    if c.started then c else elim c'.all_peers [ [] ↦ c' | _ ∷ _ ↦ spawn_peers_locked c' ]

abbrev pub stop : TorrentManager → TorrentManager
stop c = record c { stopped = true }

unfoldable pub add_dht_peer : PeerAddress → TorrentManager → Bool × TorrentManager
unfolding spawn_peers_locked is_known append_unique
add_dht_peer peer c =
    let c' = append_unique_peers (peer ∷ []) c in
    let found = record c' { dht_peers_discovered = c.dht_peers_discovered + 1 } in
    if length c'.all_peers == length c.all_peers
    then (false, c')
    else (true, spawn_peers_locked found)

abbrev pub fresh : TorrentManager
fresh = record {
  all_peers = [];
  next_peer_index = 0;
  workers_running = 0;
  threads = [];
  started = false;
  stopped = false;
  complete = false;
  dht_peers_discovered = 0;
  peer_workers_started = 0;
  peer_handshakes_ok = 0;
  peer_handshake_failed = 0;
  peer_run_failed = 0;
}
