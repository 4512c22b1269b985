-- ===== src/Tests/Swarm.antt =====
-- A torrent with three peers, and the exchange with a UDP tracker.
use bittorent_client.Common.{
  ℕ, zero, suc, ◌<◌, ◌≡◌, ◌⊎◌, refl, Bytes, true, false, length, Option, none, some, [], ◌∷◌, arith,
  ok, err, bad_access,
}
use bittorent_client.ByteOrder.{read_be32, read_be64, byte_at}
use bittorent_client.PeerAddress.{PeerAddress}
use bittorent_client.PeerWire.TorrentManager.{
  TorrentManager, created, connecting, k_max_concurrent_peers, fresh, start, add_dht_peer,
  begin_worker, after_connect, append_unique, is_known, spawn_peers_locked, spawn_loop, with_phase,
}
use bittorent_client.PeerWire.TorrentManager.Spawning.{IsValid, live, indices, range}
use bittorent_client.PeerWire.TorrentManager.Workers.{phase_at, peer_at}
use bittorent_client.PeerWire.TorrentManager.Reach.{
  Reachable, made, next, starts, discovers, begins, connects, reachable-IsValid,
  reachable-IsSaturated,
}
use bittorent_client.Trackers.Udp.{connect, deserialize_announce_resp, on_datagram, attempts}
use bittorent_client.Trackers.Udp.Exchange.{
  Returns, IsFor, IsCutOff, IsIgnored, IsResponse, connect-Returns, connect-bad_access,
  connect-IsResponse,
}
use bittorent_client.Trackers.Udp.Response.{answer, peers_of, deserialize_announce_resp-answer}

abbrev peer : ℕ → PeerAddress
peer n = record { ip = b'1' ∷ []; port = n }

-- Two peers from the tracker, one from the DHT, and a worker that begins and cannot connect.
abbrev found : TorrentManager
found = (add_dht_peer (peer 3) (start (peer 1 ∷ peer 2 ∷ []) fresh)).1

abbrev begun : TorrentManager
begun = begin_worker 1 (peer_at 1 found.threads) true found

abbrev swarm : TorrentManager
swarm = after_connect 1 false begun

is_created : phase_at 1 found.threads ≡ created
unfolding phase_at add_dht_peer start append_unique is_known spawn_peers_locked spawn_loop
is_created = refl

is_connecting : phase_at 1 begun.threads ≡ connecting
unfolding phase_at peer_at begin_worker with_phase add_dht_peer start append_unique is_known
    spawn_peers_locked spawn_loop
is_connecting = refl

swarm-Reachable : Reachable swarm
swarm-Reachable =
    next
      (next (next (next made (starts (peer 1 ∷ peer 2 ∷ []))) (discovers (peer 3)))
        (begins 1 true is_created))
      (connects 1 false is_connecting)

reachable-IsValid_example : IsValid swarm
reachable-IsValid_example = reachable-IsValid swarm-Reachable

reachable-IsSaturated_example :
    (swarm.stopped ≡ true)
    ⊎ ((swarm.complete ≡ true)
        ⊎ ((live swarm.threads ≡ k_max_concurrent_peers)
            ⊎ (indices swarm.threads ≡ range (length swarm.all_peers))))
reachable-IsSaturated_example = reachable-IsSaturated swarm-Reachable

-- a response with transaction 9 and connection 5
abbrev response : Bytes
response = 0 ∷ 0 ∷ 0 ∷ 0 ∷ 0 ∷ 0 ∷ 0 ∷ 9 ∷ 0 ∷ 0 ∷ 0 ∷ 0 ∷ 0 ∷ 0 ∷ 0 ∷ 5 ∷ []

-- It comes at the second attempt.
abbrev replies : ℕ → Option Bytes
replies zero = none
replies (suc zero) = some response
replies (suc (suc n)) = none

connect-Returns_example : Returns (IsFor 9) (connect 9 replies)
connect-Returns_example = connect-Returns 9 replies

-- An error without a text, of six bytes.
abbrev cut_off : ℕ → Option Bytes
cut_off n = some (0 ∷ 0 ∷ 0 ∷ 3 ∷ 0 ∷ 0 ∷ [])

runs_out : connect 9 cut_off ≡ err bad_access
unfolding connect attempts on_datagram read_be32 byte_at
runs_out = refl

connect-bad_access_example : (i : ℕ) × (bytes : Bytes) × (cut_off i ≡ some bytes) × IsCutOff bytes
connect-bad_access_example = connect-bad_access 9 cut_off runs_out

response-IsResponse : IsResponse 9 5 response
unfolding read_be32 read_be64
response-IsResponse = (omega arith, refl, refl, refl)

passed_over : (i : ℕ) → i < 1 → IsIgnored 9 (replies i)
unfolding on_datagram
passed_over zero h rest = refl
passed_over (suc i) h rest = absurd (omega arith)

connect-IsResponse_example :
    connect 9 replies ≡ ok (record { action = 0; transaction_id = 9; connection_id = 5 })
connect-IsResponse_example =
    connect-IsResponse 9 5 1 response replies (omega arith) passed_over refl response-IsResponse

deserialize_announce_resp-answer_example :
    deserialize_announce_resp
      (λ b. b)
      false
      (answer 9 1800 3 4 ((10 ∷ 0 ∷ 0 ∷ 1 ∷ 26 ∷ 225 ∷ []) ∷ []) [])
    ≡ ok (record {
      action = 1;
      transaction_id = 9;
      interval = 1800;
      leechers = 3;
      seeders = 4;
      peers = peers_of ((10 ∷ 0 ∷ 0 ∷ 1 ∷ 26 ∷ 225 ∷ []) ∷ []);
    })
deserialize_announce_resp-answer_example =
    deserialize_announce_resp-answer (λ b. b) 9 1800 3 4 ((10 ∷ 0 ∷ 0 ∷ 1 ∷ 26 ∷ 225 ∷ []) ∷ []) []
      (omega arith) (omega arith) (omega arith) (omega arith) (refl, tt) (omega arith)
