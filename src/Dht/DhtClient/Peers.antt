-- ===== src/Dht/DhtClient/Peers.antt =====
-- src/dht/dht_client.cpp, `on_get_peers` and `on_announce_peer`: how a peer becomes known.
use bittorent_client.Common.{
  ◌≡◌, ◌⊎◌, inl, inr, refl, Bytes, true, Option, none, some, Result, ok, err, Bool-cases,
}
use bittorent_client.Common.Int.{pos}
use bittorent_client.Common.Text.{text}
use bittorent_client.InfoHash.{InfoHash}
use bittorent_client.PeerAddress.{PeerAddress}
use bittorent_client.Dht.Token.{TokenSecretRotator, rotate_if_needed, verify_token}
use bittorent_client.Dht.Krpc.{
  KrpcMessage, KrpcQuery, ping, find_node, get_peers, announce_peer, make_error,
}
use bittorent_client.Dht.DhtClient.{Env, DhtClient, send_krpc}
use bittorent_client.Dht.DhtClient.Handlers.{
  on_ping, on_find_node, rotated, answer_get_peers, answer_announce, with_hash, on_get_peers,
  on_announce_peer, on_query,
}

pub send_krpc-told :
    (msg : Bytes) (pa : PeerAddress) (c : DhtClient) → (send_krpc msg pa c).told ≡ c.told
unfolding send_krpc
send_krpc-told msg pa c = elim (Bool-cases c.socket_open) [
  | inl o ↦ simp o refl
  | inr o ↦ simp o refl
]

pub send_krpc-rotator :
    (msg : Bytes) (pa : PeerAddress) (c : DhtClient)
    → (send_krpc msg pa c).token_rotator ≡ c.token_rotator
unfolding send_krpc
send_krpc-rotator msg pa c = elim (Bool-cases c.socket_open) [
  | inl o ↦ simp o refl
  | inr o ↦ simp o refl
]

module _ (env : Env) where
  -- A token of the sender's address, by one of the secrets that count.
  abbrev pub IsProof : KrpcMessage → PeerAddress → TokenSecretRotator → Type 0
  IsProof msg pa r = verify_token env.sha1 env.ip_address_bytes env.now msg.token pa.ip r ≡ true

  answer_announce-told :
      (msg : KrpcMessage) (pa : PeerAddress) (h : InfoHash) (c : DhtClient)
      → ((answer_announce env msg pa h c).told ≡ c.told) ⊎ IsProof msg pa c.token_rotator
  unfolding answer_announce
  answer_announce-told msg pa h c =
      let good =
        verify_token env.sha1 env.ip_address_bytes env.now msg.token pa.ip c.token_rotator in
      elim (Bool-cases good) [
        | inl yes_good ↦ inr yes_good
        | inr bad ↦
            inl (rw bad (send_krpc-told (make_error msg.txn (pos 203) (text "Bad token")) pa c))
      ]

  -- The secrets that the announce is checked by.
  abbrev pub rotated_secrets : DhtClient → TokenSecretRotator
  rotated_secrets c = (rotate_if_needed env.now env.random_secret c.token_rotator).1

  announced :
      (msg : KrpcMessage) (pa : PeerAddress) (h : InfoHash) (c : DhtClient)
      (p : Result (Unit {0}) × TokenSecretRotator)
      → ((rotated env (answer_announce env msg pa h) p c).1.told ≡ c.told) ⊎ IsProof msg pa p.1
  announced msg pa h c (err e, r) = inl refl
  announced msg pa h c (ok u, r) = answer_announce-told msg pa h (record c { token_rotator = r })

  asked :
      (msg : KrpcMessage) (pa : PeerAddress) (h : InfoHash) (c : DhtClient)
      (p : Result (Unit {0}) × TokenSecretRotator)
      → (rotated env (answer_get_peers env msg pa h) p c).1.told ≡ c.told
  unfolding answer_get_peers
  asked msg pa h c (err e, r) = refl
  asked msg pa h c (ok u, r) = send_krpc-told _ pa _

  on_announce_peer-told :
      (msg : KrpcMessage) (pa : PeerAddress) (c : DhtClient) (o : Option InfoHash)
      → ((with_hash env o (answer_announce env msg pa) c).1.told ≡ c.told)
        ⊎ IsProof msg pa (rotated_secrets c)
  on_announce_peer-told msg pa c none = inl refl
  on_announce_peer-told msg pa c (some h) =
      announced msg pa h c (rotate_if_needed env.now env.random_secret c.token_rotator)

  on_get_peers-told :
      (msg : KrpcMessage) (pa : PeerAddress) (c : DhtClient) (o : Option InfoHash)
      → (with_hash env o (answer_get_peers env msg pa) c).1.told ≡ c.told
  on_get_peers-told msg pa c none = refl
  on_get_peers-told msg pa c (some h) =
      asked msg pa h c (rotate_if_needed env.now env.random_secret c.token_rotator)

  -- No query makes the node report a peer to a torrent, except an announce whose token is one that
  -- the node's secrets give for the address of the sender.
  pub on_query-told :
      (kind : Option KrpcQuery) (msg : KrpcMessage) (pa : PeerAddress) (c : DhtClient)
      → ((on_query env kind msg pa c).1.told ≡ c.told)
        ⊎ ((kind ≡ some announce_peer) × IsProof msg pa (rotated_secrets c))
  unfolding on_ping on_find_node on_get_peers on_announce_peer
  on_query-told none msg pa c = inl refl
  on_query-told (some ping) msg pa c = inl (send_krpc-told _ pa c)
  on_query-told (some find_node) msg pa c = inl (send_krpc-told _ pa c)
  on_query-told (some get_peers) msg pa c = inl (on_get_peers-told msg pa c msg.info_hash)
  on_query-told (some announce_peer) msg pa c =
      elim (on_announce_peer-told msg pa c msg.info_hash) [
        | inl same ↦ inl same
        | inr good ↦ inr (refl, good)
      ]
