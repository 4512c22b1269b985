-- ===== src/Dht/DhtClient/Exchange.antt =====
-- src/dht/dht_client.cpp: `get_peers` and the announce that follows it, and where the answer goes.
use bittorent_client.Common.{
  ℕ, ◌≡◌, ◌⊎◌, inl, inr, refl, sym, ap, ◌∙◌, Bytes, true, false, some, List, [], ◌∷◌, ◌++◌, Result,
  ok, err, arith, if◌then◌else◌, Bool-cases,
}
use mathlib.Core.Path.{subst}
use bittorent_client.InfoHash.{InfoHash, to_hex}
use bittorent_client.PeerAddress.{PeerAddress}
use bittorent_client.Dht.Token.{
  TokenSecretRotator, rotate, rotate_if_needed, issue_token, verify_token, is_empty,
}
use bittorent_client.Dht.Token.Validity.{accepted_after}
use bittorent_client.Dht.RoutingTable.{RoutingEntry, closest}
use bittorent_client.Dht.PeerStore.{expire_stale, live_peers}
use bittorent_client.Dht.Krpc.{
  KrpcMessage, make_response, make_peers_response, make_nodes_response_gp,
}
use bittorent_client.Dht.DhtClient.{Env, DhtClient, send_krpc, invoke_peer_callback}
use bittorent_client.Dht.DhtClient.Handlers.{
  rotated, get_peers_reply, answer_get_peers, accept_announce, answer_announce, with_hash,
  on_get_peers, on_announce_peer,
}
use bittorent_client.Dht.DhtClient.Peers.{send_krpc-told, send_krpc-rotator}

-- `rotate_if_needed` returned.
rotated-ok :
    (env : Env) (next : DhtClient → DhtClient) (p : Result (Unit {0}) × TokenSecretRotator)
    (c : DhtClient)
    → p.0 ≡ ok tt
    → rotated env next p c ≡ (ok tt, next (record c { token_rotator = p.1 }))
rotated-ok env next (ok u, r) c h = refl
rotated-ok env next (err e, r) c h = cc

rotate_if_needed-ok :
    (now : ℕ) (s : Bytes) (r : TokenSecretRotator) → (rotate_if_needed now (some s) r).0 ≡ ok tt
unfolding rotate_if_needed rotate
rotate_if_needed-ok now s r = ground arith

rotate_if_needed-secret :
    (now : ℕ) (s : Bytes) (r : TokenSecretRotator)
    → is_empty s ≡ false
    → is_empty r.current_secret ≡ false
    → is_empty (rotate_if_needed now (some s) r).1.current_secret ≡ false
unfolding rotate_if_needed rotate
rotate_if_needed-secret now s r h k = ground (arith, h, k)

-- The clock and the generator at a later call.
abbrev pub at : ℕ → Bytes → Env → Env
at later secret env = record env { now = later; random_secret = some secret }

-- The address that an announce is about.
abbrev pub announced_peer : KrpcMessage → PeerAddress → PeerAddress
announced_peer msg pa = if msg.implied_port then pa else record pa { port = msg.peer_port }

-- What an announce with a good token leads to.
abbrev pub IsAccepted : KrpcMessage → PeerAddress → InfoHash → DhtClient → DhtClient → Type 0
IsAccepted msg pa h c d =
    (d.told ≡ c.told ++ ((to_hex h, announced_peer msg pa) ∷ []))
    × (d.sent
        ≡ c.sent
          ++ (record { msg = make_response msg.txn c.self_id; pa = announced_peer msg pa } ∷ []))

-- One reply is sent to the sender of a `get_peers`, with this token, and with peers or with nodes.
abbrev pub IsAnswered : Env → KrpcMessage → PeerAddress → DhtClient → Bytes → DhtClient → Type 0
IsAnswered env msg pa c token d =
    ((known : List PeerAddress) × (d.sent
        ≡ c.sent
          ++ (record { msg = make_peers_response env.inet msg.txn c.self_id token known; pa = pa }
              ∷ [])))
    ⊎ ((nodes : List RoutingEntry) × (d.sent
          ≡ c.sent
            ++ (record {
              msg = make_nodes_response_gp env.inet msg.txn c.self_id token nodes;
              pa = pa;
            }
                ∷ [])))

module _ (env : Env) where
  answered :
      (now : ℕ) (secret : Bytes) (msg : KrpcMessage) (pa : PeerAddress) (c : DhtClient)
      (h : InfoHash)
      → msg.info_hash ≡ some h
      → on_get_peers (at now secret env) msg pa c ≡ (
        ok tt,
        answer_get_peers
            (at now secret env)
            msg
            pa
            h
            (record c { token_rotator = (rotate_if_needed now (some secret) c.token_rotator).1 }),
      )
  unfolding on_get_peers
  answered now secret msg pa c h e =
      let p = rotate_if_needed now (some secret) c.token_rotator in
      ap (λ o. with_hash (at now secret env) o (answer_get_peers (at now secret env) msg pa) c) e
      ∙ rotated-ok (at now secret env) (answer_get_peers (at now secret env) msg pa h) p c
          (rotate_if_needed-ok now secret c.token_rotator)

  announced :
      (now : ℕ) (secret : Bytes) (msg : KrpcMessage) (pa : PeerAddress) (c : DhtClient)
      (h : InfoHash)
      → msg.info_hash ≡ some h
      → on_announce_peer (at now secret env) msg pa c ≡ (
        ok tt,
        answer_announce
            (at now secret env)
            msg
            pa
            h
            (record c { token_rotator = (rotate_if_needed now (some secret) c.token_rotator).1 }),
      )
  unfolding on_announce_peer
  announced now secret msg pa c h e =
      let p = rotate_if_needed now (some secret) c.token_rotator in
      ap (λ o. with_hash (at now secret env) o (answer_announce (at now secret env) msg pa) c) e
      ∙ rotated-ok (at now secret env) (answer_announce (at now secret env) msg pa h) p c
          (rotate_if_needed-ok now secret c.token_rotator)

  get_peers-rotator :
      (msg : KrpcMessage) (pa : PeerAddress) (h : InfoHash) (c : DhtClient)
      → (answer_get_peers env msg pa h c).token_rotator ≡ c.token_rotator
  unfolding answer_get_peers
  get_peers-rotator msg pa h c = send_krpc-rotator _ pa _

  send_krpc-sent :
      (msg : Bytes) (pa : PeerAddress) (c : DhtClient)
      → c.socket_open ≡ true
      → (send_krpc msg pa c).sent ≡ c.sent ++ (record { msg = msg; pa = pa } ∷ [])
  unfolding send_krpc
  send_krpc-sent msg pa c e = simp e refl

  reply-IsAnswered :
      (msg : KrpcMessage) (pa : PeerAddress) (h : InfoHash) (token : Bytes)
      (known : List PeerAddress) (c b : DhtClient)
      → b.socket_open ≡ true
      → IsAnswered env msg pa
          (record b { self_id = c.self_id })
          token
          (send_krpc (get_peers_reply env msg h token known c) pa b)
  reply-IsAnswered msg pa h token [] c b o =
      inr (closest h 8 c.routing_table, send_krpc-sent _ pa b o)
  reply-IsAnswered msg pa h token (p ∷ known) c b o = inl (p ∷ known, send_krpc-sent _ pa b o)

  answer_get_peers-IsAnswered :
      (msg : KrpcMessage) (pa : PeerAddress) (h : InfoHash) (c : DhtClient)
      → c.socket_open ≡ true
      → IsAnswered env msg pa c
          (issue_token env.sha1 env.ip_address_bytes pa.ip c.token_rotator)
          (answer_get_peers env msg pa h c)
  unfolding answer_get_peers
  answer_get_peers-IsAnswered msg pa h c o =
      let lookup = live_peers env.now h (expire_stale env.now c.peer_store) in
      reply-IsAnswered msg pa h (issue_token env.sha1 env.ip_address_bytes pa.ip c.token_rotator)
        lookup.0 c (record c { peer_store = lookup.1 }) o

  accept_announce-told :
      (msg : KrpcMessage) (pa : PeerAddress) (h : InfoHash) (c : DhtClient)
      → c.has_callback ≡ true
      → (accept_announce env msg pa h c).told ≡ c.told ++ ((to_hex h, announced_peer msg pa) ∷ [])
  unfolding accept_announce invoke_peer_callback
  accept_announce-told msg pa h c e = send_krpc-told _ (announced_peer msg pa) _ ∙ (simp e refl)

  accept_announce-sent :
      (msg : KrpcMessage) (pa : PeerAddress) (h : InfoHash) (c : DhtClient)
      → c.socket_open ≡ true
      → (accept_announce env msg pa h c).sent
        ≡ c.sent
          ++ (record { msg = make_response msg.txn c.self_id; pa = announced_peer msg pa } ∷ [])
  unfolding accept_announce invoke_peer_callback send_krpc
  accept_announce-sent msg pa h c e = elim (Bool-cases c.has_callback) [
    | inl o ↦ simp (e, o) refl
    | inr o ↦ simp (e, o) refl
  ]

  accept_announce-IsAccepted :
      (msg : KrpcMessage) (pa : PeerAddress) (h : InfoHash) (c : DhtClient)
      → c.has_callback ≡ true
      → c.socket_open ≡ true
      → verify_token env.sha1 env.ip_address_bytes env.now msg.token pa.ip c.token_rotator ≡ true
      → IsAccepted msg pa h c (answer_announce env msg pa h c)
  unfolding answer_announce
  accept_announce-IsAccepted msg pa h c f o v =
      rw v (accept_announce-told msg pa h c f, accept_announce-sent msg pa h c o)

module _ (env : Env) where
  accepted :
      (later : ℕ) (secret : Bytes) (msg : KrpcMessage) (pa : PeerAddress) (c : DhtClient)
      (h : InfoHash)
      → msg.info_hash ≡ some h
      → c.has_callback ≡ true
      → c.socket_open ≡ true
      → is_empty c.token_rotator.current_secret ≡ false
      → msg.token ≡ issue_token env.sha1 env.ip_address_bytes pa.ip c.token_rotator
      → IsAccepted msg pa h c (on_announce_peer (at later secret env) msg pa c).1
  accepted later secret msg pa c h e f o n t =
      let r = (rotate_if_needed later (some secret) c.token_rotator).1 in
      let c' = record c { token_rotator = r } in
      let good : verify_token env.sha1 env.ip_address_bytes later msg.token pa.ip r ≡ true =
        subst (λ token. verify_token env.sha1 env.ip_address_bytes later token pa.ip r ≡ true)
          (sym t)
          (accepted_after env.sha1 env.ip_address_bytes later later (some secret) pa.ip
            c.token_rotator n (omega arith)) in
      subst (λ d. IsAccepted msg pa h c d.1) (sym (announced env later secret msg pa c h e))
        (accept_announce-IsAccepted (at later secret env) msg pa h c' f o good)

  rotated-is_full :
      (now : ℕ) (secret : Bytes) (msg : KrpcMessage) (pa : PeerAddress) (c : DhtClient)
      (h : InfoHash)
      → msg.info_hash ≡ some h
      → is_empty secret ≡ false
      → is_empty c.token_rotator.current_secret ≡ false
      → is_empty (on_get_peers (at now secret env) msg pa c).1.token_rotator.current_secret ≡ false
  rotated-is_full now secret msg pa c h e n k =
      let c' = record c {
        token_rotator = (rotate_if_needed now (some secret) c.token_rotator).1;
      } in
      subst (λ d. is_empty (d.1.token_rotator.current_secret) ≡ false)
        (sym (answered env now secret msg pa c h e))
        (ap (λ s. is_empty s.current_secret) (get_peers-rotator (at now secret env) msg pa h c')
          ∙ rotate_if_needed-secret now secret c.token_rotator n k)

  replied :
      (now : ℕ) (secret : Bytes) (msg : KrpcMessage) (pa : PeerAddress) (c : DhtClient)
      (h : InfoHash)
      → msg.info_hash ≡ some h
      → c.socket_open ≡ true
      → IsAnswered env msg pa c
          (issue_token env.sha1 env.ip_address_bytes pa.ip
            (on_get_peers (at now secret env) msg pa c).1.token_rotator)
          (on_get_peers (at now secret env) msg pa c).1
  replied now secret msg pa c h e o =
      let c' = record c {
        token_rotator = (rotate_if_needed now (some secret) c.token_rotator).1;
      } in
      subst
        (λ d.
          IsAnswered env msg pa c
            (issue_token env.sha1 env.ip_address_bytes pa.ip d.1.token_rotator) d.1)
        (sym (answered env now secret msg pa c h e))
        (subst
          (λ r.
            IsAnswered env msg pa c (issue_token env.sha1 env.ip_address_bytes pa.ip r)
              (answer_get_peers (at now secret env) msg pa h c'))
          (sym (get_peers-rotator (at now secret env) msg pa h c'))
          (answer_get_peers-IsAnswered (at now secret env) msg pa h c' o))

  -- The reply to a `get_peers` is one message, to the sender, with peers or with nodes, and with a
  -- token. That token is good for an announce from the same address at any later time, and in any
  -- later state in which the secret has not changed since, also where it changes by that announce:
  -- the torrents hear of the announced peer, and one response is sent, to the announced address. That
  -- is not the sender's address where the announce names a port of its own.
  -- The secrets are not empty, the generator gives one each time, a callback is set and the socket
  -- is open.
  pub on_announce_peer-on_get_peers :
      (now later : ℕ) (s1 s2 : Bytes) (msg ann : KrpcMessage) (pa : PeerAddress) (c d : DhtClient)
      (h k : InfoHash)
      → msg.info_hash ≡ some h
      → ann.info_hash ≡ some k
      → is_empty s1 ≡ false
      → is_empty c.token_rotator.current_secret ≡ false
      → c.socket_open ≡ true
      → d.token_rotator ≡ (on_get_peers (at now s1 env) msg pa c).1.token_rotator
      → d.has_callback ≡ true
      → d.socket_open ≡ true
      → ann.token ≡ issue_token env.sha1 env.ip_address_bytes pa.ip d.token_rotator
      → IsAnswered env msg pa c ann.token (on_get_peers (at now s1 env) msg pa c).1
        × IsAccepted ann pa k d (on_announce_peer (at later s2 env) ann pa d).1
  on_announce_peer-on_get_peers now later s1 s2 msg ann pa c d h k e g n l o same f o' t =
      let full = rotated-is_full now s1 msg pa c h e n l in
      let kept : is_empty d.token_rotator.current_secret ≡ false =
        ap (λ r. is_empty r.current_secret) same ∙ full in
      let token = t ∙ ap (issue_token env.sha1 env.ip_address_bytes pa.ip) same in
      (
        subst (λ u. IsAnswered env msg pa c u (on_get_peers (at now s1 env) msg pa c).1) (sym token)
            (replied now s1 msg pa c h e o),
        accepted later s2 ann pa d k g f o' kept t,
      )
