-- ===== src/Dht/DhtClient/Silence.antt =====
-- src/dht/dht_client.cpp, `send_krpc`: a node whose socket is closed.
use bittorent_client.Common.{ℕ, Bytes, false, List, ◌≡◌, refl, sym, ◌==◌, Bool-cases, inl, inr}
use mathlib.Core.Path.{subst}
use bittorent_client.PeerAddress.{PeerAddress}
use bittorent_client.Dht.Krpc.{KrpcMessage}
use bittorent_client.Dht.LookupManager.{OutboundKrpc}
use bittorent_client.Dht.DhtClient.{
  Env, DhtClient, send_krpc, invoke_peer_callback, maybe_mark_bootstrap_complete,
  count_good_routing_entries,
}
use bittorent_client.Dht.DhtClient.Handlers.{handle_message}
use bittorent_client.Dht.DhtClient.Kept.{IsKept, handle_message-kept}

-- The socket is closed, and nothing but this was sent.
abbrev pub IsSilent : List OutboundKrpc → DhtClient → Type 0
IsSilent sent c = (c.socket_open ≡ false) × (c.sent ≡ sent)

send_krpc-IsSilent :
    (sent : List OutboundKrpc) (msg : Bytes) (pa : PeerAddress) (c : DhtClient)
    → IsSilent sent c
    → IsSilent sent (send_krpc msg pa c)
unfolding send_krpc
send_krpc-IsSilent sent msg pa c s =
    let same : send_krpc msg pa c ≡ c = rw (s.0) refl in subst (IsSilent sent) (sym same) s

invoke_peer_callback-IsSilent :
    (sent : List OutboundKrpc) (hex : Bytes) (pa : PeerAddress) (c : DhtClient)
    → IsSilent sent c
    → IsSilent sent (invoke_peer_callback hex pa c)
unfolding invoke_peer_callback
invoke_peer_callback-IsSilent sent hex pa c s = elim (Bool-cases c.has_callback) [
  | inl o ↦ simp o s
  | inr o ↦ simp o s
]

maybe_mark_bootstrap_complete-IsSilent :
    (now : ℕ) (sent : List OutboundKrpc) (c : DhtClient)
    → IsSilent sent c
    → IsSilent sent (maybe_mark_bootstrap_complete now c)
unfolding maybe_mark_bootstrap_complete
maybe_mark_bootstrap_complete-IsSilent now sent c s = elim (Bool-cases c.bootstrap_complete) [
  | inl done ↦ simp done s
  | inr waits ↦ simp waits (elim (Bool-cases (count_good_routing_entries now c == 0)) [
    | inl none_good ↦ simp none_good s
    | inr good ↦ simp good s
  ])
]

IsKept-IsSilent : (env : Env) (sent : List OutboundKrpc) → IsKept env (IsSilent sent)
IsKept-IsSilent env sent = record {
  sends = send_krpc-IsSilent sent;
  tells = invoke_peer_callback-IsSilent sent;
  adds = λ n c s. s;
  marks = maybe_mark_bootstrap_complete-IsSilent env.now sent;
  changes = λ m t r a c s. s;
}

-- After `stop` has closed the socket, no message makes the node send anything, and the socket stays
-- closed.
pub handle_message-IsSilent :
    (env : Env) (msg : KrpcMessage) (pa : PeerAddress) (c : DhtClient)
    → c.socket_open ≡ false
    → IsSilent c.sent (handle_message env msg pa c).1
handle_message-IsSilent env msg pa c h =
    handle_message-kept (IsKept-IsSilent env c.sent) msg pa c (h, refl)
