-- ===== src/Dht/DhtClient/Table.antt =====
-- src/dht/dht_client.cpp: the routing table under messages, from whatever node.
use bittorent_client.Common.{ℕ, true, ◌≡◌, refl, sym, ◌==◌, Bool-cases, inl, inr}
use mathlib.Core.Path.{subst}
use bittorent_client.PeerAddress.{PeerAddress}
use bittorent_client.Dht.RoutingTable.Invariant.{IsValid, add-IsValid}
use bittorent_client.Dht.Krpc.{KrpcMessage}
use bittorent_client.Dht.DhtClient.{
  Env, DhtClient, send_krpc, invoke_peer_callback, maybe_mark_bootstrap_complete,
  count_good_routing_entries,
}
use bittorent_client.Dht.DhtClient.Handlers.{handle_message}
use bittorent_client.Dht.DhtClient.Kept.{IsKept, handle_message-kept}

send_krpc-table :
    (msg : _) (pa : PeerAddress) (c : DhtClient)
    → (send_krpc msg pa c).routing_table ≡ c.routing_table
unfolding send_krpc
send_krpc-table msg pa c = elim (Bool-cases c.socket_open) [
  | inl o ↦ simp o refl
  | inr o ↦ simp o refl
]

tells-table :
    (hex : _) (pa : PeerAddress) (c : DhtClient)
    → (invoke_peer_callback hex pa c).routing_table ≡ c.routing_table
unfolding invoke_peer_callback
tells-table hex pa c = elim (Bool-cases c.has_callback) [
  | inl o ↦ simp o refl
  | inr o ↦ simp o refl
]

marks-table :
    (now : ℕ) (c : DhtClient)
    → (maybe_mark_bootstrap_complete now c).routing_table ≡ c.routing_table
unfolding maybe_mark_bootstrap_complete
marks-table now c = elim (Bool-cases c.bootstrap_complete) [
  | inl done ↦ simp done refl
  | inr waits ↦ simp waits (elim (Bool-cases (count_good_routing_entries now c == 0)) [
    | inl none_good ↦ simp none_good refl
    | inr good ↦ simp good refl
  ])
]

IsKept-IsValid : (env : Env) → IsKept env (λ c. IsValid c.routing_table)
IsKept-IsValid env = record {
  sends = λ msg pa c v. subst IsValid (sym (send_krpc-table msg pa c)) v;
  tells = λ hex pa c v. subst IsValid (sym (tells-table hex pa c)) v;
  adds = λ n c v. add-IsValid env.now true n c.routing_table v;
  marks = λ c v. subst IsValid (sym (marks-table env.now c)) v;
  changes = λ m s r a c v. v;
}

-- Whatever message arrives, a query, a response or an error, with any contents and from any sender,
-- a valid routing table stays valid: 160 buckets of at most eight nodes, each node once and in the
-- bucket of its distance.
pub handle_message-IsValid :
    (env : Env) (msg : KrpcMessage) (pa : PeerAddress) (c : DhtClient)
    → IsValid c.routing_table
    → IsValid (handle_message env msg pa c).1.routing_table
handle_message-IsValid env msg pa c v = handle_message-kept (IsKept-IsValid env) msg pa c v
