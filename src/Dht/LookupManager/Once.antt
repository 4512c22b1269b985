-- ===== src/Dht/LookupManager/Once.antt =====
-- src/dht/get_peers_lookup_manager.cpp, `on_response`: a transaction is answered once.
use bittorent_client.Common.{
  ℕ, ◌-◌, ◌≡◌, refl, sym, ap, Bytes, false, Option, none, some, List, [], ◌∷◌, length, leb,
  Bool-cases, inl, inr,
}
use mathlib.Core.Path.{subst}
use mathlib.Core.List.{lookup}
use bittorent_client.Common.ByteStrings.{bytes_dec}
use bittorent_client.InfoHash.{InfoHash}
use bittorent_client.LruCache.Lookup.{IsUnique, lookup-unlink, unlink-IsUnique}
use bittorent_client.Dht.RoutingTable.{RoutingEntry, RoutingTable}
use bittorent_client.Dht.Krpc.{KrpcMessage}
use bittorent_client.Dht.KademliaLookup.{
  KademliaLookup, remove_pending_txn, merge_nodes, select_next_candidates,
}
use bittorent_client.Dht.LookupManager.{
  LookupManager, Pending, find_lookup, erase_txns, finish, finish_lookup, lookup_alpha,
  OutboundKrpc,
}
use bittorent_client.Dht.LookupManager.Steps.{
  lookup_should_finish, send_queries, store, settle, advance_found, advance_lookup, respond_found,
  on_lookup_response, continue_lookup, answer, routed, on_response,
}

-- The transactions of the map are distinct.
abbrev pub AreBound : LookupManager → Type 0
AreBound m = IsUnique bytes_dec m.pending_lookups

erase_txns-IsUnique :
    (txns : List Bytes) (p : Pending)
    → IsUnique bytes_dec p
    → IsUnique bytes_dec (erase_txns txns p)
unfolding erase_txns
erase_txns-IsUnique [] p u = u
erase_txns-IsUnique (txn ∷ txns) p u =
    erase_txns-IsUnique txns _ (unlink-IsUnique bytes_dec txn p u)

finish-AreBound :
    (hash : InfoHash) (m : LookupManager) (o : Option KademliaLookup)
    → AreBound m
    → AreBound (finish hash m o)
finish-AreBound hash m none u = u
finish-AreBound hash m (some l) u = erase_txns-IsUnique l.pending_txns m.pending_lookups u

finish_lookup-AreBound :
    (hash : InfoHash) (m : LookupManager) → AreBound m → AreBound (finish_lookup hash m)
unfolding finish_lookup
finish_lookup-AreBound hash m u = finish-AreBound hash m (find_lookup hash m) u

module _ (now : ℕ) (random_txn : ℕ → Bytes) (table : RoutingTable) where
  send_queries-AreBound :
      (hash : InfoHash) (nodes : List RoutingEntry) (l : KademliaLookup) (m : LookupManager)
      → AreBound m
      → AreBound (send_queries now random_txn table hash nodes l m).1.1
  unfolding send_queries
  send_queries-AreBound hash [] l m u = u
  send_queries-AreBound hash (n ∷ nodes) l m u =
      let txn = random_txn m.draws in
      send_queries-AreBound hash nodes _ _ (
        lookup-unlink bytes_dec txn m.pending_lookups u,
        unlink-IsUnique bytes_dec txn m.pending_lookups u,
      )

  settle-AreBound :
      (hash : InfoHash) (outbound : List OutboundKrpc) (l : KademliaLookup) (m : LookupManager)
      → AreBound m
      → AreBound (settle now random_txn table hash (outbound, (l, m))).1
  settle-AreBound hash [] l m u =
      let r = lookup_should_finish now random_txn table m.self_id hash l in
      elim (Bool-cases r.0) [
        | inl over ↦
            simp over (finish_lookup-AreBound hash (store now random_txn table hash r.1 m) u)
        | inr goes_on ↦ simp goes_on u
      ]
  settle-AreBound hash (o ∷ outbound) l m u = u

  advance_found-AreBound :
      (hash : InfoHash) (m : LookupManager) (o : Option KademliaLookup)
      → AreBound m
      → AreBound (advance_found now random_txn table hash m o).1
  advance_found-AreBound hash m none u = u
  advance_found-AreBound hash m (some l) u =
      let r = lookup_should_finish now random_txn table m.self_id hash l in
      let next = select_next_candidates (lookup_alpha - length r.1.pending_txns) r.1 in
      let sent = send_queries now random_txn table hash next.0 next.1 m in
      elim (Bool-cases r.0) [
        | inl over ↦
            simp over (finish_lookup-AreBound hash (store now random_txn table hash r.1 m) u)
        | inr goes_on ↦
            simp goes_on (elim (Bool-cases (leb lookup_alpha (length r.1.pending_txns))) [
              | inl full ↦ simp full u
              | inr room ↦ simp room (
                  settle-AreBound hash sent.0 sent.1.0 sent.1.1
                    (send_queries-AreBound hash next.0 next.1 m u))
            ])
      ]

  advance_lookup-AreBound :
      (hash : InfoHash) (m : LookupManager)
      → AreBound m
      → AreBound (advance_lookup now random_txn table hash m).1
  unfolding advance_lookup
  advance_lookup-AreBound hash m u = advance_found-AreBound hash m (find_lookup hash m) u

  respond_found-AreBound :
      (hash : InfoHash) (msg : KrpcMessage) (m : LookupManager) (o : Option KademliaLookup)
      → AreBound m
      → AreBound (respond_found now random_txn table hash msg m o)
  respond_found-AreBound hash msg m none u = u
  respond_found-AreBound hash msg m (some l) u =
      let heard = merge_nodes msg.nodes m.self_id (remove_pending_txn msg.txn l) in
      let r = lookup_should_finish now random_txn table m.self_id hash heard in
      elim (Bool-cases r.0) [
        | inl over ↦
            simp over (finish_lookup-AreBound hash (store now random_txn table hash r.1 m) u)
        | inr goes_on ↦ simp goes_on u
      ]

  on_lookup_response-AreBound :
      (msg : KrpcMessage) (hash : InfoHash) (m : LookupManager)
      → AreBound m
      → AreBound (on_lookup_response now random_txn table msg hash m)
  unfolding on_lookup_response
  on_lookup_response-AreBound msg hash m u =
      respond_found-AreBound hash msg m (find_lookup hash m) u

  continue_lookup-AreBound :
      (hash : InfoHash) (m : LookupManager) (o : Option KademliaLookup)
      → AreBound m
      → AreBound (continue_lookup now random_txn table hash m o).1
  continue_lookup-AreBound hash m none u = u
  continue_lookup-AreBound hash m (some l) u = advance_lookup-AreBound hash m u

  answer-AreBound :
      (hash : InfoHash) (msg : KrpcMessage) (m : LookupManager) (o : Option KademliaLookup)
      → AreBound m
      → AreBound (answer now random_txn table hash msg m o).1
  answer-AreBound hash msg m none u = u
  answer-AreBound hash msg m (some l) u =
      let m' = on_lookup_response now random_txn table msg hash m in
      continue_lookup-AreBound hash m' (find_lookup hash m')
        (on_lookup_response-AreBound msg hash m u)

  routed-unbound :
      (msg : KrpcMessage) (m : LookupManager) (o : Option (InfoHash × ℕ))
      → lookup bytes_dec msg.txn m.pending_lookups ≡ o
      → AreBound m
      → lookup bytes_dec msg.txn (routed now random_txn table msg m o).1.pending_lookups ≡ none
  routed-unbound msg m none e u = e
  routed-unbound msg m (some b) e u =
      let m' = (answer now random_txn table b.0 msg m (find_lookup b.0 m)).1 in
      lookup-unlink bytes_dec msg.txn m'.pending_lookups
        (answer-AreBound b.0 msg m (find_lookup b.0 m) u)

  on_response-unbound :
      (msg : KrpcMessage) (m : LookupManager)
      → AreBound m
      → lookup bytes_dec msg.txn (on_response now random_txn table msg m).1.pending_lookups ≡ none
  unfolding on_response
  on_response-unbound msg m u =
      routed-unbound msg m (lookup bytes_dec msg.txn m.pending_lookups) refl u

  unknown :
      (msg : KrpcMessage) (m : LookupManager)
      → lookup bytes_dec msg.txn m.pending_lookups ≡ none
      → on_response now random_txn table msg m ≡ (
        record { txn_known = false; info_hash = none; outbound = []; lookup_completed = false },
        m,
      )
  unfolding on_response
  unknown msg m e = ap (routed now random_txn table msg m) e

  -- A response is used once: when the transactions of the map are distinct, a second message with
  -- the transaction of a handled one, whatever else it says, is not known, sends nothing and
  -- changes nothing.
  pub on_response-again :
      (msg again : KrpcMessage) (m : LookupManager)
      → AreBound m
      → again.txn ≡ msg.txn
      → on_response now random_txn table again (on_response now random_txn table msg m).1 ≡ (
        record { txn_known = false; info_hash = none; outbound = []; lookup_completed = false },
        (on_response now random_txn table msg m).1,
      )
  on_response-again msg again m u e =
      let m' = (on_response now random_txn table msg m).1 in
      let gone : lookup bytes_dec again.txn m'.pending_lookups ≡ none =
        subst (λ t. lookup bytes_dec t m'.pending_lookups ≡ none) (sym e)
          (on_response-unbound msg m u) in
      unknown again m' gone
