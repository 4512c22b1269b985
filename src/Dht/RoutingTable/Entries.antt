-- ===== src/Dht/RoutingTable/Entries.antt =====
-- src/dht/routing_table.cpp: what the operations do to the entries of one bucket.
use bittorent_client.Common.{
  ℕ, zero, suc, ◌+◌, ◌<◌, ◌≡◌, refl, false, none, some, List, [], ◌∷◌, ◌++◌, length, set, All,
  arith,
}
use bittorent_client.Common.ByteStrings.{bytes_eq, bytes_eq-eq, bytes_eq_comm, bytes_eq_refl}
use bittorent_client.Dht.NodeId.{NodeId}
use bittorent_client.Dht.RoutingTable.{RoutingEntry, find_in_bucket, close_gap}

-- No node has two entries.
abbrev pub IsUnique : List RoutingEntry → Type 0
IsUnique [] = Unit {0}
IsUnique (e ∷ es) = (find_in_bucket es e.id ≡ none) × IsUnique es

none-set :
    (es : List RoutingEntry) (i : ℕ) (entry : RoutingEntry) (q : NodeId)
    → find_in_bucket es q ≡ none
    → bytes_eq entry.id q ≡ false
    → find_in_bucket (set es i entry) q ≡ none
unfolding find_in_bucket
none-set [] i entry q h n = refl
none-set (e ∷ es) zero entry q h n = ground arith
none-set (e ∷ es) (suc i) entry q h n = ground (arith, none-set es i entry q)

none-close_gap :
    (es : List RoutingEntry) (i : ℕ) (q : NodeId)
    → find_in_bucket es q ≡ none
    → find_in_bucket (close_gap es i) q ≡ none
unfolding find_in_bucket close_gap
none-close_gap [] i q h = refl
none-close_gap (e ∷ es) zero q h = ground arith
none-close_gap (e ∷ es) (suc i) q h = ground (arith, none-close_gap es i q)

none-append :
    (es : List RoutingEntry) (entry : RoutingEntry) (q : NodeId)
    → find_in_bucket es q ≡ none
    → bytes_eq entry.id q ≡ false
    → find_in_bucket (es ++ (entry ∷ [])) q ≡ none
unfolding find_in_bucket
none-append [] entry q h n = ground arith
none-append (e ∷ es) entry q h n = ground (arith, none-append es entry q)

pub append-IsUnique :
    (es : List RoutingEntry) (entry : RoutingEntry)
    → find_in_bucket es entry.id ≡ none
    → IsUnique es
    → IsUnique (es ++ (entry ∷ []))
unfolding find_in_bucket
append-IsUnique [] entry h u = (refl, tt)
append-IsUnique (e ∷ es) entry h u = (
  none-append es entry e.id u.0 (ground (arith, bytes_eq_comm e.id entry.id)),
  append-IsUnique es entry (ground arith) u.1,
)

pub close_gap-IsUnique : (es : List RoutingEntry) (i : ℕ) → IsUnique es → IsUnique (close_gap es i)
unfolding close_gap
close_gap-IsUnique [] i u = tt
close_gap-IsUnique (e ∷ es) zero u = u.1
close_gap-IsUnique (e ∷ es) (suc i) u = (none-close_gap es i e.id u.0, close_gap-IsUnique es i u.1)

pub set_absent-IsUnique :
    (es : List RoutingEntry) (i : ℕ) (entry : RoutingEntry)
    → find_in_bucket es entry.id ≡ none
    → IsUnique es
    → IsUnique (set es i entry)
unfolding find_in_bucket
set_absent-IsUnique [] i entry h u = tt
set_absent-IsUnique (e ∷ es) zero entry h u = (ground arith, u.1)
set_absent-IsUnique (e ∷ es) (suc i) entry h u = (
  none-set es i entry e.id u.0 (ground (arith, bytes_eq_comm e.id entry.id)),
  set_absent-IsUnique es i entry (ground arith) u.1,
)

pub set_found-IsUnique :
    (es : List RoutingEntry) (i : ℕ) (entry : RoutingEntry)
    → find_in_bucket es entry.id ≡ some i
    → IsUnique es
    → IsUnique (set es i entry)
unfolding find_in_bucket
set_found-IsUnique [] i entry h u = tt
set_found-IsUnique (e ∷ es) zero entry h u = (ground (arith, u.0, bytes_eq-eq e.id entry.id), u.1)
set_found-IsUnique (e ∷ es) (suc i) entry h u = (
  none-set es i entry e.id u.0 (ground (arith, bytes_eq_comm e.id entry.id)),
  set_found-IsUnique es i entry (ground arith) u.1,
)

pub find-set :
    (es : List RoutingEntry) (i : ℕ) (entry : RoutingEntry)
    → find_in_bucket es entry.id ≡ some i
    → find_in_bucket (set es i entry) entry.id ≡ some i
unfolding find_in_bucket
find-set [] i entry h = h
find-set (e ∷ es) zero entry h = ground (arith, bytes_eq_refl entry.id)
find-set (e ∷ es) (suc i) entry h = ground (arith, find-set es i entry)

pub find-close_gap :
    (es : List RoutingEntry) (i : ℕ) (q : NodeId)
    → IsUnique es
    → find_in_bucket es q ≡ some i
    → find_in_bucket (close_gap es i) q ≡ none
unfolding find_in_bucket close_gap
find-close_gap [] i q u h = refl
find-close_gap (e ∷ es) zero q u h = ground (arith, u.0, bytes_eq-eq e.id q)
find-close_gap (e ∷ es) (suc i) q u h = ground (arith, find-close_gap es i q u.1)

pub find_lt :
    (es : List RoutingEntry) (i : ℕ) (q : NodeId) → find_in_bucket es q ≡ some i → i < length es
unfolding find_in_bucket
find_lt [] i q h = cc
find_lt (e ∷ es) zero q h = omega arith
find_lt (e ∷ es) (suc i) q h = ground (arith, find_lt es i q)

pub length-close_gap :
    (es : List RoutingEntry) (i : ℕ) → i < length es → length (close_gap es i) + 1 ≡ length es
unfolding close_gap
length-close_gap [] i h = absurd (omega arith)
length-close_gap (e ∷ es) zero h = omega arith
length-close_gap (e ∷ es) (suc i) h = omega (arith, length-close_gap es i (omega arith))

pub All-close_gap :
    (P : RoutingEntry → Type 0) (es : List RoutingEntry) (i : ℕ) → All P es → All P (close_gap es i)
unfolding close_gap
All-close_gap P [] i h = tt
All-close_gap P (e ∷ es) zero h = h.1
All-close_gap P (e ∷ es) (suc i) h = (h.0, All-close_gap P es i h.1)
