-- ===== src/Dht/RoutingTable/Invariant.antt =====
-- src/dht/routing_table.cpp: the invariant of the table, which `add` and `remove` keep.
use bittorent_client.Common.{
  ℕ, zero, suc, ◌+◌, ◌*◌, ◌<◌, ◌≤◌, ◌≡◌, refl, sym, ◌∙◌, Bool, true, false, Option, none, some,
  List, [], ◌∷◌, ltb, leb, ◌==◌, ==_iff, if◌then◌else◌, length, get_or, get_or-set, set, replicate,
  length-set, length-append, length-replicate, All, All-append, All-set, arith, Bool-cases, inl,
  inr, ◌⊎◌, ◌||◌,
}
use mathlib.Core.Path.{subst}
use bittorent_client.Common.ByteStrings.{bytes_eq}
use bittorent_client.Dht.NodeId.{NodeId, is_zero}
use bittorent_client.Dht.RoutingTable.{
  RoutingTable, size, total, RoutingEntry, num_buckets, k_nodes, bucket_index, bucket_at, new,
  find_in_bucket, close_gap, touch_bucket_entry, add_full, add_found, add_to_bucket, add,
  remove_found, remove_from_bucket, remove, replace_index, is_good,
}
use bittorent_client.Dht.RoutingTable.Entries.{
  IsUnique, append-IsUnique, close_gap-IsUnique, set_absent-IsUnique, set_found-IsUnique, find-set,
  find-close_gap, find_lt, length-close_gap, All-close_gap,
}

-- A bucket has `K` entries at most, no two of one node, all of the index that their node has.
abbrev pub IsBucket : NodeId → ℕ → List RoutingEntry → Type 0
IsBucket self_id b es =
    (length es ≤ k_nodes) × IsUnique es × All (λ e. bucket_index self_id e.id ≡ b) es

abbrev pub IsValid : RoutingTable → Type 0
IsValid t = (length t.buckets ≡ num_buckets) × ((b : ℕ) → IsBucket t.self_id b (bucket_at t b))

module _ (self_id : NodeId) (b now : ℕ) (entry : RoutingEntry)
    (home : bucket_index self_id entry.id ≡ b) where
  touched-IsBucket :
      (es : List RoutingEntry) (i : ℕ)
      → find_in_bucket es entry.id ≡ some i
      → IsBucket self_id b es
      → IsBucket self_id b (touch_bucket_entry es i entry)
  unfolding touch_bucket_entry
  touched-IsBucket es i h v =
      let written = set_found-IsUnique es i entry h v.1 in
      let found = find-set es i entry h in
      let homes = All-set (λ e. bucket_index self_id e.id ≡ b) es i entry home v.2 in
      elim (Bool-cases (leb (length es) i)) [
        | inl out ↦ rw out v
        | inr inside ↦ elim (Bool-cases (ltb (i + 1) (length es))) [
          | inl moves ↦
              rw (inside, moves)
                (
                  omega (
                    arith,
                    v.0,
                    length-append (close_gap (set es i entry) i) (entry ∷ []),
                    length-set es i entry,
                    length-close_gap (set es i entry) i (find_lt (set es i entry) i entry.id found),
                  ),
                  append-IsUnique (close_gap (set es i entry) i) entry
                      (find-close_gap (set es i entry) i entry.id written found)
                      (close_gap-IsUnique (set es i entry) i written),
                  All-append (λ e. bucket_index self_id e.id ≡ b) (close_gap (set es i entry) i) _
                      (All-close_gap (λ e. bucket_index self_id e.id ≡ b) (set es i entry) i homes)
                      (home, tt),
                )
          | inr last ↦ rw (inside, last) (omega (arith, v.0, length-set es i entry), written, homes)
        ]
      ]

  set-IsBucket :
      (es : List RoutingEntry) (i : ℕ)
      → find_in_bucket es entry.id ≡ some i
      → IsBucket self_id b es
      → IsBucket self_id b (set es i entry)
  set-IsBucket es i h v = (
    omega (arith, v.0, length-set es i entry),
    set_found-IsUnique es i entry h v.1,
    All-set (λ e. bucket_index self_id e.id ≡ b) es i entry home v.2,
  )

  add_full-IsBucket :
      (es : List RoutingEntry)
      → find_in_bucket es entry.id ≡ none
      → IsBucket self_id b es
      → IsBucket self_id b (add_full now es entry)
  unfolding add_full
  add_full-IsBucket es h v =
      let i = replace_index es in
      elim (Bool-cases (is_good now (get_or es i entry))) [
        | inl good ↦ rw good v
        | inr stale ↦ rw stale (
          omega (arith, v.0, length-set es i entry),
          set_absent-IsUnique es i entry h v.1,
          All-set (λ e. bucket_index self_id e.id ≡ b) es i entry home v.2,
        )
      ]

  add_found-IsBucket :
      (es : List RoutingEntry) (o : Option ℕ)
      → find_in_bucket es entry.id ≡ o
      → IsBucket self_id b es
      → IsBucket self_id b (add_found now es entry o)
  add_found-IsBucket es (some i) h v =
      touched-IsBucket (set es i entry) i (find-set es i entry h) (set-IsBucket es i h v)
  add_found-IsBucket es none h v = elim (Bool-cases (ltb (length es) k_nodes)) [
    | inl room ↦ rw room (
      ground (arith, length-append es (entry ∷ [])),
      append-IsUnique es entry h v.1,
      All-append (λ e. bucket_index self_id e.id ≡ b) es _ v.2 (home, tt),
    )
    | inr full ↦ rw full (add_full-IsBucket es h v)
  ]

remove_found-IsBucket :
    (self_id : NodeId) (b : ℕ) (es : List RoutingEntry) (id : NodeId) (o : Option ℕ)
    → find_in_bucket es id ≡ o
    → IsBucket self_id b es
    → IsBucket self_id b (remove_found es o)
remove_found-IsBucket self_id b es id none h v = v
remove_found-IsBucket self_id b es id (some i) h v = (
  omega (arith, v.0, length-close_gap es i (find_lt es i id h)),
  close_gap-IsUnique es i v.1,
  All-close_gap (λ e. bucket_index self_id e.id ≡ b) es i v.2,
)

-- writing one bucket
set_bucket-IsValid :
    (t : RoutingTable) (b : ℕ) (es : List RoutingEntry)
    → b < num_buckets
    → IsBucket t.self_id b es
    → IsValid t
    → IsValid (record t { buckets = set t.buckets b es })
set_bucket-IsValid t b es lt h v = (
  length-set t.buckets b es ∙ v.0,
  λ c.
      subst (λ x. IsBucket t.self_id c x)
        (sym (get_or-set t.buckets b c es [] (omega (arith, v.0)))) (one c (Bool-cases (b == c))),
)
  where
    one :
        (c : ℕ)
        → (((b == c) ≡ true) ⊎ ((b == c) ≡ false))
        → IsBucket t.self_id c (if b == c then es else get_or t.buckets c [])
    one c (inl same) = rw same (subst (λ c. IsBucket t.self_id c es) ((==_iff b c).0 same) h)
    one c (inr other) = rw other (v.1 c)

-- An entry from the network, known or not, keeps the table well-formed: `K` entries in a bucket at
-- most, one for a node, each in the bucket of its distance.
pub add-IsValid :
    (now : ℕ) (count_as_received : Bool) (entry : RoutingEntry) (t : RoutingTable)
    → IsValid t
    → IsValid (add now count_as_received entry t)
unfolding add add_to_bucket
add-IsValid now count entry t v =
    let b = bucket_index t.self_id entry.id in
    let es = bucket_at t b in
    elim (Bool-cases (bytes_eq entry.id t.self_id || is_zero entry.id)) [
      | inl refused ↦ rw refused v
      | inr ok ↦ elim (Bool-cases (leb num_buckets b)) [
        | inl out ↦ rw (ok, out) v
        | inr inside ↦
            rw (ok, inside)
              (set_bucket-IsValid t b (add_to_bucket now es entry) (ground arith)
                (add_found-IsBucket t.self_id b now entry refl es (find_in_bucket es entry.id) refl
                  (v.1 b))
                v)
      ]
    ]

-- Removing a node keeps the table well-formed.
pub remove-IsValid : (id : NodeId) (t : RoutingTable) → IsValid t → IsValid (remove id t)
unfolding remove remove_from_bucket
remove-IsValid id t v =
    let b = bucket_index t.self_id id in
    let es = bucket_at t b in
    elim (Bool-cases (leb num_buckets b)) [
      | inl out ↦ rw out v
      | inr inside ↦ rw inside (
          set_bucket-IsValid t b (remove_from_bucket es id) (ground arith)
            (remove_found-IsBucket t.self_id b es id (find_in_bucket es id) refl (v.1 b)) v)
    ]

abbrev none_yet : List RoutingEntry
none_yet = []

get_or-replicate : (n b : ℕ) → get_or (replicate n none_yet) b [] ≡ none_yet
get_or-replicate zero b = refl
get_or-replicate (suc n) zero = refl
get_or-replicate (suc n) (suc b) = get_or-replicate n b

pub new-IsValid : (self_id : NodeId) → IsValid (new self_id)
new-IsValid self_id = (
  length-replicate num_buckets none_yet,
  λ b. subst (IsBucket self_id b) (sym (get_or-replicate num_buckets b)) (omega arith, tt, tt),
)

total-le :
    (buckets : List (List RoutingEntry))
    → ((b : ℕ) → length (get_or buckets b []) ≤ k_nodes)
    → total buckets ≤ k_nodes * length buckets
unfolding total
total-le [] h = omega arith
total-le (es ∷ buckets) h = omega (arith, h 0, total-le buckets (λ b. h (suc b)))

-- A well-formed table has 1280 entries at most.
pub size-le : (t : RoutingTable) → IsValid t → size t ≤ 1280
size-le t v = omega (arith, v.0, total-le t.buckets (λ b. (v.1 b).0))
