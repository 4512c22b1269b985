-- ===== src/Bencode/Types/MapLaws.antt =====
-- inc/bencode/bencode_types.h: the order of keys, and what an insertion changes.
use bittorent_client.Common.{
  Bytes, true, false, ◌≡◌, refl, ap, ◌∙◌, some, arith, if◌then◌else◌, Bool-cases, inl, inr,
}
use mathlib.Core.Path.{subst, sym}
use bittorent_client.Common.ByteStrings.{
  bytes_lt, bytes_eq, bytes_eq-eq, bytes_eq_refl, bytes_lt_irrefl, bytes_lt_asymm, bytes_lt_trans,
  bytes_lt_connex,
}
use bittorent_client.Bencode.Types.{BType, BDict, end, entry, insert, find}

-- the keys of a map ascend
abbrev pub IsAbove : Bytes → BDict → Type 0
IsAbove k end = Unit {0}
IsAbove k (entry j w d) = bytes_lt k j ≡ true

abbrev pub IsMap : BDict → Type 0
IsMap end = Unit {0}
IsMap (entry k v d) = IsAbove k d × IsMap d

find-insert :
    (k j : Bytes) (v : BType) (d : BDict)
    → find j (insert k v d) ≡ (if bytes_eq j k then some v else find j d)
unfolding find insert
find-insert k j v end = refl
find-insert k j v (entry i w d) = ground (
  arith,
  find-insert k j v d,
  bytes_eq-eq k i,
  bytes_eq-eq j k,
  bytes_eq-eq j i,
  bytes_eq_refl k,
  bytes_eq_refl j,
)

IsAbove-insert :
    (i k : Bytes) (v : BType) (d : BDict)
    → bytes_lt i k ≡ true
    → IsAbove i d
    → IsAbove i (insert k v d)
unfolding insert
IsAbove-insert i k v end h a = h
IsAbove-insert i k v (entry j w d) h a = ground arith

above_of : (k j : Bytes) → bytes_lt k j ≡ false → bytes_eq k j ≡ false → bytes_lt j k ≡ true
above_of k j h other = elim (Bool-cases (bytes_lt j k)) [
  | inl above ↦ above
  | inr below ↦ cc (bytes_lt_connex k j h below, bytes_eq_refl j, other)
]

insert-IsMap : (k : Bytes) (v : BType) (d : BDict) → IsMap d → IsMap (insert k v d)
unfolding insert
insert-IsMap k v end m = (tt, tt)
insert-IsMap k v (entry j w d) m = elim (Bool-cases (bytes_lt k j)) [
  | inl below ↦ rw below (below, m)
  | inr above ↦ elim (Bool-cases (bytes_eq k j)) [
    | inl same ↦
        rw (above, same) (subst (λ (i : Bytes). IsAbove i d) (sym (bytes_eq-eq k j same)) m.0, m.1)
    | inr other ↦
        rw (above, other)
          (IsAbove-insert j k v d (above_of k j above other) m.0, insert-IsMap k v d m.1)
  ]
]

abbrev pub append : BDict → BDict → BDict
append end e = e
append (entry k v d) e = entry k v (append d e)

-- Entries inserted one after the other, as the parser meets them.
unfoldable pub union : BDict → BDict → BDict
union acc end = acc
union acc (entry k v d) = union (insert k v acc) d

append-end : (d : BDict) → append d end ≡ d
append-end end = refl
append-end (entry k v d) = ap (entry k v) (append-end d)

append_assoc : (c d e : BDict) → append (append c d) e ≡ append c (append d e)
append_assoc end d e = refl
append_assoc (entry k v c) d e = ap (entry k v) (append_assoc c d e)

-- the first key of a map is below the keys that follow
first_below :
    (j k : Bytes) (v : BType) (c d : BDict)
    → IsAbove j (append c (entry k v d))
    → IsMap (append c (entry k v d))
    → bytes_lt j k ≡ true
first_below j k v end d a m = a
first_below j k v (entry i w c) d a m = bytes_lt_trans j i k a (first_below i k v c d m.0 m.1)

insert-append :
    (k : Bytes) (v : BType) (c d : BDict)
    → IsMap (append c (entry k v d))
    → insert k v c ≡ append c (entry k v end)
unfolding insert
insert-append k v end d m = refl
insert-append k v (entry j w c) d m =
    let below = first_below j k v c d m.0 m.1 in
    let not_same : bytes_eq k j ≡ false = differ k j below in
    rw (bytes_lt_asymm j k below, not_same, insert-append k v c d m.1)
  where
    differ : (k j : Bytes) → bytes_lt j k ≡ true → bytes_eq k j ≡ false
    differ k j below = elim (Bool-cases (bytes_eq k j)) [
      | inl same ↦ cc (bytes_eq-eq k j same, bytes_lt_irrefl j, below)
      | inr other ↦ other
    ]

union-append : (c d : BDict) → IsMap (append c d) → union c d ≡ append c d
unfolding union
union-append c end m = sym (append-end c)
union-append c (entry k v d) m =
    let e = insert-append k v c d m in
    let same : append (append c (entry k v end)) d ≡ append c (entry k v d) =
      append_assoc c (entry k v end) d in
    rw e (union-append (append c (entry k v end)) d (rw same m) ∙ same)

-- A map is what comes of inserting its entries into an empty one.
pub union-end : (d : BDict) → IsMap d → union end d ≡ d
union-end = union-append end
