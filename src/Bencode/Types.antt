-- ===== src/Bencode/Types.antt =====
-- inc/bencode/bencode_types.h: bencoded values. A `std::map` is the list of its entries by
-- ascending keys, which are compared byte by byte.
pub mod MapLaws
use bittorent_client.Common.{
  ℕ, zero, suc, Bytes, Bool, true, false, not, ◌||◌, ◌&&◌, Option, none, some, [], ◌∷◌, Result, ok,
  err, runtime_error, out_of_range, ltb, ◌==◌, if◌then◌else◌,
}
use bittorent_client.Common.Int.{ℤ}
use bittorent_client.Common.ByteStrings.{bytes_lt, bytes_eq}

-- `BList` and `BDict` hold values in turn.
mutual
  pub data BType : Type 0 where
    integer : ℤ → BType
    string : Bytes → BType
    list : BList → BType
    dictionary : BDict → BType

  pub data BList : Type 0 where
    nil : BList
    item : BType → BList → BList

  pub data BDict : Type 0 where
    end : BDict
    entry : Bytes → BType → BDict → BDict

-- `content[key] = value`
unfoldable pub insert : Bytes → BType → BDict → BDict
insert k v end = entry k v end
insert k v (entry j w d) =
    if bytes_lt k j
    then entry k v (entry j w d)
    else if bytes_eq k j
    then entry k v d
    else entry j w (insert k v d)

-- `content.find(key)`
unfoldable pub find : Bytes → BDict → Option BType
find k end = none
find k (entry j w d) = if bytes_eq k j then some w else find k d

unfoldable pub has_key : Bytes → BDict → Bool
has_key k d = elim (find k d) [ none ↦ false | some _ ↦ true ]

-- `d[key]`, which throws for a missing key
unfoldable pub at : BDict → Bytes → Result BType
at d k = elim (find k d) [ none ↦ err out_of_range | some v ↦ ok v ]

-- `as<T>(value)` for each `T`
unfoldable pub as_integer : BType → Result ℤ
as_integer (integer i) = ok i
as_integer _ = err runtime_error

unfoldable pub as_string : BType → Result Bytes
as_string (string s) = ok s
as_string _ = err runtime_error

unfoldable pub as_list : BType → Result BList
as_list (list l) = ok l
as_list _ = err runtime_error

unfoldable pub as_dictionary : BType → Result BDict
as_dictionary (dictionary d) = ok d
as_dictionary _ = err runtime_error

-- `get_val<T>(key)`: a missing key and a value of another type throw
abbrev pub get_val {ℓ} : {A : Type ℓ} → (BType → Result A) → BDict → Bytes → Result A
get_val cast d k = elim (find k d) [ none ↦ err runtime_error | some v ↦ cast v ]
