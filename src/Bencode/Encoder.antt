-- ===== src/Bencode/Encoder.antt =====
-- inc/bencode/bencode_encoder.h, src/bencode/bencode_encoder.cpp: the serialiser. The maps that
-- `dict` gets are ordered by their keys.
use bittorent_client.Common.{Bytes, List, [], ◌∷◌, ◌++◌, length}
use bittorent_client.Common.Int.{ℤ}
use bittorent_client.Common.Decimal.{to_string, to_string_ℤ}
use bittorent_client.Bencode.Types.{BType, BList, BDict, nil, item, end, entry}

unfoldable pub integer : ℤ → Bytes
integer v = (b'i' ∷ []) ++ (to_string_ℤ v ++ (b'e' ∷ []))

unfoldable pub string : Bytes → Bytes
string s = to_string (length s) ++ ((b':' ∷ []) ++ s)

unfoldable pub concat : List Bytes → Bytes
concat [] = []
concat (x ∷ xs) = x ++ concat xs

unfoldable pub list : List Bytes → Bytes
unfolding concat
list items = b'l' ∷ (concat items ++ (b'e' ∷ []))

unfoldable pub concat_entries : List (Bytes × Bytes) → Bytes
concat_entries [] = []
concat_entries ((k, v) ∷ entries) = string k ++ (v ++ concat_entries entries)

unfoldable pub dict : List (Bytes × Bytes) → Bytes
unfolding concat_entries
dict entries = b'd' ∷ (concat_entries entries ++ (b'e' ∷ []))

-- What the program does by hand for each of its messages: a value is encoded from its parts.
unfoldable mutual
  pub encode : BType → Bytes
  encode (BType.integer i) = integer i
  encode (BType.string s) = string s
  encode (BType.list l) = list (encode_items l)
  encode (BType.dictionary d) = dict (encode_entries d)

  pub encode_items : BList → List Bytes
  encode_items nil = []
  encode_items (item v l) = encode v ∷ encode_items l

  pub encode_entries : BDict → List (Bytes × Bytes)
  encode_entries end = []
  encode_entries (entry k v d) = (k, encode v) ∷ encode_entries d
