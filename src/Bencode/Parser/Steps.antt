-- ===== src/Bencode/Parser/Steps.antt =====
-- src/bencode/bencode_parser.cpp: what the parser does with a first byte that it has a case for.
use bittorent_client.Common.{
  ℕ, suc, ◌+◌, Bytes, true, false, ◌≡◌, refl, [], ◌∷◌, ◌++◌, ok, arith, ◌==◌,
}
use bittorent_client.Common.Decimal.{is_digit}
use bittorent_client.Bencode.Types.{
  BType, BList, BDict, string, list, dictionary, nil, item, end, insert,
}
use bittorent_client.Bencode.Parser.{
  Cursor, cursor, get, get_from, peek, peek_from, parse_byte_string, parse_integer,
  parse_bencoding_type, parse_items, parse_entries,
}

module _ (f p : ℕ) (r : Bytes) where
  pub parse_integer_lem :
      parse_bencoding_type (suc f) (cursor p (b'i' ∷ r)) ≡ parse_integer (cursor p (b'i' ∷ r))
  unfolding parse_bencoding_type peek peek_from
  parse_integer_lem = refl

  pub parse_list_lem :
      {l : BList} {c : Cursor}
      → parse_items f (cursor (p + 1) r) ≡ ok (l, c)
      → parse_bencoding_type (suc f) (cursor p (b'l' ∷ r)) ≡ ok (list l, c)
  unfolding parse_bencoding_type peek peek_from get get_from
  parse_list_lem e = rw e refl

  pub parse_dictionary_lem :
      {d : BDict} {c : Cursor}
      → parse_entries f end (cursor (p + 1) r) ≡ ok (d, c)
      → parse_bencoding_type (suc f) (cursor p (b'd' ∷ r)) ≡ ok (dictionary d, c)
  unfolding parse_bencoding_type peek peek_from get get_from
  parse_dictionary_lem e = rw e refl

  pub parse_string_lem :
      (b : ℕ) {s : Bytes} {c : Cursor}
      → is_digit b ≡ true
      → parse_byte_string (cursor p (b ∷ r)) ≡ ok (s, c)
      → parse_bencoding_type (suc f) (cursor p (b ∷ r)) ≡ ok (string s, c)
  unfolding parse_bencoding_type peek peek_from
  parse_string_lem b h e =
      let i : (b == b'i') ≡ false = ground arith in
      let l : (b == b'l') ≡ false = ground arith in
      let d : (b == b'd') ≡ false = ground arith in rw (e, i, l, d, h) refl

  pub parse_items-nil : parse_items (suc f) (cursor p (b'e' ∷ r)) ≡ ok (nil, cursor (p + 1) r)
  unfolding parse_items peek peek_from get get_from
  parse_items-nil = refl

  pub parse_entries-end :
      (d : BDict) → parse_entries (suc f) d (cursor p (b'e' ∷ r)) ≡ ok (d, cursor (p + 1) r)
  unfolding parse_entries peek peek_from get get_from
  parse_entries-end d = refl

-- Bytes that do not begin with the byte that closes a list or a map.
abbrev pub IsOpen : Bytes → Type 0
IsOpen [] = ⊥
IsOpen (b ∷ r) = (b == b'e') ≡ false

pub IsOpen-append : (xs ys : Bytes) → IsOpen xs → IsOpen (xs ++ ys)
IsOpen-append [] ys h = absurd h
IsOpen-append (x ∷ xs) ys h = h

pub parse_items-item :
    (f p : ℕ) (r : Bytes) {v : BType} {l : BList} {c c' : Cursor}
    → IsOpen r
    → parse_bencoding_type f (cursor p r) ≡ ok (v, c)
    → parse_items f c ≡ ok (l, c')
    → parse_items (suc f) (cursor p r) ≡ ok (item v l, c')
unfolding parse_items peek peek_from
parse_items-item f p [] h e e' = absurd h
parse_items-item f p (b ∷ r) h e e' = rw (h, e, e') refl

pub parse_entries-entry :
    (f p : ℕ) (r : Bytes) (acc : BDict) {d : BDict} {k : Bytes} {v : BType} {c c' c'' : Cursor}
    → IsOpen r
    → parse_byte_string (cursor p r) ≡ ok (k, c)
    → parse_bencoding_type f c ≡ ok (v, c')
    → parse_entries f (insert k v acc) c' ≡ ok (d, c'')
    → parse_entries (suc f) acc (cursor p r) ≡ ok (d, c'')
unfolding parse_entries peek peek_from
parse_entries-entry f p [] acc h e e' e'' = absurd h
parse_entries-entry f p (b ∷ r) acc h e e' e'' = rw (h, e, e', e'') refl
