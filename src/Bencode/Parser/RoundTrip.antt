-- ===== src/Bencode/Parser/RoundTrip.antt =====
-- src/bencode/bencode_parser.cpp and bencode_encoder.cpp: the parser reads back what the encoder
-- wrote.
use bittorent_client.Common.{
  ℕ, zero, suc, ◌+◌, ◌*◌, ◌≤◌, ◌<◌, Bytes, true, ◌≡◌, refl, ap, ◌∙◌, [], ◌∷◌, ◌++◌, append_assoc,
  append-nil, ok, length, length-append, u64_mod, arith,
}
use bittorent_client.Common.Int.{ℤ, IsInt64}
use bittorent_client.Common.Decimal.{to_string_ℤ, to_string_lem, is_digit}
use bittorent_client.Bencode.Types.{
  BType, BList, BDict, list, dictionary, nil, item, end, entry, insert,
}
use bittorent_client.Bencode.Types.MapLaws.{IsMap, union, union-end}
use bittorent_client.Bencode.Encoder.{encode, encode_items, encode_entries, concat, concat_entries}
use bittorent_client.Bencode.Encoder
use bittorent_client.Bencode.Parser.{
  cursor, parse_bencoding_type, parse_items, parse_entries, parse_value,
}
use bittorent_client.Bencode.Parser.Scalars.{parse_byte_string-string, parse_integer-integer}
use bittorent_client.Bencode.Parser.Steps.{
  IsOpen, IsOpen-append, parse_integer_lem, parse_list_lem, parse_dictionary_lem, parse_string_lem,
  parse_items-item, parse_items-nil, parse_entries-end, parse_entries-entry,
}

-- What the encoder can be given: integers of 64 bits, and maps with ascending keys.
abbrev mutual
  pub IsValue : BType → Type 0
  IsValue (BType.integer i) = IsInt64 i
  IsValue (BType.string s) = Unit {0}
  IsValue (list l) = AreItems l
  IsValue (dictionary d) = IsMap d × AreEntries d

  pub AreItems : BList → Type 0
  AreItems nil = Unit {0}
  AreItems (item v l) = IsValue v × AreItems l

  pub AreEntries : BDict → Type 0
  AreEntries end = Unit {0}
  AreEntries (entry k v d) = IsValue v × AreEntries d

-- the calls that reading a value nests
abbrev mutual
  pub need : BType → ℕ
  need (BType.integer i) = 1
  need (BType.string s) = 1
  need (list l) = suc (needs l)
  need (dictionary d) = suc (needs_entries d)

  pub needs : BList → ℕ
  needs nil = 1
  needs (item v l) = suc (need v + needs l)

  pub needs_entries : BDict → ℕ
  needs_entries end = 1
  needs_entries (entry k v d) = suc (need v + needs_entries d)

abbrev items_bytes : BList → Bytes
items_bytes l = concat (encode_items l)

abbrev pub entries_bytes : BDict → Bytes
entries_bytes d = concat_entries (encode_entries d)

string-eq-cons :
    (s : Bytes) → (b : ℕ) × (r : Bytes) × (Encoder.string s ≡ b ∷ r) × (is_digit b ≡ true)
unfolding Encoder.string
string-eq-cons s =
    let (c, cs, e, d, _) = to_string_lem (length s) in
    (c, cs ++ (b':' ∷ s), ap (λ (ds : Bytes). ds ++ (b':' ∷ s)) e, ground (arith, d.0))

pub string-IsOpen : (s : Bytes) → IsOpen (Encoder.string s)
string-IsOpen s = let (c, cs, e, d) = string-eq-cons s in rw e (ground arith)

encode-IsOpen : (v : BType) → IsOpen (encode v)
unfolding encode Encoder.integer Encoder.list Encoder.dict
encode-IsOpen (BType.integer i) = refl
encode-IsOpen (BType.string s) = string-IsOpen s
encode-IsOpen (list l) = refl
encode-IsOpen (dictionary d) = refl

mutual
  unfolding encode encode_items encode_entries concat concat_entries union Encoder.integer
      Encoder.list Encoder.dict

  need-le : (v : BType) → need v + 1 ≤ 2 * length (encode v)
  need-le (BType.integer i) = omega (arith, length-append (to_string_ℤ i) (b'e' ∷ []))
  need-le (BType.string s) = let (c, cs, e, d) = string-eq-cons s in rw e (omega arith)
  need-le (list l) = omega (arith, needs-le l, length-append (items_bytes l) (b'e' ∷ []))
  need-le (dictionary d) =
      omega (arith, needs_entries-le d, length-append (entries_bytes d) (b'e' ∷ []))

  needs-le : (l : BList) → needs l ≤ 2 * length (items_bytes l) + 1
  needs-le nil = omega arith
  needs-le (item v l) =
      omega (arith, need-le v, needs-le l, length-append (encode v) (items_bytes l))

  pub needs_entries-le : (d : BDict) → needs_entries d ≤ 2 * length (entries_bytes d) + 1
  needs_entries-le end = omega arith
  needs_entries-le (entry k v d) = omega (
    arith,
    need-le v,
    needs_entries-le d,
    length-append (Encoder.string k) (encode v ++ entries_bytes d),
    length-append (encode v) (entries_bytes d),
  )

parse_bencoding_type-integer :
    (i : ℤ) (f : ℕ) (r : Bytes) (p q : ℕ)
    → IsInt64 i
    → q ≡ p + length (Encoder.integer i)
    → parse_bencoding_type (suc f) (cursor p (Encoder.integer i ++ r))
      ≡ ok (BType.integer i, cursor q r)
unfolding Encoder.integer
parse_bencoding_type-integer i f r p q w e =
    parse_integer_lem f p _ ∙ parse_integer-integer i r p q w e

need-pos : (v : BType) → 1 ≤ need v
need-pos (BType.integer i) = omega arith
need-pos (BType.string s) = omega arith
need-pos (list l) = omega arith
need-pos (dictionary d) = omega arith

mutual
  unfolding encode encode_items encode_entries concat concat_entries union Encoder.list Encoder.dict

  pub parse_bencoding_type-encode :
      (v : BType) (f : ℕ) (r : Bytes) (p q : ℕ)
      → IsValue v
      → need v ≤ f
      → q ≡ p + length (encode v)
      → q < u64_mod
      → parse_bencoding_type f (cursor p (encode v ++ r)) ≡ ok (v, cursor q r)
  parse_bencoding_type-encode v zero r p q w n e h = absurd (omega (arith, need-pos v))
  parse_bencoding_type-encode (BType.integer i) (suc f) r p q w n e h =
      parse_bencoding_type-integer i f r p q w e
  parse_bencoding_type-encode (BType.string s) (suc f) r p q w n e h =
      let (b, bs, e', d) = string-eq-cons s in
      rw e' (parse_string_lem f p (bs ++ r) b d (rw e' at (parse_byte_string-string s r p q e h)))
  parse_bencoding_type-encode (list l) (suc f) r p q w n e h =
      rw (append_assoc (items_bytes l) (b'e' ∷ []) r) (
        parse_list_lem f p _ (
          parse_items-encode l f r (p + 1) q w (omega arith)
            (omega (arith, e, length-append (items_bytes l) (b'e' ∷ []))) h))
  parse_bencoding_type-encode (dictionary d) (suc f) r p q w n e h =
      rw (append_assoc (entries_bytes d) (b'e' ∷ []) r) (
        parse_dictionary_lem f p _ (
          parse_entries-encode d end f r (p + 1) q w.1 (omega arith)
            (omega (arith, e, length-append (entries_bytes d) (b'e' ∷ []))) h
          ∙ ap (λ (m : BDict). ok (m, cursor q r)) (union-end d w.0)))

  parse_items-encode :
      (l : BList) (f : ℕ) (r : Bytes) (p q : ℕ)
      → AreItems l
      → needs l ≤ f
      → q ≡ p + length (items_bytes l) + 1
      → q < u64_mod
      → parse_items f (cursor p (items_bytes l ++ (b'e' ∷ r))) ≡ ok (l, cursor q r)
  parse_items-encode nil zero r p q w n e h = absurd (omega arith)
  parse_items-encode (item v l) zero r p q w n e h = absurd (omega arith)
  parse_items-encode nil (suc f) r p q w n e h =
      parse_items-nil f p r ∙ ap (λ (n : ℕ). ok (nil, cursor n r)) (omega (arith, e))
  parse_items-encode (item v l) (suc f) r p q w n e h =
      let m = length-append (encode v) (items_bytes l) in
      let first =
        parse_bencoding_type-encode v f (items_bytes l ++ (b'e' ∷ r)) p (p + length (encode v)) w.0
          (omega arith) refl (omega (arith, e, m, h)) in
      let rest =
        parse_items-encode l f r (p + length (encode v)) q w.1 (omega arith) (omega (arith, e, m))
          h in
      rw (append_assoc (encode v) (items_bytes l) (b'e' ∷ r))
        (parse_items-item f p _ (IsOpen-append (encode v) _ (encode-IsOpen v)) first rest)

  parse_entries-encode :
      (d acc : BDict) (f : ℕ) (r : Bytes) (p q : ℕ)
      → AreEntries d
      → needs_entries d ≤ f
      → q ≡ p + length (entries_bytes d) + 1
      → q < u64_mod
      → parse_entries f acc (cursor p (entries_bytes d ++ (b'e' ∷ r)))
        ≡ ok (union acc d, cursor q r)
  parse_entries-encode end acc zero r p q w n e h = absurd (omega arith)
  parse_entries-encode (entry k v d) acc zero r p q w n e h = absurd (omega arith)
  parse_entries-encode end acc (suc f) r p q w n e h =
      parse_entries-end f p r acc ∙ ap (λ (n : ℕ). ok (acc, cursor n r)) (omega (arith, e))
  parse_entries-encode (entry k v d) acc (suc f) r p q w n e h =
      let xs = Encoder.string k in
      let m = length-append xs (encode v ++ entries_bytes d) in
      let m' = length-append (encode v) (entries_bytes d) in
      let key =
        parse_byte_string-string k (encode v ++ (entries_bytes d ++ (b'e' ∷ r))) p (p + length xs)
          refl (omega (arith, e, m, h)) in
      let first =
        parse_bencoding_type-encode v f (entries_bytes d ++ (b'e' ∷ r)) (p + length xs)
          (p + length xs + length (encode v)) w.0 (omega arith) refl (omega (arith, e, m, m', h)) in
      let rest =
        parse_entries-encode d (insert k v acc) f r (p + length xs + length (encode v)) q w.1
          (omega arith) (omega (arith, e, m, m')) h in
      rw
        (
          append_assoc xs (encode v ++ entries_bytes d) (b'e' ∷ r),
          append_assoc (encode v) (entries_bytes d) (b'e' ∷ r),
        )
        (parse_entries-entry f p _ acc (IsOpen-append xs _ (string-IsOpen k)) key first rest)

-- A value whose encoding is shorter than 2^64 bytes is read back from its encoding, to the last byte.
pub parse_value-encode :
    (v : BType)
    → IsValue v
    → length (encode v) < u64_mod
    → parse_value (encode v) ≡ ok (v, cursor (length (encode v)) [])
unfolding parse_value
parse_value-encode v w h = rw (append-nil (encode v)) at (
    parse_bencoding_type-encode v (2 * length (encode v) + 1) [] 0 (length (encode v)) w
      (omega (arith, need-le v)) (omega arith) h)
