-- ===== src/Bencode/Parser/InfoBytes.antt =====
-- src/bencode/bencode_parser.cpp: the bytes that `parse` keeps, of which the info hash is taken.
use bittorent_client.Common.{
  ℕ, zero, suc, ◌+◌, ◌-◌, ◌*◌, ◌≤◌, ◌<◌, Bytes, true, false, ◌≡◌, refl, sym, ap, ◌∙◌, [], ◌∷◌, ◌++◌,
  append_assoc, some, ok, length, length-append, take, take-length-append, u64_mod, arith,
  if◌then◌else◌, inl, inr, Bool-cases,
}
use mathlib.Core.Path.{subst}
use bittorent_client.Common.ByteStrings.{
  bytes_eq, bytes_lt, bytes_eq-eq, bytes_lt_irrefl, bytes_eq_refl, bytes_eq_comm, bytes_lt_trans,
}
use bittorent_client.Bencode.Types.{BType, BDict, dictionary, end, entry, insert, find}
use bittorent_client.Bencode.Types.MapLaws.{IsMap, IsAbove, union, union-end}
use bittorent_client.Bencode.Encoder.{encode, encode_entries, concat_entries}
use bittorent_client.Bencode.Encoder
use bittorent_client.Bencode.Parser.{
  Cursor, cursor, get, get_from, peek, peek_from, parse_byte_string, parse_bencoding_type,
  parse_pairs, parse, info_key,
}
use bittorent_client.Bencode.Parser.Scalars.{parse_byte_string-string}
use bittorent_client.Bencode.Parser.Steps.{IsOpen, IsOpen-append}
use bittorent_client.Bencode.Parser.RoundTrip.{
  AreEntries, IsValue, needs_entries, needs_entries-le, entries_bytes, string-IsOpen,
  parse_bencoding_type-encode,
}

-- what is kept after the entries of a map
keep : Bytes → BDict → Bytes
keep raw end = raw
keep raw (entry k v d) = keep (if bytes_eq k info_key then encode v else raw) d

parse_pairs-entry :
    (f p : ℕ) (r s s' raw raw' : Bytes) (acc : BDict) (q q' : ℕ) (k : Bytes) (v : BType)
    {x : (BDict × Bytes) × Cursor}
    → IsOpen r
    → parse_byte_string (cursor p r) ≡ ok (k, cursor q s)
    → parse_bencoding_type f (cursor q s) ≡ ok (v, cursor q' s')
    → take (q' - q) s ≡ encode v
    → raw' ≡ (if bytes_eq k info_key then encode v else raw)
    → parse_pairs f (insert k v acc) raw' (cursor q' s') ≡ ok x
    → parse_pairs (suc f) acc raw (cursor p r) ≡ ok x
unfolding parse_pairs peek peek_from
parse_pairs-entry f p [] s s' raw raw' acc q q' k v h e e' t w z = absurd h
parse_pairs-entry f p (b ∷ r) s s' raw raw' acc q q' k v h e e' t w z = rw (h, e, e', t) (rw w at z)

parse_pairs-end :
    (f p : ℕ) (r raw : Bytes) (acc : BDict)
    → parse_pairs (suc f) acc raw (cursor p (b'e' ∷ r)) ≡ ok ((acc, raw), cursor (p + 1) r)
unfolding parse_pairs peek peek_from get get_from
parse_pairs-end f p r raw acc = refl

parse_pairs-encode :
    (d acc : BDict) (f : ℕ) (r raw : Bytes) (p q : ℕ)
    → AreEntries d
    → needs_entries d ≤ f
    → q ≡ p + length (entries_bytes d) + 1
    → q < u64_mod
    → parse_pairs f acc raw (cursor p (entries_bytes d ++ (b'e' ∷ r)))
      ≡ ok ((union acc d, keep raw d), cursor q r)
unfolding encode_entries concat_entries union keep
parse_pairs-encode end acc zero r raw p q w n e h = absurd (omega arith)
parse_pairs-encode (entry k v d) acc zero r raw p q w n e h = absurd (omega arith)
parse_pairs-encode end acc (suc f) r raw p q w n e h =
    parse_pairs-end f p r raw acc ∙ ap (λ (n : ℕ). ok ((acc, raw), cursor n r)) (omega (arith, e))
parse_pairs-encode (entry k v d) acc (suc f) r raw p q w n e h =
    let xs = Encoder.string k in
    let s = entries_bytes d ++ (b'e' ∷ r) in
    let m = length-append xs (encode v ++ entries_bytes d) in
    let m' = length-append (encode v) (entries_bytes d) in
    let key =
      parse_byte_string-string k (encode v ++ s) p (p + length xs) refl (omega (arith, e, m, h)) in
    let first =
      parse_bencoding_type-encode v f s (p + length xs) (p + length xs + length (encode v)) w.0
        (omega arith) refl (omega (arith, e, m, m', h)) in
    let rest =
      parse_pairs-encode d (insert k v acc) f r (if bytes_eq k info_key then encode v else raw)
        (p + length xs + length (encode v)) q w.1 (omega arith) (omega (arith, e, m, m')) h in
    rw
      (
        append_assoc xs (encode v ++ entries_bytes d) (b'e' ∷ r),
        append_assoc (encode v) (entries_bytes d) (b'e' ∷ r),
      )
      (parse_pairs-entry f p _ _ _ raw _ acc _ _ k v (IsOpen-append xs _ (string-IsOpen k)) key
        first (take-length-append (encode v) s (omega arith)) refl rest)

other : (k : Bytes) → bytes_lt info_key k ≡ true → bytes_eq k info_key ≡ false
other k a = elim (Bool-cases (bytes_eq k info_key)) [
  | inl same ↦ cc (bytes_eq-eq k info_key same, bytes_lt_irrefl k, a)
  | inr differs ↦ differs
]

IsAbove-trans : (j k : Bytes) (d : BDict) → bytes_lt j k ≡ true → IsAbove k d → IsAbove j d
IsAbove-trans j k end h a = tt
IsAbove-trans j k (entry i w d) h a = bytes_lt_trans j k i h a

-- Behind the info dictionary no entry has its key.
keep-above : (d : BDict) (raw : Bytes) → IsAbove info_key d → IsMap d → keep raw d ≡ raw
unfolding keep
keep-above end raw a m = refl
keep-above (entry k v d) raw a m =
    rw (other k a) (keep-above d raw (IsAbove-trans info_key k d a m.0) m.1)

keep-find :
    (d : BDict) (raw : Bytes) (v : BType)
    → IsMap d
    → find info_key d ≡ some v
    → keep raw d ≡ encode v
unfolding keep find
keep-find end raw v m h = cc
keep-find (entry k w d) raw v m h = elim (Bool-cases (bytes_eq info_key k)) [
  | inl same ↦
      let e : k ≡ info_key = sym (bytes_eq-eq info_key k same) in
      let there : some w ≡ some v = rw same at h in
      let above : IsAbove info_key d = subst (λ (j : Bytes). IsAbove j d) e m.0 in
      rw (e, bytes_eq_refl info_key) (keep-above d (encode w) above m.1 ∙ cc)
  | inr differs ↦ rw (bytes_eq_comm k info_key, differs) (keep-find d raw v m.1 (rw differs at h))
]

-- What `parse` keeps of an encoded dictionary is the dictionary and, as the bytes to hash, the
-- encoding of the value of its key `info`.
pub parse-encode :
    (d : BDict) (v : BType)
    → IsValue (dictionary d)
    → find info_key d ≡ some v
    → length (encode (dictionary d)) < u64_mod
    → parse (encode (dictionary d)) ≡ ok (d, encode v)
unfolding parse encode get get_from Encoder.dict
parse-encode d v w h l =
    let xs = entries_bytes d in
    let n = length-append xs (b'e' ∷ []) in
    let t =
      parse_pairs-encode d end (2 * length (b'd' ∷ (xs ++ (b'e' ∷ []))) + 1) [] [] 1 (length xs + 2)
        w.1 (omega (arith, needs_entries-le d, n)) (omega arith) (omega (arith, n, l)) in
    rw (t, union-end d w.0, keep-find d [] v w.0 h) refl
