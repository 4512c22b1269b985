-- ===== src/Bencode/Parser.antt =====
-- inc/bencode/bencode_parser.h, src/bencode/bencode_parser.cpp: the parser. Its state is `pos` and
-- what `metadata` holds from there on. The position in an error's text is not modelled.
pub mod Scalars
pub mod Steps
pub mod Fuel
pub mod RoundTrip
pub mod InfoBytes
use bittorent_client.Common.{
  ℕ, zero, suc, ◌+◌, ◌-◌, ◌*◌, ◌%◌, Bytes, Bool, true, false, not, ◌&&◌, ◌||◌, [], ◌∷◌, Result, ok,
  err, runtime_error, length_error, out_of_fuel, ◌>>=◌, ◌>>◌, throw_if, ltb, leb, ◌==◌,
  if◌then◌else◌, length, take, drop, u64_mod,
}
use bittorent_client.Common.ByteStrings.{bytes_eq}
use bittorent_client.Common.Decimal.{is_digit, stoul, stoll}
use bittorent_client.Bencode.Types.{
  BType, BList, BDict, integer, string, list, dictionary, nil, item, end, entry, insert,
}

pub record Cursor : Type 0 where
  pub pos : ℕ
  pub rest : Bytes

abbrev pub cursor : ℕ → Bytes → Cursor
cursor pos rest = record { pos = pos; rest = rest }

abbrev pub Parsed : Type 0 → Type 0
Parsed A = Result (A × Cursor)

-- `get()` and `peek()`, by what is left
get_from : ℕ → Bytes → Parsed ℕ
get_from pos [] = err runtime_error
get_from pos (b ∷ rest) = ok (b, cursor (pos + 1) rest)

unfoldable pub get : Cursor → Parsed ℕ
unfolding get_from
get c = get_from c.pos c.rest

peek_from : Bytes → Result ℕ
peek_from [] = err runtime_error
peek_from (b ∷ rest) = ok b

unfoldable pub peek : Cursor → Result ℕ
unfolding peek_from
peek c = peek_from c.rest

-- The `for` loop of `parse_byte_string`: the digits in front of the colon, and what is left.
unfoldable pub length_digits : Bytes → Result (Bytes × Bytes)
length_digits [] = ok ([], [])
length_digits (b ∷ rest) =
    let more = (do (ds, rest') ← length_digits rest; ok (b ∷ ds, rest')) in
    if b == b':' then ok ([], b ∷ rest) else if not (is_digit b) then err runtime_error else more

-- `pos + length` wraps around; an end in front of the begin is refused by `std::string`.
unfoldable pub cut : ℕ → Cursor → Parsed Bytes
cut len c =
    if ltb (c.pos + length c.rest) ((c.pos + len) % u64_mod)
    then err runtime_error
    else if leb u64_mod (c.pos + len)
    then err length_error
    else ok (take len c.rest, cursor (c.pos + len) (drop len c.rest))

unfoldable pub parse_byte_string : Cursor → Parsed Bytes
unfolding length_digits get cut
parse_byte_string c = do
  (ds, rest) ← length_digits c.rest
  len ← stoul ds
  (colon, c') ← get (cursor (c.pos + length ds) rest)
  throw_if (not (colon == b':')) runtime_error
  cut len c'

-- The `while` loop of `parse_integer`: what stands in front of the `e`, and what is left.
unfoldable pub integer_text : Bytes → Result (Bytes × Bytes)
integer_text [] = err runtime_error
integer_text (b ∷ rest) =
    let more = (do (ds, rest') ← integer_text rest; ok (b ∷ ds, rest')) in
    if b == b'e'
    then ok ([], b ∷ rest)
    else if not (is_digit b) && not (b == b'-')
    then err runtime_error
    else more

unfoldable pub parse_integer : Cursor → Parsed BType
unfolding integer_text get
parse_integer c = do
  (i, c1) ← get c
  throw_if (not (i == b'i')) runtime_error
  (text, rest) ← integer_text c1.rest
  (_, c2) ← get (cursor (c1.pos + length text) rest)
  v ← stoll text
  ok (integer v, c2)

-- The calls of the four functions on one another are bounded by fuel. `parse_items` and
-- `parse_entries` are the `while` loops; the map that is filled is handed on.
unfoldable mutual
  pub parse_bencoding_type : ℕ → Cursor → Parsed BType
  parse_bencoding_type zero c = err out_of_fuel
  parse_bencoding_type (suc f) c =
      let parse_list = (do
        (b, c') ← get c
        throw_if (not (b == b'l')) runtime_error
        (l, c'') ← parse_items f c'
        ok (list l, c'')) in
      let parse_dictionary = (do
        (b, c') ← get c
        throw_if (not (b == b'd')) runtime_error
        (d, c'') ← parse_entries f end c'
        ok (dictionary d, c'')) in
      let parse_string = (do (s, c') ← parse_byte_string c; ok (string s, c')) in
      peek c >>= λ next_char.
      if next_char == b'i'
      then parse_integer c
      else if next_char == b'l'
      then parse_list
      else if next_char == b'd'
      then parse_dictionary
      else if is_digit next_char
      then parse_string
      else err runtime_error

  pub parse_items : ℕ → Cursor → Parsed BList
  parse_items zero c = err out_of_fuel
  parse_items (suc f) c =
      let close = (do (_, c') ← get c; ok (nil, c')) in
      let more = (do
        (v, c') ← parse_bencoding_type f c
        (l, c'') ← parse_items f c'
        ok (item v l, c'')) in
      do b ← peek c; if b == b'e' then close else more

  pub parse_entries : ℕ → BDict → Cursor → Parsed BDict
  parse_entries zero d c = err out_of_fuel
  parse_entries (suc f) d c =
      let close = (do (_, c') ← get c; ok (d, c')) in
      let more = (do
        (k, c') ← parse_byte_string c
        (v, c'') ← parse_bencoding_type f c'
        parse_entries f (insert k v d) c'') in
      do b ← peek c; if b == b'e' then close else more

-- Each call takes a byte at least, or is followed by one that does.
unfoldable pub parse_value : Bytes → Parsed BType
parse_value metadata = parse_bencoding_type (2 * length metadata + 1) (cursor 0 metadata)

-- the key of a torrent's info dictionary
abbrev pub info_key : Bytes
info_key = b'i' ∷ b'n' ∷ b'f' ∷ b'o' ∷ []

-- The `while` loop of `parse`; the bytes of the info dictionary are handed on.
unfoldable pub parse_pairs : ℕ → BDict → Bytes → Cursor → Parsed (BDict × Bytes)
parse_pairs zero d raw c = err out_of_fuel
parse_pairs (suc f) d raw c =
    let close = (do (_, c') ← get c; ok ((d, raw), c')) in
    let more = (do
      (k, c') ← parse_byte_string c
      (v, c'') ← parse_bencoding_type f c'
      parse_pairs f (insert k v d)
          (if bytes_eq k info_key then take (c''.pos - c'.pos) c'.rest else raw) c'') in
    do b ← peek c; if b == b'e' then close else more

-- `TorrentFile` gets the dictionary and the bytes of the info dictionary.
unfoldable pub parse : Bytes → Result (BDict × Bytes)
unfolding parse_pairs get
parse metadata = do
  (b, c) ← get (cursor 0 metadata)
  throw_if (not (b == b'd')) runtime_error
  (r, _) ← parse_pairs (2 * length metadata + 1) end [] c
  ok r
