-- ===== src/Tests/Encoding.antt =====
-- Bencoded values.
use bittorent_client.Common.{
  ◌<◌, ◌≡◌, ◌≢◌, refl, [], ◌∷◌, some, ok, err, out_of_fuel, arith, length, u64_mod,
}
use bittorent_client.Common.Int.{pos, negsuc}
use bittorent_client.Common.Decimal.{to_string, to_string_ℤ}
use bittorent_client.Common.ByteStrings.{bytes_lt, bytes_eq}
use bittorent_client.Bencode.Types.{
  BDict, integer, string, list, dictionary, nil, item, end, entry, find,
}
use bittorent_client.Bencode.Encoder
use bittorent_client.Bencode.Encoder.{encode, concat, concat_entries}
use bittorent_client.Bencode.Parser.{cursor, parse_value, parse, info_key}
use bittorent_client.Bencode.Parser.RoundTrip.{IsValue, parse_value-encode}
use bittorent_client.Bencode.Parser.InfoBytes.{parse-encode}
use bittorent_client.Bencode.Parser.Fuel.{parse_value-ne-out_of_fuel}

-- `d4:infoi-7e4:sizeli1e1:xee`
abbrev torrent : BDict
torrent = entry info_key (integer (negsuc 6)) (
    entry (b's' ∷ b'i' ∷ b'z' ∷ b'e' ∷ [])
      (list (item (integer (pos 1)) (item (string (b'x' ∷ [])) nil))) end)

torrent-IsValue : IsValue (dictionary torrent)
unfolding bytes_lt
torrent-IsValue = ((refl, (tt, tt)), (omega arith, ((omega arith, (tt, tt)), tt)))

length-torrent : length (encode (dictionary torrent)) ≡ 26
unfolding encode Encoder.dict Encoder.list Encoder.string Encoder.integer concat concat_entries
    to_string to_string_ℤ
length-torrent = refl

torrent_fits : length (encode (dictionary torrent)) < u64_mod
torrent_fits = rw length-torrent (omega arith)

parse_value-encode_example :
    parse_value (encode (dictionary torrent))
    ≡ ok (dictionary torrent, cursor (length (encode (dictionary torrent))) [])
parse_value-encode_example = parse_value-encode (dictionary torrent) torrent-IsValue torrent_fits

info_is_there : find info_key torrent ≡ some (integer (negsuc 6))
unfolding find bytes_eq
info_is_there = refl

parse-encode_example :
    parse (encode (dictionary torrent)) ≡ ok (torrent, encode (integer (negsuc 6)))
parse-encode_example =
    parse-encode torrent (integer (negsuc 6)) torrent-IsValue info_is_there torrent_fits

parse_value-ne-out_of_fuel_example : parse_value (b'l' ∷ b'i' ∷ b'7' ∷ b'e' ∷ []) ≢ err out_of_fuel
parse_value-ne-out_of_fuel_example = parse_value-ne-out_of_fuel (b'l' ∷ b'i' ∷ b'7' ∷ b'e' ∷ [])
