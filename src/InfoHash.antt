-- ===== src/InfoHash.antt =====
-- inc/info_hash.h: the 20 raw bytes that identify a torrent.
use bittorent_client.Common.{
  ℕ, Option, none, some, Bytes, [], ◌∷◌, ◌+◌, ◌/◌, ◌%◌, ◌==◌, ltb, if◌then◌else◌, length,
}

-- `std::array<uint8_t, 20>`
abbrev pub InfoHash : Type 0
InfoHash = Bytes

-- only a string of 20 bytes is accepted
unfoldable pub try_from_raw : Bytes → Option InfoHash
try_from_raw raw = if length raw == 20 then some raw else none

abbrev pub to_raw : InfoHash → Bytes
to_raw h = h

abbrev pub hex_digit : ℕ → ℕ
hex_digit d = if ltb d 10 then 48 + d else 87 + d

-- `crypto::to_hex`: two lower-case digits for a byte
unfoldable pub to_hex : Bytes → Bytes
to_hex [] = []
to_hex (b ∷ bytes) = hex_digit (b / 16) ∷ hex_digit (b % 16) ∷ to_hex bytes
