-- ===== src/ByteOrder.antt =====
-- inc/byte_order.h: integers in network byte order. `buf` and `i` stand for the pointer `buf + i`.
-- The bytes that a read joins by `|` occupy different bits of the result, so the model adds them.
pub mod RoundTrip
pub mod Bounds
use bittorent_client.Common.{
  ℕ, ◌+◌, ◌*◌, ◌/◌, ◌%◌, Bytes, Option, none, some, Result, ok, err, bad_access, ◌>>=◌, set,
  get_elem?,
}

-- `buf[i]`; outside of the buffer the C++ read is undefined
unfoldable pub byte_at : Bytes → ℕ → Result ℕ
byte_at buf i = elim (get_elem? buf i) [ none ↦ err bad_access | some b ↦ ok b ]

unfoldable pub write_be16 : Bytes → ℕ → ℕ → Bytes
write_be16 buf i val = set (set buf (i + 0) (val / 0x100 % 256)) (i + 1) (val % 256)

unfoldable pub write_be32 : Bytes → ℕ → ℕ → Bytes
write_be32 buf i val =
    let b0 = set buf (i + 0) (val / 0x1000000 % 256) in
    let b1 = set b0 (i + 1) (val / 0x10000 % 256) in
    let b2 = set b1 (i + 2) (val / 0x100 % 256) in set b2 (i + 3) (val % 256)

unfoldable pub write_be64 : Bytes → ℕ → ℕ → Bytes
write_be64 buf i val =
    let b0 = set buf (i + 0) (val / 0x100000000000000 % 256) in
    let b1 = set b0 (i + 1) (val / 0x1000000000000 % 256) in
    let b2 = set b1 (i + 2) (val / 0x10000000000 % 256) in
    let b3 = set b2 (i + 3) (val / 0x100000000 % 256) in
    let b4 = set b3 (i + 4) (val / 0x1000000 % 256) in
    let b5 = set b4 (i + 5) (val / 0x10000 % 256) in
    let b6 = set b5 (i + 6) (val / 0x100 % 256) in set b6 (i + 7) (val % 256)

unfoldable pub read_be16 : Bytes → ℕ → Result ℕ
unfolding byte_at
read_be16 buf i = do b0 ← byte_at buf (i + 0); b1 ← byte_at buf (i + 1); ok (b0 * 0x100 + b1)

unfoldable pub read_be32 : Bytes → ℕ → Result ℕ
unfolding byte_at
read_be32 buf i = do
  b0 ← byte_at buf (i + 0)
  b1 ← byte_at buf (i + 1)
  b2 ← byte_at buf (i + 2)
  b3 ← byte_at buf (i + 3)
  ok (b0 * 0x1000000 + b1 * 0x10000 + b2 * 0x100 + b3)

unfoldable pub read_be64 : Bytes → ℕ → Result ℕ
unfolding byte_at
read_be64 buf i = do
  b0 ← byte_at buf (i + 0)
  b1 ← byte_at buf (i + 1)
  b2 ← byte_at buf (i + 2)
  b3 ← byte_at buf (i + 3)
  b4 ← byte_at buf (i + 4)
  b5 ← byte_at buf (i + 5)
  b6 ← byte_at buf (i + 6)
  b7 ← byte_at buf (i + 7)
  ok (
      b0 * 0x100000000000000
      + b1 * 0x1000000000000
      + b2 * 0x10000000000
      + b3 * 0x100000000
      + b4 * 0x1000000
      + b5 * 0x10000
      + b6 * 0x100
      + b7)
