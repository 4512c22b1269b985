-- ===== src/ByteOrder/Bounds.antt =====
-- inc/byte_order.h: a read that lies inside of the buffer returns a value.
use bittorent_client.Common.{
  ℕ, zero, suc, ◌+◌, ◌*◌, ◌<◌, ◌≤◌, ◌≡◌, refl, Bytes, [], ◌∷◌, some, ok, arith, length, get_elem?,
  get_or,
}
use bittorent_client.ByteOrder.{byte_at, read_be16, read_be32, read_be64}

get_elem?_of_lt : (buf : Bytes) (i : ℕ) → i < length buf → (b : ℕ) × (get_elem? buf i ≡ some b)
get_elem?_of_lt [] i h = absurd (omega arith)
get_elem?_of_lt (x ∷ buf) zero h = (x, refl)
get_elem?_of_lt (x ∷ buf) (suc i) h = get_elem?_of_lt buf i (omega arith)

pub byte_at_of_lt : (buf : Bytes) (i : ℕ) → i < length buf → (b : ℕ) × (byte_at buf i ≡ ok b)
unfolding byte_at
byte_at_of_lt buf i h = let (b, e) = get_elem?_of_lt buf i h in (b, ground arith)

pub read_be32_of_le :
    (buf : Bytes) (i : ℕ) → i + 4 ≤ length buf → (v : ℕ) × (read_be32 buf i ≡ ok v)
unfolding read_be32
read_be32_of_le buf i h =
    let (b0, e0) = byte_at_of_lt buf (i + 0) (omega arith) in
    let (b1, e1) = byte_at_of_lt buf (i + 1) (omega arith) in
    let (b2, e2) = byte_at_of_lt buf (i + 2) (omega arith) in
    let (b3, e3) = byte_at_of_lt buf (i + 3) (omega arith) in
    (b0 * 0x1000000 + b1 * 0x10000 + b2 * 0x100 + b3, rw (e0, e1, e2, e3))

get_elem?-get_or : (buf : Bytes) (i : ℕ) → i < length buf → get_elem? buf i ≡ some (get_or buf i 0)
get_elem?-get_or [] i h = absurd (omega arith)
get_elem?-get_or (x ∷ buf) zero h = refl
get_elem?-get_or (x ∷ buf) (suc i) h = get_elem?-get_or buf i (omega arith)

pub byte_at-get_or : (buf : Bytes) (i : ℕ) → i < length buf → byte_at buf i ≡ ok (get_or buf i 0)
unfolding byte_at
byte_at-get_or buf i h = ground (arith, get_elem?-get_or buf i h)

pub read_be16_of_le :
    (buf : Bytes) (i : ℕ) → i + 2 ≤ length buf → (v : ℕ) × (read_be16 buf i ≡ ok v)
unfolding read_be16
read_be16_of_le buf i h =
    let (b0, e0) = byte_at_of_lt buf (i + 0) (omega arith) in
    let (b1, e1) = byte_at_of_lt buf (i + 1) (omega arith) in (b0 * 0x100 + b1, rw (e0, e1))

pub read_be64_of_le :
    (buf : Bytes) (i : ℕ) → i + 8 ≤ length buf → (v : ℕ) × (read_be64 buf i ≡ ok v)
unfolding read_be64
read_be64_of_le buf i h =
    let (b0, e0) = byte_at_of_lt buf (i + 0) (omega arith) in
    let (b1, e1) = byte_at_of_lt buf (i + 1) (omega arith) in
    let (b2, e2) = byte_at_of_lt buf (i + 2) (omega arith) in
    let (b3, e3) = byte_at_of_lt buf (i + 3) (omega arith) in
    let (b4, e4) = byte_at_of_lt buf (i + 4) (omega arith) in
    let (b5, e5) = byte_at_of_lt buf (i + 5) (omega arith) in
    let (b6, e6) = byte_at_of_lt buf (i + 6) (omega arith) in
    let (b7, e7) = byte_at_of_lt buf (i + 7) (omega arith) in
    let v =
      b0 * 0x100000000000000
      + b1 * 0x1000000000000
      + b2 * 0x10000000000
      + b3 * 0x100000000
      + b4 * 0x1000000
      + b5 * 0x10000
      + b6 * 0x100
      + b7 in
    (v, rw (e0, e1, e2, e3, e4, e5, e6, e7) refl)
