-- ===== src/ByteOrder/RoundTrip.antt =====
-- inc/byte_order.h: what was written in network byte order is read back.
use bittorent_client.Common.{
  ℕ, zero, suc, ◌+◌, ◌<◌, ◌≤◌, ◌≡◌, refl, ap, Bytes, [], ◌∷◌, ok, arith, u16_mod, u32_mod, u64_mod,
  set, drop, length, length-drop,
}
use native.Mathlib.Nat.{suc-add, zero-add}
use bittorent_client.ByteOrder.{
  byte_at, write_be16, write_be32, write_be64, read_be16, read_be32, read_be64,
}

-- Beyond an offset a buffer is read as the buffer that begins there.
byte_at-add : (buf : Bytes) (i k : ℕ) → byte_at buf (i + k) ≡ byte_at (drop i buf) k
unfolding byte_at
byte_at-add buf zero k = rw zero-add
byte_at-add [] (suc i) k = refl
byte_at-add (x ∷ buf) (suc i) k = rw suc-add (byte_at-add buf i k)

drop-set_add : (buf : Bytes) (i k v : ℕ) → drop i (set buf (i + k) v) ≡ set (drop i buf) k v
drop-set_add buf zero k v = rw zero-add
drop-set_add [] (suc i) k v = refl
drop-set_add (x ∷ buf) (suc i) k v = rw suc-add (drop-set_add buf i k v)

ruleset at_offset = (byte_at-add, drop-set_add)

read_at-write_be16 :
    (buf d : Bytes) (i val : ℕ)
    → drop i buf ≡ d
    → 2 ≤ length d
    → val < u16_mod
    → read_be16 (write_be16 buf i val) i ≡ ok val
unfolding read_be16 write_be16
read_at-write_be16 buf (_ ∷ _ ∷ d) i val p h k = simp (at_offset, p) (ap ok (omega arith))
read_at-write_be16 buf d i val p h k = absurd (omega arith)

read_at-write_be32 :
    (buf d : Bytes) (i val : ℕ)
    → drop i buf ≡ d
    → 4 ≤ length d
    → val < u32_mod
    → read_be32 (write_be32 buf i val) i ≡ ok val
unfolding read_be32 write_be32
read_at-write_be32 buf (_ ∷ _ ∷ _ ∷ _ ∷ d) i val p h k = simp (at_offset, p) (ap ok (omega arith))
read_at-write_be32 buf d i val p h k = absurd (omega arith)

read_at-write_be64 :
    (buf d : Bytes) (i val : ℕ)
    → drop i buf ≡ d
    → 8 ≤ length d
    → val < u64_mod
    → read_be64 (write_be64 buf i val) i ≡ ok val
unfolding read_be64 write_be64
read_at-write_be64 buf (_ ∷ _ ∷ _ ∷ _ ∷ _ ∷ _ ∷ _ ∷ _ ∷ d) i val p h k =
    simp (at_offset, p) (ap ok (omega arith))
read_at-write_be64 buf d i val p h k = absurd (omega arith)

-- A 16-bit, 32-bit or 64-bit value written at an offset with enough room behind it is read back
-- from that offset, whatever the rest of the buffer holds.
pub read_be-write_be :
    (buf : Bytes) (i val : ℕ)
    → (i + 2 ≤ length buf → val < u16_mod → read_be16 (write_be16 buf i val) i ≡ ok val)
      × (i + 4 ≤ length buf → val < u32_mod → read_be32 (write_be32 buf i val) i ≡ ok val)
      × (i + 8 ≤ length buf → val < u64_mod → read_be64 (write_be64 buf i val) i ≡ ok val)
read_be-write_be buf i val = (
  λ h k. read_at-write_be16 buf (drop i buf) i val refl (omega (arith, length-drop i buf)) k,
  λ h k. read_at-write_be32 buf (drop i buf) i val refl (omega (arith, length-drop i buf)) k,
  λ h k. read_at-write_be64 buf (drop i buf) i val refl (omega (arith, length-drop i buf)) k,
)
