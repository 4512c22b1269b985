-- ===== src/Dht/RoutingTable/Buckets.antt =====
-- src/dht/routing_table.cpp, `bucket_index`: a bucket is an interval of distances.
use bittorent_client.Common.{
  ℕ, zero, suc, ◌+◌, ◌-◌, ◌*◌, ◌^◌, ◌<◌, ◌≤◌, ◌≡◌, refl, sym, ap, ◌∙◌, ==_iff, Bytes, IsBytes, Bool,
  true, false, ◌&&◌, ◌||◌, [], ◌∷◌, ltb, leb, ◌==◌, length, arith, Bool-cases, inl, inr,
}
use mathlib.Core.Path.{subst}
use native.Mathlib.Nat.{pow-suc}
use bittorent_client.Common.Bits.{all_below, all_below-lt}
use bittorent_client.Common.ByteStrings.{bytes_eq}
use bittorent_client.Dht.NodeId.{NodeId, xor, is_zero}
use bittorent_client.Dht.NodeId.Distance.{
  number, number_lt, lead_lt, length-xor, xor-IsBytes, is_zero-xor,
}
use bittorent_client.Dht.RoutingTable.{num_buckets, top_bit, bucket_from, bucket_index}

-- the highest bit of a byte, by a table
abbrev tops : ℕ → Bool
tops b = b == 0 || (ltb (top_bit 8 b) 8 && leb (2 ^ top_bit 8 b) b && ltb b (2 ^ (top_bit 8 b + 1)))

tops_table : all_below 256 tops ≡ true
unfolding all_below top_bit
tops_table = refl

tops_lem : (b : ℕ) → b < 256 → tops b ≡ true
tops_lem b h = all_below-lt 256 tops b tops_table h

-- `2 ^ i ≤ n < 2 ^ (i + 1)`
abbrev IsLog : ℕ → ℕ → Type 0
IsLog i n = (2 ^ i ≤ n) × (n < 2 ^ (i + 1))

pow_add : (a n : ℕ) → 2 ^ (a + n) ≡ 2 ^ a * 2 ^ n
pow_add zero n = grind arith
pow_add (suc a) n =
    let e : suc a + n ≡ suc (a + n) = omega arith in
    rw (e, pow-suc 2 (a + n), pow-suc 2 a) (grind (arith, pow_add a n))

pow_split : (k m : ℕ) → 2 ^ (8 * k + m) ≡ 2 ^ m * 256 ^ k
pow_split zero m = grind arith
pow_split (suc k) m =
    ap (λ i. 2 ^ i) (omega arith)
    ∙ pow_add 8 (8 * k + m)
    ∙ rw (pow-suc 256 k) (grind (arith, pow_split k m))

scale_le : (x y p : ℕ) → x ≤ y → x * p ≤ y * p
scale_le x y p h = grind arith

scaled :
    (b m k v : ℕ) → 2 ^ m ≤ b → b < 2 ^ (m + 1) → v < 256 ^ k → IsLog (8 * k + m) (b * 256 ^ k + v)
scaled b m k v h h' l =
    let e' : 8 * k + m + 1 ≡ 8 * k + (m + 1) = omega arith in
    rw (e', pow_split k m, pow_split k (m + 1))
      (
        omega (arith, scale_le (2 ^ m) b (256 ^ k) h),
        omega (arith, lead_lt b (2 ^ (m + 1)) (256 ^ k) v 0 h' l),
      )

bucket_from_lem :
    (i : ℕ) (dist : Bytes)
    → IsBytes dist
    → i + length dist ≡ 20
    → is_zero dist ≡ false
    → IsLog (bucket_from i dist) (number dist)
unfolding bucket_from is_zero number
bucket_from_lem i [] h e n = cc
bucket_from_lem i (b ∷ dist) h e n = elim (Bool-cases (b == 0)) [
  | inl none ↦
      let v : b ≡ 0 = (==_iff b 0).0 none in
      let same : number dist ≡ b * 256 ^ length dist + number dist = rw v (omega arith) in
      rw none (
        subst (IsLog (bucket_from (i + 1) dist)) same
          (bucket_from_lem (i + 1) dist h.1 (omega (arith, e)) (rw none at n)))
  | inr some ↦
      let t = tops_lem b h.0 in
      let m = top_bit 8 b in
      let lt : m < 8 = ground (arith, t, some) in
      let index : 8 * length dist + m ≡ (num_buckets - 1) - (i * 8 + (7 - m)) =
        omega (arith, e, lt) in
      rw some (
        subst (λ x. IsLog x (b * 256 ^ length dist + number dist)) index
          (scaled b m (length dist) (number dist) (ground (arith, t, some))
            (ground (arith, t, some)) (number_lt dist h.1)))
]

-- For a node other than this one the bucket `b` is the one whose distances are at least `2 ^ b` and
-- less than `2 ^ (b + 1)`; this node itself has no bucket.
pub bucket_index_lem :
    (self_id id : NodeId)
    → IsBytes self_id
    → IsBytes id
    → length self_id ≡ 20
    → length id ≡ 20
    → (bytes_eq self_id id ≡ true → bucket_index self_id id ≡ num_buckets)
      × (bytes_eq self_id id ≡ false
          → (2 ^ bucket_index self_id id ≤ number (xor self_id id))
            × (number (xor self_id id) < 2 ^ (bucket_index self_id id + 1)))
unfolding bucket_index
bucket_index_lem self_id id h k l m =
    let z = is_zero-xor self_id id h k (l ∙ sym m) in
    (
      λ same. ground (arith, z, same),
      λ other.
          let n : is_zero (xor self_id id) ≡ false = z ∙ other in
          rw n (
            bucket_from_lem 0 (xor self_id id) (xor-IsBytes self_id id h k)
              (omega (arith, length-xor self_id id (l ∙ sym m), l)) n),
    )
