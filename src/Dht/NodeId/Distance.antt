-- ===== src/Dht/NodeId/Distance.antt =====
-- src/dht/node_id.cpp: the XOR distance.
use bittorent_client.Common.{
  ℕ, ◌+◌, ◌*◌, ◌^◌, ◌<◌, ◌≡◌, refl, Bytes, IsBytes, Bool, true, not, ◌&&◌, ◌||◌, [], ◌∷◌, ltb, ◌==◌,
  if◌then◌else◌, length, bit_xor, arith, ◌⊎◌, inl, inr,
}
use bittorent_client.Common.Bits.{all_below, all_below-lt}
use bittorent_client.Common.ByteStrings.{bytes_lt, bytes_eq}
use bittorent_client.Dht.NodeId.{NodeId, xor, is_zero}

abbrev xors : ℕ → ℕ → Bool
xors a b = ltb (bit_xor a b) 256 && (if a == b then bit_xor a b == 0 else not (bit_xor a b == 0))

xors_table : all_below 256 (λ a. all_below 256 (λ b. xors a b)) ≡ true
unfolding all_below
xors_table = refl

xors_lem : (a b : ℕ) → a < 256 → b < 256 → xors a b ≡ true
xors_lem a b h k =
    all_below-lt 256 (xors a) b (all_below-lt 256 (λ x. all_below 256 (xors x)) a xors_table h) k

pub length-xor : (xs ys : NodeId) → length xs ≡ length ys → length (xor xs ys) ≡ length xs
unfolding xor
length-xor [] [] h = refl
length-xor [] (y ∷ ys) h = omega (arith, h)
length-xor (x ∷ xs) [] h = omega (arith, h)
length-xor (x ∷ xs) (y ∷ ys) h = omega (arith, length-xor xs ys (omega (arith, h)))

pub xor-IsBytes : (xs ys : NodeId) → IsBytes xs → IsBytes ys → IsBytes (xor xs ys)
unfolding xor
xor-IsBytes [] ys h k = tt
xor-IsBytes (x ∷ xs) [] h k = tt
xor-IsBytes (x ∷ xs) (y ∷ ys) h k =
    (ground (arith, xors_lem x y h.0 k.0), xor-IsBytes xs ys h.1 k.1)

-- The distance of two identifiers is zero exactly when they are the same.
pub is_zero-xor :
    (xs ys : NodeId)
    → IsBytes xs
    → IsBytes ys
    → length xs ≡ length ys
    → is_zero (xor xs ys) ≡ bytes_eq xs ys
unfolding is_zero xor bytes_eq
is_zero-xor [] [] h k l = refl
is_zero-xor [] (y ∷ ys) h k l = absurd (omega (arith, l))
is_zero-xor (x ∷ xs) [] h k l = absurd (omega (arith, l))
is_zero-xor (x ∷ xs) (y ∷ ys) h k l =
    ground (arith, xors_lem x y h.0 k.0, is_zero-xor xs ys h.1 k.1 (omega (arith, l)))

-- An identifier as the number that its bytes spell, the first byte the highest.
unfoldable pub number : NodeId → ℕ
number [] = 0
number (b ∷ bs) = b * 256 ^ length bs + number bs

pub lead_lt : (x y p v w : ℕ) → x < y → v < p → x * p + v < y * p + w
lead_lt x y p v w h l = grind arith

lt_or_eq_or_gt : (x y : ℕ) → (x < y) ⊎ ((x ≡ y) ⊎ (y < x))
lt_or_eq_or_gt x y = grind arith

pub number_lt : (bs : Bytes) → IsBytes bs → number bs < 256 ^ length bs
unfolding number
number_lt [] h = omega arith
number_lt (b ∷ bs) h =
    grind (arith, lead_lt b 256 (256 ^ length bs) (number bs) 0 h.0 (number_lt bs h.1))

by_lead :
    (x y p v w : ℕ) → v < p → w < p → (ltb x y || (x == y && ltb v w)) ≡ ltb (x * p + v) (y * p + w)
by_lead x y p v w h k = elim (lt_or_eq_or_gt x y) [
  | inl less ↦ ground (arith, lead_lt x y p v w less h)
  | inr (inl same) ↦ rw same (ground arith)
  | inr (inr more) ↦ ground (arith, lead_lt y x p w v more k)
]

-- Of two identifiers of the same length `operator<` tells whether the number of the first is smaller.
pub bytes_lt-number :
    (xs ys : NodeId)
    → IsBytes xs
    → IsBytes ys
    → length xs ≡ length ys
    → bytes_lt xs ys ≡ ltb (number xs) (number ys)
unfolding bytes_lt number
bytes_lt-number [] [] h k l = refl
bytes_lt-number [] (y ∷ ys) h k l = absurd (omega (arith, l))
bytes_lt-number (x ∷ xs) [] h k l = absurd (omega (arith, l))
bytes_lt-number (x ∷ xs) (y ∷ ys) h k l =
    let e : length ys ≡ length xs = omega (arith, l) in
    let n : number ys < 256 ^ length xs = rw e at (number_lt ys k.1) in
    let rest = bytes_lt-number xs ys h.1 k.1 (omega (arith, l)) in
    rw (e, rest) (by_lead x y (256 ^ length xs) (number xs) (number ys) (number_lt xs h.1) n)
