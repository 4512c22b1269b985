-- ===== src/PeerWire/Connection/Bitfield.antt =====
-- src/peer_wire/peer_connection.cpp, `send_bitfield`, against `BitfieldMessage::has_piece`.
use bittorent_client.Common.{
  ℕ, zero, suc, ◌+◌, ◌-◌, ◌*◌, ◌/◌, ◌%◌, ◌^◌, ◌<◌, ◌≤◌, ◌≡◌, refl, ap, ◌∙◌, bit_or, Bytes, IsBytes,
  Bool, true, false, not, ◌&&◌, ◌||◌, List, [], ◌∷◌, ok, arith, ltb, leb, ◌==◌, if◌then◌else◌,
  length, get_or, set, replicate, length-set, length-replicate, ==_iff, Bool-cases, inl, inr,
}
use bittorent_client.Common.Bits.{all_below, all_below-lt}
use bittorent_client.ByteOrder.Bounds.{byte_at-get_or}
use bittorent_client.PeerWire.Message.{has_piece}
use bittorent_client.PeerWire.Connection.State.{pack_from, pack}

-- setting one bit of a byte, by a table
abbrev sets_bit : ℕ → ℕ → ℕ → Bool
sets_bit v a b =
    (bit_or v (2 ^ a) / 2 ^ b % 2 == (if a == b then 1 else v / 2 ^ b % 2))
    && ltb (bit_or v (2 ^ a)) 256

sets_bit_table : all_below 256 (λ v. all_below 8 (λ a. all_below 8 (λ b. sets_bit v a b))) ≡ true
unfolding all_below
sets_bit_table = refl

sets_bit_lem : (v a b : ℕ) → v < 256 → a < 8 → b < 8 → sets_bit v a b ≡ true
sets_bit_lem v a b h k l =
    let row =
      all_below-lt 256 (λ x. all_below 8 (λ a. all_below 8 (λ b. sets_bit x a b))) v sets_bit_table
        h in
    let cell = all_below-lt 8 (λ a. all_below 8 (λ b. sets_bit v a b)) a row k in
    all_below-lt 8 (λ b. sets_bit v a b) b cell l

-- bit `k` of a bitfield, false behind its end
abbrev bit_at : Bytes → ℕ → Bool
bit_at bits k = not (get_or bits (k / 8) 0 / 2 ^ (7 - k % 8) % 2 == 0)

get_or-set :
    (bits : Bytes) (i j v : ℕ)
    → i < length bits
    → get_or (set bits i v) j 0 ≡ (if i == j then v else get_or bits j 0)
get_or-set [] i j v h = absurd (omega arith)
get_or-set (x ∷ bits) zero zero v h = refl
get_or-set (x ∷ bits) zero (suc j) v h = ground arith
get_or-set (x ∷ bits) (suc i) zero v h = ground arith
get_or-set (x ∷ bits) (suc i) (suc j) v h = ground (arith, get_or-set bits i j v (omega arith))

get_or_byte : (bits : Bytes) (i : ℕ) → IsBytes bits → get_or bits i 0 < 256
get_or_byte [] i h = omega arith
get_or_byte (x ∷ bits) zero h = h.0
get_or_byte (x ∷ bits) (suc i) h = get_or_byte bits i h.1

IsBytes-set : (bits : Bytes) (i v : ℕ) → IsBytes bits → v < 256 → IsBytes (set bits i v)
IsBytes-set [] i v h l = tt
IsBytes-set (x ∷ bits) zero v h l = (l, h.1)
IsBytes-set (x ∷ bits) (suc i) v h l = (h.0, IsBytes-set bits i v h.1 l)

abbrev with_bit : Bytes → ℕ → Bytes
with_bit bits i = set bits (i / 8) (bit_or (get_or bits (i / 8) 0) (2 ^ (7 - i % 8)))

bit_at-with_bit :
    (bits : Bytes) (i k : ℕ)
    → IsBytes bits
    → i / 8 < length bits
    → bit_at (with_bit bits i) k ≡ (i == k || bit_at bits k)
bit_at-with_bit bits i k h l = elim (Bool-cases (i / 8 == k / 8)) [
  | inl same ↦
      let t =
        sets_bit_lem (get_or bits (i / 8) 0) (7 - i % 8) (7 - k % 8) (get_or_byte bits (i / 8) h)
          (omega arith) (omega arith) in
      let q : i / 8 ≡ k / 8 = (==_iff (i / 8) (k / 8)).0 same in
      let written =
        get_or-set bits (i / 8) (k / 8) (bit_or (get_or bits (i / 8) 0) (2 ^ (7 - i % 8))) l in
      elim (Bool-cases (i == k)) [
        | inl e ↦ let r : 7 - i % 8 ≡ 7 - k % 8 = ground arith in ground arith
        | inr e ↦ let r : ((7 - i % 8) == (7 - k % 8)) ≡ false = ground arith in ground arith
      ]
  | inr other ↦
      ground (
        arith,
        get_or-set bits (i / 8) (k / 8) (bit_or (get_or bits (i / 8) 0) (2 ^ (7 - i % 8))) l,
      )
]

IsBytes-with_bit : (bits : Bytes) (i : ℕ) → IsBytes bits → IsBytes (with_bit bits i)
IsBytes-with_bit bits i h =
    let t =
      sets_bit_lem (get_or bits (i / 8) 0) (7 - i % 8) 0 (get_or_byte bits (i / 8) h) (omega arith)
        (omega arith) in
    IsBytes-set bits (i / 8) _ h (ground arith)

-- is `k` one of the `n` indices from `i` on?
abbrev within : ℕ → ℕ → ℕ → Bool
within i n k = leb i k && ltb k (i + n)

within_first :
    (i n k : ℕ) (b g : Bool)
    → (i ≡ k → g ≡ true)
    → ((i == k || b) || (within (suc i) n k && g)) ≡ (b || (within i (suc n) k && g))
within_first i n k b g h = elim (Bool-cases (i == k)) [
  | inl e ↦ let p : i ≡ k = (==_iff i k).0 e in let q : g ≡ true = h p in ground arith
  | inr e ↦ ground arith
]

within_rest :
    (i n k : ℕ) (b g : Bool)
    → (i ≡ k → g ≡ false)
    → (b || (within (suc i) n k && g)) ≡ (b || (within i (suc n) k && g))
within_rest i n k b g h = elim (Bool-cases (i == k)) [
  | inl e ↦ let p : i ≡ k = (==_iff i k).0 e in let q : g ≡ false = h p in ground arith
  | inr e ↦ ground arith
]

pack_from_lem :
    (n i : ℕ) (have : List Bool) (bits : Bytes)
    → IsBytes bits
    → i + n ≤ 8 * length bits
    → (length (pack_from n i have bits) ≡ length bits)
      × ((k : ℕ)
          → bit_at (pack_from n i have bits) k
            ≡ (bit_at bits k || (within i n k && get_or have k false)))
unfolding pack_from
pack_from_lem zero i have bits h l = (refl, λ k. ground arith)
pack_from_lem (suc n) i have bits h l = elim (Bool-cases (get_or have i false)) [
  | inl there ↦
      let (same, at) = pack_from_lem n (suc i) have (with_bit bits i) (IsBytes-with_bit bits i h) (
        omega
          (arith, length-set bits (i / 8) (bit_or (get_or bits (i / 8) 0) (2 ^ (7 - i % 8))))) in
      (
        rw there (same ∙ length-set _ _ _),
        λ k. rw there (
            at k
            ∙ ap (λ (b : Bool). b || (within (suc i) n k && get_or have k false))
                (bit_at-with_bit bits i k h (omega arith))
            ∙ within_first i n k (bit_at bits k) (get_or have k false) (λ e. cc)),
      )
  | inr lacking ↦
      let (same, at) = pack_from_lem n (suc i) have bits h (omega arith) in
      (
        rw lacking same,
        λ k. rw lacking (at k ∙ within_rest i n k (bit_at bits k) (get_or have k false) (λ e. cc)),
      )
]

get_or-replicate : (n i : ℕ) → ◌≡◌ {A = ℕ} (get_or (replicate n 0) i 0) 0
get_or-replicate zero i = refl
get_or-replicate (suc n) zero = refl
get_or-replicate (suc n) (suc i) = get_or-replicate n i

IsBytes-replicate : (n : ℕ) → IsBytes (replicate n 0)
IsBytes-replicate zero = tt
IsBytes-replicate (suc n) = (omega arith, IsBytes-replicate n)

get_or_behind : (xs : List Bool) (i : ℕ) → length xs ≤ i → get_or xs i false ≡ false
get_or_behind [] i h = refl
get_or_behind (x ∷ xs) zero h = absurd (omega arith)
get_or_behind (x ∷ xs) (suc i) h = get_or_behind xs i (omega arith)

le→leb_false : (a b : ℕ) → b < a → leb a b ≡ false
le→leb_false a b h = ground arith

-- all zeros but for the pieces that are there
only_have :
    (have : List Bool) (k : ℕ)
    → (bit_at (replicate ((length have + 7) / 8) 0) k
        || (within 0 (length have) k && get_or have k false))
      ≡ get_or have k false
only_have have k =
    let zero_byte = get_or-replicate ((length have + 7) / 8) (k / 8) in
    rw zero_byte (elim (Bool-cases (ltb k (0 + length have))) [
      | inl inside ↦ ground arith
      | inr behind ↦ ground (arith, get_or_behind have k)
    ])

has_piece-eq-ok :
    (bits : Bytes) (k : ℕ)
    → k / 8 < length bits
    → has_piece (record { bits = bits }) k ≡ ok (bit_at bits k)
unfolding has_piece
has_piece-eq-ok bits k h = rw (le→leb_false _ _ h, byte_at-get_or bits (k / 8) h)

-- A peer that reads the bitfield that we send finds exactly the pieces that we have: the test of
-- any index in the payload returns whether we have that piece, and the spare bits are zero.
pub has_piece-pack :
    (have : List Bool) (k : ℕ)
    → k / 8 < (length have + 7) / 8
    → has_piece (record { bits = pack have }) k ≡ ok (get_or have k false)
has_piece-pack have k h =
    let n = length have in
    let zeros : Bytes = replicate ((n + 7) / 8) 0 in
    let size : length zeros ≡ (n + 7) / 8 = length-replicate ((n + 7) / 8) 0 in
    let (same, at) = pack_from_lem n 0 have zeros (IsBytes-replicate ((n + 7) / 8)) (omega arith) in
    rw (has_piece-eq-ok (pack have) k (omega arith)) (ap ok (at k ∙ only_have have k))
