-- ===== src/Common/Decimal.antt =====
-- `std::to_string`, `std::stoul` and `std::stoll` over bytes, as far as the program uses them.
use bittorent_client.Common.Int.{ℤ, pos, negsuc, IsInt64}
use bittorent_client.Common.Tests.{Bool-cases, List-cases, ltb, leb, ◌==◌, if◌then◌else◌}
use bittorent_client.Common.Results.{Result, ok, err, invalid_argument, out_of_range}
use bittorent_client.Common.Lists.{All, All-append}
use bittorent_client.Common.Words.{Bytes, u64_mod}
use Prim.Native.Nat.{ℕ, zero, suc, ◌+◌, ◌-◌, ◌*◌, ◌/◌, ◌%◌, ◌<◌, ◌≤◌, ◌^◌}
use mathlib.Core.Path.{◌≡◌, refl, ◌∙◌}
use mathlib.Core.Logic.{inl, inr}
use mathlib.Core.Bool.{Bool, true, false, ◌&&◌}
use mathlib.Core.List.{[], ◌∷◌, ◌++◌}
use native.Mathlib.Omega.{arith}

abbrev pub is_digit : ℕ → Bool
is_digit c = leb b'0' c && leb c b'9'

abbrev pub IsDigit : ℕ → Type 0
IsDigit c = (b'0' ≤ c) × (c ≤ b'9')

-- The digits of `n`, with more rounds than it has digits.
decimal : ℕ → ℕ → Bytes
decimal zero n = []
decimal (suc f) n =
    let high = decimal f (n / 10) in
    if ltb n 10 then (b'0' + n) ∷ [] else high ++ ((b'0' + n % 10) ∷ [])

unfoldable pub to_string : ℕ → Bytes
unfolding decimal
to_string n = decimal (suc n) n

unfoldable pub to_string_ℤ : ℤ → Bytes
unfolding to_string
to_string_ℤ (pos n) = to_string n
to_string_ℤ (negsuc n) = b'-' ∷ to_string (suc n)

-- The number that digits spell behind `n`.
unfoldable pub value : ℕ → Bytes → ℕ
value n [] = n
value n (c ∷ cs) = value (n * 10 + (c - b'0')) cs

-- `std::stoul` of a text of digits
unfoldable pub stoul : Bytes → Result ℕ
unfolding value
stoul [] = err invalid_argument
stoul (c ∷ cs) = let n = value 0 (c ∷ cs) in if ltb n u64_mod then ok n else err out_of_range

-- the digits that a text begins with
unfoldable pub leading_digits : Bytes → Bytes
leading_digits [] = []
leading_digits (c ∷ cs) = let rest = leading_digits cs in if is_digit c then c ∷ rest else []

-- `std::stoll` behind the sign: what follows the first digits is ignored.
unfoldable pub signed : Bool → Bytes → Result ℤ
signed negative [] = err invalid_argument
signed negative (c ∷ cs) =
    let n = value 0 (c ∷ cs) in
    if negative
    then (if n == 0
        then ok (pos 0)
        else if leb n (2 ^ 63)
        then ok (negsuc (n - 1))
        else err out_of_range)
    else if ltb n (2 ^ 63)
    then ok (pos n)
    else err out_of_range

unfoldable pub stoll : Bytes → Result ℤ
unfolding leading_digits signed value
stoll [] = err invalid_argument
stoll (c ∷ cs) =
    if c == b'-' then signed true (leading_digits cs) else signed false (leading_digits (c ∷ cs))

value-append :
    (n : ℕ) (xs : Bytes) (c : ℕ) → value n (xs ++ (c ∷ [])) ≡ value n xs * 10 + (c - b'0')
unfolding value
value-append n [] c = refl
value-append n (x ∷ xs) c = value-append (n * 10 + (x - b'0')) xs c

decimal_lem : (f n : ℕ) → n < f → value 0 (decimal f n) ≡ n
unfolding decimal value
decimal_lem zero n h = absurd (omega arith)
decimal_lem (suc f) n h = elim (Bool-cases (ltb n 10)) [
  | inl small ↦ rw small (omega arith)
  | inr large ↦ rw large (
      value-append 0 (decimal f (n / 10)) (b'0' + n % 10)
      ∙ omega (arith, decimal_lem f (n / 10) (ground arith)))
]

decimal_digits : (f n : ℕ) → All IsDigit (decimal f n)
unfolding decimal
decimal_digits zero n = tt
decimal_digits (suc f) n = elim (Bool-cases (ltb n 10)) [
  | inl small ↦ rw small ((omega arith, ground arith), tt)
  | inr large ↦ rw large (
      All-append IsDigit (decimal f (n / 10)) _ (decimal_digits f (n / 10))
        ((omega arith, omega arith), tt))
]

decimal-eq-cons : (f n : ℕ) → (c : ℕ) × (cs : Bytes) × (decimal (suc f) n ≡ c ∷ cs)
unfolding decimal
decimal-eq-cons f n = elim (Bool-cases (ltb n 10)) [
  | inl small ↦ (b'0' + n, [], rw small)
  | inr large ↦ elim (List-cases (decimal f (n / 10))) [
    | inl empty ↦ (b'0' + n % 10, [], rw (large, empty))
    | inr (c, cs, e) ↦ (c, cs ++ ((b'0' + n % 10) ∷ []), rw (large, e))
  ]
]

-- A printed number is one digit or more, which spell the number.
pub to_string_lem :
    (n : ℕ)
    → (c : ℕ) × (cs : Bytes) × (to_string n ≡ c ∷ cs)
      × All IsDigit (c ∷ cs)
      × (value 0 (c ∷ cs) ≡ n)
unfolding to_string
to_string_lem n =
    let (c, cs, e) = decimal-eq-cons n n in
    (c, cs, e, rw e at (decimal_digits (suc n) n), rw e at (decimal_lem (suc n) n (omega arith)))

pub stoul-to_string : (n : ℕ) → n < u64_mod → stoul (to_string n) ≡ ok n
unfolding stoul
stoul-to_string n h = let (c, cs, e, _, v) = to_string_lem n in rw (e, v) (ground arith)

-- Digits are read up to the first character that is none.
pub leading_digits-All : (cs : Bytes) → All IsDigit cs → leading_digits cs ≡ cs
unfolding leading_digits
leading_digits-All [] h = refl
leading_digits-All (c ∷ cs) h = ground (arith, leading_digits-All cs h.1)

pub stoll-to_string_ℤ : (i : ℤ) → IsInt64 i → stoll (to_string_ℤ i) ≡ ok i
unfolding stoll to_string_ℤ
stoll-to_string_ℤ (pos n) h =
    let (c, cs, e, d, v) = to_string_lem n in rw e (ground (arith, leading_digits-All (c ∷ cs) d))
stoll-to_string_ℤ (negsuc n) h =
    let (c, cs, e, d, v) = to_string_lem (suc n) in
    rw (e, leading_digits-All (c ∷ cs) d) (ground arith)
