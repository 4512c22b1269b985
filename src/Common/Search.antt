-- ===== src/Common/Search.antt =====
-- A counted loop that stops at the first index that passes a test.
use Prim.Native.Nat.{ℕ, zero, suc, ◌+◌, ◌≤◌, ◌<◌}
use mathlib.Core.Path.{◌≡◌}
use mathlib.Core.Logic.{◌⊎◌, inl, inr}
use mathlib.Core.Bool.{Bool, true, false}
use mathlib.Core.Option.{Option, none, some}
use native.Mathlib.Omega.{arith}
use bittorent_client.Common.Tests.{if◌then◌else◌, Bool-cases}

-- `for (k = i; k < i + n; ++k) if (p(k)) return k;`
unfoldable pub find_from : ℕ → ℕ → (ℕ → Bool) → Option ℕ
find_from zero i p = none
find_from (suc n) i p = let rest = find_from n (suc i) p in if p i then some i else rest

eq_or_lt_of_le : {i k : ℕ} → i ≤ k → (i ≡ k) ⊎ (suc i ≤ k)
eq_or_lt_of_le h = grind arith

module _ (p : ℕ → Bool) where
  pub find_from-some :
      (n i j : ℕ)
      → find_from n i p ≡ some j
      → (i ≤ j) × (j < i + n) × (p j ≡ true) × ((k : ℕ) → i ≤ k → k < j → p k ≡ false)
  unfolding find_from
  find_from-some zero i j h = cc
  find_from-some (suc n) i j h = elim (Bool-cases (p i)) [
    | inl e ↦
        let same : i ≡ j = ground arith in
        (omega arith, omega arith, cc, λ k l m. absurd (omega arith))
    | inr e ↦
        let (l, m, q, first) = find_from-some n (suc i) j (ground arith) in
        (
          omega arith,
          omega arith,
          q,
          λ k a b. elim (eq_or_lt_of_le a) [ inl same ↦ cc | inr later ↦ first k later b ],
        )
  ]

  pub find_from-none :
      (n i : ℕ) → find_from n i p ≡ none → (k : ℕ) → i ≤ k → k < i + n → p k ≡ false
  unfolding find_from
  find_from-none zero i h k l m = absurd (omega arith)
  find_from-none (suc n) i h k l m = elim (Bool-cases (p i)) [
    | inl e ↦ ground arith
    | inr e ↦ elim (eq_or_lt_of_le l) [
      | inl same ↦ cc
      | inr later ↦ find_from-none n (suc i) (ground arith) k later (omega arith)
    ]
  ]
