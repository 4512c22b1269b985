-- ===== src/Common/Int.antt =====
-- Signed 64-bit integers as a sign and a number.
use Prim.Native.Nat.{ℕ, ◌<◌, ◌^◌}

-- `negsuc n` is -(n + 1).
pub data ℤ : Type 0 where
  pos : ℕ → ℤ
  negsuc : ℕ → ℤ

-- the values of an `int64_t`
abbrev pub IsInt64 : ℤ → Type 0
IsInt64 (pos n) = n < 2 ^ 63
IsInt64 (negsuc n) = n < 2 ^ 63
