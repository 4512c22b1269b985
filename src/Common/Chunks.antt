-- ===== src/Common/Chunks.antt =====
-- Byte strings that are read in steps of a fixed size:
-- `for (i = 0; i + n <= data.size(); i += n)` with the bytes from `i` to `i + n`.
use Prim.Native.Nat.{ℕ, zero, suc, ◌<◌}
use mathlib.Core.Path.{◌≡◌, ap}
use mathlib.Core.Logic.{inl, inr}
use mathlib.Core.Bool.{false}
use mathlib.Core.List.{List, [], ◌∷◌, ◌++◌, append_assoc}
use native.Mathlib.Omega.{arith}
use bittorent_client.Common.Tests.{ltb, if◌then◌else◌, Bool-cases}
use bittorent_client.Common.Lists.{
  length, take, drop, All, length-append, length-take, take-length-append, drop-length-append,
}
use bittorent_client.Common.Words.{Bytes}

-- With more rounds than the data have bytes.
unfoldable pub chunks_from : ℕ → ℕ → Bytes → List Bytes
chunks_from zero n bytes = []
chunks_from (suc f) n bytes =
    let rest = chunks_from f n (drop n bytes) in
    if ltb (length bytes) n then [] else take n bytes ∷ rest

unfoldable pub chunks : ℕ → Bytes → List Bytes
unfolding chunks_from
chunks n bytes = chunks_from (suc (length bytes)) n bytes

-- the strings one behind the other
abbrev pub join : List Bytes → Bytes
join [] = []
join (c ∷ cs) = c ++ join cs

chunks_from-join :
    (f n : ℕ) (cs : List Bytes) (r : Bytes)
    → 0 < n
    → All (λ c. length c ≡ n) cs
    → length r < n
    → length (join cs ++ r) < f
    → chunks_from f n (join cs ++ r) ≡ cs
unfolding chunks_from
chunks_from-join zero n cs r p h l m = absurd (omega arith)
chunks_from-join (suc f) n [] r p h l m = ground arith
chunks_from-join (suc f) n (c ∷ cs) r p h l m =
    let whole = append_assoc c (join cs) r in
    let size = length-append c (join cs ++ r) in
    let first = take-length-append c (join cs ++ r) {n = n} (omega (arith, h.0)) in
    let rest = drop-length-append c (join cs ++ r) {n = n} (omega (arith, h.0)) in
    let enough : ltb (length (c ++ (join cs ++ r))) n ≡ false = ground (arith, size, h.0) in
    rw (whole, enough, first, rest)
      (ap (c ∷◌) (chunks_from-join f n cs r p h.1 l (ground (arith, size, h.0, whole, m))))

-- Strings of `n` bytes that were joined are found again; a shorter rest is ignored.
pub chunks-join :
    (n : ℕ) (cs : List Bytes) (r : Bytes)
    → 0 < n
    → All (λ c. length c ≡ n) cs
    → length r < n
    → chunks n (join cs ++ r) ≡ cs
unfolding chunks
chunks-join n cs r p h l = chunks_from-join (suc (length (join cs ++ r))) n cs r p h l (omega arith)

chunks_from-All : (f n : ℕ) (bytes : Bytes) → All (λ c. length c ≡ n) (chunks_from f n bytes)
unfolding chunks_from
chunks_from-All zero n bytes = tt
chunks_from-All (suc f) n bytes = elim (Bool-cases (ltb (length bytes) n)) [
  | inl short ↦ rw short tt
  | inr enough ↦ rw enough (ground (arith, length-take n bytes), chunks_from-All f n (drop n bytes))
]

-- Every chunk has its size.
pub chunks-All : (n : ℕ) (bytes : Bytes) → All (λ c. length c ≡ n) (chunks n bytes)
unfolding chunks
chunks-All n bytes = chunks_from-All (suc (length bytes)) n bytes
