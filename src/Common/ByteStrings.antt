-- ===== src/Common/ByteStrings.antt =====
-- `std::string` and `std::array<uint8_t, N>` compare byte by byte, as one total order.
use mathlib.Core.Path.{◌≡◌, refl}
use mathlib.Core.Bool.{Bool, true, false, ◌&&◌, ◌||◌}
use mathlib.Core.List.{[], ◌∷◌}
use native.Mathlib.Omega.{arith}
use bittorent_client.Common.Tests.{ltb, ◌==◌, decided}
use bittorent_client.Common.Words.{Bytes}

-- `operator<` and `operator==` of `std::string`
unfoldable pub bytes_lt : Bytes → Bytes → Bool
bytes_lt xs [] = false
bytes_lt [] (y ∷ ys) = true
bytes_lt (x ∷ xs) (y ∷ ys) = ltb x y || (x == y && bytes_lt xs ys)

unfoldable pub bytes_eq : Bytes → Bytes → Bool
bytes_eq [] [] = true
bytes_eq (x ∷ xs) (y ∷ ys) = x == y && bytes_eq xs ys
bytes_eq _ _ = false

pub bytes_eq-eq : (xs ys : Bytes) → bytes_eq xs ys ≡ true → xs ≡ ys
unfolding bytes_eq
bytes_eq-eq [] [] h = refl
bytes_eq-eq [] (y ∷ ys) h = cc
bytes_eq-eq (x ∷ xs) [] h = cc
bytes_eq-eq (x ∷ xs) (y ∷ ys) h = ground (arith, bytes_eq-eq xs ys)

pub bytes_eq_refl : (xs : Bytes) → bytes_eq xs xs ≡ true
unfolding bytes_eq
bytes_eq_refl [] = refl
bytes_eq_refl (x ∷ xs) = ground (arith, bytes_eq_refl xs)

pub bytes_eq_comm : (xs ys : Bytes) → bytes_eq xs ys ≡ bytes_eq ys xs
unfolding bytes_eq
bytes_eq_comm [] [] = refl
bytes_eq_comm [] (y ∷ ys) = refl
bytes_eq_comm (x ∷ xs) [] = refl
bytes_eq_comm (x ∷ xs) (y ∷ ys) = ground (arith, bytes_eq_comm xs ys)

pub bytes_lt_irrefl : (xs : Bytes) → bytes_lt xs xs ≡ false
unfolding bytes_lt
bytes_lt_irrefl [] = refl
bytes_lt_irrefl (x ∷ xs) = ground (arith, bytes_lt_irrefl xs)

pub bytes_lt_asymm : (xs ys : Bytes) → bytes_lt xs ys ≡ true → bytes_lt ys xs ≡ false
unfolding bytes_lt
bytes_lt_asymm [] [] h = cc
bytes_lt_asymm [] (y ∷ ys) h = refl
bytes_lt_asymm (x ∷ xs) [] h = cc
bytes_lt_asymm (x ∷ xs) (y ∷ ys) h = ground (arith, bytes_lt_asymm xs ys)

pub bytes_lt_trans :
    (xs ys zs : Bytes) → bytes_lt xs ys ≡ true → bytes_lt ys zs ≡ true → bytes_lt xs zs ≡ true
unfolding bytes_lt
bytes_lt_trans [] ys [] h k = cc
bytes_lt_trans [] ys (z ∷ zs) h k = refl
bytes_lt_trans (x ∷ xs) [] zs h k = cc
bytes_lt_trans (x ∷ xs) (y ∷ ys) [] h k = cc
bytes_lt_trans (x ∷ xs) (y ∷ ys) (z ∷ zs) h k = ground (arith, bytes_lt_trans xs ys zs)

-- Of two keys one is smaller, or they are the same.
pub bytes_lt_connex : (xs ys : Bytes) → bytes_lt xs ys ≡ false → bytes_lt ys xs ≡ false → xs ≡ ys
unfolding bytes_lt
bytes_lt_connex [] [] h k = refl
bytes_lt_connex [] (y ∷ ys) h k = cc
bytes_lt_connex (x ∷ xs) [] h k = cc
bytes_lt_connex (x ∷ xs) (y ∷ ys) h k = ground (arith, bytes_lt_connex xs ys)

-- The equality as a decision, for keys of a map.
unfoldable pub bytes_dec : Discrete Bytes
bytes_dec xs ys =
    decided (bytes_eq xs ys) (bytes_eq-eq xs ys) (λ differs e. cc (e, bytes_eq_refl xs, differs))

pub bytes_le_trans :
    (xs ys zs : Bytes) → bytes_lt xs ys ≡ false → bytes_lt ys zs ≡ false → bytes_lt xs zs ≡ false
unfolding bytes_lt
bytes_le_trans xs ys [] h k = refl_lem xs
  where
    refl_lem : (xs : Bytes) → bytes_lt xs [] ≡ false
    refl_lem [] = refl
    refl_lem (x ∷ xs) = refl
bytes_le_trans xs [] (z ∷ zs) h k = cc
bytes_le_trans [] (y ∷ ys) (z ∷ zs) h k = cc
bytes_le_trans (x ∷ xs) (y ∷ ys) (z ∷ zs) h k = ground (arith, bytes_le_trans xs ys zs)
