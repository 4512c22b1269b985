-- ===== src/Common/Sort.antt =====
-- `std::sort` by a strict order: here an insertion sort, which leaves equal elements in their order,
-- as the C++ library's does for up to sixteen; the order of equal elements is not specified for more.
use Prim.Native.Nat.{ℕ, zero, suc}
use mathlib.Core.Path.{◌≡◌, refl, ap, ◌∙◌}
use mathlib.Core.Logic.{inl, inr}
use mathlib.Core.Bool.{Bool, true, false}
use mathlib.Core.List.{List, [], ◌∷◌, ◌++◌, Perm}
use mathlib.Core.List.Perm
use native.Mathlib.Omega.{arith}
use bittorent_client.Common.Tests.{if◌then◌else◌, Bool-cases}
use bittorent_client.Common.Lists.{length, All, take, drop}

module _ {ℓ κ} {A : Type ℓ} (P : A → Type κ) where
  pub take-All : (k : ℕ) (xs : List A) → All P xs → All P (take k xs)
  take-All zero xs h = tt
  take-All (suc k) [] h = tt
  take-All (suc k) (x ∷ xs) h = (h.0, take-All k xs h.1)

  pub drop-All : (k : ℕ) (xs : List A) → All P xs → All P (drop k xs)
  drop-All zero xs h = h
  drop-All (suc k) [] h = tt
  drop-All (suc k) (x ∷ xs) h = drop-All k xs h.1

  All-map : (xs : List A) → ((a : A) → P a) → All P xs
  All-map [] f = tt
  All-map (x ∷ xs) f = (f x, All-map xs f)

All-zip {ℓ κ} :
    {A : Type ℓ} (P Q R : A → Type κ) (xs : List A)
    → All P xs
    → All Q xs
    → ((a : A) → P a → Q a → R a)
    → All R xs
All-zip P Q R [] p q f = tt
All-zip P Q R (x ∷ xs) p q f = (f x p.0 q.0, All-zip P Q R xs p.1 q.1 f)

pub take-append-drop {ℓ} : {A : Type ℓ} (k : ℕ) (xs : List A) → take k xs ++ drop k xs ≡ xs
take-append-drop zero xs = refl
take-append-drop (suc k) [] = refl
take-append-drop (suc k) (x ∷ xs) = ap (◌∷◌ x) (take-append-drop k xs)

module _ {ℓ} {A : Type ℓ} (less : A → A → Bool) where
  -- behind the elements that are smaller
  unfoldable pub insert_sorted : A → List A → List A
  insert_sorted a [] = a ∷ []
  insert_sorted a (x ∷ xs) =
      let rest = insert_sorted a xs in if less x a then x ∷ rest else a ∷ x ∷ xs

  unfoldable pub sort : List A → List A
  unfolding insert_sorted
  sort [] = []
  sort (x ∷ xs) = insert_sorted x (sort xs)

  -- no element is greater than a later one
  abbrev pub IsSorted : List A → Type ℓ
  IsSorted [] = Unit {ℓ}
  IsSorted (x ∷ xs) = All (λ y. less y x ≡ false) xs × IsSorted xs

  module _ {κ} (P : A → Type κ) where
    insert_sorted-All : (a : A) (xs : List A) → P a → All P xs → All P (insert_sorted a xs)
    unfolding insert_sorted
    insert_sorted-All a [] p h = (p, tt)
    insert_sorted-All a (x ∷ xs) p h = elim (Bool-cases (less x a)) [
      | inl e ↦ rw e (h.0, insert_sorted-All a xs p h.1)
      | inr e ↦ rw e (p, h)
    ]

    -- What holds of each element holds of each element of the sorted list.
    pub sort-All : (xs : List A) → All P xs → All P (sort xs)
    unfolding sort
    sort-All [] h = tt
    sort-All (x ∷ xs) h = insert_sorted-All x (sort xs) h.0 (sort-All xs h.1)

  insert_sorted-perm : (a : A) (xs : List A) → Perm (insert_sorted a xs) (a ∷ xs)
  unfolding insert_sorted
  insert_sorted-perm a [] = Perm.refl (a ∷ [])
  insert_sorted-perm a (x ∷ xs) = elim (Bool-cases (less x a)) [
    | inl e ↦ rw e (Perm.trans (Perm.cons x (insert_sorted-perm a xs)) (Perm.swap a x xs))
    | inr e ↦ rw e (Perm.refl (a ∷ x ∷ xs))
  ]

  -- Sorting loses nothing and adds nothing.
  pub sort-perm : (xs : List A) → Perm (sort xs) xs
  unfolding sort
  sort-perm [] = Perm.refl []
  sort-perm (x ∷ xs) = Perm.trans (insert_sorted-perm x (sort xs)) (Perm.cons x (sort-perm xs))

  length-insert_sorted : (a : A) (xs : List A) → length (insert_sorted a xs) ≡ suc (length xs)
  unfolding insert_sorted
  length-insert_sorted a [] = refl
  length-insert_sorted a (x ∷ xs) = ground (arith, length-insert_sorted a xs)

  pub length-sort : (xs : List A) → length (sort xs) ≡ length xs
  unfolding sort
  length-sort [] = refl
  length-sort (x ∷ xs) = length-insert_sorted x (sort xs) ∙ ap suc (length-sort xs)

  pub take-IsSorted : (k : ℕ) (xs : List A) → IsSorted xs → IsSorted (take k xs)
  take-IsSorted zero xs s = tt
  take-IsSorted (suc k) [] s = tt
  take-IsSorted (suc k) (x ∷ xs) s =
      (take-All (λ y. less y x ≡ false) k xs s.0, take-IsSorted k xs s.1)

  -- What is cut off a sorted list is not smaller than what is kept.
  pub drop-not_less :
      (k : ℕ) (xs : List A)
      → IsSorted xs
      → All (λ d. All (λ t. less d t ≡ false) (take k xs)) (drop k xs)
  drop-not_less zero xs s = All-map _ xs (λ d. tt)
  drop-not_less (suc k) [] s = tt
  drop-not_less (suc k) (x ∷ xs) s =
      All-zip _ _ _ (drop k xs) (drop-All (λ y. less y x ≡ false) k xs s.0) (drop-not_less k xs s.1)
        (λ d h r. (h, r))

  module _ (asymm : (a b : A) → less a b ≡ true → less b a ≡ false)
      (trans : (a b c : A) → less a b ≡ false → less b c ≡ false → less a c ≡ false) where
    All-trans :
        (a x : A) (xs : List A)
        → less x a ≡ false
        → All (λ y. less y x ≡ false) xs
        → All (λ y. less y a ≡ false) xs
    All-trans a x [] h k = tt
    All-trans a x (y ∷ xs) h k = (trans y x a k.0 h, All-trans a x xs h k.1)

    insert_sorted-IsSorted : (a : A) (xs : List A) → IsSorted xs → IsSorted (insert_sorted a xs)
    unfolding insert_sorted
    insert_sorted-IsSorted a [] s = (tt, tt)
    insert_sorted-IsSorted a (x ∷ xs) s = elim (Bool-cases (less x a)) [
      | inl e ↦ rw e (
        insert_sorted-All (λ y. less y x ≡ false) a xs (asymm x a e) s.0,
        insert_sorted-IsSorted a xs s.1,
      )
      | inr e ↦ rw e ((e, All-trans a x xs e s.0), s)
    ]

    pub sort-IsSorted : (xs : List A) → IsSorted (sort xs)
    unfolding sort
    sort-IsSorted [] = tt
    sort-IsSorted (x ∷ xs) = insert_sorted-IsSorted x (sort xs) (sort-IsSorted xs)
