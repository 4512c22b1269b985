-- ===== src/LruCache/Lookup.antt =====
-- inc/lru_cache.h: what a key finds after the list was relinked.
use bittorent_client.Common.{◌+◌, ◌≡◌, ◌≢◌, refl, none, some, List, [], ◌∷◌, length, arith}
use mathlib.Core.List.{lookup}
use bittorent_client.LruCache.{unlink, pop_back, last_key}

module _ {K V : Type 0} (dec : Discrete K) where
  -- no key stands twice
  abbrev pub IsUnique : List (K × V) → Type 0
  IsUnique [] = Unit {0}
  IsUnique (e ∷ l) = (lookup dec e.0 l ≡ none) × IsUnique l

  pub lookup-unlink_ne :
      (k q : K) (l : List (K × V)) → q ≢ k → lookup dec q (unlink dec k l) ≡ lookup dec q l
  unfolding lookup unlink
  lookup-unlink_ne k q [] h = refl
  lookup-unlink_ne k q (e ∷ l) h = ground (arith, lookup-unlink_ne k q l)

  pub lookup-unlink : (k : K) (l : List (K × V)) → IsUnique l → lookup dec k (unlink dec k l) ≡ none
  unfolding lookup unlink
  lookup-unlink k [] u = refl
  lookup-unlink k (e ∷ l) u = ground (arith, u.0, lookup-unlink k l u.1)

  none-unlink :
      (q k : K) (l : List (K × V)) → lookup dec q l ≡ none → lookup dec q (unlink dec k l) ≡ none
  unfolding lookup unlink
  none-unlink q k [] h = h
  none-unlink q k (e ∷ l) h = ground (arith, h, none-unlink q k l)

  pub unlink-IsUnique : (k : K) (l : List (K × V)) → IsUnique l → IsUnique (unlink dec k l)
  unfolding unlink
  unlink-IsUnique k [] u = tt
  unlink-IsUnique k (e ∷ l) u =
      elim (dec k e.0) as (λ d. IsUnique (elim d [ yes _ ↦ l | no _ ↦ e ∷ unlink dec k l ])) [
        | yes same ↦ u.1
        | no differs ↦ (none-unlink e.0 k l u.0, unlink-IsUnique k l u.1)
      ]

  pub length-unlink :
      (k : K) (l : List (K × V)) (v : V)
      → lookup dec k l ≡ some v
      → length (unlink dec k l) + 1 ≡ length l
  unfolding lookup unlink
  length-unlink k [] v h = cc
  length-unlink k (e ∷ l) v h = ground (arith, length-unlink k l v)

  pub none-pop_back :
      (q : K) (l : List (K × V)) → lookup dec q l ≡ none → lookup dec q (pop_back l) ≡ none
  unfolding lookup pop_back
  none-pop_back q [] h = refl
  none-pop_back q (e ∷ []) h = refl
  none-pop_back q (e ∷ f ∷ l) h = ground (arith, h, none-pop_back q (f ∷ l))

  pub pop_back-IsUnique : (l : List (K × V)) → IsUnique l → IsUnique (pop_back l)
  unfolding pop_back
  pop_back-IsUnique [] u = tt
  pop_back-IsUnique (e ∷ []) u = tt
  pop_back-IsUnique (e ∷ f ∷ l) u = (none-pop_back e.0 (f ∷ l) u.0, pop_back-IsUnique (f ∷ l) u.1)

  -- only the last key is forgotten
  pub lookup-pop_back :
      (q : K) (l : List (K × V)) → last_key l ≢ some q → lookup dec q (pop_back l) ≡ lookup dec q l
  unfolding lookup pop_back last_key
  lookup-pop_back q [] h = refl
  lookup-pop_back q (e ∷ []) h = ground arith
  lookup-pop_back q (e ∷ f ∷ l) h = ground (arith, lookup-pop_back q (f ∷ l) h)

  lookup-last_key : (q : K) (l : List (K × V)) → last_key l ≡ some q → lookup dec q l ≢ none
  unfolding lookup last_key
  lookup-last_key q [] h = ground arith
  lookup-last_key q (e ∷ []) h = ground arith
  lookup-last_key q (e ∷ f ∷ l) h = ground (arith, lookup-last_key q (f ∷ l) h)

  -- and it is forgotten
  pub lookup-pop_back_last :
      (q : K) (l : List (K × V))
      → IsUnique l
      → last_key l ≡ some q
      → lookup dec q (pop_back l) ≡ none
  unfolding lookup pop_back last_key
  lookup-pop_back_last q [] u h = refl
  lookup-pop_back_last q (e ∷ []) u h = refl
  lookup-pop_back_last q (e ∷ f ∷ l) u h =
      ground (arith, lookup-pop_back_last q (f ∷ l) u.1 h, lookup-last_key q (f ∷ l) h, u.0)

module _ {K V : Type 0} where
  pub length-pop_back : (e : K × V) (l : List (K × V)) → length (pop_back (e ∷ l)) ≡ length l
  unfolding pop_back
  length-pop_back e [] = refl
  length-pop_back e (f ∷ l) = omega (arith, length-pop_back f l)
