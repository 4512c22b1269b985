-- ===== src/LruCache/Invariant.antt =====
-- inc/lru_cache.h: the invariant, and that every operation keeps it.
use bittorent_client.Common.{
  ℕ, ◌+◌, ◌≤◌, ◌≡◌, ◌≢◌, refl, true, Option, none, some, List, [], ◌∷◌, length, leb, arith,
  Bool-cases, inl, inr,
}
use mathlib.Core.Path.{subst, sym}
use mathlib.Core.List.{lookup}
use bittorent_client.LruCache.{
  LruCache, pop_back, get, put, erase, get_node, put_node, erase_node, promote, size, lru_key,
}
use bittorent_client.LruCache.Lookup.{
  IsUnique, lookup-unlink, lookup-unlink_ne, unlink-IsUnique, length-unlink, pop_back-IsUnique,
  lookup-pop_back, lookup-pop_back_last, length-pop_back, none-pop_back,
}

module _ {K V : Type 0} (dec : Discrete K) where
  -- No key stands twice, and there are `capacity` entries at most.
  abbrev pub IsValid : LruCache K V → Type 0
  IsValid c = IsUnique dec c.items × (size c ≤ c.capacity)

  length-room :
      (n : ℕ) (l : List (K × V)) → length l ≤ n → 1 ≤ n → n ≤ length l → length (pop_back l) + 1 ≤ n
  length-room n [] h p f = absurd (omega arith)
  length-room n (e ∷ l) h p f = omega (arith, length-pop_back e l)

  promote-IsValid :
      (k : K) (v w : V) (c : LruCache K V)
      → lookup dec k c.items ≡ some w
      → IsValid c
      → IsValid (promote dec k v c)
  promote-IsValid k v w c hit h = (
    (lookup-unlink dec k c.items h.0, unlink-IsUnique dec k c.items h.0),
    omega (arith, h.1, length-unlink dec k c.items w hit),
  )

  get_node-IsValid :
      (k : K) (c : LruCache K V) (o : Option V)
      → lookup dec k c.items ≡ o
      → IsValid c
      → IsValid (get_node dec k c o).1
  get_node-IsValid k c none e h = h
  get_node-IsValid k c (some v) e h = promote-IsValid k v v c e h

  erase_node-IsValid :
      (k : K) (c : LruCache K V) (o : Option V)
      → lookup dec k c.items ≡ o
      → IsValid c
      → IsValid (erase_node dec k c o).1
  erase_node-IsValid k c none e h = h
  erase_node-IsValid k c (some v) e h =
      (unlink-IsUnique dec k c.items h.0, omega (arith, h.1, length-unlink dec k c.items v e))

  put_node-IsValid :
      (k : K) (v : V) (c : LruCache K V) (o : Option V)
      → lookup dec k c.items ≡ o
      → 1 ≤ c.capacity
      → IsValid c
      → IsValid (put_node dec k v c o)
  put_node-IsValid k v c (some w) e p h = promote-IsValid k v w c e h
  put_node-IsValid k v c none e p h = elim (Bool-cases (leb c.capacity (length c.items))) [
    | inl full ↦ simp full (
      (none-pop_back dec k c.items e, pop_back-IsUnique dec c.items h.0),
      omega (arith, length-room c.capacity c.items h.1 p (ground arith)),
    )
    | inr room ↦ simp room ((e, h.0), ground arith)
  ]

  -- In a cache of a positive capacity every operation keeps the keys unique and the size within the
  -- capacity.
  pub operations-IsValid :
      (k : K) (v : V) (c : LruCache K V)
      → 1 ≤ c.capacity
      → IsValid c
      → IsValid (get dec k c).1 × IsValid (put dec k v c) × IsValid (erase dec k c).1
  unfolding get put erase
  operations-IsValid k v c p h =
      let o = lookup dec k c.items in
      (
        get_node-IsValid k c o refl h,
        put_node-IsValid k v c o refl p h,
        erase_node-IsValid k c o refl h,
      )

  kept :
      (k q : K) (v : V) (c : LruCache K V) (o : Option V)
      → q ≢ k
      → lru_key c ≢ some q
      → lookup dec q (put_node dec k v c o).items ≡ lookup dec q c.items
  unfolding lookup
  kept k q v c (some w) n m = ground (arith, n, lookup-unlink_ne dec k q c.items n)
  kept k q v c none n m = elim (Bool-cases (leb c.capacity (length c.items))) [
    | inl full ↦ simp full (ground (arith, n, lookup-pop_back dec q c.items m))
    | inr room ↦ simp room (ground (arith, n))
  ]

  found :
      (k : K) (v : V) (c : LruCache K V) (o : Option V)
      → lookup dec k (put_node dec k v c o).items ≡ some v
  unfolding lookup
  found k v c (some w) = ground arith
  found k v c none = ground arith

  evicted :
      (k q : K) (v : V) (c : LruCache K V)
      → IsUnique dec c.items
      → q ≢ k
      → lru_key c ≡ some q
      → c.capacity ≤ size c
      → lookup dec q (put_node dec k v c none).items ≡ none
  unfolding lookup
  evicted k q v c u n m l =
      let full : leb c.capacity (length c.items) ≡ true = ground arith in
      simp full (ground (arith, n, lookup-pop_back_last dec q c.items u m))

  -- After a `put` its key finds the value. Another key finds what it found before, unless the cache
  -- was full, the key new and the other key the least recently used one, which is forgotten.
  pub lookup-put :
      (k q : K) (v : V) (c : LruCache K V)
      → IsUnique dec c.items
      → (lookup dec k (put dec k v c).items ≡ some v)
        × (q ≢ k → lru_key c ≢ some q → lookup dec q (put dec k v c).items ≡ lookup dec q c.items)
        × (q ≢ k
            → lru_key c ≡ some q
            → c.capacity ≤ size c
            → lookup dec k c.items ≡ none
            → lookup dec q (put dec k v c).items ≡ none)
  unfolding put
  lookup-put k q v c u =
      let o = lookup dec k c.items in
      (
        found k v c o,
        kept k q v c o,
        λ n m l e.
            subst (λ (o : Option V). lookup dec q (put_node dec k v c o).items ≡ none) (sym e)
              (evicted k q v c u n m l),
      )
