-- ===== src/LruCache.antt =====
-- inc/lru_cache.h: the cache of a fixed capacity. `items_` is a list, most recently used first; the
-- hash map `index_` from a key to its node is the search for the node.
pub mod Invariant
pub mod Lookup
use bittorent_client.Common.{
  ℕ, ◌+◌, Bool, true, false, Option, none, some, List, [], ◌∷◌, length, leb, if◌then◌else◌,
}
use mathlib.Core.List.{lookup}

pub record LruCache (K V : Type 0) : Type 0 where
  pub capacity : ℕ
  pub items : List (K × V)

module _ {K V : Type 0} where
  abbrev pub new : ℕ → LruCache K V
  new capacity = record { capacity = capacity; items = [] }

  abbrev pub size : LruCache K V → ℕ
  size c = length c.items

  abbrev pub clear : LruCache K V → LruCache K V
  clear c = record c { items = [] }

  -- `items_.pop_back()`
  unfoldable pub pop_back : List (K × V) → List (K × V)
  pop_back [] = []
  pop_back (e ∷ []) = []
  pop_back (e ∷ f ∷ l) = e ∷ pop_back (f ∷ l)

  unfoldable pub last_key : List (K × V) → Option K
  last_key [] = none
  last_key (e ∷ []) = some e.0
  last_key (e ∷ f ∷ l) = last_key (f ∷ l)

  abbrev pub lru_key : LruCache K V → Option K
  lru_key c = last_key c.items

  abbrev pub evict_lru : LruCache K V → LruCache K V
  evict_lru c = record c { items = pop_back c.items }

module _ {K V : Type 0} (dec : Discrete K) where
  -- the list without the node of a key
  unfoldable pub unlink : K → List (K × V) → List (K × V)
  unlink k [] = []
  unlink k (e ∷ l) = let rest = unlink k l in elim (dec k e.0) [ yes _ ↦ l | no _ ↦ e ∷ rest ]

  abbrev pub contains : K → LruCache K V → Bool
  contains k c = elim (lookup dec k c.items) [ none ↦ false | some _ ↦ true ]

  -- `items_.splice(items_.begin(), items_, node)`, with the value that the node then holds
  abbrev pub promote : K → V → LruCache K V → LruCache K V
  promote k v c = record c { items = (k, v) ∷ unlink k c.items }

  abbrev pub get_node : K → LruCache K V → Option V → Option V × LruCache K V
  get_node k c none = (none, c)
  get_node k c (some v) = (some v, promote k v c)

  -- The value, and the cache with its node in front.
  unfoldable pub get : K → LruCache K V → Option V × LruCache K V
  get k c = get_node k c (lookup dec k c.items)

  abbrev pub make_room : LruCache K V → LruCache K V
  make_room c = if leb c.capacity (size c) then evict_lru c else c

  abbrev pub put_node : K → V → LruCache K V → Option V → LruCache K V
  put_node k v c (some _) = promote k v c
  put_node k v c none = let room = make_room c in record room { items = (k, v) ∷ room.items }

  unfoldable pub put : K → V → LruCache K V → LruCache K V
  put k v c = put_node k v c (lookup dec k c.items)

  abbrev pub erase_node : K → LruCache K V → Option V → Bool × LruCache K V
  erase_node k c none = (false, c)
  erase_node k c (some _) = (true, record c { items = unlink k c.items })

  -- Whether an entry was removed, and the cache without it.
  unfoldable pub erase : K → LruCache K V → Bool × LruCache K V
  erase k c = erase_node k c (lookup dec k c.items)
