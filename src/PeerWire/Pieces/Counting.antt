-- ===== src/PeerWire/Pieces/Counting.antt =====
-- src/peer_wire/piece_manager.cpp: how many pieces and bytes a set of pieces makes.
use bittorent_client.Common.{
  ℕ, zero, suc, ◌+◌, ◌-◌, ◌*◌, ◌%◌, ◌<◌, ◌≤◌, ◌≡◌, refl, ◌∙◌, sym, ap, Bool, true, false, List, [],
  ◌∷◌, arith, length, set, get_or, u32_mod, u64_mod, if◌then◌else◌, replicate,
}
use native.Mathlib.Nat.{add-zero, add-suc, suc-add}
use bittorent_client.PeerWire.Pieces.{piece_length_of}

-- How many pieces are there.
unfoldable pub count_have : List Bool → ℕ
count_have [] = 0
count_have (b ∷ bs) = (if b then 1 else 0) + count_have bs

-- The bytes of the pieces that are there, from piece `i` on.
unfoldable pub have_bytes : (ℕ → ℕ) → ℕ → List Bool → ℕ
have_bytes len i [] = 0
have_bytes len i (b ∷ bs) = (if b then len i else 0) + have_bytes len (suc i) bs

-- The numbers of a torrent: `num` pieces of `nominal` bytes, the last one not longer and not empty.
pub record IsGeometry (total num nominal : ℕ) : Type 0 where
  pub some_piece : 0 < num
  pub num_fits : num < u32_mod
  pub nominal_fits : nominal < u32_mod
  pub total_fits : total < u64_mod
  pub above : (num - 1) * nominal < total
  pub below : total ≤ (num - 1) * nominal + nominal

-- Setting a piece that was not there adds it to both sums.
pub count_have-set :
    (bs : List Bool) (i : ℕ)
    → i < length bs
    → get_or bs i false ≡ false
    → count_have (set bs i true) ≡ count_have bs + 1
unfolding count_have
count_have-set [] i h e = absurd (omega arith)
count_have-set (b ∷ bs) zero h e = ground arith
count_have-set (b ∷ bs) (suc i) h e = omega (arith, count_have-set bs i (omega arith) e)

pub have_bytes-set :
    (len : ℕ → ℕ) (j : ℕ) (bs : List Bool) (i : ℕ)
    → i < length bs
    → get_or bs i false ≡ false
    → have_bytes len j (set bs i true) ≡ have_bytes len j bs + len (j + i)
unfolding have_bytes
have_bytes-set len j [] i h e = absurd (omega arith)
have_bytes-set len j (b ∷ bs) zero h e = ground (arith, ap len (add-zero j))
have_bytes-set len j (b ∷ bs) (suc i) h e = ground (
  arith,
  have_bytes-set len (suc j) bs i (omega arith) e,
  ap len (add-suc j i),
  ap len (suc-add j i),
)

pub count_have-le : (bs : List Bool) → count_have bs ≤ length bs
unfolding count_have
count_have-le [] = omega arith
count_have-le (true ∷ bs) = omega (arith, count_have-le bs)
count_have-le (false ∷ bs) = omega (arith, count_have-le bs)

-- Below the last index every piece has its nominal length, and the last one has the rest.
pub piece_length_of-lem :
    {total num nominal : ℕ} (i : ℕ)
    → IsGeometry total num nominal
    → i < num
    → (suc i < num → piece_length_of total num nominal i ≡ nominal)
      × (suc i ≡ num → piece_length_of total num nominal i ≡ total - (num - 1) * nominal)
unfolding piece_length_of
piece_length_of-lem {total} {num} {nominal} i g h =
    let index : (i + 1) % u32_mod ≡ i + 1 = omega arith in
    let last : (num + u32_mod - 1) % u32_mod ≡ num - 1 = omega arith in
    let before : nominal * (num - 1) ≡ (num - 1) * nominal = omega arith in
    (λ l. rw index (ground arith), λ l. rw (index, last, before) (ground arith))

-- The pieces from `j` on that are there have no more bytes than the torrent has from there on, and
-- exactly as many if all of them are there.
have_bytes_lem :
    {total num nominal : ℕ} (j : ℕ) (b : Bool) (bs : List Bool)
    → IsGeometry total num nominal
    → j + length (b ∷ bs) ≡ num
    → (have_bytes (piece_length_of total num nominal) j (b ∷ bs) + j * nominal ≤ total)
      × (count_have (b ∷ bs) ≡ length (b ∷ bs)
          → have_bytes (piece_length_of total num nominal) j (b ∷ bs) + j * nominal ≡ total)
unfolding have_bytes count_have
have_bytes_lem {total} {num} {nominal} j b [] g h =
    let e : j ≡ num - 1 = omega arith in
    let p : j * nominal ≡ (num - 1) * nominal = ap (λ (t : ℕ). t * nominal) e in
    ground (arith, (piece_length_of-lem j g (omega arith)).1)
have_bytes_lem {total} {num} {nominal} j b (c ∷ bs) g h =
    let l = (piece_length_of-lem j g (omega arith)).0 (omega arith) in
    let (le, eq) = have_bytes_lem (suc j) c bs g (omega arith) in
    (ground arith, λ all. ground (arith, count_have-le bs))

pub have_bytes-total :
    {total num nominal : ℕ} (bs : List Bool)
    → IsGeometry total num nominal
    → length bs ≡ num
    → (have_bytes (piece_length_of total num nominal) 0 bs ≤ total)
      × (count_have bs ≡ num → have_bytes (piece_length_of total num nominal) 0 bs ≡ total)
have_bytes-total [] g h = absurd (omega (arith, g.some_piece))
have_bytes-total (b ∷ bs) g h =
    let (le, eq) = have_bytes_lem 0 b bs g (omega arith) in
    (omega arith, λ all. let e = eq (all ∙ sym h) in omega arith)

pub count_have-replicate : (n : ℕ) → count_have (replicate n false) ≡ 0
unfolding count_have
count_have-replicate zero = refl
count_have-replicate (suc n) = omega (arith, count_have-replicate n)

pub have_bytes-replicate : (len : ℕ → ℕ) (i n : ℕ) → have_bytes len i (replicate n false) ≡ 0
unfolding have_bytes
have_bytes-replicate len i zero = refl
have_bytes-replicate len i (suc n) = omega (arith, have_bytes-replicate len (suc i) n)

-- All pieces are counted exactly if all of them are there.
pub all-count_have :
    (bs : List Bool)
    → count_have bs ≡ length bs
    → (i : ℕ) → i < length bs
    → get_or bs i false ≡ true
unfolding count_have
all-count_have [] e i h = absurd (omega arith)
all-count_have (true ∷ bs) e zero h = refl
all-count_have (false ∷ bs) e zero h = absurd (omega (arith, count_have-le bs))
all-count_have (true ∷ bs) e (suc i) h = all-count_have bs (omega arith) i (omega arith)
all-count_have (false ∷ bs) e (suc i) h = absurd (omega (arith, count_have-le bs))

pub count_have-all :
    (bs : List Bool)
    → ((i : ℕ) → i < length bs → get_or bs i false ≡ true)
    → count_have bs ≡ length bs
unfolding count_have
count_have-all [] h = refl
count_have-all (b ∷ bs) h =
    let rest = count_have-all bs (λ i l. h (suc i) (omega arith)) in
    let first : b ≡ true = h 0 (omega arith) in ground arith
