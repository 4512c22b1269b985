-- ===== src/PeerWire/Disk/Splice.antt =====
-- Data written over a part of two byte strings that follow one another, and read from them.
use bittorent_client.Common.{
  ℕ, zero, suc, ◌+◌, ◌≤◌, ◌≡◌, refl, ap, Bytes, [], ◌∷◌, ◌++◌, arith, length, take, drop,
}
use bittorent_client.PeerWire.Disk.{write_at}

pub write_at-nil : (xs : Bytes) (k : ℕ) → k ≤ length xs → write_at xs k [] ≡ xs
unfolding write_at
write_at-nil [] zero h = refl
write_at-nil [] (suc k) h = absurd (omega arith)
write_at-nil (x ∷ xs) zero h = refl
write_at-nil (x ∷ xs) (suc k) h = ap (◌∷◌ x) (write_at-nil xs k (omega arith))

pub length-write_at :
    (xs : Bytes) (k : ℕ) (ds : Bytes)
    → k + length ds ≤ length xs
    → length (write_at xs k ds) ≡ length xs
unfolding write_at
length-write_at [] zero [] h = refl
length-write_at [] zero (d ∷ ds) h = absurd (omega arith)
length-write_at [] (suc k) ds h = absurd (omega arith)
length-write_at (x ∷ xs) zero [] h = refl
length-write_at (x ∷ xs) zero (d ∷ ds) h = ap suc (length-write_at xs zero ds (omega arith))
length-write_at (x ∷ xs) (suc k) ds h = ap suc (length-write_at xs k ds (omega arith))

-- behind the first string
pub write_at-append_behind :
    (xs ys : Bytes) (k p : ℕ) (ds : Bytes)
    → p ≡ length xs + k
    → write_at (xs ++ ys) p ds ≡ xs ++ write_at ys k ds
unfolding write_at
write_at-append_behind [] ys k p ds h =
    let same : p ≡ k = omega arith in ap (λ i. write_at ys i ds) same
write_at-append_behind (x ∷ xs) ys k zero ds h = absurd (omega arith)
write_at-append_behind (x ∷ xs) ys k (suc p) ds h =
    ap (◌∷◌ x) (write_at-append_behind xs ys k p ds (omega arith))

-- inside of the first string
pub write_at-append_inside :
    (xs ys : Bytes) (k : ℕ) (ds : Bytes)
    → k + length ds ≤ length xs
    → write_at (xs ++ ys) k ds ≡ write_at xs k ds ++ ys
unfolding write_at
write_at-append_inside [] ys zero [] h = write_at-nil ys zero (omega arith)
write_at-append_inside [] ys zero (d ∷ ds) h = absurd (omega arith)
write_at-append_inside [] ys (suc k) ds h = absurd (omega arith)
write_at-append_inside (x ∷ xs) ys zero [] h = refl
write_at-append_inside (x ∷ xs) ys zero (d ∷ ds) h =
    ap (◌∷◌ d) (write_at-append_inside xs ys zero ds (omega arith))
write_at-append_inside (x ∷ xs) ys (suc k) ds h =
    ap (◌∷◌ x) (write_at-append_inside xs ys k ds (omega arith))

-- over the end of the first string
pub write_at-append_over :
    (xs ys : Bytes) (k m : ℕ) (ds : Bytes)
    → k + m ≡ length xs
    → m ≤ length ds
    → write_at (xs ++ ys) k ds ≡ write_at xs k (take m ds) ++ write_at ys zero (drop m ds)
unfolding write_at
write_at-append_over [] ys zero zero ds h l = refl
write_at-append_over [] ys zero (suc m) ds h l = absurd (omega arith)
write_at-append_over [] ys (suc k) m ds h l = absurd (omega arith)
write_at-append_over (x ∷ xs) ys zero zero ds h l = absurd (omega arith)
write_at-append_over (x ∷ xs) ys zero (suc m) [] h l = absurd (omega arith)
write_at-append_over (x ∷ xs) ys zero (suc m) (d ∷ ds) h l =
    ap (◌∷◌ d) (write_at-append_over xs ys zero m ds (omega arith) (omega arith))
write_at-append_over (x ∷ xs) ys (suc k) m ds h l =
    ap (◌∷◌ x) (write_at-append_over xs ys k m ds (omega arith) l)

pub drop-append_behind :
    (xs ys : Bytes) (k p : ℕ) → p ≡ length xs + k → drop p (xs ++ ys) ≡ drop k ys
drop-append_behind [] ys k p h = let same : p ≡ k = omega arith in ap (λ i. drop i ys) same
drop-append_behind (x ∷ xs) ys k zero h = absurd (omega arith)
drop-append_behind (x ∷ xs) ys k (suc p) h = drop-append_behind xs ys k p (omega arith)

pub slice-append_inside :
    (xs ys : Bytes) (k n : ℕ) → k + n ≤ length xs → take n (drop k (xs ++ ys)) ≡ take n (drop k xs)
slice-append_inside xs ys k zero h = refl
slice-append_inside [] ys k (suc n) h = absurd (omega arith)
slice-append_inside (x ∷ xs) ys zero (suc n) h =
    ap (◌∷◌ x) (slice-append_inside xs ys zero n (omega arith))
slice-append_inside (x ∷ xs) ys (suc k) (suc n) h =
    slice-append_inside xs ys k (suc n) (omega arith)

pub slice-append_over :
    (xs ys : Bytes) (k m n p : ℕ)
    → k + m ≡ length xs
    → p ≡ m + n
    → take p (drop k (xs ++ ys)) ≡ take m (drop k xs) ++ take n ys
slice-append_over [] ys zero zero n p h e =
    let same : p ≡ n = omega arith in ap (λ i. take i ys) same
slice-append_over [] ys zero (suc m) n p h e = absurd (omega arith)
slice-append_over [] ys (suc k) m n p h e = absurd (omega arith)
slice-append_over (x ∷ xs) ys zero zero n p h e = absurd (omega arith)
slice-append_over (x ∷ xs) ys zero (suc m) n zero h e = absurd (omega arith)
slice-append_over (x ∷ xs) ys zero (suc m) n (suc p) h e =
    ap (◌∷◌ x) (slice-append_over xs ys zero m n p (omega arith) (omega arith))
slice-append_over (x ∷ xs) ys (suc k) m n p h e = slice-append_over xs ys k m n p (omega arith) e

-- What was written is read back.
pub slice-write_at :
    (xs : Bytes) (k : ℕ) (ds : Bytes)
    → k + length ds ≤ length xs
    → take (length ds) (drop k (write_at xs k ds)) ≡ ds
unfolding write_at
slice-write_at xs k [] h = refl
slice-write_at [] zero (d ∷ ds) h = absurd (omega arith)
slice-write_at [] (suc k) (d ∷ ds) h = absurd (omega arith)
slice-write_at (x ∷ xs) zero (d ∷ ds) h = ap (◌∷◌ d) (slice-write_at xs zero ds (omega arith))
slice-write_at (x ∷ xs) (suc k) (d ∷ ds) h = slice-write_at xs k (d ∷ ds) (omega arith)

-- What stands in front of it or behind it stays.
pub slice-write_at_before :
    (xs : Bytes) (k j n : ℕ) (ds : Bytes)
    → k + length ds ≤ length xs
    → j + n ≤ k
    → take n (drop j (write_at xs k ds)) ≡ take n (drop j xs)
unfolding write_at
slice-write_at_before xs k j zero ds h l = refl
slice-write_at_before xs zero j (suc n) ds h l = absurd (omega arith)
slice-write_at_before [] (suc k) j (suc n) ds h l = absurd (omega arith)
slice-write_at_before (x ∷ xs) (suc k) zero (suc n) ds h l =
    ap (◌∷◌ x) (slice-write_at_before xs k zero n ds (omega arith) (omega arith))
slice-write_at_before (x ∷ xs) (suc k) (suc j) (suc n) ds h l =
    slice-write_at_before xs k j (suc n) ds (omega arith) (omega arith)

pub drop-write_at_behind :
    (xs : Bytes) (k j : ℕ) (ds : Bytes)
    → k + length ds ≤ length xs
    → k + length ds ≤ j
    → drop j (write_at xs k ds) ≡ drop j xs
unfolding write_at
drop-write_at_behind xs k zero (d ∷ ds) h l = absurd (omega arith)
drop-write_at_behind [] (suc k) j ds h l = absurd (omega arith)
drop-write_at_behind [] zero j [] h l = refl
drop-write_at_behind [] zero j (d ∷ ds) h l = absurd (omega arith)
drop-write_at_behind (x ∷ xs) zero j [] h l = refl
drop-write_at_behind (x ∷ xs) zero (suc j) (d ∷ ds) h l =
    drop-write_at_behind xs zero j ds (omega arith) (omega arith)
drop-write_at_behind (x ∷ xs) (suc k) zero ds h l = absurd (omega arith)
drop-write_at_behind (x ∷ xs) (suc k) (suc j) ds h l =
    drop-write_at_behind xs k j ds (omega arith) (omega arith)
