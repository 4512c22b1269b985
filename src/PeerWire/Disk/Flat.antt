-- ===== src/PeerWire/Disk/Flat.antt =====
-- src/peer_wire/disk_writer.cpp: the loops over the files, against one string of bytes.
use bittorent_client.Common.{
  ℕ, zero, suc, ◌+◌, ◌-◌, ◌%◌, ◌≤◌, ◌<◌, ◌≡◌, refl, sym, ◌∙◌, ap, Bytes, true, false, List, [], ◌∷◌,
  ◌++◌, Option, none, some, Result, ok, arith, length, append-nil, length-append, length-take,
  length-drop, take_of_length-le, take, drop, u64_mod, leb, ◌==◌, ◌⊎◌, inl, inr,
}
use mathlib.Core.Path.{subst}
use bittorent_client.PeerWire.Disk.{
  FileEntry, Files, write_at, write_files, read_files, read_chunk, start_in_file, min_of,
}
use bittorent_client.PeerWire.Disk.Splice.{
  write_at-nil, length-write_at, write_at-append_behind, write_at-append_inside,
  write_at-append_over, drop-append_behind, slice-append_inside, slice-append_over,
}

-- The bytes of the torrent: the files, one behind the other.
abbrev pub content_of : Option Bytes → Bytes
content_of none = []
content_of (some content) = content

unfoldable pub flat : Files → Bytes
flat [] = []
flat (c ∷ cs) = content_of c ++ flat cs

abbrev pub IsFile : FileEntry → Option Bytes → Type 0
IsFile f none = ⊥
IsFile f (some content) = length content ≡ f.length

-- The files are those of the entries, each of its length, from an offset on and below 2^64.
abbrev pub IsLaidOut : ℕ → List FileEntry → Files → Type 0
IsLaidOut base [] [] = base < u64_mod
IsLaidOut base (f ∷ fs) (c ∷ cs) =
    (f.offset ≡ base) × (base < u64_mod) × IsFile f c × IsLaidOut (base + f.length) fs cs
IsLaidOut base _ _ = ⊥

-- What a write of the loop has done: the files hold the string with the data written over it.
pub record Writes (base : ℕ) (fs : List FileEntry) (r : Files × Result ℕ) (expected : Bytes)
    : Type 0 where
  pub done : r.1 ≡ ok 0
  pub laid_out : IsLaidOut base fs (r.0)
  pub holds : flat (r.0) ≡ expected

pub below :
    (base : ℕ) (fs : List FileEntry) (cs : Files)
    → IsLaidOut base fs cs
    → base + length (flat cs) < u64_mod
unfolding flat
below base [] [] h = omega arith
below base [] (c ∷ cs) h = absurd h
below base (f ∷ fs) [] h = absurd h
below base (f ∷ fs) (none ∷ cs) h = absurd (h.2)
below base (f ∷ fs) (some c ∷ cs) h =
    omega (arith, below (base + f.length) fs cs h.3, h.2, length-append c (flat cs))

write_files-nil : (fs : List FileEntry) (cs : Files) (o : ℕ) → write_files fs cs o [] ≡ (cs, ok 0)
unfolding write_files
write_files-nil [] cs o = refl
write_files-nil (f ∷ fs) [] o = refl
write_files-nil (f ∷ fs) (c ∷ cs) o = refl

drop-length : (xs : Bytes) → drop (length xs) xs ≡ []
drop-length [] = refl
drop-length (x ∷ xs) = drop-length xs

least : (a b : ℕ) → a ≤ b → a ≡ min_of a b
least a b l = ground arith

smaller : (a m b : ℕ) → m < a → m ≡ b → m ≡ min_of a b
smaller a m b l e = ground arith

le_or_lt : (a b : ℕ) → (a ≤ b) ⊎ (b < a)
le_or_lt a b = grind arith

module _ (f : FileEntry) (fs : List FileEntry) (c : Bytes) (cs : Files) where
  write_files-skip :
      (o : ℕ) (d : ℕ) (ds : Bytes)
      → f.offset + f.length < u64_mod
      → f.offset + f.length ≤ o
      → write_files (f ∷ fs) (some c ∷ cs) o (d ∷ ds)
        ≡ (some c ∷ (write_files fs cs o (d ∷ ds)).0, (write_files fs cs o (d ∷ ds)).1)
  unfolding write_files
  write_files-skip o d ds h l = ground arith

  write_files-chunk :
      (o k m : ℕ) (d : ℕ) (ds : Bytes)
      → o ≡ f.offset + k
      → k < f.length
      → f.offset + f.length < u64_mod
      → o + length (d ∷ ds) < u64_mod
      → m ≡ min_of (length (d ∷ ds)) (f.length - k)
      → write_files (f ∷ fs) (some c ∷ cs) o (d ∷ ds) ≡ (
        some (write_at c k (take m (d ∷ ds))) ∷ (write_files fs cs (o + m) (drop m (d ∷ ds))).0,
        (write_files fs cs (o + m) (drop m (d ∷ ds))).1,
      )
  unfolding write_files
  write_files-chunk o k m d ds e l h fits size =
      let start : start_in_file f o ≡ k = ground arith in
      let wrap : (o + m) % u64_mod ≡ o + m = ground arith in
      let later : leb ((f.offset + f.length) % u64_mod) o ≡ false = ground arith in
      let here : leb ((o + length (d ∷ ds)) % u64_mod) f.offset ≡ false = ground arith in
      let left : (length (d ∷ ds) == 0) ≡ false = ground arith in
      rw (left, later, here, start, sym size, wrap)

  write_files-inside :
      (o k : ℕ) (d : ℕ) (ds : Bytes)
      → o ≡ f.offset + k
      → k + length (d ∷ ds) ≤ f.length
      → f.offset + f.length < u64_mod
      → write_files (f ∷ fs) (some c ∷ cs) o (d ∷ ds) ≡ (some (write_at c k (d ∷ ds)) ∷ cs, ok 0)
  write_files-inside o k d ds e l h =
      let whole : take (length (d ∷ ds)) (d ∷ ds) ≡ d ∷ ds =
        take_of_length-le (length (d ∷ ds)) (d ∷ ds) (omega arith) in
      let none_left : drop (length (d ∷ ds)) (d ∷ ds) ≡ [] = drop-length ds in
      write_files-chunk o k (length (d ∷ ds)) d ds e (omega arith) h (omega arith) (ground arith)
      ∙ rw (whole, none_left, write_files-nil fs cs (o + length (d ∷ ds))) refl

-- On files that have the lengths of the layout, the loop of `write_piece` is a write to the one
-- string that the files are, one behind the other: it leaves no data over, keeps the files' lengths,
-- and the files hold that string with the data written over it.
pub write_files_lem :
    (fs : List FileEntry) (cs : Files) (base o k : ℕ) (ds : Bytes)
    → IsLaidOut base fs cs
    → o ≡ base + k
    → k + length ds ≤ length (flat cs)
    → Writes base fs (write_files fs cs o ds) (write_at (flat cs) k ds)
unfolding flat
write_files_lem [] [] base o zero [] h e l =
    subst (λ r. Writes base [] r (write_at [] zero [])) (sym (write_files-nil [] [] o))
      (record { done = refl; laid_out = h; holds = sym (write_at-nil [] zero l) })
write_files_lem [] [] base o k (d ∷ ds) h e l = absurd (omega arith)
write_files_lem [] [] base o (suc k) [] h e l = absurd (omega arith)
write_files_lem [] (c ∷ cs) base o k ds h e l = absurd h
write_files_lem (f ∷ fs) [] base o k ds h e l = absurd h
write_files_lem (f ∷ fs) (none ∷ cs) base o k ds h e l = absurd (h.2)
write_files_lem (f ∷ fs) (some c ∷ cs) base o k [] h e l =
    subst (λ r. Writes base (f ∷ fs) r (write_at (c ++ flat cs) k []))
      (sym (write_files-nil (f ∷ fs) (some c ∷ cs) o))
      (record {
        done = refl;
        laid_out = h;
        holds = sym (write_at-nil (c ++ flat cs) k (omega arith));
      })
write_files_lem (f ∷ fs) (some c ∷ cs) base o k (d ∷ ds) h e l =
    let end : base + f.length + length (flat cs) < u64_mod = below (base + f.length) fs cs h.3 in
    let all : length (c ++ flat cs) ≡ length c + length (flat cs) = length-append c (flat cs) in
    elim (le_or_lt (length c) k) [
      | inl behind ↦
          let ih : Writes (base + f.length) fs (write_files fs cs o (d ∷ ds))
              (write_at (flat cs) (k - length c) (d ∷ ds)) =
            write_files_lem fs cs (base + f.length) o (k - length c) (d ∷ ds) h.3
              (omega (arith, h.2)) (omega arith) in
          subst (λ r. Writes base (f ∷ fs) r (write_at (c ++ flat cs) k (d ∷ ds)))
            (sym (write_files-skip f fs c cs o d ds (omega (arith, h.0)) (omega (arith, h.0, h.2))))
            (record {
              done = ih.done;
              laid_out = (h.0, h.1, h.2, ih.laid_out);
              holds =
                  ap (c ++◌) ih.holds
                  ∙ sym
                      (write_at-append_behind c (flat cs) (k - length c) k (d ∷ ds) (omega arith));
            })
      | inr before ↦ elim (le_or_lt (length (d ∷ ds)) (length c - k)) [
        | inl fits ↦
            subst (λ r. Writes base (f ∷ fs) r (write_at (c ++ flat cs) k (d ∷ ds)))
              (sym (
                write_files-inside f fs c cs o k d ds (omega (arith, h.0)) (omega (arith, h.2))
                  (omega (arith, h.0, h.2))))
              (record {
                done = refl;
                laid_out = (h.0, h.1, length-write_at c k (d ∷ ds) (omega arith) ∙ h.2, h.3);
                holds = sym (write_at-append_inside c (flat cs) k (d ∷ ds) (omega arith));
              })
        | inr more ↦
            let m = length c - k in
            let ih : Writes (base + f.length) fs (write_files fs cs (o + m) (drop m (d ∷ ds)))
                (write_at (flat cs) 0 (drop m (d ∷ ds))) =
              write_files_lem fs cs (base + f.length) (o + m) 0 (drop m (d ∷ ds)) h.3
                (omega (arith, h.2)) (omega (arith, length-drop m (d ∷ ds))) in
            subst (λ r. Writes base (f ∷ fs) r (write_at (c ++ flat cs) k (d ∷ ds)))
              (sym (
                write_files-chunk f fs c cs o k m d ds (omega (arith, h.0)) (omega (arith, h.2))
                  (omega (arith, h.0, h.2)) (omega arith)
                  (smaller (length (d ∷ ds)) m (f.length - k) (omega arith) (omega (arith, h.2)))))
              (record {
                done = ih.done;
                laid_out = (
                  h.0,
                  h.1,
                  length-write_at c k (take m (d ∷ ds)) (omega (arith, length-take m (d ∷ ds)))
                      ∙ h.2,
                  ih.laid_out,
                );
                holds =
                    ap (write_at c k (take m (d ∷ ds)) ++◌) ih.holds
                    ∙ sym
                        (write_at-append_over c (flat cs) k m (d ∷ ds) (omega arith) (omega arith));
              })
      ]
    ]

read_files-zero : (fs : List FileEntry) (cs : Files) (o : ℕ) → read_files fs cs o 0 ≡ ok ([], 0)
unfolding read_files
read_files-zero [] cs o = refl
read_files-zero (f ∷ fs) [] o = refl
read_files-zero (f ∷ fs) (c ∷ cs) o = refl

module _ (f : FileEntry) (fs : List FileEntry) (c : Bytes) (cs : Files) where
  read_files-skip :
      (o n : ℕ)
      → f.offset + f.length < u64_mod
      → f.offset + f.length ≤ o
      → read_files (f ∷ fs) (some c ∷ cs) o (suc n) ≡ read_files fs cs o (suc n)
  unfolding read_files
  read_files-skip o n h l = ground arith

  read_files-chunk :
      (o k m n : ℕ) {out : Bytes} {left : ℕ}
      → o ≡ f.offset + k
      → k < f.length
      → f.offset + f.length < u64_mod
      → o + suc n < u64_mod
      → m ≡ min_of (suc n) (f.length - k)
      → length c ≡ f.length
      → read_files fs cs (o + m) (suc n - m) ≡ ok (out, left)
      → read_files (f ∷ fs) (some c ∷ cs) o (suc n) ≡ ok (take m (drop k c) ++ out, left)
  unfolding read_files read_chunk
  read_files-chunk o k m n e l h fits size same rest =
      let start : start_in_file f o ≡ k = ground arith in
      let wrap : (o + m) % u64_mod ≡ o + m = ground arith in
      let later : leb ((f.offset + f.length) % u64_mod) o ≡ false = ground arith in
      let here : leb ((o + suc n) % u64_mod) f.offset ≡ false = ground arith in
      let left : (suc n == 0) ≡ false = ground arith in
      let whole : (length (take m (drop k c)) == m) ≡ true =
        ground (arith, length-take m (drop k c), length-drop k c) in
      rw (left, later, here, start, sym size, wrap, whole, rest) refl

-- The loop of `read_piece` returns a part of that string.
pub read_files_lem :
    (fs : List FileEntry) (cs : Files) (base o k n : ℕ)
    → IsLaidOut base fs cs
    → o ≡ base + k
    → k + n ≤ length (flat cs)
    → read_files fs cs o n ≡ ok (take n (drop k (flat cs)), 0)
unfolding flat
read_files_lem [] [] base o k (suc n) h e l = absurd (omega arith)
read_files_lem [] (c ∷ cs) base o k n h e l = absurd h
read_files_lem (f ∷ fs) [] base o k n h e l = absurd h
read_files_lem (f ∷ fs) (none ∷ cs) base o k n h e l = absurd (h.2)
read_files_lem fs cs base o k zero h e l = read_files-zero fs cs o
read_files_lem (f ∷ fs) (some c ∷ cs) base o k (suc n) h e l =
    let end : base + f.length + length (flat cs) < u64_mod = below (base + f.length) fs cs h.3 in
    let all : length (c ++ flat cs) ≡ length c + length (flat cs) = length-append c (flat cs) in
    elim (le_or_lt (length c) k) [
      | inl behind ↦
          read_files-skip f fs c cs o n (omega (arith, h.0)) (omega (arith, h.0, h.2))
          ∙ read_files_lem fs cs (base + f.length) o (k - length c) (suc n) h.3 (omega (arith, h.2))
              (omega arith)
          ∙ ap (λ s. ok (take (suc n) s, 0))
              (sym (drop-append_behind c (flat cs) (k - length c) k (omega arith)))
      | inr before ↦ elim (le_or_lt (suc n) (length c - k)) [
        | inl fits ↦
            let none_left : suc n - suc n ≡ 0 = omega arith in
            read_files-chunk f fs c cs o k (suc n) n (omega (arith, h.0)) (omega (arith, h.2))
              (omega (arith, h.0, h.2)) (omega arith)
              (least (suc n) (f.length - k) (omega (arith, h.2))) h.2
              (ap (read_files fs cs (o + suc n)) none_left ∙ read_files-zero fs cs (o + suc n))
            ∙ ap (λ s. ok (s, 0))
                (append-nil (take (suc n) (drop k c))
                  ∙ sym (slice-append_inside c (flat cs) k (suc n) (omega arith)))
        | inr more ↦
            let m = length c - k in
            read_files-chunk f fs c cs o k m n (omega (arith, h.0)) (omega (arith, h.2))
              (omega (arith, h.0, h.2)) (omega arith)
              (smaller (suc n) m (f.length - k) (omega arith) (omega (arith, h.2))) h.2
              (read_files_lem fs cs (base + f.length) (o + m) 0 (suc n - m) h.3 (omega (arith, h.2))
                (omega arith))
            ∙ ap (λ s. ok (s, 0))
                (sym (
                  slice-append_over c (flat cs) k m (suc n - m) (suc n) (omega arith)
                    (omega arith)))
      ]
    ]
