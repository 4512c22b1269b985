-- ===== src/Bencode/Parser/Fuel.antt =====
-- src/bencode/bencode_parser.cpp: the parser stops on every input; the fuel of the model suffices.
use bittorent_client.Common.{
  ℕ, zero, suc, ◌+◌, ◌*◌, ◌≤◌, ◌<◌, Bytes, Bool, true, false, ◌≡◌, refl, ◌≢◌, [], ◌∷◌, ◌==◌, Error,
  Result, ok, err, runtime_error, out_of_fuel, throw_if, length, length-drop, arith, if◌then◌else◌,
  ◌>>=◌, ◌>>◌,
}
use bittorent_client.Common.Decimal.{is_digit, stoul, stoll, signed}
use bittorent_client.Bencode.Types.{BDict, end, insert}
use bittorent_client.Bencode.Parser.{
  Cursor, Parsed, cursor, get, get_from, peek, peek_from, cut, length_digits, integer_text,
  parse_byte_string, parse_integer, parse_bencoding_type, parse_items, parse_entries, parse_value,
}

-- An error that the program has.
abbrev IsReal : Error → Type 0
IsReal e = e ≢ out_of_fuel

-- A result with fewer than `n` bytes left, or an exception.
Reads : {A : Type 0} → ℕ → Parsed A → Type 0
Reads n (ok r) = length (r.1.rest) < n
Reads n (err e) = IsReal e

module _ {A : Type 0} (n : ℕ) where
  Reads->>= :
      {B : Type 0} (m : Parsed B) (k : B × Cursor → Parsed A)
      → Reads n m
      → ((b : B) (c : Cursor) → length c.rest < n → Reads n (k (b, c)))
      → Reads n (m >>= k)
  unfolding Reads
  Reads->>= (ok r) k h next = next r.0 r.1 h
  Reads->>= (err e) k h next = h

  -- a bind that reads nothing
  Reads-pure :
      {B : Type 0} (m : Result B) (k : B → Parsed A)
      → ((e : Error) → m ≡ err e → IsReal e)
      → ((b : B) → m ≡ ok b → Reads n (k b))
      → Reads n (m >>= k)
  unfolding Reads
  Reads-pure (ok b) k h next = next b refl
  Reads-pure (err e) k h next = h e refl

  Reads-ok : (a : A) (c : Cursor) → length c.rest < n → Reads n (ok (a, c))
  unfolding Reads
  Reads-ok a c h = h

  Reads-le : {i : ℕ} (m : Parsed A) → i ≤ n → Reads i m → Reads n m
  unfolding Reads
  Reads-le (ok r) l h = omega arith
  Reads-le (err e) l h = h

  Reads-if : (b : Bool) (x y : Parsed A) → Reads n x → Reads n y → Reads n (if b then x else y)
  unfolding Reads
  Reads-if true x y h k = h
  Reads-if false x y h k = k

  Reads-throw_if : (b : Bool) (m : Parsed A) → Reads n m → Reads n (throw_if b runtime_error >> m)
  unfolding Reads
  Reads-throw_if true m h = ground arith
  Reads-throw_if false m h = h

Reads-error : (A : Type 0) (n : ℕ) → Reads {A = A} n (err runtime_error)
unfolding Reads
Reads-error A n = ground arith

get_from-Reads : (p : ℕ) (bs : Bytes) → Reads (length bs) (get_from p bs)
unfolding get_from Reads
get_from-Reads p [] = ground arith
get_from-Reads p (b ∷ bs) = omega arith

get-Reads : (c : Cursor) → Reads (length c.rest) (get c)
unfolding get
get-Reads c = get_from-Reads c.pos c.rest

peek_from-IsReal : (bs : Bytes) (e : Error) → peek_from bs ≡ err e → IsReal e
unfolding peek_from
peek_from-IsReal [] e h = ground arith
peek_from-IsReal (b ∷ bs) e h = cc

peek-IsReal : (c : Cursor) (e : Error) → peek c ≡ err e → IsReal e
unfolding peek
peek-IsReal c e h = peek_from-IsReal c.rest e h

cut-Reads : (n : ℕ) (c : Cursor) → Reads (suc (length c.rest)) (cut n c)
unfolding cut Reads
cut-Reads n c = grind (arith, length-drop n c.rest)

stoul-IsReal : (ds : Bytes) (e : Error) → stoul ds ≡ err e → IsReal e
unfolding stoul
stoul-IsReal [] e h = ground arith
stoul-IsReal (d ∷ ds) e h = ground arith

signed-IsReal : (b : Bool) (ds : Bytes) (e : Error) → signed b ds ≡ err e → IsReal e
unfolding signed
signed-IsReal b [] e h = ground arith
signed-IsReal b (d ∷ ds) e h = ground arith

stoll-IsReal : (ds : Bytes) (e : Error) → stoll ds ≡ err e → IsReal e
unfolding stoll
stoll-IsReal [] e h = ground arith
stoll-IsReal (d ∷ ds) e h = grind (arith, signed-IsReal true, signed-IsReal false)

-- What a scan leaves is no longer than what it began with.
abbrev Scans : Bytes → Result (Bytes × Bytes) → Type 0
Scans bs (ok r) = length r.1 ≤ length bs
Scans bs (err e) = IsReal e

length_digits-Scans : (bs : Bytes) → Scans bs (length_digits bs)
unfolding length_digits
length_digits-Scans [] = omega arith
length_digits-Scans (b ∷ bs) = ground (arith, length_digits-Scans bs)

integer_text-Scans : (bs : Bytes) → Scans bs (integer_text bs)
unfolding integer_text
integer_text-Scans [] = ground arith
integer_text-Scans (b ∷ bs) = ground (arith, integer_text-Scans bs)

Reads-scan :
    {A : Type 0} (n : ℕ) (bs : Bytes) (m : Result (Bytes × Bytes)) (k : Bytes × Bytes → Parsed A)
    → Scans bs m
    → ((ds r : Bytes) → length r ≤ length bs → Reads n (k (ds, r)))
    → Reads n (m >>= k)
unfolding Reads
Reads-scan n bs (ok r) k h next = next r.0 r.1 h
Reads-scan n bs (err e) k h next = h

parse_byte_string-Reads : (c : Cursor) → Reads (length c.rest) (parse_byte_string c)
unfolding parse_byte_string
parse_byte_string-Reads c =
    let n = length c.rest in
    Reads-scan n c.rest _ _ (length_digits-Scans c.rest) λ ds r l.
      Reads-pure n (stoul ds) _ (stoul-IsReal ds) λ len e.
        Reads->>= n _ _ (Reads-le n _ l (get-Reads (cursor (c.pos + length ds) r)))
          λ b c' l'. Reads-throw_if n _ _ (Reads-le n _ l' (cut-Reads len c'))

parse_integer-Reads : (c : Cursor) → Reads (length c.rest) (parse_integer c)
unfolding parse_integer
parse_integer-Reads c =
    let n = length c.rest in
    Reads->>= n _ _ (get-Reads c) λ b c1 l. Reads-throw_if n _ _ (
      Reads-scan n c1.rest _ _ (integer_text-Scans c1.rest) λ ds r l'.
        Reads->>= n _ _ (Reads-le n _ (omega arith) (get-Reads (cursor (c1.pos + length ds) r)))
          λ b' c2 l''. Reads-pure n (stoll ds) _ (stoll-IsReal ds) λ v e. Reads-ok n _ c2 l'')

mutual
  unfolding parse_bencoding_type

  parse_bencoding_type-Reads :
      (f : ℕ) (c : Cursor)
      → 2 * length c.rest + 1 ≤ f
      → Reads (length c.rest) (parse_bencoding_type f c)
  parse_bencoding_type-Reads zero c h = absurd (omega arith)
  parse_bencoding_type-Reads (suc f) c h =
      let n = length c.rest in
      Reads-pure n (peek c) _ (peek-IsReal c) λ b e.
        Reads-if n (b == b'i') _ _ (parse_integer-Reads c) (
          Reads-if n (b == b'l') _ _
            (Reads->>= n _ _ (get-Reads c) λ b c' l. Reads-throw_if n _ _ (
              Reads->>= n _ _ (Reads-le n _ (omega arith) (parse_items-Reads f c' (omega arith)))
                λ v c'' l'. Reads-ok n _ c'' l'))
            (Reads-if n (b == b'd') _ _
              (Reads->>= n _ _ (get-Reads c) λ b c' l. Reads-throw_if n _ _ (
                Reads->>= n _ _
                  (Reads-le n _ (omega arith) (parse_entries-Reads f end c' (omega arith)))
                  λ v c'' l'. Reads-ok n _ c'' l'))
              (Reads-if n (is_digit b) _ _
                (Reads->>= n _ _ (parse_byte_string-Reads c) λ s c' l. Reads-ok n _ c' l)
                (Reads-error _ n))))

  parse_items-Reads :
      (f : ℕ) (c : Cursor) → 2 * length c.rest + 2 ≤ f → Reads (length c.rest) (parse_items f c)
  parse_items-Reads zero c h = absurd (omega arith)
  parse_items-Reads (suc f) c h =
      let n = length c.rest in
      Reads-pure n (peek c) _ (peek-IsReal c) λ b e.
        Reads-if n (b == b'e') _ _ (Reads->>= n _ _ (get-Reads c) λ b c' l. Reads-ok n _ c' l) (
          Reads->>= n _ _ (parse_bencoding_type-Reads f c (omega arith)) λ v c' l.
            Reads->>= n _ _ (Reads-le n _ (omega arith) (parse_items-Reads f c' (omega arith)))
              λ l c'' l'. Reads-ok n _ c'' l')

  parse_entries-Reads :
      (f : ℕ) (d : BDict) (c : Cursor)
      → 2 * length c.rest + 2 ≤ f
      → Reads (length c.rest) (parse_entries f d c)
  parse_entries-Reads zero d c h = absurd (omega arith)
  parse_entries-Reads (suc f) d c h =
      let n = length c.rest in
      Reads-pure n (peek c) _ (peek-IsReal c) λ b e.
        Reads-if n (b == b'e') _ _ (Reads->>= n _ _ (get-Reads c) λ b c' l. Reads-ok n _ c' l) (
          Reads->>= n _ _ (parse_byte_string-Reads c) λ k c' l.
            Reads->>= n _ _
              (Reads-le n _ (omega arith) (parse_bencoding_type-Reads f c' (omega arith)))
              λ v c'' l'.
                Reads-le n _ (omega arith) (parse_entries-Reads f (insert k v d) c'' (omega arith)))

Reads-ne-out_of_fuel : {A : Type 0} (n : ℕ) (m : Parsed A) → Reads n m → m ≢ err out_of_fuel
unfolding Reads
Reads-ne-out_of_fuel n (ok r) h = ground arith
Reads-ne-out_of_fuel n (err e) h = ground (arith, h)

-- Parsing any bytes ends: with a value or with an exception of the program, and never because the
-- model's fuel, two calls for a byte, ran out.
pub parse_value-ne-out_of_fuel : (metadata : Bytes) → parse_value metadata ≢ err out_of_fuel
unfolding parse_value
parse_value-ne-out_of_fuel metadata =
    Reads-ne-out_of_fuel _ _
      (parse_bencoding_type-Reads (2 * length metadata + 1) (cursor 0 metadata) (omega arith))
