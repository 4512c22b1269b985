-- ===== src/Bencode/Parser/Scalars.antt =====
-- src/bencode/bencode_parser.cpp: byte strings and integers that the encoder wrote are read back.
use bittorent_client.Common.{
  ℕ, suc, ◌+◌, ◌<◌, Bytes, ◌≡◌, refl, inl, inr, [], ◌∷◌, ◌++◌, append_assoc, ok, length,
  length-append, take-length-append, drop-length-append, All, u64_mod, arith, ◌⊎◌,
}
use bittorent_client.Common.Int.{ℤ, pos, negsuc, IsInt64}
use bittorent_client.Common.Decimal.{
  IsDigit, to_string, to_string_ℤ, to_string_lem, stoul-to_string, stoll-to_string_ℤ,
}
use bittorent_client.Bencode.Types.{integer}
use bittorent_client.Bencode.Encoder
use bittorent_client.Bencode.Parser.{
  cursor, get, get_from, length_digits, cut, parse_byte_string, integer_text, parse_integer,
}

to_string-All : (n : ℕ) → All IsDigit (to_string n)
to_string-All n = let (c, cs, e, d, _) = to_string_lem n in rw e d

length_digits-append :
    (ds r : Bytes) → All IsDigit ds → length_digits (ds ++ (b':' ∷ r)) ≡ ok (ds, b':' ∷ r)
unfolding length_digits
length_digits-append [] r h = refl
length_digits-append (d ∷ ds) r h = rw (length_digits-append ds r h.1) (ground arith)

cut-append :
    (s r : Bytes) (p q : ℕ)
    → q ≡ p + length s
    → q < u64_mod
    → cut (length s) (cursor p (s ++ r)) ≡ ok (s, cursor q r)
unfolding cut
cut-append s r p q e h =
    rw (take-length-append s r refl, drop-length-append s r refl, length-append s r, e)
      (ground arith)

pub parse_byte_string-string :
    (s r : Bytes) (p q : ℕ)
    → q ≡ p + length (Encoder.string s)
    → q < u64_mod
    → parse_byte_string (cursor p (Encoder.string s ++ r)) ≡ ok (s, cursor q r)
unfolding parse_byte_string Encoder.string get get_from
parse_byte_string-string s r p q e h =
    let ds = to_string (length s) in
    let n = length-append ds (b':' ∷ s) in
    rw
      (
        append_assoc ds (b':' ∷ s) r,
        length_digits-append ds (s ++ r) (to_string-All (length s)),
        stoul-to_string (length s) (omega (arith, e, n, h)),
      )
      (cut-append s r (p + length ds + 1) q (omega (arith, e, n)) h)

-- a digit or a minus
abbrev IsIntegerChar : ℕ → Type 0
IsIntegerChar c = IsDigit c ⊎ (c ≡ b'-')

of_digits : (ds : Bytes) → All IsDigit ds → All IsIntegerChar ds
of_digits [] h = tt
of_digits (d ∷ ds) h = (inl h.0, of_digits ds h.1)

to_string_ℤ-All : (i : ℤ) → All IsIntegerChar (to_string_ℤ i)
unfolding to_string_ℤ
to_string_ℤ-All (pos n) = of_digits (to_string n) (to_string-All n)
to_string_ℤ-All (negsuc n) = (inr refl, of_digits (to_string (suc n)) (to_string-All (suc n)))

integer_text-append :
    (ds r : Bytes) → All IsIntegerChar ds → integer_text (ds ++ (b'e' ∷ r)) ≡ ok (ds, b'e' ∷ r)
unfolding integer_text
integer_text-append [] r h = refl
integer_text-append (d ∷ ds) r h = rw (integer_text-append ds r h.1) (ground arith)

pub parse_integer-integer :
    (i : ℤ) (r : Bytes) (p q : ℕ)
    → IsInt64 i
    → q ≡ p + length (Encoder.integer i)
    → parse_integer (cursor p (Encoder.integer i ++ r)) ≡ ok (integer i, cursor q r)
unfolding parse_integer Encoder.integer get get_from
parse_integer-integer i r p q h e =
    let ds = to_string_ℤ i in
    let n = length-append ds (b'e' ∷ []) in
    let e' : p + 1 + length ds + 1 ≡ q = omega (arith, e, n) in
    rw
      (
        append_assoc ds (b'e' ∷ []) r,
        integer_text-append ds r (to_string_ℤ-All i),
        stoll-to_string_ℤ i h,
        e',
      )
      refl
