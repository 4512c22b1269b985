-- ===== src/Trackers/Http/Url.antt =====
-- inc/crypto.h, `url_encode`: bytes in a URL are decoded as they were.
use bittorent_client.Common.{
  ℕ, ◌+◌, ◌-◌, ◌*◌, ◌/◌, ◌%◌, ◌<◌, ◌≡◌, refl, ap, ◌∙◌, Bytes, true, false, [], ◌∷◌, ltb, ◌==◌,
  if◌then◌else◌, All, arith, Bool-cases, inl, inr,
}
use bittorent_client.Trackers.Http.{is_unreserved, upper_digit, url_encode}

abbrev hex_value : ℕ → ℕ
hex_value d = if ltb d 65 then d - 48 else d - 55

-- Percent-decoding as RFC 3986 describes it.
unfoldable pub percent_decode : Bytes → Bytes
percent_decode (c ∷ h ∷ l ∷ s) =
    let escaped = percent_decode s in
    let literal = percent_decode (h ∷ l ∷ s) in
    if c == b'%' then (hex_value h * 16 + hex_value l) ∷ escaped else c ∷ literal
percent_decode (c ∷ h ∷ []) = c ∷ h ∷ []
percent_decode (c ∷ []) = c ∷ []
percent_decode [] = []

percent_decode-literal :
    (c : ℕ) (s : Bytes) → (c == b'%') ≡ false → percent_decode (c ∷ s) ≡ c ∷ percent_decode s
unfolding percent_decode
percent_decode-literal c [] e = refl
percent_decode-literal c (h ∷ []) e = refl
percent_decode-literal c (h ∷ l ∷ s) e = rw e refl

percent_decode-escape :
    (b : ℕ) (s : Bytes)
    → b < 256
    → percent_decode (b'%' ∷ upper_digit (b / 16) ∷ upper_digit (b % 16) ∷ s) ≡ b ∷ percent_decode s
unfolding percent_decode
percent_decode-escape b s l =
    let high : hex_value (upper_digit (b / 16)) ≡ b / 16 = ground arith in
    let low : hex_value (upper_digit (b % 16)) ≡ b % 16 = ground arith in
    ap (λ n. n ∷ percent_decode s) (omega (arith, high, low))

unreserved_lem : (b : ℕ) → is_unreserved b ≡ true → (b == b'%') ≡ false
unreserved_lem b h = ground (arith, h)

-- Percent-decoding what is encoded for a URL gives the bytes back.
pub percent_decode-url_encode :
    (bytes : Bytes) → All (λ b. b < 256) bytes → percent_decode (url_encode bytes) ≡ bytes
unfolding url_encode percent_decode
percent_decode-url_encode [] h = refl
percent_decode-url_encode (b ∷ bytes) h = elim (Bool-cases (is_unreserved b)) [
  | inl plain ↦ rw plain (
      percent_decode-literal b (url_encode bytes) (unreserved_lem b plain)
      ∙ ap (b ∷◌) (percent_decode-url_encode bytes h.1))
  | inr other ↦ rw other (
      percent_decode-escape b (url_encode bytes) h.0
      ∙ ap (b ∷◌) (percent_decode-url_encode bytes h.1))
]
