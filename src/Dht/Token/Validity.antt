-- ===== src/Dht/Token/Validity.antt =====
-- src/dht/token_secret_rotator.cpp: for how long a token is accepted.
use bittorent_client.Common.{
  ℕ, ◌+◌, ◌≤◌, ◌<◌, ◌≡◌, refl, Bytes, true, false, Option, none, some, arith,
}
use bittorent_client.Common.ByteStrings.{bytes_eq, bytes_eq_refl}
use bittorent_client.Dht.Token.{
  TokenSecretRotator, rotate, rotate_if_needed, compute_token, issue_token, verify_token, is_empty,
  prev_secret_ttl,
}

module _ (sha1 ip_address_bytes : Bytes → Bytes) where
  pub accepted_after :
      (now later : ℕ) (random : Option Bytes) (ip : Bytes) (r : TokenSecretRotator)
      → is_empty r.current_secret ≡ false
      → later < now + prev_secret_ttl
      → verify_token sha1 ip_address_bytes later
          (issue_token sha1 ip_address_bytes ip r)
          ip
          (rotate_if_needed now random r).1
        ≡ true
  unfolding verify_token issue_token rotate_if_needed rotate
  accepted_after now later none ip r n l =
      ground (arith, n, l, bytes_eq_refl (compute_token sha1 ip_address_bytes r.current_secret ip))
  accepted_after now later (some s) ip r n l =
      ground (arith, n, l, bytes_eq_refl (compute_token sha1 ip_address_bytes r.current_secret ip))

  -- A token is accepted from its address while its secret is the current one, at any time; and
  -- behind the next call of `rotate_if_needed`, with a random secret or a generator that fails, for
  -- ten minutes.
  pub verify_token-issue_token :
      (now later : ℕ) (random : Option Bytes) (ip : Bytes) (r : TokenSecretRotator)
      → is_empty r.current_secret ≡ false
      → later < now + prev_secret_ttl
      → (verify_token sha1 ip_address_bytes later (issue_token sha1 ip_address_bytes ip r) ip r
          ≡ true)
        × (verify_token sha1 ip_address_bytes later
              (issue_token sha1 ip_address_bytes ip r)
              ip
              (rotate_if_needed now random r).1
            ≡ true)
  unfolding verify_token issue_token
  verify_token-issue_token now later random ip r n l =
      let same = bytes_eq_refl (compute_token sha1 ip_address_bytes r.current_secret ip) in
      (rw same refl, accepted_after now later random ip r n l)

  -- A second rotation ends it, however short the time since: a token whose secret was replaced twice
  -- is refused, unless a newer secret happens to give the same token.
  pub verify_token-rotated :
      (first second later : ℕ) (s1 s2 ip : Bytes) (r : TokenSecretRotator)
      → r.last_rotation + r.rotation_interval ≤ first
      → first + r.rotation_interval ≤ second
      → bytes_eq
          (issue_token sha1 ip_address_bytes ip r)
          (compute_token sha1 ip_address_bytes s1 ip)
        ≡ false
      → bytes_eq
          (issue_token sha1 ip_address_bytes ip r)
          (compute_token sha1 ip_address_bytes s2 ip)
        ≡ false
      → verify_token sha1 ip_address_bytes later
          (issue_token sha1 ip_address_bytes ip r)
          ip
          (rotate_if_needed second (some s2) (rotate_if_needed first (some s1) r).1).1
        ≡ false
  unfolding verify_token issue_token rotate_if_needed rotate
  verify_token-rotated first second later s1 s2 ip r h k d1 d2 = ground (arith, h, k, d1, d2)
