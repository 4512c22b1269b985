-- ===== src/Dht/Token.antt =====
-- inc/dht/token_secret_rotator.h, src/dht/token_secret_rotator.cpp: the tokens that an announce has
-- to show. SHA1 (OpenSSL) and the bytes of an address (`inet_pton`) are parameters, as is what the
-- random generator gives. A time is a number of the clock's ticks.
pub mod Validity
use bittorent_client.Common.{
  ℕ, ◌+◌, ◌*◌, Bytes, Bool, true, false, not, ◌&&◌, ◌||◌, Option, none, some, [], ◌∷◌, ◌++◌, Result,
  ok, err, runtime_error, ltb, if◌then◌else◌,
}
use bittorent_client.Common.ByteStrings.{bytes_eq}
use bittorent_client.Dht.RoutingTable.{minute}

pub record TokenSecretRotator : Type 0 where
  pub rotation_interval : ℕ
  pub current_secret : Bytes
  pub prev_secret : Bytes
  pub last_rotation : ℕ
  pub prev_secret_expires : ℕ

abbrev pub default_rotation_interval : ℕ
default_rotation_interval = 5 * minute

abbrev pub prev_secret_ttl : ℕ
prev_secret_ttl = 10 * minute

-- The interval has passed: the secrets move. A generator that fails throws after the previous secret
-- was overwritten.
unfoldable pub rotate :
    ℕ → Option Bytes → TokenSecretRotator → Result (Unit {0}) × TokenSecretRotator
rotate now none r = (
  err runtime_error,
  record r { prev_secret = r.current_secret; prev_secret_expires = now + prev_secret_ttl },
)
rotate now (some secret) r = (
  ok tt,
  record r {
    prev_secret = r.current_secret;
    prev_secret_expires = now + prev_secret_ttl;
    current_secret = secret;
    last_rotation = now;
  },
)

unfoldable pub rotate_if_needed :
    ℕ → Option Bytes → TokenSecretRotator → Result (Unit {0}) × TokenSecretRotator
unfolding rotate
rotate_if_needed now random_secret r =
    if ltb now (r.last_rotation + r.rotation_interval)
    then (ok tt, r)
    else rotate now random_secret r

abbrev pub is_empty : Bytes → Bool
is_empty [] = true
is_empty (_ ∷ _) = false

module _ (sha1 : Bytes → Bytes) (ip_address_bytes : Bytes → Bytes) where
  abbrev pub compute_token : Bytes → Bytes → Bytes
  compute_token secret ip = sha1 (secret ++ ip_address_bytes ip)

  unfoldable pub issue_token : Bytes → TokenSecretRotator → Bytes
  issue_token ip r = compute_token r.current_secret ip

  unfoldable pub verify_token : ℕ → Bytes → Bytes → TokenSecretRotator → Bool
  verify_token now token ip r =
      bytes_eq token (compute_token r.current_secret ip)
      || (not (is_empty r.prev_secret)
          && (ltb now r.prev_secret_expires && bytes_eq token (compute_token r.prev_secret ip)))
