-- ===== src/PeerAddress.antt =====
-- inc/peer_address.h: an address, as text and port.
pub mod Compact
use bittorent_client.Common.{
  ◌≡◌, true, arith, decided, ℕ, Bytes, Bool, ◌&&◌, not, ltb, ◌==◌, if◌then◌else◌,
}
use bittorent_client.Common.ByteStrings.{bytes_lt, bytes_eq, bytes_eq-eq, bytes_eq_refl}

pub record PeerAddress : Type 0 where
  pub ip : Bytes
  pub port : ℕ

-- `operator==`
abbrev pub same_peer : PeerAddress → PeerAddress → Bool
same_peer a b = a.port == b.port && bytes_eq a.ip b.ip

-- `operator<`
abbrev pub peer_lt : PeerAddress → PeerAddress → Bool
peer_lt a b = if not (bytes_eq a.ip b.ip) then bytes_lt a.ip b.ip else ltb a.port b.port

pub same_peer-eq : (a b : PeerAddress) → same_peer a b ≡ true → a ≡ b
same_peer-eq a b h =
    let ips : a.ip ≡ b.ip = bytes_eq-eq a.ip b.ip (ground arith) in
    let ports : a.port ≡ b.port = ground arith in λ i. record { ip = ips i; port = ports i }

pub same_peer_refl : (pa : PeerAddress) → same_peer pa pa ≡ true
same_peer_refl pa = ground (arith, bytes_eq_refl pa.ip)

-- The equality as a decision, for keys of a map.
unfoldable pub peer_dec : Discrete PeerAddress
peer_dec a b =
    decided (same_peer a b) (same_peer-eq a b) (λ differs e. cc (e, same_peer_refl a, differs))
