-- ===== src/Trackers/Udp.antt =====
-- inc/trackers/udp_tracker_communicator.h, src/trackers/udp_tracker_communicator.cpp: the packets of
-- the UDP protocol (BEP 15), and the exchange with a tracker. `replies n` is what comes back for
-- attempt `n`: a datagram, or none within the time of the attempt. The text of an IPv6 address
-- (`inet_ntop`) is a parameter, and random numbers are arguments.
pub mod Exchange
pub mod Response
use bittorent_client.Common.{
  ℕ, zero, suc, ◌+◌, ◌-◌, ◌^◌, Bytes, Bool, true, false, not, Option, none, some, List, [], ◌∷◌,
  ◌++◌, Result, ok, err, runtime_error, bad_access, ◌>>=◌, ◌>>◌, throw_if, ltb, ◌==◌, if◌then◌else◌,
  length, take, drop, replicate, copy_at, u32_mod,
}
use bittorent_client.Common.Chunks.{chunks}
use bittorent_client.Common.Decimal.{to_string}
use bittorent_client.ByteOrder.{
  byte_at, write_be16, write_be32, write_be64, read_be16, read_be32, read_be64,
}
use bittorent_client.InfoHash.{InfoHash}
use bittorent_client.PeerAddress.{PeerAddress}

abbrev pub max_retransmissions : ℕ
max_retransmissions = 8

abbrev pub protocol_id : ℕ
protocol_id = 0x41727101980

pub record ConnectionResp : Type 0 where
  pub action : ℕ
  pub transaction_id : ℕ
  pub connection_id : ℕ

pub record AnnounceReq : Type 0 where
  pub connection_id : ℕ
  pub transaction_id : ℕ
  pub info_hash : InfoHash
  pub peer_id : Bytes
  pub downloaded : ℕ
  pub left : ℕ
  pub uploaded : ℕ
  pub event : ℕ
  pub key : ℕ
  pub port : ℕ

pub record AnnounceResp : Type 0 where
  pub action : ℕ
  pub transaction_id : ℕ
  pub interval : ℕ
  pub leechers : ℕ
  pub seeders : ℕ
  pub peers : List PeerAddress

-- `ConnectionReq::serialize`
unfoldable pub serialize_connection_req : ℕ → Bytes
serialize_connection_req transaction_id =
    let b0 = write_be64 (replicate 16 0) 0 protocol_id in
    let b1 = write_be32 b0 8 0 in write_be32 b1 12 transaction_id

-- `ConnectionResp::deserialize`
unfoldable pub deserialize_connection_resp : Bytes → Result ConnectionResp
deserialize_connection_resp bytes = do
  throw_if (ltb (length bytes) 16) runtime_error
  action ← read_be32 bytes 0
  transaction_id ← read_be32 bytes 4
  connection_id ← read_be64 bytes 8
  ok (record { action = action; transaction_id = transaction_id; connection_id = connection_id })

-- `AnnounceReq::serialize`; `action` is 1, `ip` is 0 and `num_want` is -1.
unfoldable pub serialize_announce_req : AnnounceReq → Bytes
serialize_announce_req r =
    let b0 = write_be64 (replicate 98 0) 0 r.connection_id in
    let b1 = write_be32 b0 8 1 in
    let b2 = write_be32 b1 12 r.transaction_id in
    let b3 = copy_at b2 16 r.info_hash in
    let b4 = copy_at b3 36 r.peer_id in
    let b5 = write_be64 b4 56 r.downloaded in
    let b6 = write_be64 b5 64 r.left in
    let b7 = write_be64 b6 72 r.uploaded in
    let b8 = write_be32 b7 80 r.event in
    let b9 = write_be32 b8 84 0 in
    let b10 = write_be32 b9 88 r.key in
    let b11 = write_be32 b10 92 (u32_mod - 1) in write_be16 b11 96 r.port

-- the octets with dots between them
unfoldable pub dotted : Bytes → Bytes
dotted [] = []
dotted (b ∷ []) = to_string b
dotted (b ∷ c ∷ bytes) = to_string b ++ (46 ∷ dotted (c ∷ bytes))

module _ (inet_ntop : Bytes → Bytes) where
  -- an entry of the list of peers
  unfoldable pub read_peer : Bool → Bytes → Result PeerAddress
  unfolding dotted
  read_peer true entry = do
    port ← read_be16 entry 16
    ok (record { ip = inet_ntop (take 16 entry); port = port })
  read_peer false entry = do
    port ← read_be16 entry 4
    ok (record { ip = dotted (take 4 entry); port = port })

  unfoldable pub read_peers : Bool → List Bytes → Result (List PeerAddress)
  unfolding read_peer
  read_peers is_ipv6 [] = ok []
  read_peers is_ipv6 (entry ∷ entries) = do
    p ← read_peer is_ipv6 entry
    peers ← read_peers is_ipv6 entries
    ok (p ∷ peers)

  abbrev pub stride : Bool → ℕ
  stride is_ipv6 = if is_ipv6 then 18 else 6

  -- `AnnounceResp::deserialize`
  unfoldable pub deserialize_announce_resp : Bool → Bytes → Result AnnounceResp
  unfolding read_peers
  deserialize_announce_resp is_ipv6 bytes = do
    throw_if (ltb (length bytes) 20) runtime_error
    action ← read_be32 bytes 0
    transaction_id ← read_be32 bytes 4
    interval ← read_be32 bytes 8
    leechers ← read_be32 bytes 12
    seeders ← read_be32 bytes 16
    peers ← read_peers is_ipv6 (chunks (stride is_ipv6) (drop 20 bytes))
    ok (record {
      action = action;
      transaction_id = transaction_id;
      interval = interval;
      leechers = leechers;
      seeders = seeders;
      peers = peers;
    })

-- `std::string err_msg(data.begin() + 8, data.end()); throw ...`: the first iterator stands behind
-- the last where there are fewer than eight bytes.
abbrev pub tracker_error : {A : Type 0} → Bytes → Result A
tracker_error bytes = if ltb (length bytes) 8 then err bad_access else err runtime_error

-- A datagram of an attempt of either phase: `read` is the rest of the loop's body, `wanted` the
-- length that it needs, and `rest` the attempts that are left.
unfoldable pub on_datagram :
    {A : Type 0} → ℕ → (Bytes → Result A → Result A) → Result A → Option Bytes → Result A
on_datagram wanted read rest none = rest
on_datagram wanted read rest (some bytes) = if ltb (length bytes) 4 then rest else do
  action ← read_be32 bytes 0
  if action == 3
      then tracker_error bytes
      else if ltb (length bytes) wanted
      then rest
      else read bytes rest

-- The loop over the attempts: attempt `n`, and how many are left.
unfoldable pub attempts :
    {A : Type 0} → ℕ → (Bytes → Result A → Result A) → (ℕ → Option Bytes) → ℕ → ℕ → Result A
unfolding on_datagram
attempts wanted read replies n zero = err runtime_error
attempts wanted read replies n (suc left) =
    let rest = attempts wanted read replies (suc n) left in on_datagram wanted read rest (replies n)

-- A response to another request is passed over, one with another action ends the exchange.
abbrev pub read_connection : ℕ → Bytes → Result ConnectionResp → Result ConnectionResp
read_connection transaction_id bytes rest = do
  r ← deserialize_connection_resp bytes
  if not (r.transaction_id == transaction_id)
      then rest
      else throw_if (not (r.action == 0)) runtime_error >> ok r

unfoldable pub connect : ℕ → (ℕ → Option Bytes) → Result ConnectionResp
unfolding attempts
connect transaction_id replies =
    attempts 16 (read_connection transaction_id) replies 0 (max_retransmissions + 1)

abbrev pub read_announce :
    (Bytes → Bytes) → Bool → ℕ → Bytes → Result (List PeerAddress) → Result (List PeerAddress)
read_announce inet_ntop is_ipv6 transaction_id bytes rest = do
  r ← deserialize_announce_resp inet_ntop is_ipv6 bytes
  if not (r.transaction_id == transaction_id)
      then rest
      else throw_if (not (r.action == 1)) runtime_error >> ok r.peers

unfoldable pub announce :
    (Bytes → Bytes) → Bool → ℕ → (ℕ → Option Bytes) → Result (List PeerAddress)
unfolding attempts
announce inet_ntop is_ipv6 transaction_id replies =
    attempts 20 (read_announce inet_ntop is_ipv6 transaction_id) replies 0 (max_retransmissions + 1)
