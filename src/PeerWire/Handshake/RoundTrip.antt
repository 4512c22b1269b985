-- ===== src/PeerWire/Handshake/RoundTrip.antt =====
-- src/peer_wire/peer_message.cpp: a handshake is read back as it was written.
use bittorent_client.Common.{
  ◌≡◌, ◌++◌, ok, arith, length, Bytes, ◌∷◌, drop, take, take-length-append, drop-length-append,
  append_assoc, length-append,
}
use bittorent_client.ByteOrder.{byte_at}
use bittorent_client.PeerWire.Handshake.{Handshake, serialize, deserialize, protocol_string}

-- The arrays of a handshake have their sizes.
pub record IsSized (hs : Handshake) : Type 0 where
  pub reserved : length hs.reserved ≡ 8
  pub info_hash : length hs.info_hash ≡ 20
  pub peer_id : length hs.peer_id ≡ 20

module _ (a b c rest : Bytes) (la : length a ≡ 8) (lb : length b ≡ 20) (lc : length c ≡ 20) where
  take_first : take 8 (a ++ (b ++ (c ++ rest))) ≡ a
  take_first = take-length-append a (b ++ (c ++ rest)) {n = 8} (omega arith)

  take_second : take 20 (drop 8 (a ++ (b ++ (c ++ rest)))) ≡ b
  take_second =
      rw (drop-length-append a (b ++ (c ++ rest)) {n = 8} (omega arith))
        (take-length-append b (c ++ rest) {n = 20} (omega arith))

  take_third : take 20 (drop 28 (a ++ (b ++ (c ++ rest)))) ≡ c
  take_third = rw (← append_assoc a b (c ++ rest)) (
      rw (drop-length-append (a ++ b) (c ++ rest) {n = 28} (omega (arith, length-append a b)))
        (take-length-append c rest {n = 20} (omega arith)))

  deserialize_layout :
      deserialize (19 ∷ (protocol_string ++ (a ++ (b ++ (c ++ rest)))))
      ≡ ok (record { reserved = a; info_hash = b; peer_id = c })
  unfolding deserialize byte_at
  deserialize_layout = ground (
    arith,
    take_first,
    take_second,
    take_third,
    length-append a (b ++ (c ++ rest)),
    length-append b (c ++ rest),
    length-append c rest,
  )

-- A handshake whose reserved bytes, info hash and peer id are 8, 20 and 20 bytes long is read back
-- from what is sent, whatever follows it in the buffer.
pub deserialize-serialize_handshake :
    (hs : Handshake) (rest : Bytes) → IsSized hs → deserialize (serialize hs ++ rest) ≡ ok hs
unfolding serialize
deserialize-serialize_handshake hs rest s =
    let e : serialize hs ++ rest
        ≡ 19 ∷ (protocol_string ++ (hs.reserved ++ (hs.info_hash ++ (hs.peer_id ++ rest)))) =
      rw (append_assoc hs.reserved, append_assoc hs.info_hash) in
    rw e
      (deserialize_layout hs.reserved hs.info_hash hs.peer_id rest s.reserved s.info_hash s.peer_id)
