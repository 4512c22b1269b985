-- ===== src/Dht/NodeId.antt =====
-- inc/dht/node_id.h, src/dht/node_id.cpp: identifiers of 20 bytes under the XOR distance.
pub mod Distance
use bittorent_client.Common.{
  ℕ, Bytes, Bool, true, false, not, ◌&&◌, [], ◌∷◌, ◌==◌, if◌then◌else◌, length, replicate, bit_xor,
}
use bittorent_client.Common.ByteStrings.{bytes_lt, bytes_eq}

-- `std::array<uint8_t, 20>`
abbrev pub NodeId : Type 0
NodeId = Bytes

-- A string of another length gives the zero identifier.
unfoldable pub from_string : Bytes → NodeId
from_string s = if not (length s == 20) then replicate 20 0 else s

-- `operator^`
unfoldable pub xor : NodeId → NodeId → NodeId
xor (x ∷ xs) (y ∷ ys) = bit_xor x y ∷ xor xs ys
xor _ _ = []

unfoldable pub is_zero : NodeId → Bool
is_zero [] = true
is_zero (b ∷ bs) = b == 0 && is_zero bs
