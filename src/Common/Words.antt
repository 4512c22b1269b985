-- ===== src/Common/Words.antt =====
-- Machine words: a `uint8_t`, `uint32_t`, ... is a number with its wrap-around written out.
use Prim.Native.Nat.{ℕ, ◌^◌, ◌<◌}
use mathlib.Core.List.{List}
use bittorent_client.Common.Lists.{All}

abbrev pub Bytes : Type 0
Bytes = List ℕ

abbrev pub u16_mod : ℕ
u16_mod = 2 ^ 16

abbrev pub u32_mod : ℕ
u32_mod = 2 ^ 32

abbrev pub u64_mod : ℕ
u64_mod = 2 ^ 64

abbrev pub IsByte : ℕ → Type 0
IsByte b = b < 256

-- what a `std::string` or a `std::vector<uint8_t>` can hold
abbrev pub IsBytes : Bytes → Type 0
IsBytes = All IsByte
