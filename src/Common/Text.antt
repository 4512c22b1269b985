-- ===== src/Common/Text.antt =====
-- Literals of the source as bytes.
use Prim.Native.Char.{code}
use Prim.Native.String.{String}
use mathlib.Core.List.{[], ◌∷◌}
use bittorent_client.Common.Words.{Bytes}

-- the code points of a text of ASCII characters
abbrev pub text : String → Bytes
text String.[] = []
text (String.◌∷◌ c s) = code c ∷ text s
