-- ===== src/Common/Text.antt =====
-- The texts of the program, written as they stand in its code.
use Prim.Native.Char.{code}
use Prim.Native.String.{String}
use naive_net.Common.{ℕ, List, [], ◌∷◌}

-- The bytes of a text of ASCII.
abbrev pub bytes : String → List ℕ
bytes String.[] = []
bytes (String.◌∷◌ c rest) = code c ∷ bytes rest
