-- ===== src/Base/Bytes.antt =====
-- C strings as lists of bytes without the terminating NUL.
use Prim.Native.Char.{code}
use Prim.Native.String.{String}
use linux_programming.Base.{ℕ, List, [], ◌∷◌}

abbrev pub Bytes : Type 0
Bytes = List ℕ

-- The code points of a text: its bytes, since the texts of the programs are ASCII.
abbrev pub codes : String → Bytes
codes String.[] = []
codes (String.◌∷◌ c s) = code c ∷ codes s
