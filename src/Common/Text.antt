-- ===== src/Common/Text.antt =====
-- Walking over Python strings: splitting at a separator and containment.
use Prim.Native.Nat.{ℕ}
use Prim.Native.Char.{code}
use Prim.Native.String.{String, ◌∷◌, []}
use mathlib.Core.Bool.{Bool, true, false, ◌||◌, ◌&&◌}
use lftpweb.Common.Tests.{ltb, ◌==◌, if◌then◌else◌}

-- `"/"`
abbrev pub slash : ℕ
slash = b'/'

-- `s.split("/", 1)[0]`: all of the text before its first slash.
unfoldable pub before_slash : String → String
before_slash [] = []
before_slash (c ∷ s) = if code c == slash then [] else c ∷ before_slash s

-- `"/" in s`
unfoldable pub has_slash : String → Bool
has_slash [] = false
has_slash (c ∷ s) = code c == slash || has_slash s

-- `instr(path, parent || '/') = 1`: the path lies below the parent.
unfoldable pub descends : String → String → Bool
descends [] [] = false
descends [] (c ∷ s) = code c == slash
descends (p ∷ ps) [] = false
descends (p ∷ ps) (c ∷ cs) = code p == code c && descends ps cs

-- Python's `<=` on strings, by code points.
unfoldable pub text_leb : String → String → Bool
text_leb [] t = true
text_leb (c ∷ s) [] = false
text_leb (c ∷ s) (d ∷ t) = ltb (code c) (code d) || (code c == code d && text_leb s t)
