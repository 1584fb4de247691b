-- ===== src/Common/Search.antt =====
-- Searching Python strings: letters without their case as `re.IGNORECASE` reads them, literal
-- prefixes, and white space.
use Prim.Native.Nat.{ℕ, ◌+◌, ◌-◌, zero, suc}
use Prim.Native.Char.{code}
use Prim.Native.String.{String, [], ◌∷◌, count}
use mathlib.Core.Bool.{Bool, true, false, ◌||◌, ◌&&◌}
use mathlib.Core.Option.{Option, none, some}
use lftpweb.Common.Tests.{leb, ◌==◌, ◌=s◌, if◌then◌else◌}

-- A character against the lower-case letters of a pattern, with the four letters outside ASCII that
-- `re.IGNORECASE` reads as ASCII ones: the long s, the Kelvin sign, and i with two dots or none.
unfoldable pub fold_case : ℕ → ℕ
fold_case c =
    if leb b'A' c && leb c b'Z'
    then c + 32
    else if c == 383
    then b's'
    else if c == 8490
    then b'k'
    else if c == 304 || c == 305
    then b'i'
    else c

-- `str.lower` on the letters of ASCII; the other letters are left as they are.
unfoldable pub lower_char : ℕ → ℕ
lower_char c = if leb b'A' c && leb c b'Z' then c + 32 else c

-- What `\s` matches and `str.strip` strips.
unfoldable pub is_space : ℕ → Bool
is_space c =
    (leb 9 c && leb c 13)
    || (leb 28 c && leb c 32)
    || c == 133
    || c == 160
    || c == 5760
    || (leb 8192 c && leb c 8202)
    || c == 8232
    || c == 8233
    || c == 8239
    || c == 8287
    || c == 12288

-- The rest of a text after a literal in lower case, read without the case of the text's letters.
unfoldable pub after_folded : String → String → Option String
unfolding fold_case
after_folded [] s = some s
after_folded (p ∷ ps) [] = none
after_folded (p ∷ ps) (c ∷ s) =
    let rest = after_folded ps s in if fold_case (code c) == code p then rest else none

abbrev is_there : Option String → Bool
is_there none = false
is_there (some _) = true

unfoldable pub begins_folded : String → String → Bool
unfolding after_folded
begins_folded p s = is_there (after_folded p s)

-- `re.search`: the test holds at one of the text's positions, the end included.
unfoldable pub anywhere : (String → Bool) → String → Bool
anywhere test [] = test []
anywhere test (c ∷ s) = test (c ∷ s) || anywhere test s

unfoldable pub skip_spaces : String → String
unfolding is_space
skip_spaces [] = []
skip_spaces (c ∷ s) = let rest = skip_spaces s in if is_space (code c) then rest else c ∷ s

-- `s[n:]`
unfoldable pub drop_chars : ℕ → String → String
drop_chars zero s = s
drop_chars (suc n) [] = []
drop_chars (suc n) (c ∷ s) = drop_chars n s

-- `s[-n:]` for a positive `n`
unfoldable pub last_chars : ℕ → String → String
unfolding drop_chars
last_chars n s = drop_chars (count s - n) s

-- `s.strip()`: white space goes at the front and at the end.
unfoldable pub strip_end : String → String
unfolding is_space
strip_end [] = ""
strip_end (c ∷ s) =
    let rest = strip_end s in if is_space (code c) && rest =s "" then "" else c ∷ rest

unfoldable pub strip : String → String
unfolding strip_end skip_spaces
strip s = strip_end (skip_spaces s)

-- `s.rstrip("/")`
unfoldable pub strip_slashes : String → String
strip_slashes [] = ""
strip_slashes (c ∷ s) =
    let rest = strip_slashes s in if code c == b'/' && rest =s "" then "" else c ∷ rest
