-- ===== src/Patterns/Glob.antt =====
-- Python's `fnmatch.fnmatchcase`, which `pattern_matches` of backend/lftpweb/core/patterns.py calls.
use Prim.Native.Char.{Char, code}
use Prim.Native.String.{count}
use lftpweb.Common.{
  ℕ, zero, suc, String, Bool, true, false, ◌&&◌, ◌||◌, not, Option, none, some, List, [], ◌∷◌, ◌==◌,
  leb, if◌then◌else◌,
}
use lftpweb.Common.Search.{anywhere}

-- A part of a pattern: `*`, `?`, `[...]` or `[!...]` with its members, or a character.
pub data Token : Type 0 where
  star one : Token
  class : Bool → String → Token
  letter : ℕ → Token

abbrev pub more_members : Char → Option (String × String) → Option (String × String)
more_members c none = none
more_members c (some (members, rest)) = some (String.◌∷◌ c members, rest)

-- The members of a class up to its `]`, and the rest of the pattern.
unfoldable pub up_to_bracket : String → Option (String × String)
up_to_bracket String.[] = none
up_to_bracket (String.◌∷◌ c s) =
    let later = up_to_bracket s in
    if code c == b']' then some (String.[], s) else more_members c later

-- A `]` that comes first is a member.
unfoldable pub class_members : String → Option (String × String)
unfolding up_to_bracket
class_members String.[] = none
class_members (String.◌∷◌ c s) = more_members c (up_to_bracket s)

abbrev pub class_token : Bool → Option (String × String) → Option (Token × String)
class_token negated none = none
class_token negated (some (members, rest)) = some (class negated members, rest)

-- The class after a `[`, if it is closed.
unfoldable pub class_after : String → Option (Token × String)
unfolding class_members
class_after String.[] = none
class_after (String.◌∷◌ c s) =
    if code c == b'!'
    then class_token true (class_members s)
    else class_token false (class_members (String.◌∷◌ c s))

abbrev pub bracket_or : String → Option (Token × String) → Token × String
bracket_or s none = (letter b'[', s)
bracket_or s (some t) = t

-- The first token of a pattern and the rest of it.
unfoldable pub token_at : Char → String → Token × String
unfolding class_after
token_at c s =
    if code c == b'*'
    then (star, s)
    else if code c == b'?'
    then (one, s)
    else if code c == b'['
    then bracket_or s (class_after s)
    else (letter (code c), s)

-- `fnmatch.translate`, on fuel: a token takes a character of the pattern at least.
unfoldable pub tokens_in : ℕ → String → List Token
unfolding token_at
tokens_in zero s = []
tokens_in (suc f) String.[] = []
tokens_in (suc f) (String.◌∷◌ c s) = let t = token_at c s in t.0 ∷ tokens_in f t.1

unfoldable pub tokens : String → List Token
unfolding tokens_in
tokens s = tokens_in (count s) s

-- A character, or a range `a-z`, of a class.
unfoldable pub in_class : String → ℕ → Bool
in_class String.[] x = false
in_class (String.◌∷◌ a String.[]) x = code a == x
in_class (String.◌∷◌ a (String.◌∷◌ b String.[])) x = code a == x || code b == x
in_class (String.◌∷◌ a (String.◌∷◌ b (String.◌∷◌ d s))) x = elim (code b == b'-') [
  | true ↦ (leb (code a) x && leb x (code d)) || in_class s x
  | false ↦ code a == x || in_class (String.◌∷◌ b (String.◌∷◌ d s)) x
]

-- One character against one token.
unfoldable pub accepts : Token → ℕ → Bool
unfolding in_class
accepts star x = true
accepts one x = true
accepts (class negated members) x = if negated then not (in_class members x) else in_class members x
accepts (letter y) x = y == x

abbrev is_end : String → Bool
is_end String.[] = true
is_end (String.◌∷◌ c s) = false

-- The whole text against the tokens.
unfoldable pub matches : List Token → String → Bool
unfolding anywhere accepts
matches [] s = is_end s
matches (star ∷ ts) s = anywhere (matches ts) s
matches (one ∷ ts) String.[] = false
matches (one ∷ ts) (String.◌∷◌ c s) = matches ts s
matches (class negated members ∷ ts) String.[] = false
matches (class negated members ∷ ts) (String.◌∷◌ c s) =
    accepts (class negated members) (code c) && matches ts s
matches (letter y ∷ ts) String.[] = false
matches (letter y ∷ ts) (String.◌∷◌ c s) = y == code c && matches ts s

-- `fnmatch.fnmatchcase(name, pattern)`
unfoldable pub fnmatch : String → String → Bool
unfolding matches tokens
fnmatch name pattern_text = matches (tokens pattern_text) name
