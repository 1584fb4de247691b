-- ===== src/Patterns/Fuel.antt =====
-- The translation of a glob (`fnmatch.translate`, for backend/lftpweb/core/patterns.py) ends: its
-- fuel, the number of the pattern's characters, is enough.
use Prim.Native.Char.{Char, code}
use Prim.Native.String.count
use Prim.Native.String.{count}
use lftpweb.Common.{
  ℕ, zero, suc, ◌≤◌, ◌≡◌, refl, ap, String, Bool, true, false, Option, none, some, ◌∷◌, arith, ◌==◌,
  if◌then◌else◌,
}
use lftpweb.Patterns.Glob.{
  Token, up_to_bracket, more_members, class_members, class_token, class_after, bracket_or, token_at,
  tokens_in,
}

-- What is left after an optional part is no longer than `n`.
abbrev Within : {A : Type 0} → ℕ → Option (A × String) → Type 0
Within n none = Unit
Within n (some (a, rest)) = count rest ≤ n

more_members-Within :
    (c : Char) (n : ℕ) (o : Option (String × String)) → Within n o → Within n (more_members c o)
more_members-Within c n none h = tt
more_members-Within c n (some (members, rest)) h = h

class_token-Within :
    (negated : Bool) (n : ℕ) (o : Option (String × String))
    → Within n o
    → Within n (class_token negated o)
class_token-Within negated n none h = tt
class_token-Within negated n (some (members, rest)) h = h

wider : {A : Type 0} (m n : ℕ) (o : Option (A × String)) → m ≤ n → Within m o → Within n o
wider m n none h k = tt
wider m n (some (a, rest)) h k = omega (arith, h, k)

either_Within :
    {A : Type 0} (b : Bool) (n : ℕ) (x y : Option (A × String))
    → Within n x
    → Within n y
    → Within n (if b then x else y)
either_Within true n x y k l = k
either_Within false n x y k l = l

up_to_bracket-Within : (s : String) → Within (count s) (up_to_bracket s)
unfolding up_to_bracket
up_to_bracket-Within String.[] = tt
up_to_bracket-Within (String.◌∷◌ c s) =
    either_Within (code c == b']') _ (some (String.[], s)) _ (omega (arith, count.cons c s)) (
      wider (count s) _ _ (omega (arith, count.cons c s))
        (more_members-Within c (count s) (up_to_bracket s) (up_to_bracket-Within s)))

class_members-Within : (s : String) → Within (count s) (class_members s)
unfolding class_members
class_members-Within String.[] = tt
class_members-Within (String.◌∷◌ c s) =
    wider (count s) _ _ (omega (arith, count.cons c s))
      (more_members-Within c (count s) (up_to_bracket s) (up_to_bracket-Within s))

class_after-Within : (s : String) → Within (count s) (class_after s)
unfolding class_after
class_after-Within String.[] = tt
class_after-Within (String.◌∷◌ c s) =
    either_Within (code c == b'!') _ _ _
      (wider (count s) _ _ (omega (arith, count.cons c s))
        (class_token-Within true (count s) (class_members s) (class_members-Within s)))
      (class_token-Within false _ (class_members (String.◌∷◌ c s))
        (class_members-Within (String.◌∷◌ c s)))

bracket_or-count :
    (s : String) (o : Option (Token × String))
    → Within (count s) o
    → count (bracket_or s o).1 ≤ count s
bracket_or-count s none h = omega arith
bracket_or-count s (some (t, rest)) h = h

either_count :
    (b : Bool) (n : ℕ) (x y : Token × String)
    → count x.1 ≤ n
    → count y.1 ≤ n
    → count (if b then x else y).1 ≤ n
either_count true n x y k l = k
either_count false n x y k l = l

token_at-count : (c : Char) (s : String) → count (token_at c s).1 ≤ count s
unfolding token_at
token_at-count c s =
    let whole : count s ≤ count s = omega arith in
    either_count (code c == b'*') _ _ _ whole (
      either_count (code c == b'?') _ _ _ whole (
        either_count (code c == b'[') _ _ _
          (bracket_or-count s (class_after s) (class_after-Within s)) whole))

-- Any two amounts of fuel that reach the number of the pattern's characters give the same tokens.
pub tokens_in-enough :
    (f g : ℕ) (s : String) → count s ≤ f → count s ≤ g → tokens_in f s ≡ tokens_in g s
unfolding tokens_in
tokens_in-enough zero zero s h k = refl
tokens_in-enough zero (suc g) String.[] h k = refl
tokens_in-enough zero (suc g) (String.◌∷◌ c s) h k = absurd (omega (arith, count.cons c s))
tokens_in-enough (suc f) zero String.[] h k = refl
tokens_in-enough (suc f) zero (String.◌∷◌ c s) h k = absurd (omega (arith, count.cons c s))
tokens_in-enough (suc f) (suc g) String.[] h k = refl
tokens_in-enough (suc f) (suc g) (String.◌∷◌ c s) h k =
    ap (λ ts. (token_at c s).0 ∷ ts)
      (tokens_in-enough f g (token_at c s).1 (omega (arith, token_at-count c s, count.cons c s))
        (omega (arith, token_at-count c s, count.cons c s)))
