-- ===== src/Patterns/Agreement.antt =====
-- The globs that are handed to lftp against the program's own test of a file's name
-- (backend/lftpweb/core/patterns.py).
use Prim.Native.Char.{Char, char, code}
use Prim.Native.String.count
use Prim.Native.String.{count, ◌++◌ as ◌<>◌}
use text.Mathlib.TextLemmas.{nil-append, cons-append}
use lftpweb.Common.{
  String, ◌≡◌, refl, ap, ◌∙◌, Bool, true, false, List, [], ◌∷◌, map, inl, inr, arith, any,
  Bool-cases,
}
use lftpweb.Common.Search.{anywhere}
use lftpweb.Patterns.Glob.{Token, star, letter, token_at, tokens_in, tokens, matches, fnmatch}
use lftpweb.Patterns.Compiled.{
  is_glob, begins, contains, as_glob, pattern_matches, file_excluded, exclude_globs,
  CompiledPatterns,
}

-- The tokens of a text without glob signs and a star.
letters : String → List Token
letters String.[] = star ∷ []
letters (String.◌∷◌ c s) = letter (code c) ∷ letters s

no_sign :
    (c : Char) (s : String)
    → is_glob (String.◌∷◌ c s) ≡ false
    → (t : String) → token_at c t ≡ (letter (code c), t)
unfolding is_glob token_at
no_sign c s h t = ground arith

no_more : (c : Char) (s : String) → is_glob (String.◌∷◌ c s) ≡ false → is_glob s ≡ false
unfolding is_glob
no_more c s h = ground arith

tokens-letters :
    (q : String) → is_glob q ≡ false → tokens_in (count (q <> "*")) (q <> "*") ≡ letters q
unfolding tokens_in token_at letters
tokens-letters String.[] h = refl
tokens-letters (String.◌∷◌ c q) h =
    simp (cons-append, count.cons, no_sign c q h, tokens-letters q (no_more c q h))

anything : (s : String) → matches (star ∷ []) s ≡ true
unfolding matches anywhere
anything String.[] = refl
anything (String.◌∷◌ c s) = ground (arith, anything s)

letters-begins : (q s : String) → matches (letters q) s ≡ begins q s
unfolding matches begins letters
letters-begins String.[] s = anything s
letters-begins (String.◌∷◌ c q) String.[] = refl
letters-begins (String.◌∷◌ c q) (String.◌∷◌ d s) = ground (arith, letters-begins q s)

anywhere_same :
    (f g : String → Bool) → ((s : String) → f s ≡ g s) → (s : String) → anywhere f s ≡ anywhere g s
unfolding anywhere
anywhere_same f g h String.[] = h String.[]
anywhere_same f g h (String.◌∷◌ c s) = ground (arith, h (String.◌∷◌ c s), anywhere_same f g h s)

abbrev asterisk : Char
asterisk = char 42 tt

star_front : (t : String) → "*" <> t ≡ String.◌∷◌ asterisk t
star_front t = cons-append asterisk "" t ∙ ap (λ u. String.◌∷◌ asterisk u) (nil-append t)

starred : (q : String) → is_glob q ≡ false → tokens ("*" <> (q <> "*")) ≡ star ∷ letters q
unfolding tokens tokens_in token_at
starred q h =
    rw (star_front (q <> "*")) (rw (count.cons asterisk (q <> "*")) (rw (tokens-letters q h) refl))

wrapped : (q name : String) → is_glob q ≡ false → fnmatch name ("*" <> (q <> "*")) ≡ contains q name
unfolding fnmatch contains matches
wrapped q name h =
    rw (starred q h) (anywhere_same (matches (letters q)) (begins q) (letters-begins q) name)

-- What is relied on of `str.lower`: it lowers the letters between two asterisks as it lowers them
-- alone, and no sign of a glob comes of a text without one or is lost.
pub record Lowering : Type 0 where
  pub lower : String → String
  pub lower-stars : (s : String) → lower ("*" <> (s <> "*")) ≡ "*" <> (lower s <> "*")
  pub lower-is_glob : (s : String) → is_glob (lower s) ≡ is_glob s

module _ (l : Lowering) where
  open l use {lower, lower-stars, lower-is_glob}

  pattern_matches-as_glob :
      (p name : String) → fnmatch (lower name) (lower (as_glob p)) ≡ pattern_matches lower p name
  unfolding pattern_matches as_glob
  pattern_matches-as_glob p name = elim (Bool-cases (is_glob p)) [
    | inl e ↦ rw e refl
    | inr e ↦ rw e (rw (lower-stars p) (wrapped (lower p) (lower name) (lower-is_glob p ∙ e)))
  ]

  any_glob :
      (ps : List String) (name : String)
      → any (λ g. fnmatch (lower name) (lower g)) (map as_glob ps)
        ≡ any (λ p. pattern_matches lower p name) ps
  unfolding any
  any_glob [] name = refl
  any_glob (p ∷ ps) name = ground (arith, pattern_matches-as_glob p name, any_glob ps name)

  -- A file's name is excluded exactly if one of the globs that lftp is given matches it, whether the
  -- pattern was written as a glob or as a part of a name; the globs are read as `fnmatch` reads
  -- them, and letters without their case.
  pub exclude_globs-file_excluded :
      (compiled : CompiledPatterns) (name : String)
      → any (λ g. fnmatch (lower name) (lower g)) (exclude_globs compiled)
        ≡ file_excluded lower compiled name
  unfolding exclude_globs file_excluded
  exclude_globs-file_excluded compiled name = any_glob compiled.file_exclude name
