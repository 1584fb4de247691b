-- ===== src/Lftp/Quote.antt =====
-- `_lftp_quote` (backend/lftpweb/core/lftp.py): a text as one word of a command, and what a reader
-- with the quoting of a POSIX shell makes of it.
use Prim.Native.Char.{Char, char, code}
use text.Mathlib.TextLemmas.{nil-append, cons-append, append_assoc}
use text.Mathlib.TextEquality.{Char-path}
use Prim.Native.String.{String, [], ◌∷◌, ◌++◌}
use lftpweb.Common.{
  ==_iff, ℕ, ◌≡◌, refl, ap, Bool, true, Option, none, some, arith, ◌==◌, ◌||◌, if◌then◌else◌,
  Bool-cases, inl, inr, ◌∙◌,
}

abbrev apostrophe : Char
apostrophe = char 39 tt

abbrev backslash : Char
backslash = char 92 tt

-- `value.replace("'", "'\\''")`
unfoldable pub escaped : String → String
escaped [] = ""
escaped (c ∷ s) =
    let rest = escaped s in
    if code c == 39 then apostrophe ∷ backslash ∷ apostrophe ∷ apostrophe ∷ rest else c ∷ rest

-- `_lftp_quote`
unfoldable pub lftp_quote : String → String
unfolding escaped
lftp_quote value = apostrophe ∷ (escaped value ++ "'")

-- How the reader stands between two characters: outside quotes, between single quotes, after a
-- backslash outside quotes.
pub data Quoting : Type 0 where
  plain quoted after_backslash : Quoting

-- What a character is to the reader: the end of the word, one of its characters, or a sign.
pub data Meaning : Type 0 where
  ends literal sign : Meaning

-- A character outside quotes ends the word if it is blank, a line break or a semicolon.
abbrev is_separator : ℕ → Bool
is_separator c = c == 32 || c == 9 || c == 10 || c == b';'

abbrev meaning : Quoting → ℕ → Meaning × Quoting
meaning plain c =
    if c == 39
    then (sign, quoted)
    else if c == 92
    then (sign, after_backslash)
    else if is_separator c
    then (ends, plain)
    else (literal, plain)
meaning quoted c = if c == 39 then (sign, plain) else (literal, quoted)
meaning after_backslash c = (literal, plain)

abbrev prefixed : Char → Option (String × String) → Option (String × String)
prefixed c none = none
prefixed c (some (word, rest)) = some (c ∷ word, rest)

abbrev taken : Meaning → Char → String → Option (String × String) → Option (String × String)
taken ends c s later = some ("", c ∷ s)
taken literal c s later = prefixed c later
taken sign c s later = later

abbrev at_end : Quoting → Option (String × String)
at_end plain = some ("", "")
at_end quoted = none
at_end after_backslash = none

-- The word that a text starts with and what is left of the text; none where a quote stays open.
unfoldable pub word_of : Quoting → String → Option (String × String)
word_of q [] = at_end q
word_of q (c ∷ s) = let m = meaning q (code c) in let later = word_of m.1 s in taken m.0 c s later

-- The rest of a command after a word.
abbrev pub Separated : String → Type 0
Separated [] = Unit
Separated (c ∷ s) = is_separator (code c) ≡ true

read_end : (after : String) → Separated after → word_of plain after ≡ some ("", after)
unfolding word_of
read_end [] h = refl
read_end (c ∷ s) h = ground arith

read_escaped :
    (value after : String)
    → Separated after
    → word_of quoted (escaped value ++ (apostrophe ∷ after)) ≡ some (value, after)
unfolding word_of escaped
read_escaped [] after h = rw nil-append (read_end after h)
read_escaped (c ∷ s) after h = elim (Bool-cases (code c == 39)) [
  | inl e ↦
      let same : c ≡ apostrophe = Char-path c apostrophe ((==_iff (code c) 39).0 e) in
      rw e (simp (cons-append, read_escaped s after h, same))
  | inr e ↦ rw e (simp (cons-append, e, read_escaped s after h))
]

quoted_append :
    (value after : String)
    → lftp_quote value ++ after ≡ apostrophe ∷ (escaped value ++ (apostrophe ∷ after))
unfolding lftp_quote
quoted_append value after =
    let close : "'" ++ after ≡ apostrophe ∷ after =
      cons-append apostrophe "" after ∙ ap (λ t. apostrophe ∷ t) (nil-append after) in
    simp (cons-append, append_assoc, close)

-- Whatever a text contains, a quote, a blank or a semicolon too, its quoted form is one word for a
-- reader with the quoting of a POSIX shell, that word is the text, and the command goes on where the
-- quoted form ends.
pub word_of-lftp_quote :
    (value after : String)
    → Separated after
    → word_of plain (lftp_quote value ++ after) ≡ some (value, after)
unfolding word_of
word_of-lftp_quote value after h = rw (quoted_append value after) (read_escaped value after h)
