-- ===== src/Remote/Lines.antt =====
-- How the scan of the remote records goes through the fields of a header and the lines of a path
-- (backend/lftpweb/core/remote.py, `parse_find_records`).
use Prim.Native.Char.{Char, code}
use Prim.Native.String.{◌++◌ as ◌<>◌}
use text.Mathlib.TextLemmas.{nil-append, cons-append}
use mathlib.Core.Bool.{true≢false}
use lftpweb.Common.{
  ℕ, suc, String, ◌≡◌, refl, sym, ap, ◌∙◌, Bool, true, false, ◌&&◌, not, Option, none, some, List,
  ◌∷◌, arith, ◌==◌, is_some, if◌then◌else◌,
}
use lftpweb.Remote.Records.{
  Header, at_sign, tab, newline, number, is_letter, with_size, with_mtime, header_at, header_if,
  placed, scan,
}
use lftpweb.Remote.Wire.{tab_char, break_char, no_tab, with_more, number-break}

module _ (is_digit : ℕ → Bool) (no_break : is_digit newline ≡ false)
    (no_tabs : is_digit tab ≡ false) where
  -- No line of the path begins like a record; the flag says that a line starts here.
  unfoldable pub no_header_in : Bool → String → Bool
  unfolding header_at
  no_header_in line_start String.[] = true
  no_header_in line_start (String.◌∷◌ c s) =
      not (is_some (header_if is_digit line_start (String.◌∷◌ c s)))
      && no_header_in (code c == newline) s

  with_mtime-more :
      (c : ℕ) (size r : String) (o : Option (String × String))
      → with_mtime is_digit c size (with_more is_digit no_break no_tabs r o)
        ≡ with_mtime is_digit c size o
  with_mtime-more c size r none = refl
  with_mtime-more c size r (some (mtime, rest)) = refl

  with_size-more :
      (c : ℕ) (r : String) (o : Option (String × String))
      → with_size is_digit c (with_more is_digit no_break no_tabs (String.◌∷◌ break_char r) o)
        ≡ with_size is_digit c o
  with_size-more c r none = refl
  with_size-more c r (some (size, rest)) =
      ap (with_mtime is_digit c size) (number-break is_digit no_break no_tabs true at_sign rest r)
      ∙ with_mtime-more c size (String.◌∷◌ break_char r) (number is_digit true at_sign rest)

  header_at_break : (r : String) → header_at is_digit (String.◌∷◌ break_char r) ≡ none
  unfolding header_at
  header_at_break String.[] = refl
  header_at_break (String.◌∷◌ d r) = refl

  either_none :
      (b : Bool) (x : Option Header) → (if b && (code break_char == tab) then x else none) ≡ none
  either_none true x = refl
  either_none false x = refl

  -- Whether a header stands at a place is settled by the end of the line.
  header_at-break :
      (s r : String) → header_at is_digit (s <> String.◌∷◌ break_char r) ≡ header_at is_digit s
  unfolding header_at
  header_at-break String.[] r = rw (nil-append (String.◌∷◌ break_char r)) (header_at_break r)
  header_at-break (String.◌∷◌ c String.[]) r =
      rw (cons-append c "" (String.◌∷◌ break_char r), nil-append (String.◌∷◌ break_char r))
        (either_none (is_letter is_digit (code c))
          (with_size is_digit (code c) (number is_digit false at_sign r)))
  header_at-break (String.◌∷◌ c (String.◌∷◌ d s)) r =
      rw
        (
          cons-append c (String.◌∷◌ d s) (String.◌∷◌ break_char r),
          cons-append d s (String.◌∷◌ break_char r),
        )
        (rw
          (
            number-break is_digit no_break no_tabs false at_sign s r,
            with_size-more (code c) r (number is_digit false at_sign s),
          )
          refl)

  -- What stands before a tab of a header is passed over.
  pub skip_text :
      (k : ℕ) (line_start : Bool) (text r : String)
      → no_tab text ≡ true
      → scan is_digit (suc k) line_start (text <> String.◌∷◌ tab_char r) ≡ scan is_digit k false r
  unfolding scan no_tab
  skip_text k line_start String.[] r h = rw (nil-append (String.◌∷◌ tab_char r)) refl
  skip_text k line_start (String.◌∷◌ c text) r h =
      let other : (code c == tab) ≡ false = ground (arith, h) in
      let rest : no_tab text ≡ true = ground (arith, h) in
      rw (cons-append c text (String.◌∷◌ tab_char r))
        (rw other (skip_text k (code c == newline) text r rest))

  abbrev pub before : String → String × List (Header × String) → String × List (Header × String)
  before path later = (path <> String.◌∷◌ break_char later.0, later.1)

  absent : (o : Option Header) → is_some o ≡ false → o ≡ none
  absent none h = refl
  absent (some x) h = absurd (true≢false h)

  header_if_break :
      (line_start : Bool) (r : String)
      → header_if is_digit line_start (String.◌∷◌ break_char r) ≡ none
  header_if_break true r = header_at_break r
  header_if_break false r = refl

  header_if-break :
      (line_start : Bool) (s r : String)
      → header_if is_digit line_start (s <> String.◌∷◌ break_char r)
        ≡ header_if is_digit line_start s
  header_if-break true s r = header_at-break s r
  header_if-break false s r = refl

  placed-none :
      (c : Char) (later : String × List (Header × String))
      → placed is_digit 0 c none later ≡ (String.◌∷◌ c later.0, later.1)
  placed-none c (text, records) = refl

  placed-some :
      (c : Char) (h : Header) (later : String × List (Header × String))
      → placed is_digit 0 c (some h) later ≡ ("", (h, later.0) ∷ later.1)
  placed-some c h (text, records) = refl

  scan_on :
      (line_start : Bool) (c : Char) (s : String)
      → header_if is_digit line_start (String.◌∷◌ c s) ≡ none
      → scan is_digit 0 line_start (String.◌∷◌ c s)
        ≡ placed is_digit 0 c none (scan is_digit 0 (code c == newline) s)
  unfolding scan
  scan_on line_start c s h = rw h refl

  -- A path is read up to its line break.
  pub scan_path :
      (line_start : Bool) (path tail : String)
      → no_header_in line_start path ≡ true
      → scan is_digit 0 line_start (path <> String.◌∷◌ break_char tail)
        ≡ before path (scan is_digit 0 true tail)
  unfolding scan no_header_in
  scan_path line_start String.[] tail h =
      let later = scan is_digit 0 true tail in
      rw (nil-append (String.◌∷◌ break_char tail)) (
        rw (header_if_break line_start tail) (
          placed-none break_char later
          ∙ ap (λ t. (t, later.1)) (sym (nil-append (String.◌∷◌ break_char later.0)))))
  scan_path line_start (String.◌∷◌ c path) tail h =
      let whole = String.◌∷◌ c path in
      let here : header_if is_digit line_start whole ≡ none = absent _ (ground (arith, h)) in
      let rest : no_header_in (code c == newline) path ≡ true = ground (arith, h) in
      let later = scan is_digit 0 true tail in
      let more = String.◌∷◌ break_char tail in
      let front : whole <> more ≡ String.◌∷◌ c (path <> more) = cons-append c path more in
      let none_here : header_if is_digit line_start (String.◌∷◌ c (path <> more)) ≡ none =
        ap (header_if is_digit line_start) (sym front)
        ∙ header_if-break line_start whole tail
        ∙ here in
      ap (scan is_digit 0 line_start) front
      ∙ scan_on line_start c (path <> more) none_here
      ∙ ap (placed is_digit 0 c none) (scan_path (code c == newline) path tail rest)
      ∙ ap (λ t. (t, later.1)) (sym (cons-append c path (String.◌∷◌ break_char later.0)))
