-- ===== src/Remote/Wire.antt =====
-- What the remote scan prints is what is read (backend/lftpweb/core/remote.py, `parse_find_records`;
-- the records of `find -printf` and backend/lftpweb/remote_agent/scan_fs.py).
use Prim.Native.Char.{Char, char, code}
use Prim.Native.String.{◌++◌ as ◌<>◌}
use text.Mathlib.TextLemmas.{nil-append, cons-append, append_assoc}
use mathlib.Core.Bool.{false≢true}
use lftpweb.Common.{
  ℕ, String, ◌≡◌, ◌≢◌, refl, sym, ap, ◌∙◌, subst, Bool, true, false, ◌&&◌, not, Option, none, some,
  inl, inr, arith, ◌==◌, is_some, ==_iff, Bool-cases,
}
use lftpweb.Remote.Records.{
  Place, at_sign, Move, next, done, bad, tab, newline, move, moved, place_of, longer, number,
}

abbrev pub tab_char : Char
tab_char = char 9 tt

abbrev pub break_char : Char
break_char = char 10 tt

-- No tab in the text.
unfoldable pub no_tab : String → Bool
no_tab String.[] = true
no_tab (String.◌∷◌ c s) = not (code c == tab) && no_tab s

module _ (is_digit : ℕ → Bool) (no_break : is_digit newline ≡ false)
    (no_tabs : is_digit tab ≡ false) where
  abbrev pub with_more : String → Option (String × String) → Option (String × String)
  with_more r none = none
  with_more r (some (text, rest)) = some (text, rest <> r)

  moved_more :
      (m : Move) (c : Char) (s r : String) (o : Option (String × String))
      → moved is_digit m c (s <> r) (with_more r o) ≡ with_more r (moved is_digit m c s o)
  moved_more (next place) c s r none = refl
  moved_more (next place) c s r (some (text, rest)) = refl
  moved_more done c s r o = refl
  moved_more bad c s r o = refl

  -- A line break is no part of a number: what follows it does not matter.
  move_break : (fraction : Bool) (place : Place) → move is_digit fraction place newline ≡ bad
  move_break fraction place = ground (arith, no_break)

  pub number-break :
      (fraction : Bool) (place : Place) (s r : String)
      → number is_digit fraction place (s <> String.◌∷◌ break_char r)
        ≡ with_more (String.◌∷◌ break_char r) (number is_digit fraction place s)
  unfolding number
  number-break fraction place String.[] r =
      rw (nil-append (String.◌∷◌ break_char r)) (rw (move_break fraction place) refl)
  number-break fraction place (String.◌∷◌ c s) r =
      let m = move is_digit fraction place (code c) in
      rw (cons-append c s (String.◌∷◌ break_char r)) (
        rw (number-break fraction (place_of is_digit m) s r) (
          moved_more m c s (String.◌∷◌ break_char r)
            (number is_digit fraction (place_of is_digit m) s)))

  longer_some :
      (c : Char) (o : Option (String × String))
      → is_some (longer is_digit c o) ≡ true
      → is_some o ≡ true
  longer_some c none h = h
  longer_some c (some (text, rest)) h = refl

  -- What is read of a text is read of a longer one.
  number-append :
      (fraction : Bool) (place : Place) (s r : String)
      → is_some (number is_digit fraction place s) ≡ true
      → number is_digit fraction place (s <> r) ≡ with_more r (number is_digit fraction place s)
  unfolding number
  number-append fraction place String.[] r h = absurd (false≢true h)
  number-append fraction place (String.◌∷◌ c s) r h =
      rw (cons-append c s r)
        (go (move is_digit fraction place (code c)) (λ q. number-append fraction q s r) h)
    where
      go :
          (m : Move)
          → ((q : Place)
              → is_some (number is_digit fraction q s) ≡ true
              → number is_digit fraction q (s <> r) ≡ with_more r (number is_digit fraction q s))
          → is_some (moved is_digit m c s (number is_digit fraction (place_of is_digit m) s)) ≡ true
          → moved is_digit m c (s <> r) (number is_digit fraction (place_of is_digit m) (s <> r))
            ≡ with_more r (moved is_digit m c s (number is_digit fraction (place_of is_digit m) s))
      go (next q) ih k =
          rw (ih q (longer_some c (number is_digit fraction q s) k))
            (moved_more (next q) c s r (number is_digit fraction q s))
      go done ih k = refl
      go bad ih k = refl

  move-tab : (fraction : Bool) (place q : Place) → move is_digit fraction place tab ≢ next q
  move-tab fraction place q h = ground (arith, no_tabs)

  next_is_no_tab :
      (fraction : Bool) (place q : Place) (c : ℕ)
      → move is_digit fraction place c ≡ next q
      → (c == tab) ≡ false
  next_is_no_tab fraction place q c h = elim (Bool-cases (c == tab)) [
    | inl e ↦ absurd (
        move-tab fraction place q
          (subst (λ d. move is_digit fraction place d ≡ next q) ((==_iff c tab).0 e) h))
    | inr e ↦ e
  ]

  abbrev Tabless : Option (String × String) → Type 0
  Tabless none = Unit
  Tabless (some (text, rest)) = no_tab text ≡ true

  longer-Tabless :
      (c : Char) (o : Option (String × String))
      → (code c == tab) ≡ false
      → Tabless o
      → Tabless (longer is_digit c o)
  unfolding no_tab
  longer-Tabless c none e h = tt
  longer-Tabless c (some (text, rest)) e h = ground arith

  number-Tabless :
      (fraction : Bool) (place : Place) (s : String) → Tabless (number is_digit fraction place s)
  unfolding number no_tab
  number-Tabless fraction place String.[] = tt
  number-Tabless fraction place (String.◌∷◌ c s) =
      go (move is_digit fraction place (code c)) (λ q. number-Tabless fraction q s) refl
    where
      go :
          (m : Move)
          → ((q : Place) → Tabless (number is_digit fraction q s))
          → move is_digit fraction place (code c) ≡ m
          → Tabless (moved is_digit m c s (number is_digit fraction (place_of is_digit m) s))
      go (next q) ih e = longer-Tabless c _ (next_is_no_tab fraction place q (code c) e) (ih q)
      go done ih e = refl
      go bad ih e = tt

  -- A number as the remote side prints it: it is read up to its tab.
  abbrev pub Printed : Bool → String → Type 0
  Printed fraction text =
      number is_digit fraction at_sign (text <> String.◌∷◌ tab_char "") ≡ some (text, "")

  pub Printed-no_tab :
      (fraction : Bool) (text : String) → Printed fraction text → no_tab text ≡ true
  Printed-no_tab fraction text h =
      subst Tabless h (number-Tabless fraction at_sign (text <> String.◌∷◌ tab_char ""))

  pub Printed-read :
      (fraction : Bool) (text r : String)
      → Printed fraction text
      → number is_digit fraction at_sign (text <> String.◌∷◌ tab_char r) ≡ some (text, r)
  Printed-read fraction text r h =
      let front : String.◌∷◌ tab_char "" <> r ≡ String.◌∷◌ tab_char r =
        cons-append tab_char "" r ∙ ap (λ t. String.◌∷◌ tab_char t) (nil-append r) in
      let apart : text <> String.◌∷◌ tab_char r ≡ (text <> String.◌∷◌ tab_char "") <> r =
        sym (append_assoc text (String.◌∷◌ tab_char "") r ∙ ap (λ t. text <> t) front) in
      rw apart (
        number-append fraction at_sign (text <> String.◌∷◌ tab_char "") r (rw h refl)
        ∙ ap (with_more r) h
        ∙ ap (λ u. some (text, u)) (nil-append r))
