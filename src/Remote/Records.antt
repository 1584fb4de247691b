-- ===== src/Remote/Records.antt =====
-- The wire format of the remote scan (backend/lftpweb/core/remote.py, `parse_find_records`).
use Prim.Native.Char.{Char, code}
use lftpweb.Common.{
  ℕ, zero, suc, String, Bool, true, false, ◌&&◌, ◌||◌, Option, none, some, List, [], ◌∷◌, ◌==◌,
  ◌=s◌, leb, if◌then◌else◌,
}

abbrev pub tab : ℕ
tab = 9

abbrev pub newline : ℕ
newline = 10

-- The three fields before a path, as they stand in the text.
pub record Header : Type 0 where
  pub type_char : ℕ
  pub size : String
  pub mtime : String

-- How far a number is read: at its sign, before or after its first digit, and the same of the
-- fraction, which a size has not.
pub data Place : Type 0 where
  at_sign before_digit in_digits before_fraction in_fraction : Place

pub data Move : Type 0 where
  next : Place → Move
  done bad : Move

-- `is_digit` is what `\d` matches: the decimal digits of any script.
module _ (is_digit : ℕ → Bool) where
  abbrev digit_or : Place → Move → ℕ → Move
  digit_or place other c = if is_digit c then next place else other

  -- `-?\d+\t` or, with `fraction`, `-?\d+(?:\.\d+)?\t`, one character further.
  abbrev pub move : Bool → Place → ℕ → Move
  move fraction at_sign c = if c == b'-' then next before_digit else digit_or in_digits bad c
  move fraction before_digit c = digit_or in_digits bad c
  move fraction in_digits c =
      digit_or in_digits
        (if c == tab then done else if fraction && c == b'.' then next before_fraction else bad) c
  move fraction before_fraction c = digit_or in_fraction bad c
  move fraction in_fraction c = digit_or in_fraction (if c == tab then done else bad) c

  abbrev pub place_of : Move → Place
  place_of (next place) = place
  place_of done = at_sign
  place_of bad = at_sign

  abbrev pub longer : Char → Option (String × String) → Option (String × String)
  longer c none = none
  longer c (some (text, rest)) = some (String.◌∷◌ c text, rest)

  abbrev pub moved : Move → Char → String → Option (String × String) → Option (String × String)
  moved (next place) c s later = longer c later
  moved done c s later = some (String.[], s)
  moved bad c s later = none

  -- A number up to its tab, and what follows the tab.
  unfoldable pub number : Bool → Place → String → Option (String × String)
  number fraction place String.[] = none
  number fraction place (String.◌∷◌ c s) =
      let m = move fraction place (code c) in
      let later = number fraction (place_of m) s in moved m c s later

  -- `[a-zA-Z]`
  abbrev pub is_letter : ℕ → Bool
  is_letter c = (leb b'a' c && leb c b'z') || (leb b'A' c && leb c b'Z')

  abbrev pub with_mtime : ℕ → String → Option (String × String) → Option Header
  with_mtime c size none = none
  with_mtime c size (some (mtime, rest)) =
      some (record { type_char = c; size = size; mtime = mtime })

  abbrev pub with_size : ℕ → Option (String × String) → Option Header
  with_size c none = none
  with_size c (some (size, rest)) = with_mtime c size (number true at_sign rest)

  -- `_RECORD_RE` at a place in the text, but for its `^`.
  unfoldable pub header_at : String → Option Header
  unfolding number
  header_at String.[] = none
  header_at (String.◌∷◌ c String.[]) = none
  header_at (String.◌∷◌ c (String.◌∷◌ d s)) =
      if is_letter (code c) && code d == tab
      then with_size (code c) (number false at_sign s)
      else none

  -- `^` matches at the start of a line alone.
  abbrev pub header_if : Bool → String → Option Header
  header_if true s = header_at s
  header_if false s = none

  -- How many tabs of a header are still to come after a character.
  abbrev pub tabs_after : ℕ → ℕ → Option Header → ℕ
  tabs_after zero c none = 0
  tabs_after zero c (some h) = 3
  tabs_after (suc k) c found = if c == tab then k else suc k

  abbrev pub placed :
      ℕ → Char → Option Header → String × List (Header × String) → String × List (Header × String)
  placed zero c none (text, records) = (String.◌∷◌ c text, records)
  placed zero c (some h) (text, records) = (String.[], (h, text) ∷ records)
  placed (suc k) c found later = later

  -- The text up to the first header, and each header with the text up to the next one. The first
  -- number counts the tabs that are left of a header, which are three; the flag says that a line
  -- starts here.
  unfoldable pub scan : ℕ → Bool → String → String × List (Header × String)
  unfolding header_at
  scan tabs line_start String.[] = (String.[], [])
  scan tabs line_start (String.◌∷◌ c s) =
      let found = header_if line_start (String.◌∷◌ c s) in
      let later = scan (tabs_after tabs (code c) found) (code c == newline) s in
      placed tabs c found later

-- A path without the line break at its end.
unfoldable pub without_break : String → String
without_break String.[] = String.[]
without_break (String.◌∷◌ c s) =
    let rest = without_break s in
    if code c == newline && s =s "" then String.[] else String.◌∷◌ c rest

pub record RemoteRecord : Type 0 where
  pub type_char : ℕ
  pub size : ℕ
  pub mtime : ℕ
  pub path : String

-- `int` of the size and `float` of the time, as texts.
module _ (is_digit : ℕ → Bool) (size_of time_of : String → ℕ) where
  abbrev record_of : Header → String → List RemoteRecord → List RemoteRecord
  record_of h path records =
      if path =s ""
      then records
      else record {
        type_char = h.type_char;
        size = size_of h.size;
        mtime = time_of h.mtime;
        path = path;
      }
        ∷ records

  unfoldable pub records_of : List (Header × String) → List RemoteRecord
  unfolding without_break
  records_of [] = []
  records_of ((h, text) ∷ rest) = record_of h (without_break text) (records_of rest)

  -- `parse_find_records`
  unfoldable pub parse_find_records : String → List RemoteRecord
  unfolding scan records_of
  parse_find_records raw = records_of (scan is_digit 0 true raw).1
