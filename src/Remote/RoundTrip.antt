-- ===== src/Remote/RoundTrip.antt =====
-- The records of a remote scan are read back as they were printed
-- (backend/lftpweb/core/remote.py, `parse_find_records`).
use Prim.Native.Char.{Char, code}
use Prim.Native.String.{◌++◌ as ◌<>◌}
use text.Mathlib.TextLemmas.{nil-append, cons-append}
use mathlib.Core.Bool.{false≢true}
use lftpweb.Common.{
  ℕ, String, ◌≡◌, refl, sym, ap, ◌∙◌, Bool, true, false, ◌&&◌, some, List, [], ◌∷◌, map, All, inl,
  inr, ◌==◌, ◌=s◌, eq_iff, if◌then◌else◌, Bool-cases,
}
use lftpweb.Remote.Records.{
  Header, tab, newline, is_letter, header_at, scan, without_break, RemoteRecord, records_of,
  parse_find_records,
}
use lftpweb.Remote.Wire.{tab_char, break_char, Printed, Printed-no_tab, Printed-read}
use lftpweb.Remote.Lines.{no_header_in, skip_text, before, scan_path}

-- A record as the remote side prints it, with the texts of its numbers.
pub record Sent : Type 0 where
  pub type_char : Char
  pub size : String
  pub mtime : String
  pub path : String

-- All records, each with a line break after its path.
unfoldable pub print_all : List Sent → String
print_all [] = ""
print_all (r ∷ rs) = String.◌∷◌ r.type_char (
    String.◌∷◌ tab_char (
      r.size
      <> String.◌∷◌ tab_char
          (r.mtime <> String.◌∷◌ tab_char (r.path <> String.◌∷◌ break_char (print_all rs)))))

module _ (is_digit : ℕ → Bool) (no_break : is_digit newline ≡ false)
    (no_tabs : is_digit tab ≡ false) where
  -- How a record's header is read.
  abbrev header_of : Sent → Header
  header_of r = record { type_char = code r.type_char; size = r.size; mtime = r.mtime }

  -- What the remote side prints of an entry: a letter, two numbers, and a path of which no line
  -- begins like a record.
  abbrev pub Sendable : Sent → Type 0
  Sendable r =
      (is_letter is_digit (code r.type_char) ≡ true)
      × Printed is_digit no_break no_tabs false r.size
      × Printed is_digit no_break no_tabs true r.mtime
      × (no_header_in is_digit no_break no_tabs false r.path ≡ true)
      × ((r.path =s "") ≡ false)

  abbrev starts : String → Bool
  starts String.[] = false
  starts (String.◌∷◌ c s) = true

  not_empty : (s : String) → starts s ≡ true → (s =s "") ≡ false
  not_empty s h = elim (Bool-cases (s =s "")) [
    | inl e ↦ absurd (false≢true (sym (ap starts ((eq_iff s "").0 e)) ∙ h))
    | inr e ↦ e
  ]

  abbrev one_break : String
  one_break = String.◌∷◌ break_char ""

  starts-append : (s : String) → starts (s <> one_break) ≡ true
  starts-append String.[] = ap starts (nil-append one_break)
  starts-append (String.◌∷◌ c s) = ap starts (cons-append c s one_break)

  if_break : (b : Bool) (s t : String) → (if b && false then s else t) ≡ t
  if_break true s t = refl
  if_break false s t = refl

  kept_at :
      (c : Char) (s : String)
      → starts s ≡ true
      → without_break (String.◌∷◌ c s) ≡ String.◌∷◌ c (without_break s)
  unfolding without_break
  kept_at c s h =
      rw (not_empty s h) (if_break (code c == newline) String.[] (String.◌∷◌ c (without_break s)))

  without_break-append : (s : String) → without_break (s <> one_break) ≡ s
  unfolding without_break
  without_break-append String.[] = ap without_break (nil-append one_break)
  without_break-append (String.◌∷◌ c s) =
      ap without_break (cons-append c s one_break)
      ∙ kept_at c (s <> one_break) (starts-append s)
      ∙ ap (λ t. String.◌∷◌ c t) (without_break-append s)

  header_at_print :
      (r : Sent) (tail : String)
      → Sendable r
      → header_at is_digit (
          String.◌∷◌ r.type_char (
            String.◌∷◌ tab_char
              (r.size <> String.◌∷◌ tab_char (r.mtime <> String.◌∷◌ tab_char tail))))
        ≡ some (header_of r)
  unfolding header_at
  header_at_print r tail (letter, size, mtime, lines, path) = rw letter (
      rw
        (Printed-read is_digit no_break no_tabs false r.size (r.mtime <> String.◌∷◌ tab_char tail)
          size)
        (rw (Printed-read is_digit no_break no_tabs true r.mtime tail mtime) refl))

  -- A header is read, and the scan goes on behind it.
  scan_header :
      (r : Sent) (rest : String)
      → Sendable r
      → scan is_digit 0 true (
          String.◌∷◌ r.type_char (
            String.◌∷◌ tab_char
              (r.size <> String.◌∷◌ tab_char (r.mtime <> String.◌∷◌ tab_char rest))))
        ≡ ("", (header_of r, (scan is_digit 0 false rest).0) ∷ (scan is_digit 0 false rest).1)
  unfolding scan
  scan_header r rest ok =
      let (letter, size, mtime, lines, path) = ok in
      rw (header_at_print r rest ok) (
        ap (λ later. ("", (header_of r, later.0) ∷ later.1))
          (skip_text is_digit no_break no_tabs 1 false r.size (r.mtime <> String.◌∷◌ tab_char rest)
              (Printed-no_tab is_digit no_break no_tabs false r.size ok.1)
            ∙ skip_text is_digit no_break no_tabs 0 false r.mtime rest
                (Printed-no_tab is_digit no_break no_tabs true r.mtime ok.2)))

  abbrev field_of : Sent → Header × String
  field_of r = (header_of r, r.path <> one_break)

  scan-print_all :
      (rs : List Sent)
      → All Sendable rs
      → scan is_digit 0 true (print_all rs) ≡ ("", map field_of rs)
  unfolding scan print_all
  scan-print_all [] ok = refl
  scan-print_all (r ∷ rs) (ok, more) =
      scan_header r (r.path <> String.◌∷◌ break_char (print_all rs)) ok
      ∙ ap (λ later. ("", (header_of r, later.0) ∷ later.1))
          (scan_path is_digit no_break no_tabs false r.path (print_all rs) ok.3
            ∙ ap (before is_digit no_break no_tabs r.path) (scan-print_all rs more))

  module _ (size_of time_of : String → ℕ) where
    abbrev pub to_record : Sent → RemoteRecord
    to_record r = record {
      type_char = code r.type_char;
      size = size_of r.size;
      mtime = time_of r.mtime;
      path = r.path;
    }

    records_of_lines :
        (rs : List Sent)
        → All Sendable rs
        → records_of is_digit size_of time_of (map field_of rs) ≡ map to_record rs
    unfolding records_of
    records_of_lines [] ok = refl
    records_of_lines (r ∷ rs) (ok, more) =
        rw (without_break-append r.path)
          (rw ok.4 (ap (λ t. to_record r ∷ t) (records_of_lines rs more)))

    -- Records whose types are letters, whose sizes and times are numbers as the format has them, and
    -- whose paths are not empty and have no line that begins like a record, are read back in their
    -- order as they were printed, line breaks and tabs in the paths included. Digits are what
    -- `is_digit` accepts, which a line break and a tab are not.
    pub parse_find_records-print_all :
        (rs : List Sent)
        → All Sendable rs
        → parse_find_records is_digit size_of time_of (print_all rs) ≡ map to_record rs
    unfolding parse_find_records
    parse_find_records-print_all rs ok =
        ap (λ x. records_of is_digit size_of time_of x.1) (scan-print_all rs ok)
        ∙ records_of_lines rs ok
