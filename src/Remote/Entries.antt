-- ===== src/Remote/Entries.antt =====
-- The remote tree of a scan: its records below the root, and the classification of what `find`
-- ended with (backend/lftpweb/core/remote.py, `records_to_entries` and
-- `interpret_primary_scan_result`).
use Prim.Native.Char.{Char, char, code}
use Prim.Native.String.{◌++◌ as ◌<>◌}
use lftpweb.Common.{
  ℕ, ◌+◌, ◌-◌, zero, suc, String, Bool, true, false, ◌&&◌, ◌||◌, not, Option, none, some, List, [],
  ◌∷◌, any, ◌==◌, ◌=s◌, leb, ltb, if◌then◌else◌,
}
use lftpweb.Common.Dict.{Dict, insert}
use lftpweb.Common.Decimal.{decimal}
use lftpweb.Common.Search.{strip, strip_slashes, anywhere}
use lftpweb.Common.TextList.{join}
use lftpweb.Remote.Entry.{RemoteEntry}
use lftpweb.Remote.Records.{RemoteRecord}

abbrev pub slash_char : Char
slash_char = char 47 tt

-- `s[len(p):]` where `s` begins with `p`
unfoldable pub after : String → String → Option String
after String.[] s = some s
after (String.◌∷◌ c p) String.[] = none
after (String.◌∷◌ c p) (String.◌∷◌ d s) =
    let rest = after p s in if code c == code d then rest else none

-- `s.lstrip("/")`
unfoldable pub skip_slashes : String → String
skip_slashes String.[] = String.[]
skip_slashes (String.◌∷◌ c s) =
    let rest = skip_slashes s in if code c == b'/' then rest else String.◌∷◌ c s

abbrev pub rel_path_of : String → Option String → String
rel_path_of path none = skip_slashes path
rel_path_of path (some rel_path) = rel_path

abbrev pub entry_at : String → RemoteRecord → Dict RemoteEntry → Dict RemoteEntry
entry_at rel_path r entries =
    if r.type_char == b'd'
    then insert rel_path (record { rel_path = rel_path; is_dir = true; size = 0; mtime = r.mtime })
        entries
    else if r.type_char == b'f'
    then insert rel_path
        (record { rel_path = rel_path; is_dir = false; size = r.size; mtime = r.mtime }) entries
    else entries

-- One turn of the loop; the root comes without its last slashes.
unfoldable pub add_record : String → RemoteRecord → Dict RemoteEntry → Dict RemoteEntry
unfolding after insert skip_slashes
add_record root_norm r entries =
    let prefix = root_norm <> String.◌∷◌ slash_char "" in
    if r.path =s root_norm
    then entries
    else entry_at (rel_path_of r.path (after prefix r.path)) r entries

unfoldable pub add_records : String → List RemoteRecord → Dict RemoteEntry → Dict RemoteEntry
unfolding add_record
add_records root_norm [] entries = entries
add_records root_norm (r ∷ rs) entries = add_records root_norm rs (add_record root_norm r entries)

-- `records_to_entries`
unfoldable pub records_to_entries : List RemoteRecord → String → Dict RemoteEntry
unfolding add_records strip_slashes
records_to_entries records root = add_records (strip_slashes root) records []

-- The characters at which `str.splitlines` parts lines.
abbrev is_line_end : ℕ → Bool
is_line_end c =
    (leb 10 c && leb c 13) || (leb 28 c && leb c 30) || c == 133 || c == 8232 || c == 8233

abbrev onto_line : Char → List String → List String
onto_line c [] = String.◌∷◌ c "" ∷ []
onto_line c (line ∷ lines) = String.◌∷◌ c line ∷ lines

-- The lines; empty ones may be more than in Python, which drops them in what follows.
unfoldable lines_of : String → List String
lines_of String.[] = "" ∷ []
lines_of (String.◌∷◌ c s) =
    let rest = lines_of s in if is_line_end (code c) then "" ∷ rest else onto_line c rest

-- The stripped lines that are not empty.
unfoldable stripped_lines : List String → List String
unfolding strip
stripped_lines [] = []
stripped_lines (line ∷ lines) =
    let rest = stripped_lines lines in if strip line =s "" then rest else strip line ∷ rest

unfoldable first_of : ℕ → List String → List String
first_of zero lines = []
first_of (suc n) [] = []
first_of (suc n) (line ∷ lines) = line ∷ first_of n lines

unfoldable count_of : List String → ℕ
count_of [] = 0
count_of (line ∷ lines) = suc (count_of lines)

abbrev more_text : ℕ → String
more_text n = if ltb 5 n then " (+" <> (decimal (n - 5) <> " more)") else ""

abbrev summary_of : List String → String
summary_of [] = "some paths on the remote could not be scanned"
summary_of (line ∷ []) = "1 path skipped (could not be read): " <> line
summary_of (line ∷ other ∷ lines) =
    let all = line ∷ other ∷ lines in
    let n = count_of all in
    decimal n
    <> (" paths skipped (could not be read): " <> (join "; " (first_of 5 all) <> more_text n))

-- `_summarize_find_stderr`
unfoldable pub summarize_find_stderr : String → String
unfolding lines_of stripped_lines first_of count_of decimal join
summarize_find_stderr stderr_text = summary_of (stripped_lines (lines_of stderr_text))

-- `PrimaryScanOutcome`, or the `RemoteScanError` that is raised.
pub data PrimaryScan : Type 0 where
  outcome : Option String → Option String → PrimaryScan
  scan_error : String → PrimaryScan

abbrev unsupported_texts : List String
unsupported_texts =
    "unrecognized" ∷ "invalid option" ∷ "bad option" ∷ "unknown option" ∷ "unknown predicate" ∷ []

-- A byte without its case: of bytes `re.IGNORECASE` reads the letters of ASCII only.
abbrev ascii_lower : ℕ → ℕ
ascii_lower c = if leb b'A' c && leb c b'Z' then c + 32 else c

unfoldable begins_lower : String → String → Bool
begins_lower String.[] s = true
begins_lower (String.◌∷◌ p ps) String.[] = false
begins_lower (String.◌∷◌ p ps) (String.◌∷◌ c s) =
    code p == ascii_lower (code c) && begins_lower ps s

-- `_UNSUPPORTED_PRINTF_RE.search`
unfoldable pub is_unsupported : String → Bool
unfolding any anywhere begins_lower
is_unsupported stderr = any (λ p. anywhere (begins_lower p) stderr) unsupported_texts

-- `interpret_primary_scan_result`, of the decoded output.
unfoldable pub interpret_primary_scan_result : ℕ → String → String → PrimaryScan
unfolding is_unsupported summarize_find_stderr strip decimal
interpret_primary_scan_result exit_status stdout stderr =
    if exit_status == 0
    then outcome (some stdout) none
    else if is_unsupported stderr
    then outcome none none
    else if not (strip stdout =s "")
    then outcome (some stdout) (some (summarize_find_stderr stderr))
    else scan_error ("find failed (exit " <> (decimal exit_status <> ("): " <> strip stderr)))
