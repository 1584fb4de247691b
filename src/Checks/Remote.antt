-- ===== src/Checks/Remote.antt =====
-- The remote scan's wire format (backend/lftpweb/core/remote.py) at concrete inputs.
use Prim.Native.Char.{char}
use lftpweb.Common.{
  ℕ, ◌+◌, All, String, ◌≡◌, refl, Bool, true, false, none, some, all, ◌&&◌, List, [], ◌∷◌, map, leb,
}
use lftpweb.Remote.Records.{parse_find_records, number}
use lftpweb.Lftp.Command.{strict, insecure, accept_and_pin}
use lftpweb.Remote.HostKeys.{
  Access, Attempt, works, trusted, rejected, mismatch, file_after, validate_host_public_key,
  validate_host_public_key-pinned,
}
use lftpweb.Remote.Lines.{no_header_in}
use lftpweb.Common.Dict.{lookup, last_given}
use lftpweb.Remote.Entry.{RemoteEntry}
use lftpweb.Remote.Entries.{records_to_entries, interpret_primary_scan_result, outcome, scan_error}
use lftpweb.Remote.Listing.{record_under, records_to_entries-record_under}
use lftpweb.Remote.RoundTrip.{Sent, print_all, to_record, Sendable, parse_find_records-print_all}

abbrev ascii_digit : ℕ → Bool
ascii_digit c = leb b'0' c && leb c b'9'

-- The number of characters stands for the number that a text is read as.
abbrev read_length : String → ℕ
read_length String.[] = 0
read_length (String.◌∷◌ c s) = 1 + read_length s

abbrev two_sent : List Sent
two_sent =
    record { type_char = char b'd' tt; size = "-4096"; mtime = "12"; path = "show" }
    ∷ record { type_char = char b'f' tt; size = "7"; mtime = "1.5"; path = "show/a\tb\nf" }
    ∷ []

sent_Sendable : All (Sendable ascii_digit refl refl) two_sent
unfolding number no_header_in
sent_Sendable = ((refl, refl, refl, refl, refl), ((refl, refl, refl, refl, refl), tt))

parse_find_records-print_all_example :
    parse_find_records ascii_digit read_length read_length (print_all two_sent)
    ≡ map (to_record ascii_digit refl refl read_length read_length) two_sent
parse_find_records-print_all_example =
    parse_find_records-print_all ascii_digit refl refl read_length read_length two_sent
      sent_Sendable

newline_in_path :
    map
      (λ r. r.path)
      (parse_find_records ascii_digit read_length read_length "f\t1\t2\ta\nf\t3\nd\t4\t5\tb\n")
    ≡ "a\nf\t3" ∷ "b" ∷ []
unfolding parse_find_records
newline_in_path = refl

abbrev usable : Access
usable = record { readable = true; writes = works }

abbrev insecure_attempt : List Attempt
insecure_attempt =
    record { access = usable; policy = insecure; host = "seedbox"; port = 22; exported = "other" }
    ∷ []

validate_host_public_key-pinned_example :
    validate_host_public_key usable strict "seedbox" 22 "other" (
      file_after insecure_attempt
        (validate_host_public_key usable accept_and_pin "seedbox" 22 "key" none).1)
    ≡ (
      rejected mismatch,
      file_after insecure_attempt
          (validate_host_public_key usable accept_and_pin "seedbox" 22 "key" none).1,
    )
unfolding validate_host_public_key all
validate_host_public_key-pinned_example =
    validate_host_public_key-pinned usable usable accept_and_pin strict "seedbox" 22 "key" "other"
      none insecure_attempt refl refl refl refl refl

-- A pin is lost where the file could not be read.
unread_file :
    (validate_host_public_key
      (record { readable = false; writes = works })
      accept_and_pin
      "seedbox"
      22
      "other"
      (some (("seedbox:22", "key") ∷ []))).0
    ≡ trusted
unfolding validate_host_public_key
unread_file = refl

abbrev small_tree : List RemoteEntry
small_tree =
    record { rel_path = "show"; is_dir = true; size = 4096; mtime = 12 }
    ∷ record { rel_path = "show/a"; is_dir = false; size = 7; mtime = 13 }
    ∷ []

records_to_entries-record_under_example :
    lookup "show" (records_to_entries (map (record_under "/data//") small_tree) "/data//")
    ≡ some (record { rel_path = "show"; is_dir = true; size = 0; mtime = 12 })
unfolding last_given
records_to_entries-record_under_example =
    records_to_entries-record_under "/data//" "show" small_tree

partial_scan :
    interpret_primary_scan_result 1 "f\t1\t2\ta\n" "find: 'x': Permission denied\n"
    ≡ outcome
        (some "f\t1\t2\ta\n")
        (some "1 path skipped (could not be read): find: 'x': Permission denied")
unfolding interpret_primary_scan_result
partial_scan = refl

failed_scan :
    interpret_primary_scan_result 1 " " "find: no such file\n"
    ≡ scan_error "find failed (exit 1): find: no such file"
unfolding interpret_primary_scan_result
failed_scan = refl

no_printf : interpret_primary_scan_result 1 "" "find: Unrecognized: -printf" ≡ outcome none none
unfolding interpret_primary_scan_result
no_printf = refl
