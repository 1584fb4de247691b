-- ===== src/Checks/Settle.antt =====
-- The settle gate (backend/lftpweb/core/settle.py) at concrete inputs.
use Prim.Native.String.{◌∷◌ as cons, [] as empty_text}
use lftpweb.Common.{
  ℕ, suc, zero, String, ◌≡◌, refl, ap, Bool, true, false, none, some, List, [], ◌∷◌, arith,
}
use lftpweb.Common.Dict.{or_else, last_given, lookup, map_items, insert, set_default}
use lftpweb.Common.Text.{before_slash}
use lftpweb.Common.Stamp.{Stamps}
use lftpweb.Remote.Entry.{RemoteEntry}
use lftpweb.Settle.{
  Fingerprint, SettleRecord, compute_fingerprints, advance_settle, is_settled, tally_tree,
  tally_entry,
}
use lftpweb.Settle.Fingerprints.{describe, compute_fingerprints-describe}
use lftpweb.Settle.Gate.{Scan, watch, Watched, settled-Watched, steady, steady_settles}
use lftpweb.Settle.Store.{
  Table, save_settle_records, load_settle_records, load-save, is_settled_in_db,
  is_settled_in_db-is_settled,
}

abbrev file : String → ℕ → ℕ → RemoteEntry
file path size mtime = record { rel_path = path; is_dir = false; size = size; mtime = mtime }

abbrev dir : String → RemoteEntry
dir path = record { rel_path = path; is_dir = true; size = 0; mtime = 99 }

abbrev tree : List (String × RemoteEntry)
tree =
    ("rel", dir "rel")
    ∷ ("rel/a.rar", file "rel/a.rar" 100 7)
    ∷ ("notes.nfo", file "notes.nfo" 3 5)
    ∷ ("rel/b.rar", file "rel/b.rar" 50 9)
    ∷ []

compute_fingerprints_test :
    lookup "rel" (compute_fingerprints tree)
    ≡ some (record { file_count = 2; total_bytes = 150; max_mtime = some 9 })
unfolding compute_fingerprints lookup map_items tally_tree tally_entry insert set_default
    before_slash
compute_fingerprints_test = refl

compute_fingerprints-describe_example :
    lookup "rel" (compute_fingerprints tree) ≡ describe "rel" tree
compute_fingerprints-describe_example = compute_fingerprints-describe tree "rel"

abbrev fp : ℕ → Fingerprint
fp n = record { file_count = n; total_bytes = 150; max_mtime = some 9 }

abbrev scan : ℕ → Bool → ℕ → Scan
scan n partial at = record { fingerprint = fp n; partial = partial; at = at }

-- The newest first: a partial scan stands between the two that match.
abbrev history : List Scan
history = scan 2 false 70_000_000 ∷ scan 1 true 40_000_000 ∷ scan 2 false 9_000_000 ∷ []

settled-Watched_example : Watched history 70_000_000
unfolding watch advance_settle is_settled
settled-Watched_example = settled-Watched history 70_000_000 refl

steady_settles_example : is_settled (steady none (fp 2) (5 ∷ 30_000_000 ∷ [])) 60_000_005 ≡ true
steady_settles_example = steady_settles none (fp 2) 5 30_000_000 [] 60_000_005 tt (omega arith)

abbrev settled_record : SettleRecord
settled_record = record {
  fingerprint = fp 2;
  matched_scans = 5;
  first_matched_at = 0;
  first_observed_at = some 0;
  last_changed_at = some 0;
}

-- Timestamps as marks on a tally, to show that the format's law can be met.
abbrev tally : ℕ → String
tally zero = ""
tally (suc n) = cons "x" (tally n)

abbrev marks : String → ℕ
marks empty_text = 0
marks (cons c s) = suc (marks s)

marks-tally : (t : ℕ) → marks (tally t) ≡ t
marks-tally zero = refl
marks-tally (suc t) = ap suc (marks-tally t)

abbrev stamps : Stamps
stamps = record { format = tally; parse = marks; parse-format = marks-tally }

abbrev no_rows : Table
no_rows = []

abbrev records : List (String × SettleRecord)
records = ("rel", settled_record) ∷ []

load-save_example :
    lookup "rel" (load_settle_records stamps 1 (save_settle_records stamps 1 records no_rows))
    ≡ or_else (last_given "rel" records) (lookup "rel" (load_settle_records stamps 1 no_rows))
load-save_example = load-save stamps 1 "rel" records no_rows

is_settled_in_db-is_settled_example :
    let table = save_settle_records stamps 1 records no_rows in
    is_settled_in_db stamps 1 "rel" table 60_000_000
    ≡ is_settled (lookup "rel" (load_settle_records stamps 1 table)) 60_000_000
is_settled_in_db-is_settled_example =
    is_settled_in_db-is_settled stamps 1 "rel" (save_settle_records stamps 1 records no_rows)
      60_000_000
