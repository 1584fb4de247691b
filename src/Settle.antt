-- ===== src/Settle.antt =====
-- The settle gate (backend/lftpweb/core/settle.py): the fingerprint of a top-level item's remote
-- subtree, the counter that one scan advances, and the test that opens the gate.
-- Times are counted in microseconds, the precision of the stored timestamps, and sizes in bytes.
pub mod Fingerprints
pub mod Gate
pub mod Store
use lftpweb.Common.{
  ℕ, ◌+◌, ◌-◌, String, Bool, true, false, ◌&&◌, Option, none, some, List, [], ◌∷◌, leb, ltb, ◌==◌,
  same_option, or_default, if◌then◌else◌, max,
}
use lftpweb.Common.Dict
use lftpweb.Common.Dict.{Dict, lookup, insert, set_default, map_items}
use lftpweb.Common.Text.{before_slash}
use lftpweb.Remote.Entry.{RemoteEntry}

-- `REQUIRED_SETTLE_SCANS`
abbrev pub required_settle_scans : ℕ
required_settle_scans = 2

-- `SETTLE_MIN_AGE_S`, in microseconds
abbrev pub settle_min_age : ℕ
settle_min_age = 60_000_000

pub record Fingerprint : Type 0 where
  pub file_count : ℕ
  pub total_bytes : ℕ
  pub max_mtime : Option ℕ

pub record SettleRecord : Type 0 where
  pub fingerprint : Fingerprint
  pub matched_scans : ℕ
  pub first_matched_at : ℕ
  pub first_observed_at : Option ℕ
  pub last_changed_at : Option ℕ

-- `==` on two fingerprints, which are tuples in the source.
unfoldable pub same_fingerprint : Fingerprint → Fingerprint → Bool
same_fingerprint a b =
    a.file_count == b.file_count
    && (a.total_bytes == b.total_bytes && same_option a.max_mtime b.max_mtime)

-- The three dictionaries that `compute_fingerprints` fills.
pub record Tallies : Type 0 where
  pub file_count : Dict ℕ
  pub total_bytes : Dict ℕ
  pub max_mtime : Dict (Option ℕ)

-- `entry.mtime if prev is None else max(prev, entry.mtime)`
abbrev pub newest : Option ℕ → ℕ → ℕ
newest none t = t
newest (some p) t = max p t

abbrev pub flat : Option (Option ℕ) → Option ℕ
flat none = none
flat (some o) = o

-- The loop's body for a directory, up to its `continue`.
unfoldable pub tally_dir : String → Tallies → Tallies
tally_dir top t = record {
  file_count = set_default top 0 t.file_count;
  total_bytes = set_default top 0 t.total_bytes;
  max_mtime = set_default top none t.max_mtime;
}

-- The rest of the loop's body, for a file.
unfoldable pub tally_file : String → RemoteEntry → Tallies → Tallies
tally_file top entry t = record {
  file_count = insert top (or_default 0 (lookup top t.file_count) + 1) t.file_count;
  total_bytes = insert top (or_default 0 (lookup top t.total_bytes) + entry.size) t.total_bytes;
  max_mtime = insert top (some (newest (flat (lookup top t.max_mtime)) entry.mtime)) t.max_mtime;
}

unfoldable pub tally_entry : Tallies → String → RemoteEntry → Tallies
unfolding tally_dir tally_file
tally_entry t rel_path entry =
    let top = before_slash rel_path in
    if entry.is_dir then tally_dir top t else tally_file top entry t

unfoldable pub tally_tree : Tallies → Dict RemoteEntry → Tallies
tally_tree t [] = t
tally_tree t ((rel_path, entry) ∷ tree) = tally_tree (tally_entry t rel_path entry) tree

abbrev pub no_tallies : Tallies
no_tallies = record { file_count = []; total_bytes = []; max_mtime = [] }

-- One entry of the dictionary that is returned. The defaults stand where the source would raise
-- `KeyError`.
abbrev pub fingerprint_of : Tallies → String → ℕ → Fingerprint
fingerprint_of t top n = record {
  file_count = n;
  total_bytes = or_default 0 (lookup top t.total_bytes);
  max_mtime = flat (lookup top t.max_mtime);
}

unfoldable pub compute_fingerprints : Dict RemoteEntry → Dict Fingerprint
compute_fingerprints tree =
    let t = tally_tree no_tallies tree in map_items (fingerprint_of t) t.file_count

-- The branch of a first sighting or a changed fingerprint.
abbrev pub fresh_streak : Option ℕ → Fingerprint → ℕ → SettleRecord
fresh_streak observed fp now = record {
  fingerprint = fp;
  matched_scans = 1;
  first_matched_at = now;
  first_observed_at = observed;
  last_changed_at = some now;
}

unfoldable pub advance_settle : Option SettleRecord → Fingerprint → Bool → ℕ → SettleRecord
unfolding same_fingerprint
advance_settle none fp partial_scan now = fresh_streak (some now) fp now
advance_settle (some prev) fp partial_scan now =
    if partial_scan
    then prev
    else if same_fingerprint prev.fingerprint fp
    then record prev { fingerprint = fp; matched_scans = prev.matched_scans + 1 }
    else fresh_streak prev.first_observed_at fp now

-- `now - first_matched_at >= SETTLE_MIN_AGE_S`, written without the difference, which is negative
-- when the clock went back.
unfoldable pub is_settled : Option SettleRecord → ℕ → Bool
is_settled none now = false
is_settled (some r) now =
    if ltb r.matched_scans required_settle_scans
    then false
    else leb (r.first_matched_at + settle_min_age) now
