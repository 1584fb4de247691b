-- ===== src/LocalScan.antt =====
-- The local scan (backend/lftpweb/core/local_scan.py): the bytes that a partial file really has, and
-- which of the names of one file counts.
pub mod Best
use lftpweb.Common.{
  ℕ, ◌+◌, ◌-◌, Bool, true, false, ◌&&◌, ◌||◌, not, Option, none, some, List, [], ◌∷◌, leb,
  if◌then◌else◌, sum_by,
}
use lftpweb.Common.Dict.{Dict, lookup, insert}
use lftpweb.Reconcile.Merge.{LocalEntry}

-- `PgetStatus`, with (pos, limit) of each chunk
pub record PgetStatus : Type 0 where
  pub size : ℕ
  pub chunks : List (ℕ × ℕ)

-- `max(limit - pos, 0)` and `max(size - outstanding, 0)` are differences that stop at 0.
unfoldable pub effective_size : PgetStatus → ℕ
effective_size status = status.size - sum_by (λ c. c.1 - c.0) status.chunks

abbrev pub same_flag : Bool → Bool → Bool
same_flag true b = b
same_flag false b = not b

-- The tests on the entry that is there already, each with its `continue`.
abbrev pub keeps_existing : Option LocalEntry → LocalEntry → Bool
keeps_existing none entry = false
keeps_existing (some existing) entry =
    (not existing.is_temp && entry.is_temp)
    || (same_flag existing.is_temp entry.is_temp && leb entry.size existing.size)

-- The end of the loop's body for a file, whose entry has the name without the suffix as its path.
unfoldable pub add_local_file : Dict LocalEntry → LocalEntry → Dict LocalEntry
add_local_file entries entry =
    if keeps_existing (lookup entry.rel_path entries) entry
    then entries
    else insert entry.rel_path entry entries

-- The files that a walk comes to, in its order.
unfoldable pub add_files : Dict LocalEntry → List LocalEntry → Dict LocalEntry
unfolding add_local_file
add_files entries [] = entries
add_files entries (file ∷ files) = add_files (add_local_file entries file) files
