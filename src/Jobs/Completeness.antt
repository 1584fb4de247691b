-- ===== src/Jobs/Completeness.antt =====
-- What is on disk after lftp exits with 0, and what should be (backend/lftpweb/core/queue.py,
-- `_completeness_on_disk`, `_relevant_remote_total`, `_item_is_settled`).
use Prim.Native.Char.{code}
use lftpweb.Common.{
  ℕ, String, Bool, true, false, ◌&&◌, not, Option, List, [], ◌∷◌, ◌==◌, leb, if◌then◌else◌, keep,
  sum_by,
}
use lftpweb.Common.Search.{lower_char}
use lftpweb.Common.Stamp.{Stamps}
use lftpweb.Common.Text.{slash}
use lftpweb.Item.{ItemState, excluded}
use lftpweb.Settle.Store.{Table, is_settled_in_db}
use lftpweb.Lftp.Command.{JobKind, mirror, pget}
use lftpweb.Jobs.Rows.{ItemRow, RunningProcess}
use lftpweb.Jobs.Table.{value_or_zero}

-- `rel_path LIKE 'parent/%'`: SQLite's `LIKE` takes the letters of ASCII without their case.
unfoldable pub like_below : String → String → Bool
unfolding lower_char
like_below String.[] String.[] = false
like_below String.[] (String.◌∷◌ c s) = code c == slash
like_below (String.◌∷◌ p ps) String.[] = false
like_below (String.◌∷◌ p ps) (String.◌∷◌ c s) =
    lower_char (code p) == lower_char (code c) && like_below ps s

abbrev pub is_excluded : ItemState → Bool
is_excluded excluded = true
is_excluded _ = false

abbrev pub total_of : Option ℕ → List ItemRow → ℕ
total_of bytes_total [] = value_or_zero bytes_total
total_of bytes_total (i ∷ is) =
    sum_by (λ j. value_or_zero j.remote_size) (keep (λ j. not (is_excluded j.state)) (i ∷ is))

-- What the file system shows of a transfer: the temporary files and the sidecars that are left,
-- the bytes that count as there, and the files below the item with their paths and sizes, as
-- `scan_local` lists them before.
pub record OnDisk : Type 0 where
  pub files : List (String × ℕ)
  pub evidence : List String
  pub local_bytes : ℕ

abbrev pub is_empty : List String → Bool
is_empty [] = true
is_empty (e ∷ es) = false

module _ {Fraction : Type 0} where
  -- `_relevant_remote_total`
  unfoldable pub relevant_remote_total : RunningProcess Fraction → List ItemRow → ℕ
  unfolding like_below keep sum_by
  relevant_remote_total proc items = total_of proc.bytes_total (
      keep (λ i. i.queue_id == proc.queue_id && not i.is_dir && like_below proc.rel_path i.rel_path)
        items)

  abbrev pub expected_bytes : JobKind → RunningProcess Fraction → List ItemRow → ℕ
  expected_bytes pget proc items = value_or_zero proc.bytes_total
  expected_bytes mirror proc items = relevant_remote_total proc items

  -- `_completeness_on_disk`
  unfoldable pub completeness_on_disk : RunningProcess Fraction → OnDisk → List ItemRow → Bool
  unfolding relevant_remote_total
  completeness_on_disk proc disk items =
      is_empty disk.evidence && leb (expected_bytes proc.kind proc items) disk.local_bytes

-- `_item_is_settled`
unfoldable pub item_is_settled : Stamps → Bool → Table → ℕ → ℕ → String → Bool
unfolding is_settled_in_db
item_is_settled st enabled table now queue_id rel_path =
    if not enabled then true else is_settled_in_db st queue_id rel_path table now
