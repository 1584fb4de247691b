-- ===== src/Engine/Protected.antt =====
-- `_protected_rel_paths` of backend/lftpweb/core/engine.py: the rows that a job, a worker or the
-- user owns, so that a scan leaves their state alone.
use lftpweb.Common.{ℕ, String, Bool, false, ◌&&◌, ◌||◌, not, none, some, List, elem, any}
use lftpweb.Common.Dict.{Dict, lookup}
use lftpweb.Common.Text.{descends}
use lftpweb.Item.{Item, is_cleaned}

-- Who is at work on the queue's items: the items with a queued or running job, and those that a
-- post-processing or a delete worker holds.
pub record Busy : Type 0 where
  pub active_jobs : List ℕ
  pub in_flight : List ℕ

abbrev pub Items : Type 0
Items = Dict Item

-- `EXISTS (... WHERE <parent is one of these> AND instr(item.rel_path, parent.rel_path || '/') = 1)`
unfoldable pub below_one_of : List ℕ → String → Items → Bool
below_one_of ids path items = any (λ entry. elem (entry.1).id ids && descends entry.0 path) items

unfoldable pub is_protected_row : Busy → Items → String → Item → Bool
is_protected_row busy items path item =
    (item.auto_queue_suppressed && not (is_cleaned item.arr_status))
    || (elem item.id busy.active_jobs
        || (below_one_of busy.active_jobs path items
            || (elem item.id busy.in_flight || below_one_of busy.in_flight path items)))

-- `rel_path in protected`
unfoldable pub is_protected : Busy → Items → String → Bool
is_protected busy items path = elim (lookup path items) [
  | none ↦ false
  | some item ↦ is_protected_row busy items path item
]
