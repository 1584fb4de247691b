-- ===== src/Flight/Sql.antt =====
-- The SQL expressions of backend/lftpweb/core/pipeline_flight.py and their value on a joined row,
-- in SQLite's three-valued logic.
use lftpweb.Common.{
  ℕ, Bool, true, false, not, Option, none, some, List, [], ◌∷◌, ◌==◌, ltb, ◌||◌, elem,
}
use lftpweb.Item.{item_code, ItemState, ArrStatus}

-- `job.state`
pub data JobState : Type 0 where
  queued running succeeded failed cancelled : JobState

-- The nullable columns that are tested by `IS NULL`.
pub data Column : Type 0 where
  manual_outcome remote_delete_pending remote_deleted_at : Column

-- A row of the join of `job`, `item`, `path_queue` and `arr_instance`. `enabled` is NULL for a
-- queue that is not bound; `age` is the age of `arr_status_at` in seconds, NULL where it is NULL or
-- unparseable; `present c` says that column `c` is not NULL.
pub record FlightRow : Type 0 where
  pub job_state : JobState
  pub item_id : ℕ
  pub item_state : ItemState
  pub arr_status : Option ArrStatus
  pub enabled : Option Bool
  pub age : Option ℕ
  pub present : Column → Bool

pub data Clause : Type 0 where
  zero_literal : Clause
  job_state_in : List JobState → Clause
  item_id_in : List ℕ → Clause
  item_state_is : ItemState → Clause
  enabled_is_one : Clause
  arr_status_in : List ArrStatus → Clause
  age_below : ℕ → Clause
  is_null is_not_null : Column → Clause
  both either : Clause → Clause → Clause
  negate : Clause → Clause
  or_zero : Clause → Clause

-- A numbering of the states, to compare them by.
abbrev pub job_code : JobState → ℕ
job_code queued = 0
job_code running = 1
job_code succeeded = 2
job_code failed = 3
job_code cancelled = 4

abbrev pub arr_code : ArrStatus → ℕ
arr_code ArrStatus.detected = 0
arr_code ArrStatus.notified = 1
arr_code ArrStatus.dropped = 2
arr_code ArrStatus.imported = 3
arr_code ArrStatus.cleaned = 4
arr_code ArrStatus.gone = 5

abbrev pub job_in : JobState → List JobState → Bool
job_in s [] = false
job_in s (t ∷ ts) = job_code s == job_code t || job_in s ts

abbrev pub arr_in : ArrStatus → List ArrStatus → Bool
arr_in s [] = false
arr_in s (t ∷ ts) = arr_code s == arr_code t || arr_in s ts

-- `AND`, `OR` and `NOT` with NULL.
abbrev pub and3 : Option Bool → Option Bool → Option Bool
and3 (some false) b = some false
and3 (some true) b = b
and3 none (some false) = some false
and3 none (some true) = none
and3 none none = none

abbrev pub or3 : Option Bool → Option Bool → Option Bool
or3 (some true) b = some true
or3 (some false) b = b
or3 none (some true) = some true
or3 none (some false) = none
or3 none none = none

abbrev pub not3 : Option Bool → Option Bool
not3 none = none
not3 (some b) = some (not b)

abbrev pub coalesce_false : Option Bool → Option Bool
coalesce_false none = some false
coalesce_false (some b) = some b

abbrev pub nullable_arr : Option ArrStatus → List ArrStatus → Option Bool
nullable_arr none ss = none
nullable_arr (some s) ss = some (arr_in s ss)

abbrev pub nullable_age : Option ℕ → ℕ → Option Bool
nullable_age none bound = none
nullable_age (some a) bound = some (ltb a bound)

unfoldable pub eval : Clause → FlightRow → Option Bool
eval zero_literal row = some false
eval (job_state_in ss) row = some (job_in row.job_state ss)
eval (item_id_in ids) row = some (elem row.item_id ids)
eval (item_state_is s) row = some (item_code row.item_state == item_code s)
eval enabled_is_one row = row.enabled
eval (arr_status_in ss) row = nullable_arr row.arr_status ss
eval (age_below bound) row = nullable_age row.age bound
eval (is_null c) row = some (not (row.present c))
eval (is_not_null c) row = some (row.present c)
eval (both a b) row = and3 (eval a row) (eval b row)
eval (either a b) row = or3 (eval a row) (eval b row)
eval (negate a) row = not3 (eval a row)
eval (or_zero a) row = coalesce_false (eval a row)

-- A `WHERE` or `WHEN` takes a row only if the condition is true.
abbrev pub holds : Option Bool → Bool
holds (some true) = true
holds _ = false
