-- ===== src/Item.antt =====
-- The `item` table's row and its vocabulary (backend/lftpweb/migrations/001_initial_schema.sql and
-- later ones; the state sets of backend/lftpweb/core/postprocess.py and core/mount_sentinel.py).
use lftpweb.Common.{ℕ, String, Bool, true, false, Option, some}

-- `item.state`
pub data ItemState : Type 0 where
  remote_only queued downloading partial stopped downloaded excluded verifying verified corrupt
        extracting extracted extract_failed failed local_only removed_local removed_both removing :
      ItemState

-- `item.arr_status`
pub data ArrStatus : Type 0 where
  detected notified dropped imported cleaned gone : ArrStatus

-- A numbering of the states, to compare them by.
abbrev pub item_code : ItemState → ℕ
item_code remote_only = 0
item_code queued = 1
item_code downloading = 2
item_code partial = 3
item_code stopped = 4
item_code downloaded = 5
item_code excluded = 6
item_code verifying = 7
item_code verified = 8
item_code corrupt = 9
item_code extracting = 10
item_code extracted = 11
item_code extract_failed = 12
item_code failed = 13
item_code local_only = 14
item_code removed_local = 15
item_code removed_both = 16
item_code removing = 17

-- postprocess.py: `TERMINAL_STATES`
abbrev pub is_terminal : ItemState → Bool
is_terminal verified = true
is_terminal corrupt = true
is_terminal extracted = true
is_terminal extract_failed = true
is_terminal _ = false

-- mount_sentinel.py: `COMPLETE_STATES`, which is `DOWNLOADED` and postprocess.py's `OWNED_STATES`
abbrev pub is_complete : ItemState → Bool
is_complete downloaded = true
is_complete verifying = true
is_complete verified = true
is_complete corrupt = true
is_complete extracting = true
is_complete extracted = true
is_complete extract_failed = true
is_complete _ = false

abbrev pub is_removed_local : ItemState → Bool
is_removed_local removed_local = true
is_removed_local _ = false

-- engine.py: `_TERMINAL_REMOVED_STATES`
abbrev pub is_removed : ItemState → Bool
is_removed removed_local = true
is_removed removed_both = true
is_removed _ = false

-- engine.py: `_TRANSIENT_ACTIVE_STATES`
abbrev pub is_transient_active : ItemState → Bool
is_transient_active downloading = true
is_transient_active verifying = true
is_transient_active extracting = true
is_transient_active _ = false

abbrev pub is_remote_only : ItemState → Bool
is_remote_only remote_only = true
is_remote_only _ = false

abbrev pub is_downloaded : ItemState → Bool
is_downloaded downloaded = true
is_downloaded _ = false

abbrev pub is_local_only : ItemState → Bool
is_local_only local_only = true
is_local_only _ = false

abbrev pub is_partial : ItemState → Bool
is_partial partial = true
is_partial _ = false

abbrev pub is_cleaned : Option ArrStatus → Bool
is_cleaned (some cleaned) = true
is_cleaned _ = false

-- A row, without the columns that no function of this library reads or writes. Stored timestamps
-- are counted in microseconds.
pub record Item : Type 0 where
  pub id : ℕ
  pub is_dir : Bool
  pub remote_size : Option ℕ
  pub local_size : Option ℕ
  pub remote_mtime : Option ℕ
  pub local_mtime : Option ℕ
  pub state : ItemState
  pub substate : Option String
  pub first_missing_at : Option ℕ
  pub downloaded_at : Option ℕ
  pub remote_deleted_at : Option ℕ
  pub arr_status : Option ArrStatus
  pub auto_queue_suppressed : Bool
