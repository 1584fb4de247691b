-- ===== src/Jobs/Rows.antt =====
-- The rows of the tables `job` and `item` that the transfer queue reads and writes, the processes
-- it runs, and its state (backend/lftpweb/core/queue.py).
use lftpweb.Common.{ℕ, String, Bool, Option, List}
use lftpweb.Item.{ItemState}
use lftpweb.Flight.Sql.{JobState}
use lftpweb.Scheduler.{Lane}
use lftpweb.Queue.Settings.{TransferSettings}
use lftpweb.Lftp.Output.{ErrorClass}
use lftpweb.Lftp.Command.{JobKind}

-- A process's return code: its exit status, or the signal that ended it.
pub data ExitCode : Type 0 where
  exited killed : ℕ → ExitCode

-- `item.suppressed_reason`
pub data SuppressedReason : Type 0 where
  user_stopped retries_exhausted permanent_error : SuppressedReason

-- A row of `job`.
pub record Job (Position Fraction : Type 0) : Type 0 where
  pub id : ℕ
  pub item_id : ℕ
  pub kind : JobKind
  pub state : JobState
  pub lane : Lane
  pub rank : ℕ
  pub attempt : ℕ
  pub forced_full_rate : Bool
  pub forced_rate_fraction : Option Fraction
  pub queue_position : Position
  pub queued_at : ℕ
  pub started_at : Option ℕ
  pub finished_at : Option ℕ
  pub dismissed_at : Option ℕ
  pub pid : Option ℕ
  pub exit_code : Option ExitCode
  pub error_class : Option ErrorClass
  pub output_tail : Option String
  pub rate_limit_bps : Option ℕ
  pub bytes_start : ℕ
  pub bytes_done : ℕ
  pub bytes_total : Option ℕ

-- A row of `item`, with the columns that the transfer queue uses.
pub record ItemRow : Type 0 where
  pub id : ℕ
  pub queue_id : ℕ
  pub rel_path : String
  pub is_dir : Bool
  pub state : ItemState
  pub substate : Option String
  pub remote_size : Option ℕ
  pub local_size : Option ℕ
  pub downloaded_at : Option ℕ
  pub auto_queue_suppressed : Bool
  pub suppressed_reason : Option SuppressedReason
  pub error_class : Option ErrorClass
  pub error_detail : Option String
  pub pending_download_prefix : Option String

-- A row of `path_queue`, with the columns that the transfer queue uses.
pub record QueueRow : Type 0 where
  pub id : ℕ
  pub remote_path : String
  pub local_path : String
  pub download_prefix_enabled : Option Bool
  pub download_prefix : Option String

-- `_RunningProcess`
pub record RunningProcess (Fraction : Type 0) : Type 0 where
  pub job_id : ℕ
  pub item_id : ℕ
  pub queue_id : ℕ
  pub rel_path : String
  pub is_dir : Bool
  pub kind : JobKind
  pub lane : Lane
  pub rate_limit_bps : ℕ
  pub forced_rate_fraction : Option Fraction
  pub local_root : String
  pub bytes_total : Option ℕ
  pub bytes_start : ℕ
  pub stop_requested : Bool
  pub pause_requested : Bool

-- `QueuePauseState`, the row of `setting` that outlives a restart.
pub record QueuePauseState : Type 0 where
  pub paused : Bool
  pub paused_until : Option ℕ

-- What the queue writes into the audit log, with the ids of the item and the job.
pub data Event : Type 0 where
  paused_now_requeued incomplete_on_exit_zero : ℕ → ℕ → Event
  settle_gate_held : ℕ → Event
  queue_paused : Bool → Option ℕ → Event
  queue_unpaused : Event
  queue_pause_expired : Option ℕ → Event
  queue_bandwidth_changed : ℕ → ℕ → Event
  interrupted_requeued : ℕ → ℕ → Bool → Event
  interrupted_requeue_gated : ℕ → Event

-- The tables and what the object holds in memory. `next_id` is the id of the next row of `job`;
-- `backoff_until` pairs items with times of the monotonic clock; `events` and `triggered` list the
-- audit events and the items that were handed to post-processing, the latest first.
pub record TransferQueue (Position Fraction : Type 0) : Type 0 where
  pub jobs : List (Job Position Fraction)
  pub next_id : ℕ
  pub items : List ItemRow
  pub queues : List QueueRow
  pub settings : TransferSettings
  pub pause_setting : QueuePauseState
  pub running : List (RunningProcess Fraction)
  pub backoff_until : List (ℕ × ℕ)
  pub paused : Bool
  pub paused_until : Option ℕ
  pub admission_hold : Bool
  pub has_postprocess : Bool
  pub events : List Event
  pub triggered : List ℕ
