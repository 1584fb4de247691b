-- ===== src/Jobs/Reap.antt =====
-- The end of a transfer (backend/lftpweb/core/queue.py, `_reap_one`): its job and its item by the way
-- it ended, and the next attempt.
pub mod Ended
pub use lftpweb.Jobs.Reap.Ended.{Exit, is_zero, kept_tail, size_of_item, bytes_of, trigger_if}
unfoldable pub use lftpweb.Jobs.Reap.Ended.{
  land, reap_stopped, reap_paused, finish_job, landed, reap_succeeded,
}
use lftpweb.Common.{
  ℕ, ◌+◌, ◌-◌, ◌*◌, ◌^◌, min, Bool, true, false, ◌&&◌, none, some, List, ◌∷◌, ◌==◌, ltb,
  if◌then◌else◌, update, is_some,
}
use lftpweb.Common.Search.{last_chars}
use lftpweb.Item.{ItemState}
use lftpweb.Flight.Sql.{queued, failed}
use lftpweb.Queue.Positions.{Arithmetic}
use lftpweb.Lftp.Output.{
  ErrorClass, auth_failed, permission_denied, remote_gone, disk_full, is_transient, classify_output,
}
use lftpweb.Jobs.Rows.{
  Job, RunningProcess, TransferQueue, retries_exhausted, permanent_error, SuppressedReason,
}
use lftpweb.Jobs.Table.{
  NewJob, insert_job, set_job, suppress_item, set_error, current_attempt, running_process,
  stop_tracking,
}
use lftpweb.Jobs.Enqueue.{forget_backoff}

-- `compute_retry_backoff` in seconds, for an attempt from 1 on; the maximum is a quarter of an hour.
unfoldable pub compute_retry_backoff : ℕ → ℕ → ℕ
compute_retry_backoff base attempt = min (base * 2 ^ (attempt - 1)) 900

-- `PERMANENT_ERROR_CLASSES`
abbrev pub is_permanent : ErrorClass → Bool
is_permanent auth_failed = true
is_permanent permission_denied = true
is_permanent remote_gone = true
is_permanent disk_full = true
is_permanent _ = false

abbrev reason_for : ErrorClass → SuppressedReason
reason_for class = if is_permanent class then permanent_error else retries_exhausted

module _ {Position Fraction : Type 0} (floats : Arithmetic Position) where
  abbrev pub failed_as : Exit → ErrorClass → Job Position Fraction → Job Position Fraction
  failed_as e class j = record j {
    state = failed;
    pid = none;
    exit_code = some e.code;
    error_class = some class;
    output_tail = kept_tail e.tail;
    finished_at = some e.finished_at;
  }

  unfoldable pub fail_row :
      RunningProcess Fraction
      → Exit
      → ErrorClass
      → List (Job Position Fraction)
      → List (Job Position Fraction)
  unfolding set_job last_chars
  fail_row proc e class = set_job proc.job_id (failed_as e class)

  abbrev pub next_attempt : RunningProcess Fraction → Exit → ℕ → NewJob Position Fraction
  next_attempt proc e attempt = record {
    item_id = proc.item_id;
    kind = proc.kind;
    lane = proc.lane;
    attempt = attempt + 1;
    forced_rate_fraction = none;
    queued_at = e.retried_at;
    queue_position = none;
  }

  -- The next attempt, in the queue's last place, after a pause that doubles.
  unfoldable pub retry :
      RunningProcess Fraction
      → Exit
      → ErrorClass
      → ℕ
      → TransferQueue Position Fraction
      → TransferQueue Position Fraction
  unfolding insert_job set_error update compute_retry_backoff forget_backoff
  retry proc e class attempt s =
      let t = insert_job floats (next_attempt proc e attempt) s in
      record t {
        backoff_until =
            (
              proc.item_id,
              e.monotonic + compute_retry_backoff s.settings.retry_backoff_base_s attempt,
            )
            ∷ forget_backoff proc.item_id s.backoff_until;
        items = set_error proc.item_id class (last_chars 2000 e.tail) (
            update (λ i. i.id == proc.item_id) (λ i. record i { state = ItemState.queued })
              s.items);
      }

  unfoldable pub give_up :
      RunningProcess Fraction
      → Exit
      → ErrorClass
      → TransferQueue Position Fraction
      → TransferQueue Position Fraction
  unfolding suppress_item set_error last_chars
  give_up proc e class s = record s {
    items =
        suppress_item proc.item_id (reason_for class) ItemState.failed
          (set_error proc.item_id class (last_chars 2000 e.tail) s.items);
  }

  unfoldable pub can_retry : ErrorClass → ℕ → TransferQueue Position Fraction → Bool
  can_retry class attempt s = is_transient class && ltb attempt s.settings.max_attempts

  unfoldable pub reap_failed :
      RunningProcess Fraction
      → Exit
      → TransferQueue Position Fraction
      → TransferQueue Position Fraction
  unfolding classify_output fail_row current_attempt can_retry retry give_up
  reap_failed proc e s =
      let class = classify_output e.tail in
      let t = record s { jobs = fail_row proc e class s.jobs } in
      let attempt = current_attempt proc.job_id t.jobs in
      if can_retry class attempt t then retry proc e class attempt t else give_up proc e class t

  abbrev pub reap_by_exit :
      Bool
      → RunningProcess Fraction
      → Exit
      → TransferQueue Position Fraction
      → TransferQueue Position Fraction
  reap_by_exit zero_exit proc e s =
      if zero_exit then reap_succeeded floats proc e s else reap_failed proc e s

  abbrev pub reap_tracked :
      RunningProcess Fraction
      → Exit
      → TransferQueue Position Fraction
      → TransferQueue Position Fraction
  reap_tracked proc e s =
      if proc.stop_requested
      then reap_stopped floats proc e s
      else if proc.pause_requested
      then reap_paused floats proc e s
      else reap_by_exit (is_zero e.code) proc e s

  -- `_reap_one`, for a process that has exited.
  unfoldable pub reap_one :
      RunningProcess Fraction
      → Exit
      → TransferQueue Position Fraction
      → TransferQueue Position Fraction
  unfolding running_process stop_tracking reap_stopped reap_paused reap_succeeded reap_failed
  reap_one proc e s =
      if is_some (running_process proc.job_id s.running)
      then reap_tracked proc e (record s { running = stop_tracking proc.job_id s.running })
      else s
