-- ===== src/Jobs/Reap/Ended.antt =====
-- Transfers that were stopped, paused or exited with 0 (backend/lftpweb/core/queue.py, `_reap_one`).
use lftpweb.Common.{
  ℕ, String, Bool, true, false, ◌&&◌, not, Option, none, some, List, ◌∷◌, ◌==◌, if◌then◌else◌,
  update,
}
use lftpweb.Common.Text.{has_slash}
use lftpweb.Common.Search.{last_chars}
use lftpweb.Item.{ItemState, partial, downloaded, remote_only, stopped}
use lftpweb.Flight.Sql.{queued, succeeded, cancelled}
use lftpweb.Queue.Positions.{Arithmetic}
use lftpweb.Lftp.Output.{output_tail_bytes}
use lftpweb.Jobs.Rows.{
  Job, ItemRow, RunningProcess, TransferQueue, ExitCode, exited, killed, user_stopped,
  paused_now_requeued, incomplete_on_exit_zero, settle_gate_held,
}
use lftpweb.Jobs.Table.{set_job, suppress_item, fetch_item}
use lftpweb.Jobs.Children.{flush_child_progress_final}
use lftpweb.Jobs.Completeness.{OnDisk, completeness_on_disk}

-- What the end of a process is read with: its code and output, both clocks, what the disk shows, and
-- what `_item_is_settled` answers. The monotonic clock is counted in seconds.
pub record Exit : Type 0 where
  pub code : ExitCode
  pub tail : String
  pub finished_at : ℕ
  pub retried_at : ℕ
  pub monotonic : ℕ
  pub disk : OnDisk
  pub settled : Bool

abbrev pub is_zero : ExitCode → Bool
is_zero (exited n) = n == 0
is_zero (killed n) = false

abbrev pub kept_tail : String → Option String
kept_tail tail = some (last_chars output_tail_bytes tail)

-- Where an item stands after a transfer that exited with 0, with the columns that are cleared.
unfoldable pub land : ℕ → (ItemRow → ItemRow) → List ItemRow → List ItemRow
unfolding update
land id change =
    update (λ i. i.id == id)
      (λ i. record (change i) {
        auto_queue_suppressed = false;
        suppressed_reason = none;
        error_class = none;
        error_detail = none;
      })

abbrev pub size_of_item : Option ItemRow → Option ℕ
size_of_item none = none
size_of_item (some item) = item.remote_size

abbrev pub bytes_of : Option ℕ → ℕ → ℕ
bytes_of none done = done
bytes_of (some size) done = size

module _ {Position Fraction : Type 0} (floats : Arithmetic Position) where
  -- `UPDATE job SET state = 'cancelled', ...` and the item, for a stop that was asked for.
  unfoldable pub reap_stopped :
      RunningProcess Fraction
      → Exit
      → TransferQueue Position Fraction
      → TransferQueue Position Fraction
  unfolding set_job suppress_item last_chars
  reap_stopped proc e s = record s {
    jobs =
        set_job proc.job_id
          (λ j. record j {
            state = cancelled;
            pid = none;
            exit_code = some e.code;
            output_tail = kept_tail e.tail;
            finished_at = some e.finished_at;
          })
          s.jobs;
    items = suppress_item proc.item_id user_stopped stopped s.items;
  }

  -- Back to the queue, at the same position, for a transfer that a pause has ended.
  unfoldable pub reap_paused :
      RunningProcess Fraction
      → Exit
      → TransferQueue Position Fraction
      → TransferQueue Position Fraction
  unfolding set_job update last_chars
  reap_paused proc e s = record s {
    jobs =
        set_job proc.job_id
          (λ j. record j {
            state = queued;
            pid = none;
            started_at = none;
            rate_limit_bps = none;
            forced_full_rate = false;
            forced_rate_fraction = none;
            output_tail = kept_tail e.tail;
          })
          s.jobs;
    items = update (λ i. i.id == proc.item_id) (λ i. record i { state = ItemState.queued }) s.items;
    events = paused_now_requeued proc.item_id proc.job_id ∷ s.events;
  }

  unfoldable pub finish_job :
      RunningProcess Fraction
      → Exit
      → List ItemRow
      → List (Job Position Fraction)
      → List (Job Position Fraction)
  unfolding set_job last_chars fetch_item
  finish_job proc e items = set_job proc.job_id (λ j. record j {
    state = succeeded;
    pid = none;
    exit_code = some (exited 0);
    output_tail = kept_tail e.tail;
    bytes_done = bytes_of (size_of_item (fetch_item j.item_id items)) j.bytes_done;
    finished_at = some e.finished_at;
  })

  -- The item after exit code 0: held back where bytes are missing or the remote side has not settled.
  unfoldable pub landed :
      Bool
      → Bool
      → RunningProcess Fraction
      → Exit
      → TransferQueue Position Fraction
      → TransferQueue Position Fraction
  unfolding land
  landed true false proc e s = record s {
    items =
        land proc.item_id
          (λ i. record i { state = partial; substate = none; local_size = some e.disk.local_bytes })
          s.items;
    events = incomplete_on_exit_zero proc.item_id proc.job_id ∷ s.events;
  }
  landed true true proc e s = record s {
    items =
        land proc.item_id
          (λ i. record i {
            state = downloaded;
            downloaded_at = some e.finished_at;
            substate = none;
          })
          s.items;
  }
  landed false complete proc e s = record s {
    items =
        land proc.item_id (λ i. record i { state = remote_only; substate = some "settling" })
          s.items;
    events = settle_gate_held proc.item_id ∷ s.events;
  }

  -- `self.postprocess.trigger(proc.item_id)`
  abbrev pub trigger_if :
      Bool → ℕ → TransferQueue Position Fraction → TransferQueue Position Fraction
  trigger_if wanted id s = if wanted then record s { triggered = id ∷ s.triggered } else s

  unfoldable pub reap_succeeded :
      RunningProcess Fraction
      → Exit
      → TransferQueue Position Fraction
      → TransferQueue Position Fraction
  unfolding finish_job landed completeness_on_disk flush_child_progress_final
  reap_succeeded proc e s =
      let flushed = flush_child_progress_final proc e.disk.files s.items in
      let top_level = not (has_slash proc.rel_path) in
      let settled = if top_level then e.settled else true in
      let complete = completeness_on_disk proc e.disk flushed in
      let t =
        landed settled complete proc e
          (record s { jobs = finish_job proc e s.items s.jobs; items = flushed }) in
      trigger_if (settled && complete && s.has_postprocess && top_level) proc.item_id t
