-- ===== src/Jobs/Control.antt =====
-- Stopping, pausing and the site's throttle (backend/lftpweb/core/queue.py, `stop_job`, `stop_item`,
-- `pause`, `unpause`, `_clear_pause`, `_expire_pause_if_due`, `_pause_running_jobs`,
-- `set_site_bandwidth`). `exits id` is how the process of a job ends when it is told to.
use lftpweb.Common.{
  ℕ, Bool, true, false, not, Option, none, some, List, [], ◌∷◌, ◌==◌, ltb, min, length,
  if◌then◌else◌,
}
use lftpweb.Item.{stopped}
use lftpweb.Flight.Sql.{queued, cancelled, job_in}
use lftpweb.Queue.Positions.{Arithmetic}
use lftpweb.Queue.Settings.{save_transfer_settings}
use lftpweb.Jobs.Rows.{
  Job, RunningProcess, TransferQueue, user_stopped, Event, queue_paused, queue_unpaused,
  queue_pause_expired, queue_bandwidth_changed,
}
use lftpweb.Jobs.Table.{fetch_job, set_job, suppress_item, running_process, active_job_id}
use lftpweb.Jobs.Enqueue.{Answer, answered, refused, not_found, bandwidth_too_low}
use lftpweb.Jobs.Reap.{Exit, reap_one}

-- `BandwidthChangeOutcome`
pub record BandwidthChange : Type 0 where
  pub effective_bandwidth_bps : ℕ
  pub interrupted : ℕ
  pub skipped_because_paused : Bool

abbrev pub expired_by : ℕ → Option ℕ → Bool
expired_by now none = false
expired_by now (some deadline) = not (ltb now deadline)

module _ {Position Fraction : Type 0} where
  unfoldable pub clear_pause :
      Event → TransferQueue Position Fraction → TransferQueue Position Fraction
  clear_pause event s = record s {
    pause_setting = record { paused = false; paused_until = none };
    paused = false;
    paused_until = none;
    events = event ∷ s.events;
  }

  unfoldable pub unpause : TransferQueue Position Fraction → TransferQueue Position Fraction
  unfolding clear_pause
  unpause s = clear_pause queue_unpaused s

  -- `_expire_pause_if_due`
  unfoldable pub expire_pause_if_due :
      ℕ → TransferQueue Position Fraction → TransferQueue Position Fraction
  unfolding clear_pause
  expire_pause_if_due now s =
      if not s.paused
      then s
      else if expired_by now s.paused_until
      then clear_pause (queue_pause_expired s.paused_until) s
      else s

module _ {Position Fraction : Type 0} (floats : Arithmetic Position) (exits : ℕ → Exit) where
  -- A job that has not started is cancelled in the table.
  abbrev pub cancel_queued :
      Job Position Fraction → ℕ → TransferQueue Position Fraction → TransferQueue Position Fraction
  cancel_queued job now s =
      if job_in job.state (queued ∷ [])
      then record s {
        jobs = set_job job.id (λ j. record j { state = cancelled; finished_at = some now }) s.jobs;
        items = suppress_item job.item_id user_stopped stopped s.items;
      }
      else s

  abbrev pub stop_or_cancel :
      Job Position Fraction
      → Option (RunningProcess Fraction)
      → ℕ
      → TransferQueue Position Fraction
      → TransferQueue Position Fraction
  stop_or_cancel job none now s = cancel_queued job now s
  stop_or_cancel job (some proc) now s =
      reap_one floats (record proc { stop_requested = true }) (exits proc.job_id) s

  abbrev pub stop_found :
      Option (Job Position Fraction)
      → ℕ
      → TransferQueue Position Fraction
      → Answer Unit × TransferQueue Position Fraction
  stop_found none now s = (refused not_found, s)
  stop_found (some job) now s =
      (answered tt, stop_or_cancel job (running_process job.id s.running) now s)

  -- `stop_job`
  unfoldable pub stop_job :
      ℕ → ℕ → TransferQueue Position Fraction → Answer Unit × TransferQueue Position Fraction
  unfolding fetch_job set_job suppress_item running_process reap_one
  stop_job id now s = stop_found (fetch_job id s.jobs) now s

  abbrev pub stop_active :
      Option ℕ → ℕ → TransferQueue Position Fraction → Answer Bool × TransferQueue Position Fraction
  stop_active none now s = (answered false, s)
  stop_active (some id) now s = (answered true, (stop_job id now s).1)

  -- `stop_item`
  unfoldable pub stop_item :
      ℕ → ℕ → TransferQueue Position Fraction → Answer Bool × TransferQueue Position Fraction
  unfolding stop_job active_job_id
  stop_item item_id now s = stop_active (active_job_id item_id s.jobs) now s

  -- The loop of `_pause_running_jobs` over the processes that were running.
  unfoldable pub pause_each :
      List (RunningProcess Fraction)
      → TransferQueue Position Fraction
      → TransferQueue Position Fraction
  unfolding reap_one
  pause_each [] s = s
  pause_each (proc ∷ procs) s =
      pause_each procs
        (reap_one floats (record proc { pause_requested = true }) (exits proc.job_id) s)

  unfoldable pub pause_running_jobs :
      TransferQueue Position Fraction → TransferQueue Position Fraction
  unfolding pause_each
  pause_running_jobs s = pause_each s.running s

  -- `pause`; `deadline` is `now + duration_s` where a duration is given.
  unfoldable pub pause :
      Bool → Option ℕ → TransferQueue Position Fraction → TransferQueue Position Fraction
  unfolding pause_running_jobs
  pause stop_running deadline s =
      let t = record s {
        pause_setting = record { paused = true; paused_until = deadline };
        paused = true;
        paused_until = deadline;
        events = queue_paused stop_running deadline ∷ s.events;
      } in
      if stop_running then pause_running_jobs t else t

  abbrev pub with_throttle : ℕ → TransferQueue Position Fraction → TransferQueue Position Fraction
  with_throttle applied s = record s {
    settings =
        save_transfer_settings (record (s.settings) { throttle_bandwidth_bps = some applied });
  }

  abbrev pub noted : ℕ → ℕ → TransferQueue Position Fraction → TransferQueue Position Fraction
  noted applied interrupted s = record s {
    events = queue_bandwidth_changed applied interrupted ∷ s.events;
  }

  -- Running transfers go back to the queue, and nothing is admitted while they do.
  abbrev pub apply_to_running :
      ℕ → TransferQueue Position Fraction → Answer BandwidthChange × TransferQueue Position Fraction
  apply_to_running applied s =
      let interrupted = length s.running in
      (
        answered (record {
          effective_bandwidth_bps = applied;
          interrupted = interrupted;
          skipped_because_paused = false;
        }),
        noted applied interrupted
            (record (pause_running_jobs (record s { admission_hold = true })) {
              admission_hold = false;
            }),
      )

  abbrev pub throttled :
      Bool
      → ℕ
      → TransferQueue Position Fraction
      → Answer BandwidthChange × TransferQueue Position Fraction
  throttled to_running applied s =
      if not to_running
      then (
        answered (record {
          effective_bandwidth_bps = applied;
          interrupted = 0;
          skipped_because_paused = false;
        }),
        noted applied 0 s,
      )
      else if s.paused
      then (
        answered (record {
          effective_bandwidth_bps = applied;
          interrupted = 0;
          skipped_because_paused = true;
        }),
        noted applied 0 s,
      )
      else apply_to_running applied s

  -- `set_site_bandwidth`
  unfoldable pub set_site_bandwidth :
      ℕ
      → Bool
      → TransferQueue Position Fraction
      → Answer BandwidthChange × TransferQueue Position Fraction
  unfolding save_transfer_settings pause_running_jobs
  set_site_bandwidth bandwidth_bps to_running s =
      if bandwidth_bps == 0
      then (refused bandwidth_too_low, s)
      else if ltb bandwidth_bps s.settings.min_share_floor_bps
      then (refused bandwidth_too_low, s)
      else (let applied = min bandwidth_bps s.settings.max_bandwidth_bps in
          throttled to_running applied (with_throttle applied s))
