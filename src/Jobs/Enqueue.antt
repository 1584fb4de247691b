-- ===== src/Jobs/Enqueue.antt =====
-- Putting items into the queue and dismissing what has ended (backend/lftpweb/core/queue.py,
-- `enqueue_item`, `retry_item`, `dismiss_job`, `start_now`).
use lftpweb.Common.{
  ℕ, Bool, true, false, ◌&&◌, not, Option, none, some, List, [], ◌∷◌, ◌==◌, if◌then◌else◌, update,
  keep, leb,
}
use lftpweb.Item.{ItemState}
use lftpweb.Flight.Sql.{JobState, queued, succeeded, failed, cancelled, job_in}
use lftpweb.Queue.Positions.{Arithmetic}
use lftpweb.Queue.Settings.{effective_bandwidth_bps}
use lftpweb.Jobs.Rows.{Job, ItemRow, TransferQueue}
use lftpweb.Jobs.Table.{
  NewJob, insert_job, fetch_item, fetch_job, set_job, active_job_id, lane_for, kind_of,
}

-- What a call raises: `ValueError`, `JobNotDismissableError`, `QueuePausedError`,
-- `NoSiteLimitConfiguredError`, `SiteBandwidthTooLowError`.
pub data Refusal : Type 0 where
  not_found not_dismissable queue_is_paused no_site_limit bandwidth_too_low : Refusal

pub data Answer (A : Type 0) : Type 0 where
  refused : Refusal → Answer A
  answered : A → Answer A

-- `UPDATE item SET state = 'QUEUED', ...` of `enqueue_item`
unfoldable pub mark_queued : ℕ → List ItemRow → List ItemRow
unfolding update
mark_queued id =
    update (λ i. i.id == id)
      (λ i. record i {
        state = ItemState.queued;
        auto_queue_suppressed = false;
        suppressed_reason = none;
        error_class = none;
        error_detail = none;
      })

-- `self._backoff_until.pop(item_id, None)`
unfoldable pub forget_backoff : ℕ → List (ℕ × ℕ) → List (ℕ × ℕ)
unfolding keep
forget_backoff id = keep (λ e. not (e.0 == id))

abbrev pub has_ended : JobState → Bool
has_ended state = job_in state (failed ∷ cancelled ∷ succeeded ∷ [])

-- `percent n` is `n / 100.0`, and `1.0` for 100.
module _ {Position Fraction : Type 0} (floats : Arithmetic Position) (percent : ℕ → Fraction) where
  abbrev full_rate : Bool → Option Fraction
  full_rate forced = if forced then some (percent 100) else none

  -- What `_insert_job` is given for a request.
  abbrev pub first_attempt :
      ItemRow
      → Bool
      → ℕ
      → Option Position
      → TransferQueue Position Fraction
      → NewJob Position Fraction
  first_attempt item forced queued_at position s = record {
    item_id = item.id;
    kind = kind_of item;
    lane = lane_for s.settings item;
    attempt = 1;
    forced_rate_fraction = full_rate forced;
    queued_at = queued_at;
    queue_position = position;
  }

  -- The state after a job is inserted for an item that has no active one.
  unfoldable pub enqueue_new :
      ItemRow
      → Bool
      → ℕ
      → Option Position
      → TransferQueue Position Fraction
      → TransferQueue Position Fraction
  unfolding insert_job mark_queued forget_backoff lane_for
  enqueue_new item forced queued_at position s =
      let t = insert_job floats (first_attempt item forced queued_at position s) s in
      record t {
        items = mark_queued item.id s.items;
        backoff_until = forget_backoff item.id s.backoff_until;
      }

  abbrev pub enqueue_unless :
      Option ℕ
      → ItemRow
      → Bool
      → ℕ
      → Option Position
      → TransferQueue Position Fraction
      → Answer ℕ × TransferQueue Position Fraction
  enqueue_unless (some existing) item forced queued_at position s = (answered existing, s)
  enqueue_unless none item forced queued_at position s =
      (answered s.next_id, enqueue_new item forced queued_at position s)

  abbrev pub enqueue_found :
      Option ItemRow
      → Bool
      → ℕ
      → Option Position
      → TransferQueue Position Fraction
      → Answer ℕ × TransferQueue Position Fraction
  enqueue_found none forced queued_at position s = (refused not_found, s)
  enqueue_found (some item) forced queued_at position s =
      enqueue_unless (active_job_id item.id s.jobs) item forced queued_at position s

  -- `enqueue_item`; `queued_at` is the present for a new request.
  unfoldable pub enqueue_item :
      ℕ
      → Bool
      → ℕ
      → Option Position
      → TransferQueue Position Fraction
      → Answer ℕ × TransferQueue Position Fraction
  unfolding fetch_item active_job_id enqueue_new
  enqueue_item id forced queued_at position s =
      enqueue_found (fetch_item id s.items) forced queued_at position s

  -- `retry_item`
  unfoldable pub retry_item :
      ℕ → ℕ → TransferQueue Position Fraction → Answer ℕ × TransferQueue Position Fraction
  unfolding enqueue_item
  retry_item id now s = enqueue_item id false now none s

  -- `busy` is what `item_pipeline_busy` answers for the job's item.
  abbrev pub dismiss_found :
      Option (Job Position Fraction)
      → (ℕ → Bool)
      → ℕ
      → TransferQueue Position Fraction
      → Answer Unit × TransferQueue Position Fraction
  dismiss_found none busy now s = (refused not_found, s)
  dismiss_found (some job) busy now s =
      if not (has_ended job.state)
      then (refused not_dismissable, s)
      else if busy job.item_id
      then (refused not_dismissable, s)
      else (
        answered tt,
        record s { jobs = set_job job.id (λ j. record j { dismissed_at = some now }) s.jobs },
      )

  -- `dismiss_job`
  unfoldable pub dismiss_job :
      ℕ
      → (ℕ → Bool)
      → ℕ
      → TransferQueue Position Fraction
      → Answer Unit × TransferQueue Position Fraction
  unfolding fetch_job set_job
  dismiss_job id busy now s = dismiss_found (fetch_job id s.jobs) busy now s

  -- `rate_percent or 100`
  abbrev pub chosen_percent : Option ℕ → ℕ
  chosen_percent none = 100
  chosen_percent (some p) = if p == 0 then 100 else p

  unfoldable pub force_job :
      ℕ → ℕ → TransferQueue Position Fraction → TransferQueue Position Fraction
  unfolding set_job
  force_job id p s = record s {
    jobs =
        set_job id
          (λ j. record j { forced_full_rate = true; forced_rate_fraction = some (percent p) })
          s.jobs;
  }

  abbrev pub start_found :
      Option (Job Position Fraction)
      → ℕ
      → TransferQueue Position Fraction
      → Answer Bool × TransferQueue Position Fraction
  start_found none p s = (answered false, s)
  start_found (some job) p s =
      if not (job_in job.state (queued ∷ []))
      then (answered false, s)
      else if not (p == 100) && leb (effective_bandwidth_bps s.settings) 0
      then (refused no_site_limit, s)
      else (answered true, force_job job.id p s)

  -- `start_now`
  unfoldable pub start_now :
      ℕ → Option ℕ → TransferQueue Position Fraction → Answer Bool × TransferQueue Position Fraction
  unfolding fetch_job force_job effective_bandwidth_bps
  start_now id rate_percent s =
      if s.paused
      then (refused queue_is_paused, s)
      else start_found (fetch_job id s.jobs) (chosen_percent rate_percent) s
