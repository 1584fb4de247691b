-- ===== src/Jobs/Table.antt =====
-- Reading and writing single rows (backend/lftpweb/core/queue.py).
use lftpweb.Common.{
  ℕ, suc, String, Bool, true, ◌&&◌, not, Option, none, some, List, [], ◌∷◌, ◌++◌, ◌==◌, ltb,
  if◌then◌else◌, or_default, update, first, keep, is_some,
}
use lftpweb.Item.{ItemState}
use lftpweb.Flight.Sql.{JobState, queued, running, job_in}
use lftpweb.Scheduler.{Lane, main, small}
use lftpweb.Queue.Settings.{TransferSettings}
use lftpweb.Queue.Positions.{Arithmetic, position_between}
use lftpweb.Lftp.Output.{ErrorClass}
use lftpweb.Lftp.Command.{JobKind, mirror, pget}
use lftpweb.Jobs.Rows.{Job, ItemRow, RunningProcess, TransferQueue, SuppressedReason}

-- `_fetch_item`
unfoldable pub fetch_item : ℕ → List ItemRow → Option ItemRow
unfolding first
fetch_item id = first (λ i. i.id == id)

-- `_suppress_item`
unfoldable pub suppress_item : ℕ → SuppressedReason → ItemState → List ItemRow → List ItemRow
unfolding update
suppress_item id reason state =
    update (λ i. i.id == id)
      (λ i. record i {
        state = state;
        auto_queue_suppressed = true;
        suppressed_reason = some reason;
      })

-- `UPDATE item SET error_class = ?, error_detail = ? WHERE id = ?`
unfoldable pub set_error : ℕ → ErrorClass → String → List ItemRow → List ItemRow
unfolding update
set_error id class detail =
    update (λ i. i.id == id)
      (λ i. record i { error_class = some class; error_detail = some detail })

abbrev pub value_or_zero : Option ℕ → ℕ
value_or_zero = or_default 0

-- `_lane_for`
unfoldable pub lane_for : TransferSettings → ItemRow → Lane
lane_for settings item =
    let size = value_or_zero item.remote_size in
    if ltb 0 size && ltb size settings.small_item_threshold_bytes then small else main

abbrev pub kind_of : ItemRow → JobKind
kind_of item = if item.is_dir then mirror else pget

-- What `_insert_job` is given.
pub record NewJob (Position Fraction : Type 0) : Type 0 where
  pub item_id : ℕ
  pub kind : JobKind
  pub lane : Lane
  pub attempt : ℕ
  pub forced_rate_fraction : Option Fraction
  pub queued_at : ℕ
  pub queue_position : Option Position

abbrev larger : {Position : Type 0} → Arithmetic Position → Position → Option Position → Position
larger floats x none = x
larger floats x (some y) = if floats.before x y then y else x

module _ {Fraction : Type 0} where
  -- `self._running.get(job_id)`
  unfoldable pub running_process :
      ℕ → List (RunningProcess Fraction) → Option (RunningProcess Fraction)
  unfolding first
  running_process id = first (λ p. p.job_id == id)

  -- `del self._running[job_id]`
  unfoldable pub stop_tracking : ℕ → List (RunningProcess Fraction) → List (RunningProcess Fraction)
  unfolding keep
  stop_tracking id = keep (λ p. not (p.job_id == id))

abbrev pub runs_state : JobState → Bool
runs_state state = job_in state (running ∷ [])

module _ {Position Fraction : Type 0} where
  abbrev pub runs : Job Position Fraction → Bool
  runs j = runs_state j.state

  abbrev pub is_active : Job Position Fraction → Bool
  is_active job = job_in job.state (queued ∷ running ∷ [])

  abbrev pub waits : Job Position Fraction → Bool
  waits job = job_in job.state (queued ∷ [])

  -- `_fetch_job`
  unfoldable pub fetch_job : ℕ → List (Job Position Fraction) → Option (Job Position Fraction)
  unfolding first
  fetch_job id = first (λ j. j.id == id)

  -- `UPDATE job SET ... WHERE id = ?`
  unfoldable pub set_job :
      ℕ
      → (Job Position Fraction → Job Position Fraction)
      → List (Job Position Fraction)
      → List (Job Position Fraction)
  unfolding update
  set_job id change = update (λ j. j.id == id) change

  abbrev pub later_id : Job Position Fraction → Option ℕ → Option ℕ
  later_id job none = some job.id
  later_id job (some id) = some id

  -- `_active_job_id`, the greatest id: the rows stand in the order of their ids.
  unfoldable pub active_job_id : ℕ → List (Job Position Fraction) → Option ℕ
  active_job_id item_id [] = none
  active_job_id item_id (j ∷ js) =
      let later = active_job_id item_id js in
      if j.item_id == item_id && is_active j then later_id j later else later

  abbrev attempt_of : Option (Job Position Fraction) → ℕ
  attempt_of none = 1
  attempt_of (some job) = job.attempt

  -- `_current_attempt`
  unfoldable pub current_attempt : ℕ → List (Job Position Fraction) → ℕ
  unfolding fetch_job
  current_attempt id jobs = attempt_of (fetch_job id jobs)

  module _ (floats : Arithmetic Position) where
    -- `SELECT MAX(queue_position) ... WHERE state = 'queued'`
    unfoldable pub last_position : List (Job Position Fraction) → Option Position
    last_position [] = none
    last_position (j ∷ js) =
        let rest = last_position js in
        if waits j then some (larger floats j.queue_position rest) else rest

    -- The row that `_insert_job` writes; `queued_at` is the present where none is given.
    unfoldable pub new_job :
        NewJob Position Fraction → TransferQueue Position Fraction → Job Position Fraction
    unfolding position_between last_position
    new_job n s = record {
      id = s.next_id;
      item_id = n.item_id;
      kind = n.kind;
      state = queued;
      lane = n.lane;
      rank = 0;
      attempt = n.attempt;
      forced_full_rate = is_some n.forced_rate_fraction;
      forced_rate_fraction = n.forced_rate_fraction;
      queue_position =
          or_default (position_between floats (last_position s.jobs) none) n.queue_position;
      queued_at = n.queued_at;
      started_at = none;
      finished_at = none;
      dismissed_at = none;
      pid = none;
      exit_code = none;
      error_class = none;
      output_tail = none;
      rate_limit_bps = none;
      bytes_start = 0;
      bytes_done = 0;
      bytes_total = none;
    }

    -- `_insert_job`
    unfoldable pub insert_job :
        NewJob Position Fraction → TransferQueue Position Fraction → TransferQueue Position Fraction
    unfolding new_job
    insert_job n s = record s { jobs = s.jobs ++ (new_job n s ∷ []); next_id = suc s.next_id }
