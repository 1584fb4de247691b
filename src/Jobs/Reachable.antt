-- ===== src/Jobs/Reachable.antt =====
-- The states that the transfer queue can come to (backend/lftpweb/core/queue.py): a step is a handler
-- that runs to its end, which no other handler interrupts, and the process may be killed between two steps and started again.
use lftpweb.Common.{
  ℕ, ◌≤◌, ◌<◌, ◌≡◌, refl, ap, sym, subst, All, String, Bool, true, false, Option, none, some, List,
  [], ◌∷◌, arith, count, leb, ◌==◌, not, ◌&&◌,
}
use lftpweb.Flight.Sql.{job_in, queued, running}
use lftpweb.Queue.Positions.{Arithmetic}
use lftpweb.Queue.Settings.{TransferSettings, effective_bandwidth_bps}
use lftpweb.Jobs.Rows.{Job, ItemRow, QueueRow, RunningProcess, TransferQueue}
use lftpweb.Jobs.Table.{fetch_job, set_job}
use lftpweb.Jobs.Enqueue.{
  enqueue_item, start_now, dismiss_job, start_found, dismiss_found, force_job, chosen_percent,
  has_ended,
}
use lftpweb.Jobs.Reap.{Exit, reap_one}
use lftpweb.Jobs.Control.{
  stop_job, pause, unpause, clear_pause, expire_pause_if_due, expired_by, set_site_bandwidth,
}
use lftpweb.Jobs.Admit.{World}
use lftpweb.Jobs.Spawn.{admit_jobs}
use lftpweb.Jobs.Startup.{start}
use lftpweb.Jobs.Sound.{
  Sound, SoundTable, Plain, active_for, runs_as, set_job-kept, set_job-Backed_kept,
}
use lftpweb.Jobs.Steps.{enqueue_item-Sound}
use lftpweb.Jobs.Ending.{Tracks, reap_one-Sound, both_branches_Sound, both_answers_Sound}
use lftpweb.Jobs.Stopping.{stop_job-Sound, pause-Sound, set_site_bandwidth-Sound}
use lftpweb.Jobs.Admitting.{admit_jobs-Sound}
use lftpweb.Jobs.Restart.{Idle, start-Sound}

module _ {Position Fraction : Type 0} (floats : Arithmetic Position) (percent : ℕ → Fraction) where
  abbrev moved : Position → ℕ → Job Position Fraction → Job Position Fraction
  moved position rank j = record j { queue_position = position; rank = rank }

  -- A handler that runs to its end, with what it is given. `admit` is a whole pass of `_admit`; `reap`
  -- is the end of a process that is tracked under its own job.
  pub data Step : TransferQueue Position Fraction → TransferQueue Position Fraction → Type 0 where
    enqueue :
        {s : TransferQueue Position Fraction} (id : ℕ) (forced : Bool) (queued_at : ℕ)
        (position : Option Position)
        → Step s (enqueue_item floats percent id forced queued_at position s).1
    reap :
        {s : TransferQueue Position Fraction} (proc : RunningProcess Fraction) (e : Exit)
        → Tracks proc s.running
        → Step s (reap_one floats proc e s)
    stop :
        {s : TransferQueue Position Fraction} (exits : ℕ → Exit) (id now : ℕ)
        → Step s (stop_job floats exits id now s).1
    pause_queue :
        {s : TransferQueue Position Fraction} (exits : ℕ → Exit) (stop_running : Bool)
        (deadline : Option ℕ)
        → Step s (pause floats exits stop_running deadline s)
    unpause_queue : {s : TransferQueue Position Fraction} → Step s (unpause s)
    expire_pause :
        {s : TransferQueue Position Fraction} (now : ℕ) → Step s (expire_pause_if_due now s)
    throttle :
        {s : TransferQueue Position Fraction} (exits : ℕ → Exit) (bandwidth : ℕ) (to_running : Bool)
        → Step s (set_site_bandwidth floats exits bandwidth to_running s).1
    force :
        {s : TransferQueue Position Fraction} (id : ℕ) (rate_percent : Option ℕ)
        → Step s (start_now floats percent id rate_percent s).1
    dismiss :
        {s : TransferQueue Position Fraction} (id : ℕ) (busy : ℕ → Bool) (now : ℕ)
        → Step s (dismiss_job floats percent id busy now s).1
    admit :
        {s : TransferQueue Position Fraction} (world : World) (scaled : Fraction → ℕ → ℕ)
        (tenth : ℕ → ℕ) (full : Fraction)
        → Step s (admit_jobs world floats scaled tenth full s)
    -- The updates of `move_to_top`, `move_job` and `_renormalize_queue_positions`.
    move :
        {s : TransferQueue Position Fraction} (id : ℕ) (position : Position) (rank : ℕ)
        → Step s (record s { jobs = set_job id (moved position rank) s.jobs })
    -- The other parts of the program write these tables.
    elsewhere :
        {s : TransferQueue Position Fraction} (items : List ItemRow) (queues : List QueueRow)
        (settings : TransferSettings)
        → Step s (record s { items = items; queues = queues; settings = settings })

  -- What is left after the process was killed: the tables.
  abbrev pub killed_process : TransferQueue Position Fraction → TransferQueue Position Fraction
  killed_process s = record s {
    running = [];
    backoff_until = [];
    paused = false;
    paused_until = none;
    admission_hold = false;
    triggered = [];
  }

  -- A start on an empty job table, and what follows it by steps and by restarts.
  pub data Reachable : TransferQueue Position Fraction → Type 0 where
    first_start :
        (mounted : String → Bool) (prefixed : QueueRow → ItemRow → Bool) (now : ℕ)
        (s : TransferQueue Position Fraction)
        → s.jobs ≡ []
        → s.running ≡ []
        → Reachable (start floats percent mounted prefixed now s)
    step : {s t : TransferQueue Position Fraction} → Reachable s → Step s t → Reachable t
    restart :
        {s : TransferQueue Position Fraction} (mounted : String → Bool)
        (prefixed : QueueRow → ItemRow → Bool) (now : ℕ)
        → Reachable s
        → Reachable (start floats percent mounted prefixed now (killed_process s))

  -- A change of one row that leaves its id, its item and its state.
  set_job-Sound :
      (id : ℕ) (change : Job Position Fraction → Job Position Fraction)
      (s : TransferQueue Position Fraction)
      → Plain change
      → ((j : Job Position Fraction) → (change j).state ≡ j.state)
      → Sound s
      → Sound (record s { jobs = set_job id change s.jobs })
  set_job-Sound id change s plain same k = record {
    table =
        set_job-kept id change plain s.jobs s.next_id
          (λ j. ap (λ t. job_in t (queued ∷ running ∷ [])) (same j)) k.table;
    backed = set_job-Backed_kept id change plain s.jobs s.running same k.backed;
  }

  start_found-Sound :
      (j : Option (Job Position Fraction)) (p : ℕ) (s : TransferQueue Position Fraction)
      → Sound s
      → Sound (start_found floats percent j p s).1
  unfolding force_job
  start_found-Sound none p s k = k
  start_found-Sound (some job) p s k =
      both_answers_Sound (not (job_in job.state (queued ∷ []))) _ _ k (
        both_answers_Sound (not (p == 100) && leb (effective_bandwidth_bps s.settings) 0) _ _ k (
          set_job-Sound job.id
            (λ j. record j { forced_full_rate = true; forced_rate_fraction = some (percent p) }) s
            (record { same_id = λ j. refl; same_item = λ j. refl }) (λ j. refl) k))

  start_now-Sound :
      (id : ℕ) (rate_percent : Option ℕ) (s : TransferQueue Position Fraction)
      → Sound s
      → Sound (start_now floats percent id rate_percent s).1
  unfolding start_now
  start_now-Sound id rate_percent s k =
      both_answers_Sound s.paused _ _ k
        (start_found-Sound (fetch_job id s.jobs) (chosen_percent floats percent rate_percent) s k)

  dismiss_found-Sound :
      (j : Option (Job Position Fraction)) (busy : ℕ → Bool) (now : ℕ)
      (s : TransferQueue Position Fraction)
      → Sound s
      → Sound (dismiss_found floats percent j busy now s).1
  dismiss_found-Sound none busy now s k = k
  dismiss_found-Sound (some job) busy now s k =
      both_answers_Sound (not (has_ended job.state)) _ _ k (
        both_answers_Sound (busy job.item_id) _ _ k (
          set_job-Sound job.id (λ j. record j { dismissed_at = some now }) s
            (record { same_id = λ j. refl; same_item = λ j. refl }) (λ j. refl) k))

  dismiss_job-Sound :
      (id : ℕ) (busy : ℕ → Bool) (now : ℕ) (s : TransferQueue Position Fraction)
      → Sound s
      → Sound (dismiss_job floats percent id busy now s).1
  unfolding dismiss_job
  dismiss_job-Sound id busy now s k = dismiss_found-Sound (fetch_job id s.jobs) busy now s k

  expire_pause_if_due-Sound :
      (now : ℕ) (s : TransferQueue Position Fraction) → Sound s → Sound (expire_pause_if_due now s)
  unfolding expire_pause_if_due clear_pause
  expire_pause_if_due-Sound now s k = both_branches_Sound (not s.paused) k (
      both_branches_Sound (expired_by now s.paused_until)
        (record { table = k.table; backed = k.backed }) k)

  step-Sound : {s t : TransferQueue Position Fraction} → Step s t → Sound s → Sound t
  unfolding unpause clear_pause
  step-Sound (enqueue id forced queued_at position) k =
      enqueue_item-Sound floats percent id forced queued_at position _ k
  step-Sound (reap proc e tracked) k = reap_one-Sound floats proc e _ tracked k
  step-Sound (stop exits id now) k = stop_job-Sound floats exits id now _ k
  step-Sound (pause_queue exits stop_running deadline) k =
      pause-Sound floats exits stop_running deadline _ k
  step-Sound unpause_queue k = record { table = k.table; backed = k.backed }
  step-Sound (expire_pause now) k = expire_pause_if_due-Sound now _ k
  step-Sound (throttle exits bandwidth to_running) k =
      set_site_bandwidth-Sound floats exits bandwidth to_running _ k
  step-Sound (force id rate_percent) k = start_now-Sound id rate_percent _ k
  step-Sound (dismiss id busy now) k = dismiss_job-Sound id busy now _ k
  step-Sound (admit world scaled tenth full) k = admit_jobs-Sound floats scaled tenth full _ world k
  step-Sound (move id position rank) k =
      set_job-Sound id (moved position rank) _
        (record { same_id = λ j. refl; same_item = λ j. refl }) (λ j. refl) k
  step-Sound (elsewhere items queues settings) k = record { table = k.table; backed = k.backed }

  empty-Idle : (s : TransferQueue Position Fraction) → s.jobs ≡ [] → s.running ≡ [] → Idle s
  unfolding count
  empty-Idle s no_jobs no_procs = record {
    table =
        subst (λ js. SoundTable s.next_id js) (sym no_jobs)
          (record {
            unique = λ id. omega arith;
            fresh = λ id h. refl;
            single = λ item. omega arith;
          });
    idle = no_procs;
  }

  reachable-Sound : {s : TransferQueue Position Fraction} → Reachable s → Sound s
  reachable-Sound (first_start mounted prefixed now s no_jobs no_procs) =
      start-Sound floats percent mounted prefixed now s (empty-Idle s no_jobs no_procs)
  reachable-Sound (step r st) = step-Sound st (reachable-Sound r)
  reachable-Sound (restart mounted prefixed now r) =
      start-Sound floats percent mounted prefixed now _
        (record { table = (reachable-Sound r).table; idle = refl })

  -- Where each handler runs to its end before the next one begins: in every state that the transfer
  -- queue comes to, by its handlers in any order and by kills and restarts between them, an item has
  -- at most one job that is queued or running, and the job of every tracked process is running in the
  -- table for the item of the process.
  pub Reachable-one_active :
      (s : TransferQueue Position Fraction)
      → Reachable s
      → ((item : ℕ) → count (active_for item) s.jobs ≤ 1)
        × All (λ p. 0 < count (runs_as p.job_id p.item_id) s.jobs) s.running
  Reachable-one_active s r = let k = reachable-Sound r in (k.table.single, k.backed)
