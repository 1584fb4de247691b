-- ===== src/Jobs/Restart.antt =====
-- A start of the transfer queue (backend/lftpweb/core/queue.py, `start`) leaves the tables sound, and
-- no job of the run before is left running.
use lftpweb.Common.{
  keep, map, ℕ, ◌≡◌, refl, sym, ◌∙◌, subst, String, Bool, true, false, ◌&&◌, not, Option, none,
  some, List, [], ◌∷◌, inl, inr, arith, ◌==◌, if◌then◌else◌, Bool-cases, length,
}
use lftpweb.Common.Count.{count_le, count-update_kept, count-update_lost}
use lftpweb.Queue.Positions.{Arithmetic}
use lftpweb.Jobs.Rows.{queue_pause_expired, Job, ItemRow, QueueRow, RunningProcess, TransferQueue}
use lftpweb.Jobs.Table.{runs, fetch_item}
use lftpweb.Jobs.Enqueue.{Answer, answered, refused}
use lftpweb.Jobs.Control.{expired_by, expire_pause_if_due, clear_pause}
use lftpweb.Jobs.Startup.{
  fail_orphans, orphaned, cleared, stranded_items, requeue_interrupted_item, requeue_found,
  requeued, gate, Starting, requeue_orphans, requeue_candidates, requeue_stranded_downloaded,
  reconcile_orphaned_jobs, start, mount_ok,
}
use lftpweb.Jobs.Sound.{Sound, SoundTable, Backed, has_id, active_for}
use lftpweb.Jobs.Steps.{enqueue_item-Sound}
use lftpweb.Jobs.Ending.{both_branches_Sound}

either_start :
    {Position Fraction : Type 0} (b : Bool) (t u : Starting Position Fraction)
    → Sound t.queue
    → Sound u.queue
    → Sound (if b then t else u).queue
either_start true t u k l = k
either_start false t u k l = l

module _ {Position Fraction : Type 0} where
  -- Before the first tick: the table is sound and no process is tracked.
  pub record Idle (s : TransferQueue Position Fraction) : Type 0 where
    pub table : SoundTable s.next_id s.jobs
    pub idle : s.running ≡ []

  either_Idle :
      (b : Bool) (t u : TransferQueue Position Fraction)
      → Idle t
      → Idle u
      → Idle (if b then t else u)
  either_Idle true t u k l = k
  either_Idle false t u k l = l

  expire_pause_if_due-Idle :
      (now : ℕ) (s : TransferQueue Position Fraction) → Idle s → Idle (expire_pause_if_due now s)
  unfolding expire_pause_if_due clear_pause
  expire_pause_if_due-Idle now s k = either_Idle (not s.paused) s _ k (
      either_Idle (expired_by now s.paused_until)
        (clear_pause (queue_pause_expired s.paused_until) s) s
        (record { table = k.table; idle = k.idle }) k)

  none_running :
      (jobs : List (Job Position Fraction)) (procs : List (RunningProcess Fraction))
      → procs ≡ []
      → Backed jobs procs
  none_running jobs procs idle = subst (λ ps. Backed jobs ps) (sym idle) tt

module _ {Position Fraction : Type 0} (floats : Arithmetic Position) (percent : ℕ → Fraction) where
  fail_orphans-SoundTable :
      (now next : ℕ) (jobs : List (Job Position Fraction))
      → SoundTable next jobs
      → SoundTable next (fail_orphans floats percent now jobs)
  unfolding fail_orphans
  fail_orphans-SoundTable now next jobs k = record {
    unique = λ i. omega (
      arith,
      count-update_kept runs (has_id i) (orphaned floats percent now) jobs (λ j e. refl),
      k.unique i,
    );
    fresh = λ i h.
        count-update_kept runs (has_id i) (orphaned floats percent now) jobs (λ j e. refl)
        ∙ k.fresh i h;
    single = λ item. omega (
      arith,
      k.single item,
      count-update_lost runs (active_for item) (orphaned floats percent now) jobs
          (λ j e. ground arith),
      count_le (λ j. not (runs j) && active_for item j) (active_for item) jobs
          (λ j e. ground arith),
    );
  }

  requeued-Sound :
      (item_id : ℕ) (again : Bool) (a : Answer ℕ × TransferQueue Position Fraction)
      → Sound a.1
      → Sound (requeued floats percent item_id again a)
  requeued-Sound item_id again (refused r, s) k = k
  requeued-Sound item_id again (answered job_id, s) k = record {
    table = k.table;
    backed = k.backed;
  }

  gate-Sound :
      (id : ℕ) (s : Starting Position Fraction)
      → Sound s.queue
      → Sound (gate floats percent id s).queue
  gate-Sound id s k = either_start _ _ _ k (record { table = k.table; backed = k.backed })

  module _ (mounted : String → Bool) where
    requeue_found-Sound :
        (i : Option ItemRow) (again : Bool) (queued_at : ℕ) (s : Starting Position Fraction)
        → Sound s.queue
        → Sound (requeue_found floats percent mounted i again queued_at s).queue
    requeue_found-Sound none again queued_at s k = k
    requeue_found-Sound (some item) again queued_at s k =
        elim (Bool-cases (mount_ok mounted item.queue_id s.queue.queues)) [
          | inl e ↦ rw e (
              requeued-Sound item.id again _
                (enqueue_item-Sound floats percent item.id false queued_at _ s.queue k))
          | inr e ↦ rw e (gate-Sound item.queue_id s k)
        ]

    requeue_interrupted_item-Sound :
        (id : ℕ) (again : Bool) (queued_at : ℕ) (s : Starting Position Fraction)
        → Sound s.queue
        → Sound (requeue_interrupted_item floats percent mounted id again queued_at s).queue
    unfolding requeue_interrupted_item
    requeue_interrupted_item-Sound id again queued_at s k =
        requeue_found-Sound (fetch_item id s.queue.items) again queued_at s k

    requeue_orphans-Sound :
        (jobs : List (Job Position Fraction)) (s : Starting Position Fraction)
        → Sound s.queue
        → Sound (requeue_orphans floats percent mounted jobs s).queue
    unfolding requeue_orphans
    requeue_orphans-Sound [] s k = k
    requeue_orphans-Sound (j ∷ js) s k =
        requeue_orphans-Sound js
          (requeue_interrupted_item floats percent mounted j.item_id true j.queued_at s)
          (requeue_interrupted_item-Sound j.item_id true j.queued_at s k)

    requeue_candidates-Sound :
        (prefixed : QueueRow → ItemRow → Bool) (handled : List ℕ) (is : List (ItemRow × ℕ))
        (s : Starting Position Fraction)
        → Sound s.queue
        → Sound (requeue_candidates floats percent mounted prefixed handled is s).queue
    unfolding requeue_candidates
    requeue_candidates-Sound prefixed handled [] s k = k
    requeue_candidates-Sound prefixed handled ((i, queued_at) ∷ is) s k =
        requeue_candidates-Sound prefixed handled is _
          (either_start _ _ _ k (requeue_interrupted_item-Sound i.id false queued_at s k))

    cleared-Sound :
        (now : ℕ) (s : TransferQueue Position Fraction)
        → Idle s
        → Sound (cleared floats percent now s)
    cleared-Sound now s k =
        both_branches_Sound (length (keep runs s.jobs) == 0)
          (record { table = k.table; backed = none_running s.jobs s.running k.idle })
          (record {
            table = fail_orphans-SoundTable now s.next_id s.jobs k.table;
            backed = none_running (fail_orphans floats percent now s.jobs) s.running k.idle;
          })

    reconcile_orphaned_jobs-Sound :
        (prefixed : QueueRow → ItemRow → Bool) (now : ℕ) (s : TransferQueue Position Fraction)
        → Idle s
        → Sound (reconcile_orphaned_jobs floats percent mounted prefixed now s)
    unfolding reconcile_orphaned_jobs requeue_stranded_downloaded
    reconcile_orphaned_jobs-Sound prefixed now s k =
        let rows = keep runs s.jobs in
        let orphans =
          requeue_orphans floats percent mounted rows
            (record { queue = cleared floats percent now s; gated = [] }) in
        requeue_candidates-Sound prefixed (map (λ j. j.item_id) rows)
          (stranded_items floats percent orphans) orphans
          (requeue_orphans-Sound rows (record { queue = cleared floats percent now s; gated = [] })
            (cleared-Sound now s k))

    -- The tables after a start are sound: no process runs yet.
    pub start-Sound :
        (prefixed : QueueRow → ItemRow → Bool) (now : ℕ) (s : TransferQueue Position Fraction)
        → Idle s
        → Sound (start floats percent mounted prefixed now s)
    unfolding start
    start-Sound prefixed now s k = reconcile_orphaned_jobs-Sound prefixed now _ (
        expire_pause_if_due-Idle now
          (record s {
            paused = s.pause_setting.paused;
            paused_until = s.pause_setting.paused_until;
          })
          (record { table = k.table; idle = k.idle }))
