-- ===== src/Jobs/Processes.antt =====
-- The processes of one item, whatever becomes of the tables (backend/lftpweb/core/queue.py, the guard
-- of `_spawn_decision`).
use lftpweb.Common.{
  ℕ, ◌≤◌, ◌≡◌, sym, ap, subst, Bool, false, Option, none, some, List, [], ◌∷◌, ◌++◌, inl, inr,
  arith, ◌==◌, ==_iff, count, any, map, Bool-cases, is_some, not, ◌&&◌,
}
use lftpweb.Common.Count.{count-append, count_le}
use lftpweb.Scheduler.{AdmitDecision}
use lftpweb.Scheduler.Once.{count-map, count-keep, none_counted}
use lftpweb.Queue.Positions.{Arithmetic}
use lftpweb.Jobs.Rows.{Job, ItemRow, QueueRow, RunningProcess, TransferQueue}
use lftpweb.Jobs.Table.{fetch_job, running_process, stop_tracking}
use lftpweb.Jobs.Reap.{Exit, reap_one}
use lftpweb.Jobs.Admit.{Host, Launch, launched, no_pin, raises, World, Target}
use lftpweb.Jobs.Spawn.{
  spawn_decision, spawn_job, spawn_item, spawn_in, after_launch, started, fail_job, refuse_unpinned,
}
use lftpweb.Jobs.Stopping.{reap_tracked-running}

module _ {Fraction : Type 0} where
  abbrev pub runs_for : ℕ → RunningProcess Fraction → Bool
  runs_for item p = p.item_id == item

  abbrev One : List (RunningProcess Fraction) → Type 0
  One procs = (item : ℕ) → count (runs_for item) procs ≤ 1

  untracked :
      (id item : ℕ) (procs : List (RunningProcess Fraction))
      → count (runs_for item) procs ≤ 1
      → count (runs_for item) (stop_tracking id procs) ≤ 1
  unfolding stop_tracking
  untracked id item procs k = omega (
    arith,
    k,
    count-keep (runs_for item) (λ p. not (p.job_id == id)) procs,
    count_le (λ p. not (p.job_id == id) && runs_for item p) (runs_for item) procs
        (λ p h. ground (arith, h)),
  )

  one_more :
      (procs : List (RunningProcess Fraction)) (p : RunningProcess Fraction)
      → any (runs_for p.item_id) procs ≡ false
      → One procs
      → One (procs ++ (p ∷ []))
  unfolding count
  one_more procs p new k item = elim (Bool-cases (p.item_id == item)) [
    | inl e ↦
        let same : p.item_id ≡ item = (==_iff p.item_id item).0 e in
        let none_here : count (runs_for item) procs ≡ 0 =
          none_counted (runs_for item) procs
            (subst (λ i. any (runs_for i) procs ≡ false) same new) in
        ground (arith, e, none_here, count-append (runs_for item) procs (p ∷ []))
    | inr e ↦ ground (arith, e, k item, count-append (runs_for item) procs (p ∷ []))
  ]

module _ {Position Fraction : Type 0} (floats : Arithmetic Position) where
  -- A history of the processes: `spawn` is any round of the loop of `_admit`, `reap` any end of a
  -- process, and `elsewhere` is all that leaves the items of the tracked processes, with tables that
  -- may have changed in any way.
  pub data History : TransferQueue Position Fraction → Type 0 where
    begin : (s : TransferQueue Position Fraction) → s.running ≡ [] → History s
    spawn :
        {s : TransferQueue Position Fraction} (world : World) (d : AdmitDecision Fraction)
        (host : Host)
        → History s
        → History (spawn_decision world d host s)
    reap :
        {s : TransferQueue Position Fraction} (proc : RunningProcess Fraction) (e : Exit)
        → History s
        → History (reap_one floats proc e s)
    elsewhere :
        {s : TransferQueue Position Fraction} (t : TransferQueue Position Fraction)
        → map (λ p. p.item_id) t.running ≡ map (λ p. p.item_id) s.running
        → History s
        → History t

  module _ (world : World) (d : AdmitDecision Fraction) (host : Host)
      (s : TransferQueue Position Fraction) (k : One s.running) where
    launch-One :
        (l : Launch) (job : Job Position Fraction) (item : ItemRow) (target : Target)
        → any (runs_for item.id) s.running ≡ false
        → One (after_launch world l d job item target s).running
    unfolding started fail_job refuse_unpinned
    launch-One (launched pid) job item target new = one_more s.running _ new k
    launch-One (no_pin text) job item target new = k
    launch-One (raises text) job item target new = k

    spawn_in-One :
        (q : Option QueueRow) (job : Job Position Fraction) (item : ItemRow)
        → any (runs_for item.id) s.running ≡ false
        → One (spawn_in world q d host job item s).running
    spawn_in-One none job item new = k
    spawn_in-One (some queue_row) job item new = launch-One _ job item _ new

    spawn_item-One :
        (i : Option ItemRow) (job : Job Position Fraction)
        → One (spawn_item world i d host job s).running
    spawn_item-One none job = k
    spawn_item-One (some item) job = elim (Bool-cases (any (runs_for item.id) s.running)) [
      | inl e ↦ rw e k
      | inr e ↦ rw e (spawn_in-One _ job item e)
    ]

    spawn_job-One : (j : Option (Job Position Fraction)) → One (spawn_job world j d host s).running
    spawn_job-One none = k
    spawn_job-One (some job) = spawn_item-One _ job

    spawn_decision-One : One (spawn_decision world d host s).running
    unfolding spawn_decision
    spawn_decision-One = spawn_job-One (fetch_job d.job_id s.jobs)

  reap_one-One :
      (proc : RunningProcess Fraction) (e : Exit) (s : TransferQueue Position Fraction)
      → One s.running
      → One (reap_one floats proc e s).running
  unfolding reap_one
  reap_one-One proc e s k = elim (Bool-cases (is_some (running_process proc.job_id s.running))) [
    | inl a ↦ rw a (
        subst (λ procs. One procs)
          (sym (
            reap_tracked-running floats proc e
              (record s { running = stop_tracking proc.job_id s.running })))
          (λ item. untracked proc.job_id item s.running (k item)))
    | inr a ↦ rw a k
  ]

  same_items :
      (procs others : List (RunningProcess Fraction))
      → map (λ p. p.item_id) procs ≡ map (λ p. p.item_id) others
      → One others
      → One procs
  same_items procs others same k item = omega (
    arith,
    k item,
    count-map (λ i. i == item) (λ p. p.item_id) procs,
    count-map (λ i. i == item) (λ p. p.item_id) others,
    (ap (count (λ i. i == item)) same),
  )

  history-One : {s : TransferQueue Position Fraction} → History s → One s.running
  unfolding count
  history-One (begin s no_procs) = subst (λ procs. One procs) (sym no_procs) (λ item. omega arith)
  history-One (spawn world d host h) = spawn_decision-One world d host _ (history-One h)
  history-One (reap proc e h) = reap_one-One proc e _ (history-One h)
  history-One (elsewhere t same h) = same_items t.running _ same (history-One h)

  -- Where the rounds of the loop of `_admit` follow one after the other: an item never has two tracked
  -- processes, whatever the tables hold between them, two queued jobs for the item included, and also
  -- where a job is started that no longer waits.
  pub History-runs_for :
      (s : TransferQueue Position Fraction) (item : ℕ)
      → History s
      → count (runs_for item) s.running ≤ 1
  History-runs_for s item h = history-One h item
