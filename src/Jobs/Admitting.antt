-- ===== src/Jobs/Admitting.antt =====
-- One pass of `_admit` (backend/lftpweb/core/queue.py) leaves the tables sound.
use lftpweb.Common.{
  none_not_some, some_injective, ℕ, suc, ◌≤◌, ◌<◌, ◌≡◌, refl, ap, ◌∙◌, ==_refl, subst, Bool, true,
  false, ◌&&◌, Option, none, some, List, [], ◌∷◌, inl, inr, arith, ◌==◌, ==_iff, count, first, keep,
  map, Bool-cases, Option-cases, if◌then◌else◌,
}
use lftpweb.Common.Count.{count_le, count-update_kept}
use lftpweb.Scheduler.{AdmitDecision}
use lftpweb.Scheduler.Once.{count-admit, count-map, count-keep}
use lftpweb.Queue.Positions.{Arithmetic}
use lftpweb.Queue.Settings.{scheduler_settings}
use lftpweb.Jobs.Rows.{Job, ItemRow, QueueRow, TransferQueue}
use lftpweb.Jobs.Table.{waits, fetch_job, set_job}
use lftpweb.Jobs.Admit.{
  Host, Launch, launched, no_pin, raises, World, Target, insert_in_order, in_order, candidates,
  ready_jobs, decisions, as_queued, running_jobs,
}
use lftpweb.Jobs.Spawn.{
  spawn_decision, spawn_job, spawn_item, spawn_in, after_launch, started, fail_job, refuse_unpinned,
  spawn_all, spawn_with, admit_jobs,
}
use lftpweb.Jobs.Ending.{both_branches_Sound}
use lftpweb.Jobs.Sound.{Sound, Plain, has_id}
use lftpweb.Jobs.Starting.{spawn_decision-Sound}

module _ {Position Fraction : Type 0} where
  -- The job has the id and waits.
  abbrev waits_as : ℕ → Job Position Fraction → Bool
  waits_as id j = has_id id j && waits j

  -- Jobs with another id wait as before.
  abbrev Apart : ℕ → List (Job Position Fraction) → List (Job Position Fraction) → Type 0
  Apart id old jobs = (i : ℕ) → (id == i) ≡ false → count (waits_as i) jobs ≡ count (waits_as i) old

  Apart-refl : (id : ℕ) (jobs : List (Job Position Fraction)) → Apart id jobs jobs
  Apart-refl id jobs i h = refl

  set_job-Apart :
      (id : ℕ) (change : Job Position Fraction → Job Position Fraction)
      (jobs : List (Job Position Fraction))
      → Plain change
      → Apart id jobs (set_job id change jobs)
  unfolding set_job
  set_job-Apart id change jobs plain i other =
      count-update_kept (has_id id) (waits_as i) change jobs (λ j e.
        let here : (j.id == i) ≡ false = ap (λ n. n == i) ((==_iff j.id id).0 e) ∙ other in
        let there : ((change j).id == i) ≡ false = ap (λ n. n == i) (plain.same_id j) ∙ here in
        rw (here, there) refl)

  -- A job that waits under its id, which stands once in the table, is the one that is fetched.
  fetched_waiting :
      (id : ℕ) (jobs : List (Job Position Fraction)) (job : Job Position Fraction)
      → count (has_id id) jobs ≤ 1
      → 0 < count (waits_as id) jobs
      → fetch_job id jobs ≡ some job
      → waits job ≡ true
  unfolding fetch_job first count
  fetched_waiting id [] job one w h = absurd (none_not_some h)
  fetched_waiting id (j ∷ js) job one w h = elim (Bool-cases (has_id id j)) [
    | inl e ↦
        subst (λ k. waits k ≡ true) (some_injective (rw e at h))
          (elim (Bool-cases (waits j)) [
            | inl a ↦ a
            | inr a ↦ absurd (
                omega (
                  arith,
                  (rw e at one),
                  (rw (e, a) at w),
                  count_le (waits_as id) (has_id id) js (λ k g. ground (arith, g)),
                ))
          ])
    | inr e ↦ fetched_waiting id js job (rw e at one) (rw e at w) (rw e at h)
  ]

  module _ (world : World) (d : AdmitDecision Fraction) where
    launch-Apart :
        (l : Launch) (job : Job Position Fraction) (item : ItemRow) (target : Target)
        (s : TransferQueue Position Fraction)
        → Apart d.job_id s.jobs (after_launch world l d job item target s).jobs
    unfolding started fail_job refuse_unpinned
    launch-Apart (launched pid) job item target s =
        set_job-Apart d.job_id _ s.jobs (record { same_id = λ j. refl; same_item = λ j. refl })
    launch-Apart (no_pin text) job item target s =
        set_job-Apart d.job_id _ s.jobs (record { same_id = λ j. refl; same_item = λ j. refl })
    launch-Apart (raises text) job item target s =
        set_job-Apart d.job_id _ s.jobs (record { same_id = λ j. refl; same_item = λ j. refl })

    spawn_in-Apart :
        (q : Option QueueRow) (host : Host) (job : Job Position Fraction) (item : ItemRow)
        (s : TransferQueue Position Fraction)
        → Apart d.job_id s.jobs (spawn_in world q d host job item s).jobs
    spawn_in-Apart none host job item s = Apart-refl d.job_id s.jobs
    spawn_in-Apart (some queue_row) host job item s = launch-Apart _ job item _ s

    both_Apart :
        (b : Bool) (s t u : TransferQueue Position Fraction)
        → Apart d.job_id s.jobs t.jobs
        → Apart d.job_id s.jobs u.jobs
        → Apart d.job_id s.jobs (if b then t else u).jobs
    both_Apart true s t u h g = h
    both_Apart false s t u h g = g

    spawn_item-Apart :
        (i : Option ItemRow) (host : Host) (job : Job Position Fraction)
        (s : TransferQueue Position Fraction)
        → Apart d.job_id s.jobs (spawn_item world i d host job s).jobs
    spawn_item-Apart none host job s = Apart-refl d.job_id s.jobs
    spawn_item-Apart (some item) host job s =
        both_Apart _ s s _ (Apart-refl d.job_id s.jobs) (spawn_in-Apart _ host job item s)

    spawn_job-Apart :
        (j : Option (Job Position Fraction)) (host : Host) (s : TransferQueue Position Fraction)
        → Apart d.job_id s.jobs (spawn_job world j d host s).jobs
    spawn_job-Apart none host s = Apart-refl d.job_id s.jobs
    spawn_job-Apart (some job) host s = spawn_item-Apart _ host job s

    spawn_decision-Apart :
        (host : Host) (s : TransferQueue Position Fraction)
        → Apart d.job_id s.jobs (spawn_decision world d host s).jobs
    unfolding spawn_decision
    spawn_decision-Apart host s = spawn_job-Apart (fetch_job d.job_id s.jobs) host s

    -- A decision for a job that waits.
    decided-Sound :
        (host : Host) (s : TransferQueue Position Fraction)
        → 0 < count (waits_as d.job_id) s.jobs
        → Sound s
        → Sound (spawn_decision world d host s)
    unfolding spawn_decision
    decided-Sound host s w k = elim (Option-cases (fetch_job d.job_id s.jobs)) [
      | inl e ↦ rw e k
      | inr (job, e) ↦
          spawn_decision-Sound world d host s job e
            (fetched_waiting d.job_id s.jobs job (k.table.unique d.job_id) w e) k
    ]

  -- The decisions that are left are for jobs that wait, one for each.
  abbrev Pending : List (AdmitDecision Fraction) → List (Job Position Fraction) → Type 0
  Pending ds jobs = (id : ℕ) → count (λ d. d.job_id == id) ds ≤ count (waits_as id) jobs

  spawn_all-Sound :
      (world : World) (host : Host) (ds : List (AdmitDecision Fraction))
      (s : TransferQueue Position Fraction)
      → Pending ds s.jobs
      → Sound s
      → Sound (spawn_all world ds host s)
  unfolding spawn_all count
  spawn_all-Sound world host [] s p k = k
  spawn_all-Sound world host (d ∷ ds) s p k =
      spawn_all-Sound world host ds (spawn_decision world d host s) (λ id. rest id (p id))
        (decided-Sound world d host s
          (omega (arith, p d.job_id, count_here d.job_id (==_refl d.job_id))) k)
    where
      count_here :
          (id : ℕ)
          → (d.job_id == id) ≡ true
          → count (λ x. x.job_id == id) (d ∷ ds) ≡ suc (count (λ x. x.job_id == id) ds)
      count_here id e = rw e refl

      count_gone :
          (id : ℕ)
          → (d.job_id == id) ≡ false
          → count (λ x. x.job_id == id) (d ∷ ds) ≡ count (λ x. x.job_id == id) ds
      count_gone id e = rw e refl

      rest :
          (id : ℕ)
          → count (λ x. x.job_id == id) (d ∷ ds) ≤ count (waits_as id) s.jobs
          → count (λ x. x.job_id == id) ds
            ≤ count (waits_as id) (spawn_decision world d host s).jobs
      rest id h = elim (Bool-cases (d.job_id == id)) [
        | inl e ↦ omega (
          arith,
          h,
          count_here id e,
          k.table.unique id,
          count_le (waits_as id) (has_id id) s.jobs (λ j g. ground (arith, g)),
        )
        | inr e ↦ omega (arith, h, count_gone id e, spawn_decision-Apart world d host s id e)
      ]

  module _ (floats : Arithmetic Position) (scaled : Fraction → ℕ → ℕ) (tenth : ℕ → ℕ)
      (full : Fraction) (s : TransferQueue Position Fraction) where
    count-insert_in_order :
        (p : Job Position Fraction → Bool) (j : Job Position Fraction)
        (js : List (Job Position Fraction))
        → count p (insert_in_order floats scaled tenth j js) ≡ count p (j ∷ js)
    unfolding count insert_in_order
    count-insert_in_order p j [] = refl
    count-insert_in_order p j (k ∷ ks) = ground (arith, count-insert_in_order p j ks)

    count-in_order :
        (p : Job Position Fraction → Bool) (js : List (Job Position Fraction))
        → count p (in_order floats scaled tenth js) ≡ count p js
    unfolding count in_order
    count-in_order p [] = refl
    count-in_order p (j ∷ js) =
        count-insert_in_order p j (in_order floats scaled tenth js)
        ∙ ground (arith, count-in_order p js)

    less_either :
        (p : Job Position Fraction → Bool) (j : Job Position Fraction) (b : Bool)
        (rest js : List (Job Position Fraction))
        → count p rest ≤ count p js
        → count p (if b then rest else j ∷ rest) ≤ count p (j ∷ js)
    unfolding count
    less_either p j true rest js h = ground (arith, h)
    less_either p j false rest js h = ground (arith, h)

    count-candidates :
        (p : Job Position Fraction → Bool) (monotonic : ℕ) (js : List (Job Position Fraction))
        (active : List ℕ)
        → count p (candidates floats scaled tenth monotonic s active js) ≤ count p js
    unfolding count candidates
    count-candidates p monotonic [] active = omega arith
    count-candidates p monotonic (j ∷ js) active =
        less_either p j _ _ js (count-candidates p monotonic js _)

    decisions-Pending :
        (monotonic : ℕ) → Pending (decisions floats scaled tenth full monotonic s) s.jobs
    unfolding decisions ready_jobs
    decisions-Pending monotonic id =
        let waiting = keep waits s.jobs in
        let ready = ready_jobs floats scaled tenth monotonic s in
        omega (
          arith,
          count-admit floats.before scaled (scheduler_settings tenth s.settings) id
              (running_jobs floats scaled tenth s) (map (as_queued floats scaled tenth full) ready),
          count-map (λ q. q.id == id) (as_queued floats scaled tenth full) ready,
          count-candidates (has_id id) monotonic (in_order floats scaled tenth waiting)
              (map (λ p. p.item_id) s.running),
          count-in_order (has_id id) waiting,
          count-keep (has_id id) waits s.jobs,
          count_le (λ j. waits j && has_id id j) (waits_as id) s.jobs (λ j g. ground (arith, g)),
        )

    host_Sound :
        (world : World) (host : Option Host)
        → Sound s
        → Sound (spawn_with world host (decisions floats scaled tenth full world.monotonic s) s)
    host_Sound world none k = k
    host_Sound world (some host) k =
        both_branches_Sound host.credentials_need_reentry k
          (spawn_all-Sound world host _ s (decisions-Pending world.monotonic) k)

    pub admit_jobs-Sound :
        (world : World) → Sound s → Sound (admit_jobs world floats scaled tenth full s)
    unfolding admit_jobs
    admit_jobs-Sound world k =
        both_branches_Sound s.paused k
          (both_branches_Sound s.admission_hold k (host_Sound world world.host k))
