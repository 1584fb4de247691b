-- ===== src/Jobs/Starting.antt =====
-- Starting the process of a job that waits (backend/lftpweb/core/queue.py, `_spawn_decision`) leaves
-- the tables sound.
use lftpweb.Common.{
  none_not_some, some_injective, ℕ, ◌≤◌, ◌<◌, ◌≡◌, refl, sym, subst, true, false, ◌&&◌, not, Option,
  none, some, List, [], ◌∷◌, ◌++◌, inl, inr, arith, ◌==◌, ==_iff, ==_refl, count, first, All,
  Bool-cases, String,
}
use lftpweb.Common.Count.{count_le, count_split, count-update_gained}
use lftpweb.Scheduler.{AdmitDecision}
use lftpweb.Lftp.Output.{ErrorClass, spawn_failed}
use lftpweb.Jobs.Rows.{Job, ItemRow, QueueRow, RunningProcess, TransferQueue}
use lftpweb.Jobs.Table.{runs, waits, fetch_job, fetch_item, set_job}
use lftpweb.Jobs.Admit.{Host, Launch, launched, no_pin, raises, World, Target}
use lftpweb.Jobs.Spawn.{
  spawn_decision, spawn_item, spawn_in, after_launch, started, started_as, fail_job,
  refuse_unpinned,
}
use lftpweb.Jobs.Ending.{both_branches_Sound}
use lftpweb.Jobs.Sound.{
  Sound, Backed, has_id, runs_as, set_job-ended, set_job-active, set_job-Backed,
}

fetched_id :
    (id : ℕ) (items : List ItemRow) (item : ItemRow)
    → fetch_item id items ≡ some item
    → item.id ≡ id
unfolding fetch_item first
fetched_id id [] item h = absurd (none_not_some h)
fetched_id id (i ∷ is) item h = elim (Bool-cases (i.id == id)) [
  | inl e ↦ subst (λ x. x.id ≡ id) (some_injective (rw e at h)) ((==_iff i.id id).0 e)
  | inr e ↦ fetched_id id is item (rw e at h)
]

module _ {Position Fraction : Type 0} where
  -- The job of the decision waits, in its only row.
  abbrev pub Waiting : ℕ → ℕ → List (Job Position Fraction) → Type 0
  Waiting id item jobs = 0 < count (λ j. has_id id j && ((j.item_id == item) && waits j)) jobs

  Waiting-others :
      (id item : ℕ) (jobs : List (Job Position Fraction)) (procs : List (RunningProcess Fraction))
      → count (has_id id) jobs ≤ 1
      → Waiting id item jobs
      → Backed jobs procs
      → All (λ p. (p.job_id == id) ≡ false) procs
  Waiting-others id item jobs [] one w b = tt
  Waiting-others id item jobs (p ∷ procs) one w (here, rest) = elim (Bool-cases (p.job_id == id)) [
    | inl e ↦
        let same : p.job_id ≡ id = (==_iff p.job_id id).0 e in
        let runs_here : 0 < count (runs_as id p.item_id) jobs =
          subst (λ i. 0 < count (runs_as i p.item_id) jobs) same here in
        absurd (
          omega (
            arith,
            one,
            w,
            runs_here,
            count_split runs (has_id id) jobs,
            count_le (runs_as id p.item_id) (λ j. has_id id j && runs j) jobs (λ j h. ground arith),
            count_le (λ j. has_id id j && ((j.item_id == item) && waits j))
                (λ j. has_id id j && not (runs j)) jobs (λ j h. ground arith),
          ))
    | inr e ↦ (e, Waiting-others id item jobs procs one w rest)
  ]

  fetched_waits :
      (id : ℕ) (jobs : List (Job Position Fraction)) (job : Job Position Fraction)
      → fetch_job id jobs ≡ some job
      → waits job ≡ true
      → Waiting id job.item_id jobs
  unfolding fetch_job first count
  fetched_waits id [] job h w = absurd (none_not_some h)
  fetched_waits id (j ∷ js) job h w = elim (Bool-cases (j.id == id)) [
    | inl e ↦
        let same : j ≡ job = some_injective (rw e at h) in
        subst (λ k. 0 < count (λ i. has_id id i && ((i.item_id == k.item_id) && waits i)) (j ∷ js))
          same
          (let w2 : waits j ≡ true = subst (λ k. waits k ≡ true) (sym same) w in
            ground (arith, ==_refl j.item_id))
    | inr e ↦ let below = fetched_waits id js job (rw e at h) w in ground arith
  ]

  append_process :
      (procs : List (RunningProcess Fraction)) (p : RunningProcess Fraction)
      (jobs : List (Job Position Fraction))
      → Backed jobs procs
      → 0 < count (runs_as p.job_id p.item_id) jobs
      → Backed jobs (procs ++ (p ∷ []))
  append_process [] p jobs k h = (h, tt)
  append_process (q ∷ procs) p jobs (here, rest) h = (here, append_process procs p jobs rest h)

  module _ (world : World) (d : AdmitDecision Fraction) (job : Job Position Fraction)
      (s : TransferQueue Position Fraction) (k : Sound s)
      (w : Waiting d.job_id job.item_id s.jobs) where
    others : All (λ p. (p.job_id == d.job_id) ≡ false) s.running
    others =
        Waiting-others d.job_id job.item_id s.jobs s.running (k.table.unique d.job_id) w k.backed

    failed_Sound :
        (class : ErrorClass) (detail : String) → Sound (fail_job world d.job_id class detail s)
    unfolding fail_job
    failed_Sound class detail = record {
      table =
          set_job-ended d.job_id _ (record { same_id = λ j. refl; same_item = λ j. refl }) s.jobs
            s.next_id (λ j. refl) k.table;
      backed =
          set_job-Backed d.job_id _ (record { same_id = λ j. refl; same_item = λ j. refl }) s.jobs
            s.running others k.backed;
    }

    unpinned_Sound :
        (item_id : ℕ) (text : String) → Sound (refuse_unpinned world d.job_id item_id text s)
    unfolding refuse_unpinned
    unpinned_Sound item_id text = record {
      table =
          set_job-ended d.job_id _ (record { same_id = λ j. refl; same_item = λ j. refl }) s.jobs
            s.next_id (λ j. refl) k.table;
      backed =
          set_job-Backed d.job_id _ (record { same_id = λ j. refl; same_item = λ j. refl }) s.jobs
            s.running others k.backed;
    }

    started_Sound :
        (pid : ℕ) (item : ItemRow) (target : Target)
        → item.id ≡ job.item_id
        → Sound (started world d pid job item target s)
    unfolding started set_job
    started_Sound pid item target same = record {
      table =
          set_job-active d.job_id _ (record { same_id = λ j. refl; same_item = λ j. refl }) s.jobs
            s.next_id (λ j. (j.item_id == job.item_id) && waits j) w (λ j a. ground arith)
            (λ j. refl) k.table;
      backed =
          append_process s.running _ _
            (set_job-Backed d.job_id _ (record { same_id = λ j. refl; same_item = λ j. refl })
              s.jobs s.running others k.backed)
            (subst
              (λ i. 0 < count (runs_as d.job_id i) (started world d pid job item target s).jobs)
              (sym same)
              (omega (
                arith,
                w,
                count-update_gained (has_id d.job_id) (λ j. (j.item_id == job.item_id) && waits j)
                    (runs_as d.job_id job.item_id) (started_as world d pid item) s.jobs
                    (λ j h a. ground arith),
              )));
    }

    launch-Sound :
        (l : Launch) (item : ItemRow) (target : Target)
        → item.id ≡ job.item_id
        → Sound (after_launch world l d job item target s)
    launch-Sound (launched pid) item target same = started_Sound pid item target same
    launch-Sound (no_pin text) item target same = unpinned_Sound item.id text
    launch-Sound (raises text) item target same = failed_Sound spawn_failed text

    spawn_in-Sound :
        (q : Option QueueRow) (host : Host) (item : ItemRow)
        → item.id ≡ job.item_id
        → Sound (spawn_in world q d host job item s)
    spawn_in-Sound none host item same = k
    spawn_in-Sound (some queue_row) host item same = launch-Sound _ item _ same

    spawn_item-Sound :
        (i : Option ItemRow) (host : Host)
        → ((item : ItemRow) → i ≡ some item → item.id ≡ job.item_id)
        → Sound (spawn_item world i d host job s)
    spawn_item-Sound none host same = k
    spawn_item-Sound (some item) host same =
        both_branches_Sound _ k (spawn_in-Sound _ host item (same item refl))

  -- A decision for a job that waits.
  pub spawn_decision-Sound :
      (world : World) (d : AdmitDecision Fraction) (host : Host)
      (s : TransferQueue Position Fraction) (job : Job Position Fraction)
      → fetch_job d.job_id s.jobs ≡ some job
      → waits job ≡ true
      → Sound s
      → Sound (spawn_decision world d host s)
  unfolding spawn_decision
  spawn_decision-Sound world d host s job f w k = rw f (
      spawn_item-Sound world d job s k (fetched_waits d.job_id s.jobs job f w)
        (fetch_item job.item_id s.items) host (λ item e. fetched_id job.item_id s.items item e))
