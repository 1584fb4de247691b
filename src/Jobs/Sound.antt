-- ===== src/Jobs/Sound.antt =====
-- What holds of the tables between two handlers of the transfer queue
-- (backend/lftpweb/core/queue.py), and what changes of a row leave of it.
use lftpweb.Common.{
  ℕ, suc, ◌≤◌, ◌<◌, ◌≡◌, ap, ◌∙◌, subst, ==_iff, Bool, true, false, ◌&&◌, not, List, [], ◌∷◌, ◌++◌,
  inl, inr, arith, ◌==◌, count, keep, All, Bool-cases,
}
use lftpweb.Common.Count.{
  count-append, count_le, count-update_kept, count-update_lost, count-update_within, all_of_one,
}
use lftpweb.Jobs.Rows.{Job, RunningProcess, TransferQueue}
use lftpweb.Jobs.Table.{runs, runs_state, is_active, set_job, stop_tracking}

-- The processes that are left after one is no longer tracked.
pub stop_tracking-others :
    {Fraction : Type 0} (id : ℕ) (procs : List (RunningProcess Fraction))
    → All (λ p. (p.job_id == id) ≡ false) (stop_tracking id procs)
unfolding stop_tracking keep
stop_tracking-others id [] = tt
stop_tracking-others id (p ∷ procs) = elim (Bool-cases (p.job_id == id)) [
  | inl e ↦ rw e (stop_tracking-others id procs)
  | inr e ↦ rw e (e, stop_tracking-others id procs)
]

module _ {Position Fraction : Type 0} where
  abbrev pub has_id : ℕ → Job Position Fraction → Bool
  has_id id j = j.id == id

  -- The job is queued or running for the item.
  abbrev pub active_for : ℕ → Job Position Fraction → Bool
  active_for item j = j.item_id == item && is_active j

  abbrev pub runs_as : ℕ → ℕ → Job Position Fraction → Bool
  runs_as id item j = j.id == id && (j.item_id == item && runs j)

  -- The ids of the table are unique and below the next one, and no item has two active jobs.
  pub record SoundTable (next_id : ℕ) (jobs : List (Job Position Fraction)) : Type 0 where
    pub unique : (id : ℕ) → count (has_id id) jobs ≤ 1
    pub fresh : (id : ℕ) → next_id ≤ id → count (has_id id) jobs ≡ 0
    pub single : (item : ℕ) → count (active_for item) jobs ≤ 1

  -- Each process stands for a job of its item that is running in the table.
  abbrev pub Backed : List (Job Position Fraction) → List (RunningProcess Fraction) → Type 0
  Backed jobs procs = All (λ p. 0 < count (runs_as p.job_id p.item_id) jobs) procs

  pub record Sound (s : TransferQueue Position Fraction) : Type 0 where
    pub table : SoundTable s.next_id s.jobs
    pub backed : Backed s.jobs s.running

  -- A change of a row that leaves its id and its item.
  pub record Plain (change : Job Position Fraction → Job Position Fraction) : Type 0 where
    pub same_id : (j : Job Position Fraction) → (change j).id ≡ j.id
    pub same_item : (j : Job Position Fraction) → (change j).item_id ≡ j.item_id

  module _ (id : ℕ) (change : Job Position Fraction → Job Position Fraction) (plain : Plain change)
      (jobs : List (Job Position Fraction)) where
    ids_kept : (i : ℕ) → count (has_id i) (set_job id change jobs) ≡ count (has_id i) jobs
    unfolding set_job
    ids_kept i =
        count-update_kept (has_id id) (has_id i) change jobs
          (λ j e. ap (λ n. n == i) (plain.same_id j))

    -- The change of a job that has ended or ends with it.
    pub set_job-ended :
        (next : ℕ)
        → ((j : Job Position Fraction) → is_active (change j) ≡ false)
        → SoundTable next jobs
        → SoundTable next (set_job id change jobs)
    unfolding set_job
    set_job-ended next ends k = record {
      unique = λ i. omega (arith, ids_kept i, k.unique i);
      fresh = λ i h. ids_kept i ∙ k.fresh i h;
      single = λ item. omega (
        arith,
        k.single item,
        count-update_lost (has_id id) (active_for item) change jobs (λ j e. ground (arith, ends j)),
        count_le (λ j. not (has_id id j) && active_for item j) (active_for item) jobs
            (λ j e. ground arith),
      );
    }

    -- A change that leaves whether the job is active.
    pub set_job-kept :
        (next : ℕ)
        → ((j : Job Position Fraction) → is_active (change j) ≡ is_active j)
        → SoundTable next jobs
        → SoundTable next (set_job id change jobs)
    unfolding set_job
    set_job-kept next same k = record {
      unique = λ i. omega (arith, ids_kept i, k.unique i);
      fresh = λ i h. ids_kept i ∙ k.fresh i h;
      single = λ item. omega (
        arith,
        k.single item,
        count-update_kept (has_id id) (active_for item) change jobs
            (λ j e. ground (arith, same j, plain.same_item j)),
      );
    }

    -- A change into an active state of the job that a row with `act`, an active one, has the id of.
    pub set_job-active :
        (next : ℕ) (act : Job Position Fraction → Bool)
        → 0 < count (λ j. has_id id j && act j) jobs
        → ((j : Job Position Fraction) → act j ≡ true → is_active j ≡ true)
        → ((j : Job Position Fraction) → is_active (change j) ≡ true)
        → SoundTable next jobs
        → SoundTable next (set_job id change jobs)
    unfolding set_job
    set_job-active next act there active stays k =
        let only = all_of_one (has_id id) act jobs (k.unique id) there in
        record {
          unique = λ i. omega (arith, ids_kept i, k.unique i);
          fresh = λ i h. ids_kept i ∙ k.fresh i h;
          single = λ item. omega (
            arith,
            k.single item,
            count-update_within (has_id id) act (active_for item) change jobs only
                (λ j e a. ground (arith, active j a, stays j, plain.same_item j)),
          );
        }

    -- Another job's process stays backed.
    pub set_job-Backed :
        (procs : List (RunningProcess Fraction))
        → All (λ p. (p.job_id == id) ≡ false) procs
        → Backed jobs procs
        → Backed (set_job id change jobs) procs
    unfolding set_job
    set_job-Backed [] others k = tt
    set_job-Backed (p ∷ procs) (other, others) (here, rest) = (
      omega (
        arith,
        here,
        count-update_kept (has_id id) (runs_as p.job_id p.item_id) change jobs
            (λ j e. ground (arith, plain.same_id j, other)),
      ),
      set_job-Backed procs others rest,
    )

    -- A change that leaves the state leaves all processes backed.
    pub set_job-Backed_kept :
        (procs : List (RunningProcess Fraction))
        → ((j : Job Position Fraction) → (change j).state ≡ j.state)
        → Backed jobs procs
        → Backed (set_job id change jobs) procs
    unfolding set_job
    set_job-Backed_kept [] same k = tt
    set_job-Backed_kept (p ∷ procs) same (here, rest) = (
      omega (
        arith,
        here,
        count-update_kept (has_id id) (runs_as p.job_id p.item_id) change jobs
            (λ j e. ground (arith, plain.same_id j, plain.same_item j, ap runs_state (same j))),
      ),
      set_job-Backed_kept procs same rest,
    )

  pub append-Backed :
      (jobs more : List (Job Position Fraction)) (procs : List (RunningProcess Fraction))
      → Backed jobs procs
      → Backed (jobs ++ more) procs
  append-Backed jobs more [] k = tt
  append-Backed jobs more (p ∷ procs) (here, rest) = (
    omega (arith, here, count-append (runs_as p.job_id p.item_id) jobs more),
    append-Backed jobs more procs rest,
  )

  -- A new row with the next id, for an item that has no active job.
  pub append-SoundTable :
      (next : ℕ) (jobs : List (Job Position Fraction)) (j : Job Position Fraction)
      → j.id ≡ next
      → count (active_for j.item_id) jobs ≡ 0
      → SoundTable next jobs
      → SoundTable (suc next) (jobs ++ (j ∷ []))
  unfolding count
  append-SoundTable next jobs j is_next idle k = record {
    unique =
        λ i. ground (arith, is_next, count-append (has_id i) jobs (j ∷ []), k.unique i, k.fresh i);
    fresh = λ i h. ground (arith, is_next, count-append (has_id i) jobs (j ∷ []), k.fresh i);
    single = λ item. elim (Bool-cases (j.item_id == item)) [
      | inl e ↦
          let same : j.item_id ≡ item = (==_iff j.item_id item).0 e in
          let none_yet : count (active_for item) jobs ≡ 0 =
            subst (λ i. count (active_for i) jobs ≡ 0) same idle in
          ground (arith, count-append (active_for item) jobs (j ∷ []), none_yet)
      | inr e ↦ ground (arith, count-append (active_for item) jobs (j ∷ []), k.single item)
    ];
  }

  pub stop_tracking-Backed :
      (id : ℕ) (jobs : List (Job Position Fraction)) (procs : List (RunningProcess Fraction))
      → Backed jobs procs
      → Backed jobs (stop_tracking id procs)
  unfolding stop_tracking keep
  stop_tracking-Backed id jobs [] k = tt
  stop_tracking-Backed id jobs (p ∷ procs) (here, rest) = elim (Bool-cases (p.job_id == id)) [
    | inl e ↦ rw e (stop_tracking-Backed id jobs procs rest)
    | inr e ↦ rw e (here, stop_tracking-Backed id jobs procs rest)
  ]
