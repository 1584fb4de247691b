-- ===== src/Jobs/Ending.antt =====
-- Every end of a transfer (backend/lftpweb/core/queue.py, `_reap_one`) leaves the tables sound.
use lftpweb.Common.{
  none_not_some, some_injective, if◌then◌else◌, ℕ, ◌<◌, ◌≡◌, refl, Bool, true, false, ◌&&◌, not,
  some, List, [], ◌∷◌, inl, inr, arith, ◌==◌, count, first, subst, ==_iff, All, Bool-cases,
  Option-cases,
}
use lftpweb.Common.Count.{count_le, count_split, count-update_lost}
use lftpweb.Queue.Positions.{Arithmetic}
use lftpweb.Lftp.Output.{ErrorClass, classify_output}
use lftpweb.Jobs.Rows.{Job, RunningProcess, TransferQueue}
use lftpweb.Jobs.Table.{runs, is_active, set_job, stop_tracking, running_process, current_attempt}
use lftpweb.Jobs.Reap.{
  Exit, reap_one, reap_tracked, reap_stopped, reap_paused, reap_succeeded, reap_failed, is_zero,
  retry, next_attempt, can_retry, fail_row, failed_as, finish_job, landed, trigger_if,
}
use lftpweb.Jobs.Sound.{
  Sound, SoundTable, Backed, Plain, active_for, runs_as, has_id, set_job-ended, set_job-active,
  set_job-Backed, stop_tracking-others, stop_tracking-Backed,
}
use lftpweb.Jobs.Steps.{insert_job-Sound}

-- A process that is tracked under the job of `proc` belongs to the item of `proc`.
abbrev pub Tracks :
    {Fraction : Type 0} → RunningProcess Fraction → List (RunningProcess Fraction) → Type 0
Tracks {Fraction} proc procs =
    (p : RunningProcess Fraction)
    → running_process proc.job_id procs ≡ some p
    → p.item_id ≡ proc.item_id

module _ {Position Fraction : Type 0} where
  -- The process of a running job is one of those that are tracked.
  pub Backed-process :
      (id : ℕ) (jobs : List (Job Position Fraction)) (procs : List (RunningProcess Fraction))
      (proc : RunningProcess Fraction)
      → Backed jobs procs
      → running_process id procs ≡ some proc
      → (0 < count (runs_as proc.job_id proc.item_id) jobs) × (proc.job_id ≡ id)
  unfolding running_process first
  Backed-process id jobs [] proc k h = absurd (none_not_some h)
  Backed-process id jobs (p ∷ procs) proc (here, rest) h = elim (Bool-cases (p.job_id == id)) [
    | inl e ↦
        let same : p ≡ proc = some_injective (rw e at h) in
        subst (λ q. (0 < count (runs_as q.job_id q.item_id) jobs) × (q.job_id ≡ id)) same
          (here, (==_iff p.job_id id).0 e)
    | inr e ↦ Backed-process id jobs procs proc rest (rw e at h)
  ]

  module _ (floats : Arithmetic Position) (proc : RunningProcess Fraction) (e : Exit)
      (s : TransferQueue Position Fraction) where
    -- The state before the branches of `_reap_one`: the process is no longer tracked, its job still
    -- runs in the table.
    abbrev Reaping : Type 0
    Reaping =
        SoundTable s.next_id s.jobs
        × (0 < count (runs_as proc.job_id proc.item_id) s.jobs)
        × All (λ p. (p.job_id == proc.job_id) ≡ false) s.running
        × Backed s.jobs s.running

    ended :
        (change : Job Position Fraction → Job Position Fraction)
        → Plain change
        → ((j : Job Position Fraction) → is_active (change j) ≡ false)
        → Reaping
        → SoundTable s.next_id (set_job proc.job_id change s.jobs)
          × Backed (set_job proc.job_id change s.jobs) s.running
    ended change plain ends (table, there, others, backed) = (
      set_job-ended proc.job_id change plain s.jobs s.next_id ends table,
      set_job-Backed proc.job_id change plain s.jobs s.running others backed,
    )

    reap_stopped-Sound : Reaping → Sound (reap_stopped floats proc e s)
    unfolding reap_stopped
    reap_stopped-Sound r =
        let (table, backed) =
          ended _ (record { same_id = λ j. refl; same_item = λ j. refl }) (λ j. refl) r in
        record { table = table; backed = backed }

    reap_paused-Sound : Reaping → Sound (reap_paused floats proc e s)
    unfolding reap_paused
    reap_paused-Sound (table, there, others, backed) = record {
      table =
          set_job-active proc.job_id _ (record { same_id = λ j. refl; same_item = λ j. refl })
            s.jobs s.next_id (λ j. j.item_id == proc.item_id && runs j) there (λ j a. ground arith)
            (λ j. refl) table;
      backed =
          set_job-Backed proc.job_id _ (record { same_id = λ j. refl; same_item = λ j. refl })
            s.jobs s.running others backed;
    }

    finished : Reaping → Sound (record s { jobs = finish_job floats proc e s.items s.jobs })
    unfolding finish_job
    finished r =
        let (table, backed) =
          ended _ (record { same_id = λ j. refl; same_item = λ j. refl }) (λ j. refl) r in
        record { table = table; backed = backed }

    failed_row :
        Reaping → Sound (record s { jobs = fail_row floats proc e (classify_output e.tail) s.jobs })
    unfolding fail_row
    failed_row r =
        let (table, backed) =
          ended _ (record { same_id = λ j. refl; same_item = λ j. refl }) (λ j. refl) r in
        record { table = table; backed = backed }

    -- After its job has failed the item has no active job.
    failed_idle :
        Reaping
        → count (active_for proc.item_id) (fail_row floats proc e (classify_output e.tail) s.jobs)
          ≡ 0
    unfolding fail_row set_job
    failed_idle (table, there, others, backed) = omega (
      arith,
      there,
      table.single proc.item_id,
      count-update_lost (has_id proc.job_id) (active_for proc.item_id)
          (failed_as floats e (classify_output e.tail)) s.jobs (λ j h. ground arith),
      count_split (has_id proc.job_id) (active_for proc.item_id) s.jobs,
      count_le (runs_as proc.job_id proc.item_id)
          (λ j. active_for proc.item_id j && has_id proc.job_id j) s.jobs (λ j h. ground arith),
      count_le (λ j. not (has_id proc.job_id j) && active_for proc.item_id j)
          (λ j. active_for proc.item_id j && not (has_id proc.job_id j)) s.jobs
          (λ j h. ground arith),
    )

  pub both_branches_Sound :
      {t u : TransferQueue Position Fraction} (b : Bool)
      → Sound t
      → Sound u
      → Sound (if b then t else u)
  both_branches_Sound true k l = k
  both_branches_Sound false k l = l

  pub both_answers_Sound :
      {A : Type 0} (b : Bool) (x y : A × TransferQueue Position Fraction)
      → Sound x.1
      → Sound y.1
      → Sound (if b then x else y).1
  both_answers_Sound true x y k l = k
  both_answers_Sound false x y k l = l

  landed-Sound :
      (floats : Arithmetic Position) (settled complete : Bool) (proc : RunningProcess Fraction)
      (e : Exit) (t : TransferQueue Position Fraction)
      → Sound t
      → Sound (landed floats settled complete proc e t)
  unfolding landed
  landed-Sound floats true true proc e t k = record { table = k.table; backed = k.backed }
  landed-Sound floats true false proc e t k = record { table = k.table; backed = k.backed }
  landed-Sound floats false complete proc e t k = record { table = k.table; backed = k.backed }

  trigger-Sound :
      (floats : Arithmetic Position) (wanted : Bool) (id : ℕ) (t : TransferQueue Position Fraction)
      → Sound t
      → Sound (trigger_if floats wanted id t)
  trigger-Sound floats true id t k = record { table = k.table; backed = k.backed }
  trigger-Sound floats false id t k = k

  module _ (floats : Arithmetic Position) (proc : RunningProcess Fraction) (e : Exit)
      (s : TransferQueue Position Fraction) where
    reap_succeeded-Sound : Reaping floats proc e s → Sound (reap_succeeded floats proc e s)
    unfolding reap_succeeded
    reap_succeeded-Sound r =
        let k = finished floats proc e s r in
        trigger-Sound floats _ proc.item_id _
          (landed-Sound floats _ _ proc e _ (record { table = k.table; backed = k.backed }))

    retried :
        (attempt : ℕ) (t : TransferQueue Position Fraction)
        → count (active_for proc.item_id) t.jobs ≡ 0
        → Sound t
        → Sound (retry floats proc e (classify_output e.tail) attempt t)
    unfolding retry
    retried attempt t none_active k =
        let u = insert_job-Sound floats (next_attempt floats proc e attempt) t none_active k in
        record { table = u.table; backed = u.backed }

    reap_failed-Sound : Reaping floats proc e s → Sound (reap_failed floats proc e s)
    unfolding reap_failed
    reap_failed-Sound r = elim (Bool-cases (can_retry floats class attempt t)) [
      | inl y ↦ rw y (retried attempt t (failed_idle floats proc e s r) k)
      | inr n ↦ rw n (record { table = k.table; backed = k.backed })
    ]
      where
        class : ErrorClass
        class = classify_output e.tail

        t : TransferQueue Position Fraction
        t = record s { jobs = fail_row floats proc e class s.jobs }

        attempt : ℕ
        attempt = current_attempt proc.job_id t.jobs

        k : Sound t
        k = failed_row floats proc e s r

    reap_tracked-Sound : Reaping floats proc e s → Sound (reap_tracked floats proc e s)
    reap_tracked-Sound r =
        both_branches_Sound proc.stop_requested (reap_stopped-Sound floats proc e s r) (
          both_branches_Sound proc.pause_requested (reap_paused-Sound floats proc e s r)
            (both_branches_Sound (is_zero e.code) (reap_succeeded-Sound r) (reap_failed-Sound r)))

  pub reap_one-Sound :
      (floats : Arithmetic Position) (proc : RunningProcess Fraction) (e : Exit)
      (s : TransferQueue Position Fraction)
      → Tracks proc s.running
      → Sound s
      → Sound (reap_one floats proc e s)
  unfolding reap_one
  reap_one-Sound floats proc e s tracked k =
      elim (Option-cases (running_process proc.job_id s.running)) [
        | inl a ↦ rw a k
        | inr (p, a) ↦ rw a (
            let (here, same_job) = Backed-process proc.job_id s.jobs s.running p k.backed a in
            reap_tracked-Sound floats proc e
              (record s { running = stop_tracking proc.job_id s.running })
              (
                k.table,
                subst (λ i. 0 < count (runs_as proc.job_id i) s.jobs) (tracked p a)
                    (subst (λ i. 0 < count (runs_as i p.item_id) s.jobs) same_job here),
                stop_tracking-others proc.job_id s.running,
                stop_tracking-Backed proc.job_id s.jobs s.running k.backed,
              ))
      ]
