-- ===== src/Jobs/Stopping.antt =====
-- Stops, pauses and the throttle (backend/lftpweb/core/queue.py, `stop_job`, `pause`,
-- `set_site_bandwidth`) leave the tables sound.
use lftpweb.Common.{
  none_not_some, ℕ, ◌≤◌, ◌<◌, ◌≡◌, refl, sym, ◌∙◌, subst, Bool, true, false, ◌&&◌, not, Option,
  none, List, [], ◌∷◌, inl, inr, arith, ◌==◌, ltb, min, ==_iff, if◌then◌else◌, count, first, keep,
  is_some, All, Bool-cases, Option-cases,
}
use lftpweb.Common.Count.{count_le, count_split}
use lftpweb.Flight.Sql.{job_in, queued}
use lftpweb.Queue.Positions.{Arithmetic}
use lftpweb.Jobs.Rows.{Job, RunningProcess, TransferQueue}
use lftpweb.Jobs.Table.{fetch_job, running_process, stop_tracking}
use lftpweb.Jobs.Reap.{
  Exit, reap_one, reap_tracked, reap_stopped, reap_paused, reap_succeeded, reap_failed, is_zero,
  landed, trigger_if, retry, give_up,
}
use lftpweb.Jobs.Control.{
  stop_job, pause_each, pause_running_jobs, pause, set_site_bandwidth, stop_or_cancel,
  cancel_queued, throttled, with_throttle,
}
use lftpweb.Jobs.Sound.{Sound, Backed, has_id, runs_as, set_job-ended, set_job-Backed}
use lftpweb.Jobs.Ending.{
  Tracks, reap_one-Sound, both_branches_Sound, both_answers_Sound, Backed-process,
}

module _ {Position Fraction : Type 0} where
  -- Two running rows with one id have one item.
  one_item :
      (id a b : ℕ) (jobs : List (Job Position Fraction))
      → count (has_id id) jobs ≤ 1
      → 0 < count (runs_as id a) jobs
      → 0 < count (runs_as id b) jobs
      → a ≡ b
  one_item id a b jobs one x y = elim (Bool-cases (a == b)) [
    | inl e ↦ (==_iff a b).0 e
    | inr e ↦ absurd (
        omega (
          arith,
          one,
          x,
          y,
          count_split (λ j. j.item_id == a) (has_id id) jobs,
          count_le (runs_as id a) (λ j. has_id id j && (j.item_id == a)) jobs (λ j h. ground arith),
          count_le (runs_as id b) (λ j. has_id id j && not (j.item_id == a)) jobs
              (λ j h. ground (arith, e)),
        ))
  ]

  -- A process that is backed is tracked with its item.
  pub backed-Tracks :
      (q : RunningProcess Fraction) (s : TransferQueue Position Fraction)
      → Sound s
      → 0 < count (runs_as q.job_id q.item_id) s.jobs
      → Tracks q s.running
  backed-Tracks q s k here p h =
      let (there, same_job) = Backed-process q.job_id s.jobs s.running p k.backed h in
      one_item q.job_id p.item_id q.item_id s.jobs (k.table.unique q.job_id)
        (subst (λ i. 0 < count (runs_as i p.item_id) s.jobs) same_job there) here

  all_Tracks :
      (s : TransferQueue Position Fraction) (procs : List (RunningProcess Fraction))
      → Sound s
      → Backed s.jobs procs
      → All (λ q. Tracks q s.running) procs
  all_Tracks s [] k b = tt
  all_Tracks s (q ∷ procs) k (here, rest) = (backed-Tracks q s k here, all_Tracks s procs k rest)

running_process-stop_tracking :
    {Fraction : Type 0} (id k : ℕ) (procs : List (RunningProcess Fraction))
    → running_process id (stop_tracking k procs)
      ≡ (if id == k then none else running_process id procs)
unfolding running_process stop_tracking first keep
running_process-stop_tracking id k [] = ground arith
running_process-stop_tracking id k (q ∷ procs) = elim (Bool-cases (q.job_id == k)) [
  | inl e ↦ rw e (ground (arith, running_process-stop_tracking id k procs))
  | inr e ↦ rw e (ground (arith, running_process-stop_tracking id k procs))
]

untracked_others :
    {Fraction : Type 0} (id : ℕ) (procs : List (RunningProcess Fraction))
    → running_process id procs ≡ none
    → All (λ p. (p.job_id == id) ≡ false) procs
unfolding running_process first
untracked_others id [] h = tt
untracked_others id (p ∷ procs) h = elim (Bool-cases (p.job_id == id)) [
  | inl e ↦ absurd (none_not_some (sym (rw e at h)))
  | inr e ↦ (e, untracked_others id procs (rw e at h))
]

Tracks-stop_tracking :
    {Fraction : Type 0} (k : ℕ) (q : RunningProcess Fraction)
    (procs : List (RunningProcess Fraction))
    → Tracks q procs
    → Tracks q (stop_tracking k procs)
Tracks-stop_tracking k q procs t p h = elim (Bool-cases (q.job_id == k)) [
  | inl e ↦ absurd (none_not_some (rw (running_process-stop_tracking q.job_id k procs, e) at h))
  | inr e ↦ t p (rw (running_process-stop_tracking q.job_id k procs, e) at h)
]

module _ {Position Fraction : Type 0} (floats : Arithmetic Position) where
  landed-running :
      (settled complete : Bool) (proc : RunningProcess Fraction) (e : Exit)
      (t : TransferQueue Position Fraction)
      → (landed floats settled complete proc e t).running ≡ t.running
  unfolding landed
  landed-running true true proc e t = refl
  landed-running true false proc e t = refl
  landed-running false complete proc e t = refl

  trigger_if-running :
      (wanted : Bool) (id : ℕ) (t : TransferQueue Position Fraction)
      → (trigger_if floats wanted id t).running ≡ t.running
  trigger_if-running true id t = refl
  trigger_if-running false id t = refl

  same_running :
      (b : Bool) (t u : TransferQueue Position Fraction) (procs : List (RunningProcess Fraction))
      → t.running ≡ procs
      → u.running ≡ procs
      → (if b then t else u).running ≡ procs
  same_running true t u procs k l = k
  same_running false t u procs k l = l

  pub reap_tracked-running :
      (proc : RunningProcess Fraction) (e : Exit) (s : TransferQueue Position Fraction)
      → (reap_tracked floats proc e s).running ≡ s.running
  unfolding reap_stopped reap_paused reap_succeeded reap_failed retry give_up
  reap_tracked-running proc e s = same_running proc.stop_requested _ _ s.running refl (
      same_running proc.pause_requested _ _ s.running refl (
        same_running (is_zero e.code) _ _ s.running
          (trigger_if-running _ proc.item_id _ ∙ landed-running _ _ proc e _)
          (same_running _ _ _ s.running refl refl)))

  reap_one-Tracks :
      (q proc : RunningProcess Fraction) (e : Exit) (s : TransferQueue Position Fraction)
      → Tracks q s.running
      → Tracks q (reap_one floats proc e s).running
  unfolding reap_one
  reap_one-Tracks q proc e s t =
      elim (Bool-cases (is_some (running_process proc.job_id s.running))) [
        | inl a ↦ rw a (
            rw
              (reap_tracked-running proc e
                (record s { running = stop_tracking proc.job_id s.running }))
              (Tracks-stop_tracking proc.job_id q s.running t))
        | inr a ↦ rw a t
      ]

  all_still :
      (procs : List (RunningProcess Fraction)) (proc : RunningProcess Fraction) (e : Exit)
      (s : TransferQueue Position Fraction)
      → All (λ q. Tracks q s.running) procs
      → All (λ q. Tracks q (reap_one floats proc e s).running) procs
  all_still [] proc e s ts = tt
  all_still (q ∷ procs) proc e s (t, ts) =
      (reap_one-Tracks q proc e s t, all_still procs proc e s ts)

  module _ (exits : ℕ → Exit) where
    pause_each-Sound :
        (procs : List (RunningProcess Fraction)) (s : TransferQueue Position Fraction)
        → All (λ q. Tracks q s.running) procs
        → Sound s
        → Sound (pause_each floats exits procs s)
    unfolding pause_each
    pause_each-Sound [] s ts k = k
    pause_each-Sound (proc ∷ procs) s (t, ts) k =
        let asked = record proc { pause_requested = true } in
        pause_each-Sound procs (reap_one floats asked (exits proc.job_id) s)
          (all_still procs asked (exits proc.job_id) s ts)
          (reap_one-Sound floats asked (exits proc.job_id) s t k)

    pub pause_running_jobs-Sound :
        (s : TransferQueue Position Fraction) → Sound s → Sound (pause_running_jobs floats exits s)
    unfolding pause_running_jobs
    pause_running_jobs-Sound s k =
        pause_each-Sound s.running s (all_Tracks s s.running k k.backed) k

    pub pause-Sound :
        (stop_running : Bool) (deadline : Option ℕ) (s : TransferQueue Position Fraction)
        → Sound s
        → Sound (pause floats exits stop_running deadline s)
    unfolding pause
    pause-Sound stop_running deadline s k =
        both_branches_Sound stop_running
          (pause_running_jobs-Sound _ (record { table = k.table; backed = k.backed }))
          (record { table = k.table; backed = k.backed })

    cancel_queued-Sound :
        (job : Job Position Fraction) (now : ℕ) (s : TransferQueue Position Fraction)
        → running_process job.id s.running ≡ none
        → Sound s
        → Sound (cancel_queued floats exits job now s)
    cancel_queued-Sound job now s untracked k =
        both_branches_Sound (job_in job.state (queued ∷ []))
          (record {
            table =
                set_job-ended job.id _ (record { same_id = λ j. refl; same_item = λ j. refl })
                  s.jobs s.next_id (λ j. refl) k.table;
            backed =
                set_job-Backed job.id _ (record { same_id = λ j. refl; same_item = λ j. refl })
                  s.jobs s.running (untracked_others job.id s.running untracked) k.backed;
          })
          k

    stop_or_cancel-Sound :
        (job : Job Position Fraction) (now : ℕ) (s : TransferQueue Position Fraction)
        → Sound s
        → Sound (stop_or_cancel floats exits job (running_process job.id s.running) now s)
    stop_or_cancel-Sound job now s k = elim (Option-cases (running_process job.id s.running)) [
      | inl a ↦ rw a (cancel_queued-Sound job now s a k)
      | inr (p, a) ↦ rw a (
          let (here, same_job) = Backed-process job.id s.jobs s.running p k.backed a in
          reap_one-Sound floats (record p { stop_requested = true }) (exits p.job_id) s
            (backed-Tracks p s k here) k)
    ]

    pub stop_job-Sound :
        (id now : ℕ) (s : TransferQueue Position Fraction)
        → Sound s
        → Sound (stop_job floats exits id now s).1
    unfolding stop_job
    stop_job-Sound id now s k = elim (Option-cases (fetch_job id s.jobs)) [
      | inl a ↦ rw a k
      | inr (job, a) ↦ rw a (stop_or_cancel-Sound job now s k)
    ]

    throttled-Sound :
        (to_running : Bool) (applied : ℕ) (s : TransferQueue Position Fraction)
        → Sound s
        → Sound (throttled floats exits to_running applied s).1
    throttled-Sound to_running applied s k =
        both_answers_Sound (not to_running) _ _ (record { table = k.table; backed = k.backed })
          (both_answers_Sound s.paused _ _ (record { table = k.table; backed = k.backed })
            (let p =
                pause_running_jobs-Sound (record s { admission_hold = true })
                  (record { table = k.table; backed = k.backed }) in
              record { table = p.table; backed = p.backed }))

    pub set_site_bandwidth-Sound :
        (bandwidth : ℕ) (to_running : Bool) (s : TransferQueue Position Fraction)
        → Sound s
        → Sound (set_site_bandwidth floats exits bandwidth to_running s).1
    unfolding set_site_bandwidth
    set_site_bandwidth-Sound bandwidth to_running s k = both_answers_Sound (bandwidth == 0) _ _ k (
        both_answers_Sound (ltb bandwidth s.settings.min_share_floor_bps) _ _ k (
          throttled-Sound to_running (min bandwidth s.settings.max_bandwidth_bps)
            (with_throttle floats exits (min bandwidth s.settings.max_bandwidth_bps) s)
            (record { table = k.table; backed = k.backed })))
