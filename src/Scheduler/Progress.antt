-- ===== src/Scheduler/Progress.antt =====
-- How many main-lane jobs `admit` (backend/lftpweb/core/scheduler.py) starts, and which ones.
use mathlib.Core.List.{Perm}
use lftpweb.Common.{
  ℕ, zero, suc, ◌/◌, ◌≤◌, ◌<◌, ◌≡◌, refl, sym, ap, subst, Bool, true, ◌&&◌, List, [], ◌∷◌, ◌++◌,
  map, arith, ltb, length, take, length-take, All,
}
use lftpweb.Scheduler.{
  main, SchedulerSettings, RunningJob, QueuedJob, AdmitDecision, shrink_ready, sort_jobs, decide,
  main_queue, headroom, main_ready, admit_ready, admit_main,
}
use lftpweb.Scheduler.Bounds.{Shrunk, shrink_ready-Shrunk}
use lftpweb.Scheduler.Priority.{
  PositionOrder, sort_jobs-perm, length-sort_jobs, NotAfter, Sorted, sort_jobs-Sorted,
}

module _ {ℓ} {A : Type ℓ} where
  -- `xs[n:]`
  drop : ℕ → List A → List A
  drop zero xs = xs
  drop (suc n) [] = []
  drop (suc n) (x ∷ xs) = drop n xs

  take-append-drop : (n : ℕ) (xs : List A) → take n xs ++ drop n xs ≡ xs
  unfolding take drop
  take-append-drop zero xs = refl
  take-append-drop (suc n) [] = refl
  take-append-drop (suc n) (x ∷ xs) = ap (◌∷◌ x) (take-append-drop n xs)

module _ {Position Fraction : Type 0} (before : Position → Position → Bool) where
  All-drop :
      (a : QueuedJob Position Fraction) (n : ℕ) (qs : List (QueuedJob Position Fraction))
      → All (NotAfter before a) qs
      → All (NotAfter before a) (drop n qs)
  unfolding drop
  All-drop a zero qs h = h
  All-drop a (suc n) [] h = tt
  All-drop a (suc n) (q ∷ qs) h = All-drop a n qs h.1

  take_before_drop :
      (n : ℕ) (qs : List (QueuedJob Position Fraction))
      → Sorted before qs
      → All (λ a. All (NotAfter before a) (drop n qs)) (take n qs)
  unfolding take drop
  take_before_drop zero qs h = tt
  take_before_drop (suc n) [] h = tt
  take_before_drop (suc n) (q ∷ qs) h = (All-drop q n qs h.0, take_before_drop n qs h.1)

  -- The jobs that are started are as many as the floor loop leaves, each at the same share; with
  -- those that wait they are all the jobs, and none of those that wait is before any of them.
  pub record Started (room floor ready : ℕ) (jobs : List (QueuedJob Position Fraction))
      (ds : List (AdmitDecision Fraction)) : Type 0 where
    pub started : List (QueuedJob Position Fraction)
    pub waiting : List (QueuedJob Position Fraction)
    pub all_jobs : Perm (started ++ waiting) jobs
    pub in_order : All (λ a. All (NotAfter before a) waiting) started
    pub how_many : Shrunk room floor ready (length started)
    pub decisions : ds ≡ map (decide main (room / length started)) started

module _ {Position Fraction : Type 0} (before : Position → Position → Bool)
    (scaled : Fraction → ℕ → ℕ) (settings : SchedulerSettings) where
  open settings use {min_share_floor_bps}

  start_jobs :
      (order : PositionOrder before) (room n : ℕ) (jobs : List (QueuedJob Position Fraction))
      → suc n ≤ length jobs
      → let left = shrink_ready room min_share_floor_bps (suc n) in
        let qs = take left (sort_jobs before jobs) in
        Started before room min_share_floor_bps (suc n) jobs (map (decide main (room / left)) qs)
  start_jobs order room n jobs h =
      let left = shrink_ready room min_share_floor_bps (suc n) in
      let sorted = sort_jobs before jobs in
      let shrunk = shrink_ready-Shrunk room min_share_floor_bps n in
      let count : length (take left sorted) ≡ left =
        omega (arith, length-take left sorted, length-sort_jobs before jobs, shrunk.no_more) in
      record {
        started = take left sorted;
        waiting = drop left sorted;
        all_jobs =
            subst (λ qs. Perm qs jobs) (sym (take-append-drop left sorted))
              (sort_jobs-perm before jobs);
        in_order = take_before_drop before left sorted (sort_jobs-Sorted before order jobs);
        how_many = subst (Shrunk room min_share_floor_bps (suc n)) (sym count) shrunk;
        decisions = ap (λ k. map (decide main (room / k)) (take left sorted)) (sym count);
      }

  admit_ready-Started :
      (order : PositionOrder before) (room ready : ℕ) (jobs : List (QueuedJob Position Fraction))
      → 0 < room
      → 0 < ready
      → ready ≤ length jobs
      → Started before room min_share_floor_bps ready jobs
          (admit_ready before scaled settings room ready jobs)
  unfolding admit_ready
  admit_ready-Started order room zero jobs h k l = absurd (omega arith)
  admit_ready-Started order zero (suc n) jobs h k l = absurd (omega arith)
  admit_ready-Started order (suc r) (suc n) jobs h k l =
      let open_door : (ltb 0 (suc n) && ltb 0 (suc r)) ≡ true = ground arith in
      rw open_door (start_jobs order (suc r) n jobs l)

  -- While there is headroom, a free slot and a main-lane job that is not forced, the main lane
  -- starts the largest number of jobs whose equal shares of the headroom reach the floor, or one;
  -- and no job that is left waiting comes before one that is started.
  pub admit_main-Started :
      (order : PositionOrder before) (running : List RunningJob)
      (queue : List (QueuedJob Position Fraction)) (forced : List (AdmitDecision Fraction))
      → 0 < headroom before scaled settings running forced
      → 0 < main_ready before scaled settings running queue forced
      → Started before
          (headroom before scaled settings running forced)
          min_share_floor_bps
          (main_ready before scaled settings running queue forced)
          (main_queue before scaled settings queue forced)
          (admit_main before scaled settings running queue forced)
  unfolding admit_main
  admit_main-Started order running queue forced h k =
      admit_ready-Started order (headroom before scaled settings running forced)
        (main_ready before scaled settings running queue forced)
        (main_queue before scaled settings queue forced) h k (omega arith)
