-- ===== src/Scheduler/Once.antt =====
-- How often a queued job is admitted (`admit` of backend/lftpweb/core/scheduler.py).
use lftpweb.Common.{
  zero, suc, ℕ, ◌+◌, ◌≤◌, ◌≡◌, refl, ◌∙◌, Bool, true, false, ◌&&◌, not, List, [], ◌∷◌, ◌++◌, inl,
  inr, arith, ◌==◌, ltb, any, keep, map, take, Bool-cases, elem, count, if◌then◌else◌,
}
use lftpweb.Common.Count.{count-append, count_le, count_split}
use lftpweb.Scheduler.{
  SchedulerSettings, RunningJob, QueuedJob, AdmitDecision, Lane, main, is_main, is_forced, decide,
  insert_job, sort_jobs, force, forced_decisions, admit_main, admit_ready, admit_small, admit,
  small_queue, small_ready, small, main_queue, main_ready, headroom,
}
use lftpweb.Scheduler.Forced.{main_not_forced}

pub count-keep {ℓ} :
    {A : Type ℓ} (p f : A → Bool) (xs : List A) → count p (keep f xs) ≡ count (λ x. f x && p x) xs
unfolding count keep
count-keep p f [] = refl
count-keep p f (x ∷ xs) = ground (arith, count-keep p f xs)

pub count-map {ℓ κ} :
    {A : Type ℓ} {B : Type κ} (p : B → Bool) (f : A → B) (xs : List A)
    → count p (map f xs) ≡ count (λ x. p (f x)) xs
unfolding count
count-map p f [] = refl
count-map p f (x ∷ xs) = ground (arith, count-map p f xs)

count-take {ℓ} :
    {A : Type ℓ} (p : A → Bool) (n : ℕ) (xs : List A) → count p (take n xs) ≤ count p xs
unfolding count take
count-take p zero xs = omega arith
count-take p (suc n) [] = omega arith
count-take p (suc n) (x ∷ xs) = ground (arith, count-take p n xs)

pub none_counted {ℓ} : {A : Type ℓ} (p : A → Bool) (xs : List A) → any p xs ≡ false → count p xs ≡ 0
unfolding count any
none_counted p [] h = refl
none_counted p (x ∷ xs) h = ground (arith, h, none_counted p xs)

module _ {Position Fraction : Type 0} (before : Position → Position → Bool) where
  count-insert_job :
      (p : QueuedJob Position Fraction → Bool) (q : QueuedJob Position Fraction)
      (qs : List (QueuedJob Position Fraction))
      → count p (insert_job before q qs) ≡ count p (q ∷ qs)
  unfolding count insert_job
  count-insert_job p q [] = refl
  count-insert_job p q (r ∷ rs) = ground (arith, count-insert_job p q rs)

  count-sort_jobs :
      (p : QueuedJob Position Fraction → Bool) (qs : List (QueuedJob Position Fraction))
      → count p (sort_jobs before qs) ≡ count p qs
  unfolding count sort_jobs
  count-sort_jobs p [] = refl
  count-sort_jobs p (q ∷ qs) =
      count-insert_job p q (sort_jobs before qs) ∙ ground (arith, count-sort_jobs p qs)

module _ {Position Fraction : Type 0} (before : Position → Position → Bool)
    (scaled : Fraction → ℕ → ℕ) (settings : SchedulerSettings) (id : ℕ) where
  abbrev named : AdmitDecision Fraction → Bool
  named d = d.job_id == id

  abbrev same : QueuedJob Position Fraction → Bool
  same q = q.id == id

  forced_count :
      (queue : List (QueuedJob Position Fraction))
      → count named (forced_decisions before scaled settings queue)
        ≤ count (λ q. is_main q.lane && same q) queue
  unfolding forced_decisions force
  forced_count queue = omega (
    arith,
    count-map named (force before scaled settings) (sort_jobs before (keep is_forced queue)),
    count-sort_jobs before same (keep is_forced queue),
    count-keep same is_forced queue,
    count_le (λ q. is_forced q && same q) (λ q. is_main q.lane && same q) queue
        (λ q h. ground (arith, h)),
  )

  decided_count :
      (lane : Lane) (rate n : ℕ) (qs : List (QueuedJob Position Fraction))
      → count named (map (decide lane rate) (take n (sort_jobs before qs))) ≤ count same qs
  decided_count lane rate n qs = omega (
    arith,
    count-map named (decide lane rate) (take n (sort_jobs before qs)),
    count-take same n (sort_jobs before qs),
    count-sort_jobs before same qs,
  )

  either_count :
      (b : Bool) (ds : List (AdmitDecision Fraction)) (n : ℕ)
      → count named ds ≤ n
      → count named (if b then ds else []) ≤ n
  unfolding count
  either_count true ds n h = h
  either_count false ds n h = omega arith

  main_count :
      (running : List RunningJob) (queue : List (QueuedJob Position Fraction))
      (forced : List (AdmitDecision Fraction))
      → count named (admit_main before scaled settings running queue forced)
        ≤ count (λ q. is_main q.lane && same q) queue
  unfolding admit_main admit_ready main_queue
  main_count running queue forced =
      let mine = λ (q : QueuedJob Position Fraction).
        is_main q.lane && not (elem q.id (map (λ d. d.job_id) forced)) in
      omega (
        arith,
        either_count
            (ltb 0 (main_ready before scaled settings running queue forced)
              && ltb 0 (headroom before scaled settings running forced))
            _ (count same (main_queue before scaled settings queue forced))
            (decided_count main _ _ (main_queue before scaled settings queue forced)),
        count-keep same mine queue,
        count_le (λ q. mine q && same q) (λ q. is_main q.lane && same q) queue
            (λ q h. ground (arith, h)),
      )

  small_count :
      (running : List RunningJob) (queue : List (QueuedJob Position Fraction))
      → count named (admit_small before scaled settings running queue)
        ≤ count (λ q. not (is_main q.lane) && same q) queue
  unfolding admit_small
  small_count running queue = omega (
    arith,
    either_count (ltb 0 (small_ready before scaled settings running queue)) _
        (count same (small_queue queue)) (decided_count small _ _ (small_queue queue)),
    count-keep same (λ q. not (is_main q.lane)) queue,
  )

  forced_or_main :
      (running : List RunningJob) (queue : List (QueuedJob Position Fraction))
      → count named (forced_decisions before scaled settings queue)
          + count named (
              admit_main before scaled settings running queue
                (forced_decisions before scaled settings queue))
        ≤ count (λ q. is_main q.lane && same q) queue
  forced_or_main running queue =
      let forced = forced_decisions before scaled settings queue in
      elim (Bool-cases (any named forced)) [
        | inl e ↦ omega (
          arith,
          none_counted named (admit_main before scaled settings running queue forced)
              (main_not_forced before scaled settings id running queue forced e),
          forced_count queue,
        )
        | inr e ↦ omega (arith, none_counted named forced e, main_count running queue forced)
      ]

  -- A job is admitted as often as it stands in the queue at most.
  pub count-admit :
      (running : List RunningJob) (queue : List (QueuedJob Position Fraction))
      → count named (admit before scaled settings running queue) ≤ count same queue
  unfolding admit
  count-admit running queue =
      let forced = forced_decisions before scaled settings queue in
      let ms = admit_main before scaled settings running queue forced in
      let ss = admit_small before scaled settings running queue in
      omega (
        arith,
        count-append named forced (ms ++ ss),
        count-append named ms ss,
        forced_or_main running queue,
        small_count running queue,
        count_split (λ q. is_main q.lane) same queue,
        count_le (λ q. is_main q.lane && same q) (λ q. same q && is_main q.lane) queue
            (λ q h. ground (arith, h)),
        count_le (λ q. not (is_main q.lane) && same q) (λ q. same q && not (is_main q.lane)) queue
            (λ q h. ground (arith, h)),
      )
