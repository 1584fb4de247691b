-- ===== src/Scheduler/Forced.antt =====
-- The jobs that a user has forced, and the others (`admit` of backend/lftpweb/core/scheduler.py).
use mathlib.Core.Bool.{false≢true}
use lftpweb.Common.{
  suc, ℕ, ◌≡◌, refl, sym, ◌∙◌, ap, Bool, true, false, ◌&&◌, ◌||◌, not, List, [], ◌∷◌, ◌++◌, inl,
  inr, arith, ◌==◌, ltb, any, keep, map, take, any-append, Bool-cases, elem, zero, ==_iff,
}
use lftpweb.Scheduler.{
  SchedulerSettings, RunningJob, QueuedJob, AdmitDecision, Lane, main, is_main, is_forced, decide,
  insert_job, sort_jobs, force, forced_decisions, admit_main, admit_ready, admit_small, admit,
  main_queue, main_ready, headroom,
}

module _ {Position Fraction : Type 0} (before : Position → Position → Bool) where
  any-insert_job :
      (p : QueuedJob Position Fraction → Bool) (q : QueuedJob Position Fraction)
      (qs : List (QueuedJob Position Fraction))
      → any p (insert_job before q qs) ≡ (p q || any p qs)
  unfolding any insert_job
  any-insert_job p q [] = refl
  any-insert_job p q (r ∷ rs) = ground (arith, any-insert_job p q rs)

  any-sort_jobs :
      (p : QueuedJob Position Fraction → Bool) (qs : List (QueuedJob Position Fraction))
      → any p (sort_jobs before qs) ≡ any p qs
  unfolding any sort_jobs
  any-sort_jobs p [] = refl
  any-sort_jobs p (q ∷ qs) =
      any-insert_job p q (sort_jobs before qs) ∙ ap (λ b. p q || b) (any-sort_jobs p qs)

any-keep {ℓ} :
    {A : Type ℓ} (p f : A → Bool) (xs : List A) → any p (keep f xs) ≡ any (λ x. f x && p x) xs
unfolding any keep
any-keep p f [] = refl
any-keep p f (x ∷ xs) = ground (arith, any-keep p f xs)

any-map {ℓ κ} :
    {A : Type ℓ} {B : Type κ} (p : B → Bool) (f : A → B) (xs : List A)
    → any p (map f xs) ≡ any (λ x. p (f x)) xs
unfolding any
any-map p f [] = refl
any-map p f (x ∷ xs) = ap (λ b. p (f x) || b) (any-map p f xs)

any-take {ℓ} :
    {A : Type ℓ} (p : A → Bool) (n : ℕ) (xs : List A) → any p (take n xs) ≡ true → any p xs ≡ true
unfolding any take
any-take p zero xs h = cc
any-take p (suc n) [] h = cc
any-take p (suc n) (x ∷ xs) h = ground (arith, any-take p n xs)

module _ {Position Fraction : Type 0} (before : Position → Position → Bool)
    (scaled : Fraction → ℕ → ℕ) (settings : SchedulerSettings) where
  pub forced_any :
      (id : ℕ) (queue : List (QueuedJob Position Fraction))
      → any (λ d. d.job_id == id) (forced_decisions before scaled settings queue)
        ≡ any (λ q. is_forced q && q.id == id) queue
  unfolding forced_decisions force
  forced_any id queue =
      any-map (λ d. d.job_id == id) (force before scaled settings)
        (sort_jobs before (keep is_forced queue))
      ∙ (any-sort_jobs before (λ q. q.id == id) (keep is_forced queue)
          ∙ any-keep (λ q. q.id == id) is_forced queue)

  decided_any :
      (lane : Lane) (rate n id : ℕ) (qs : List (QueuedJob Position Fraction))
      → any (λ d. d.job_id == id) (map (decide lane rate) (take n (sort_jobs before qs))) ≡ true
      → any (λ q. q.id == id) qs ≡ true
  decided_any lane rate n id qs h =
      sym (any-sort_jobs before (λ q. q.id == id) qs)
      ∙ any-take (λ q. q.id == id) n (sort_jobs before qs)
          (sym (any-map (λ d. d.job_id == id) (decide lane rate) (take n (sort_jobs before qs)))
            ∙ h)

  main_any :
      (id room ready : ℕ) (jobs : List (QueuedJob Position Fraction))
      → any (λ d. d.job_id == id) (admit_ready before scaled settings room ready jobs) ≡ true
      → any (λ q. q.id == id) jobs ≡ true
  unfolding admit_ready any
  main_any id room ready jobs h = elim (Bool-cases (ltb 0 ready && ltb 0 room)) [
    | inl e ↦ decided_any main _ _ id jobs (rw e at h)
    | inr e ↦ let q : false ≡ true = rw e at h in cc
  ]

  forced_elem :
      (id : ℕ) (ds : List (AdmitDecision Fraction))
      → elem id (map (λ d. d.job_id) ds) ≡ any (λ d. d.job_id == id) ds
  unfolding elem any
  forced_elem id [] = refl
  forced_elem id (d ∷ ds) = ground (arith, forced_elem id ds)

  not_again :
      (id : ℕ) (ids : List ℕ) (qs : List (QueuedJob Position Fraction))
      → elem id ids ≡ true
      → any (λ q. (is_main q.lane && not (elem q.id ids)) && q.id == id) qs ≡ false
  unfolding any
  not_again id ids [] h = refl
  not_again id ids (q ∷ qs) h = elim (Bool-cases (q.id == id)) [
    | inl e ↦
        let same : elem q.id ids ≡ true = ap (λ n. elem n ids) ((==_iff q.id id).0 e) ∙ h in
        rw (e, same) (ground (arith, not_again id ids qs h))
    | inr e ↦ rw e (ground (arith, not_again id ids qs h))
  ]

  three :
      (id : ℕ) (fs ms ss : List (AdmitDecision Fraction))
      → any (λ d. d.job_id == id) (fs ++ (ms ++ ss)) ≡ (
          any (λ d. d.job_id == id) fs
          || (any (λ d. d.job_id == id) ms || any (λ d. d.job_id == id) ss))
  three id fs ms ss =
      any-append (λ d. d.job_id == id) fs (ms ++ ss)
      ∙ ap (λ b. any (λ d. d.job_id == id) fs || b) (any-append (λ d. d.job_id == id) ms ss)

  main_queued :
      (id : ℕ) (running : List RunningJob) (queue : List (QueuedJob Position Fraction))
      (forced : List (AdmitDecision Fraction))
      → any (λ d. d.job_id == id) (admit_main before scaled settings running queue forced) ≡ true
      → any (λ q. q.id == id) (main_queue before scaled settings queue forced) ≡ true
  unfolding admit_main
  main_queued id running queue forced h =
      main_any id (headroom before scaled settings running forced)
        (main_ready before scaled settings running queue forced)
        (main_queue before scaled settings queue forced) h

  pub main_not_forced :
      (id : ℕ) (running : List RunningJob) (queue : List (QueuedJob Position Fraction))
      (forced : List (AdmitDecision Fraction))
      → any (λ d. d.job_id == id) forced ≡ true
      → any (λ d. d.job_id == id) (admit_main before scaled settings running queue forced) ≡ false
  unfolding main_queue
  main_not_forced id running queue forced f =
      elim (Bool-cases
        (any (λ d. d.job_id == id) (admit_main before scaled settings running queue forced))) [
          | inl e ↦
              let here : any
                    (λ q.
                      (is_main q.lane && not (elem q.id (map (λ d. d.job_id) forced)))
                      && q.id == id)
                    queue
                  ≡ true =
                sym (
                  any-keep (λ q. q.id == id)
                    (λ q. is_main q.lane && not (elem q.id (map (λ d. d.job_id) forced))) queue)
                ∙ main_queued id running queue forced e in
              absurd (
                false≢true (
                  sym (not_again id (map (λ d. d.job_id) forced) queue (forced_elem id forced ∙ f))
                  ∙ here))
          | inr e ↦ e
        ]

  -- A job that is forced is always admitted, and not a second time among the other jobs of the
  -- main lane.
  pub admit-forced :
      (id : ℕ) (running : List RunningJob) (queue : List (QueuedJob Position Fraction))
      → any (λ q. is_forced q && q.id == id) queue ≡ true
      → (any (λ d. d.job_id == id) (admit before scaled settings running queue) ≡ true)
        × (any
              (λ d. d.job_id == id)
              (admit_main before scaled settings running queue
                (forced_decisions before scaled settings queue))
            ≡ false)
  unfolding admit
  admit-forced id running queue h =
      let fs = forced_decisions before scaled settings queue in
      let ms = admit_main before scaled settings running queue fs in
      let ss = admit_small before scaled settings running queue in
      (
        three id fs ms ss ∙ rw (forced_any id queue ∙ h) refl,
        main_not_forced id running queue fs (forced_any id queue ∙ h),
      )
