-- ===== src/Scheduler/Priority.antt =====
-- The order in which `admit` (backend/lftpweb/core/scheduler.py) looks at the queued jobs: by
-- `_priority_key`, the queue position and then the id.
use mathlib.Core.List.{Perm}
use mathlib.Core.List.Perm
use lftpweb.Common.{
  suc, ◌≡◌, refl, ap, ◌∙◌, inl, inr, Bool, true, false, List, [], ◌∷◌, arith, length, All,
  Bool-cases,
}
use lftpweb.Scheduler.{QueuedJob, priority_leb, insert_job, sort_jobs}

-- What sorting relies on of `<` on queue positions: floats that are not NaN.
pub record PositionOrder {Position : Type 0} (before : Position → Position → Bool) : Type 0 where
  pub asym : (a b : Position) → before a b ≡ true → before b a ≡ false
  pub trans : (a b c : Position) → before b a ≡ false → before c b ≡ false → before c a ≡ false

module _ {Position Fraction : Type 0} (before : Position → Position → Bool) where
  insert_job-perm :
      (q : (QueuedJob Position Fraction)) (qs : List (QueuedJob Position Fraction))
      → Perm (insert_job before q qs) (q ∷ qs)
  unfolding insert_job
  insert_job-perm q [] = Perm.refl _
  insert_job-perm q (r ∷ rs) = elim (Bool-cases (priority_leb before q r)) [
    | inl e ↦ rw e (Perm.refl _)
    | inr e ↦ rw e (Perm.trans (Perm.cons r (insert_job-perm q rs)) (Perm.swap q r rs))
  ]

  pub sort_jobs-perm : (qs : List (QueuedJob Position Fraction)) → Perm (sort_jobs before qs) qs
  unfolding sort_jobs
  sort_jobs-perm [] = Perm.refl _
  sort_jobs-perm (q ∷ qs) =
      Perm.trans (insert_job-perm q (sort_jobs before qs)) (Perm.cons q (sort_jobs-perm qs))

  length-insert_job :
      (q : (QueuedJob Position Fraction)) (qs : List (QueuedJob Position Fraction))
      → length (insert_job before q qs) ≡ suc (length qs)
  unfolding insert_job
  length-insert_job q [] = refl
  length-insert_job q (r ∷ rs) = ground (arith, length-insert_job q rs)

  pub length-sort_jobs :
      (qs : List (QueuedJob Position Fraction)) → length (sort_jobs before qs) ≡ length qs
  unfolding sort_jobs
  length-sort_jobs [] = refl
  length-sort_jobs (q ∷ qs) =
      length-insert_job q (sort_jobs before qs) ∙ ap suc (length-sort_jobs qs)

  -- `a` is not after `b` in the order of priority.
  abbrev pub NotAfter : (QueuedJob Position Fraction) → (QueuedJob Position Fraction) → Type 0
  NotAfter a b = priority_leb before a b ≡ true

  -- Each job is not after any that follows it.
  abbrev pub Sorted : List (QueuedJob Position Fraction) → Type 0
  Sorted [] = Unit
  Sorted (q ∷ qs) = All (NotAfter q) qs × Sorted qs

  module _ (order : PositionOrder before) where
    pub priority_total :
        (a b : (QueuedJob Position Fraction)) → priority_leb before a b ≡ false → NotAfter b a
    priority_total a b h = ground (
      arith,
      order.asym a.queue_position b.queue_position,
      order.asym b.queue_position a.queue_position,
    )

    pub priority_trans :
        (a b c : (QueuedJob Position Fraction)) → NotAfter a b → NotAfter b c → NotAfter a c
    priority_trans a b c h k = ground (
      arith,
      order.asym a.queue_position b.queue_position,
      order.asym b.queue_position c.queue_position,
      order.asym a.queue_position c.queue_position,
      order.trans a.queue_position b.queue_position c.queue_position,
      order.trans b.queue_position c.queue_position a.queue_position,
      order.trans c.queue_position a.queue_position b.queue_position,
    )

    pub All-NotAfter_trans :
        (a b : (QueuedJob Position Fraction)) (qs : List (QueuedJob Position Fraction))
        → NotAfter a b
        → All (NotAfter b) qs
        → All (NotAfter a) qs
    All-NotAfter_trans a b [] h k = tt
    All-NotAfter_trans a b (q ∷ qs) h k =
        (priority_trans a b q h k.0, All-NotAfter_trans a b qs h k.1)

    All-insert_job :
        (a q : (QueuedJob Position Fraction)) (qs : List (QueuedJob Position Fraction))
        → NotAfter a q
        → All (NotAfter a) qs
        → All (NotAfter a) (insert_job before q qs)
    unfolding insert_job
    All-insert_job a q [] h k = (h, tt)
    All-insert_job a q (r ∷ rs) h k = elim (Bool-cases (priority_leb before q r)) [
      | inl e ↦ rw e (h, k)
      | inr e ↦ rw e (k.0, All-insert_job a q rs h k.1)
    ]

    insert_job-Sorted :
        (q : (QueuedJob Position Fraction)) (qs : List (QueuedJob Position Fraction))
        → Sorted qs
        → Sorted (insert_job before q qs)
    unfolding insert_job
    insert_job-Sorted q [] h = (tt, tt)
    insert_job-Sorted q (r ∷ rs) h = elim (Bool-cases (priority_leb before q r)) [
      | inl e ↦ rw e ((e, All-NotAfter_trans q r rs e h.0), h)
      | inr e ↦ rw e (All-insert_job r q rs (priority_total q r e) h.0, insert_job-Sorted q rs h.1)
    ]

    pub sort_jobs-Sorted : (qs : List (QueuedJob Position Fraction)) → Sorted (sort_jobs before qs)
    unfolding sort_jobs
    sort_jobs-Sorted [] = tt
    sort_jobs-Sorted (q ∷ qs) = insert_job-Sorted q (sort_jobs before qs) (sort_jobs-Sorted qs)
