-- ===== src/Jobs/Steps.antt =====
-- A request for a transfer (backend/lftpweb/core/queue.py, `enqueue_item`) leaves the tables sound.
use lftpweb.Common.{
  ℕ, ◌≡◌, ◌≢◌, refl, Bool, Option, none, some, List, [], ◌∷◌, inl, inr, count, Bool-cases,
  Option-cases,
}
use lftpweb.Queue.Positions.{Arithmetic}
use lftpweb.Jobs.Rows.{Job, ItemRow, TransferQueue}
use lftpweb.Jobs.Table.{later_id, active_job_id, insert_job, new_job, NewJob, fetch_item}
use lftpweb.Jobs.Enqueue.{enqueue_item, enqueue_new, first_attempt}
use lftpweb.Jobs.Sound.{Sound, active_for, append-Backed, append-SoundTable}

module _ {Position Fraction : Type 0} where
  some_later : (j : Job Position Fraction) (o : Option ℕ) → later_id j o ≢ none
  some_later j none h = cc
  some_later j (some id) h = cc

  idle :
      (item : ℕ) (jobs : List (Job Position Fraction))
      → active_job_id item jobs ≡ none
      → count (active_for item) jobs ≡ 0
  unfolding active_job_id count
  idle item [] h = refl
  idle item (j ∷ js) h = elim (Bool-cases (active_for item j)) [
    | inl e ↦ absurd (some_later j (active_job_id item js) (rw e at h))
    | inr e ↦ rw e (idle item js (rw e at h))
  ]

  -- An insertion for an item without an active job.
  pub insert_job-Sound :
      (floats : Arithmetic Position) (n : NewJob Position Fraction)
      (s : TransferQueue Position Fraction)
      → count (active_for n.item_id) s.jobs ≡ 0
      → Sound s
      → Sound (insert_job floats n s)
  unfolding insert_job new_job
  insert_job-Sound floats n s none_active k = record {
    table = append-SoundTable s.next_id s.jobs _ refl none_active k.table;
    backed = append-Backed s.jobs _ s.running k.backed;
  }

  module _ (floats : Arithmetic Position) (percent : ℕ → Fraction) where
    enqueue_new-Sound :
        (item : ItemRow) (forced : Bool) (queued_at : ℕ) (position : Option Position)
        (s : TransferQueue Position Fraction)
        → active_job_id item.id s.jobs ≡ none
        → Sound s
        → Sound (enqueue_new floats percent item forced queued_at position s)
    unfolding enqueue_new
    enqueue_new-Sound item forced queued_at position s none_active k =
        let t =
          insert_job-Sound floats (first_attempt floats percent item forced queued_at position s) s
            (idle item.id s.jobs none_active) k in
        record { table = t.table; backed = t.backed }

    pub enqueue_item-Sound :
        (id : ℕ) (forced : Bool) (queued_at : ℕ) (position : Option Position)
        (s : TransferQueue Position Fraction)
        → Sound s
        → Sound (enqueue_item floats percent id forced queued_at position s).1
    unfolding enqueue_item
    enqueue_item-Sound id forced queued_at position s k =
        elim (Option-cases (fetch_item id s.items)) [
          | inl e ↦ rw e k
          | inr (item, e) ↦ rw e (elim (Option-cases (active_job_id item.id s.jobs)) [
            | inl a ↦ rw a (enqueue_new-Sound item forced queued_at position s a k)
            | inr (job, a) ↦ rw a k
          ])
        ]
