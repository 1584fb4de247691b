-- ===== src/Queue/Reorder.antt =====
-- Where a moved job comes to stand in the queue (`move_job` and `move_to_top` of
-- backend/lftpweb/core/queue.py).
use lftpweb.Common.{ℕ, suc, keep, ◌≡◌, ◌≢◌, refl, none, some, List, [], ◌∷◌, All}
use lftpweb.Scheduler.{QueuedJob}
use lftpweb.Scheduler.Priority.{Sorted, sort_jobs-Sorted, All-NotAfter_trans, NotAfter}
use lftpweb.Queue.Positions.{
  Arithmetic, Spot, Direction, up, down, top, move_to, shift_up, shift_down, shift_of, find_spot,
  queued_jobs, at_position, JobRow, done, set_position, move_job, move_from, applied, outward,
  move_to_top, set_top, top_rank, is_queued, first_position, position_between,
}
use lftpweb.Queue.Place.{
  OrderedFloats, InQueue, Placed, passed, passed_up, passed_down, shift_between-strict,
  find_spot-InQueue, Above-ahead, Under-behind, lower_NotAfter, upper_NotAfter, across_heads,
  across_tails, All-NotAfter_to,
}

module _ {Position Fraction : Type 0} (floats : Arithmetic Position)
    (laws : OrderedFloats floats) where
  shift_up-Placed :
      (ahead : List (QueuedJob Position Fraction)) (t : QueuedJob Position Fraction)
      (behind : List (QueuedJob Position Fraction)) (x : Position)
      → InQueue floats ahead (t ∷ behind)
      → shift_up floats ahead ≡ move_to x
      → Placed floats
          (passed_up floats ahead (record { ahead = ahead; here = t; behind = behind }))
          x
  unfolding shift_up passed_up
  shift_up-Placed [] t behind x k h = cc
  shift_up-Placed (n ∷ rest) t behind x k h =
      let (above_x, under_x) =
        shift_between-strict floats laws (outward floats rest) (some n.queue_position) x h in
      let first = upper_NotAfter floats laws n t x under_x in
      record {
        after_ahead = Above-ahead floats laws t n x rest k.rising above_x;
        before_behind = (
          first,
          All-NotAfter_trans floats.before laws.order (at_position floats x t) n behind first
              k.across.0.1,
        );
      }

  shift_down-Placed :
      (ahead : List (QueuedJob Position Fraction)) (t : QueuedJob Position Fraction)
      (behind : List (QueuedJob Position Fraction)) (x : Position)
      → InQueue floats ahead (t ∷ behind)
      → shift_down floats behind ≡ move_to x
      → Placed floats
          (passed_down floats behind (record { ahead = ahead; here = t; behind = behind }))
          x
  unfolding shift_down passed_down
  shift_down-Placed ahead t [] x k h = cc
  shift_down-Placed ahead t (n ∷ rest) x k h =
      let (above_x, under_x) =
        shift_between-strict floats laws (some n.queue_position) (outward floats rest) x h in
      let last = lower_NotAfter floats laws n t x above_x in
      record {
        after_ahead = (
          last,
          All-NotAfter_to floats laws n (at_position floats x t) ahead
              (across_heads floats n rest ahead (across_tails floats t (n ∷ rest) ahead k.across))
              last,
        );
        before_behind = Under-behind floats laws t x rest k.sorted.1.1 under_x;
      }

  shift_of-Placed :
      (direction : Direction) (spot : Spot Position Fraction) (x : Position)
      → InQueue floats spot.ahead (spot.here ∷ spot.behind)
      → shift_of floats direction spot ≡ move_to x
      → Placed floats (passed floats direction spot) x
  unfolding shift_of passed
  shift_of-Placed up spot x k h = shift_up-Placed spot.ahead spot.here spot.behind x k h
  shift_of-Placed down spot x k h = shift_down-Placed spot.ahead spot.here spot.behind x k h
  shift_of-Placed top spot x k h = cc

  no_shift_top :
      (spot : Spot Position Fraction) (x : Position) → shift_of floats top spot ≢ move_to x
  unfolding shift_of
  no_shift_top spot x h = cc

  queue_start :
      (table : List (JobRow Position Fraction)) → InQueue floats [] (queued_jobs floats table)
  unfolding queued_jobs
  queue_start table = record {
    rising = tt;
    across = tt;
    sorted = sort_jobs-Sorted floats.before laws.order _;
  }

  found_place :
      (id : ℕ) (table : List (JobRow Position Fraction)) (spot : Spot Position Fraction)
      → find_spot floats id [] (queued_jobs floats table) ≡ some spot
      → InQueue floats spot.ahead (spot.here ∷ spot.behind)
  found_place id table spot f =
      find_spot-InQueue floats id [] (queued_jobs floats table) spot (queue_start table) f

  -- When a job is moved up or down and the midpoint is not exhausted, its position alone is
  -- changed, and with the new one it comes after all the jobs that were ahead of it and before all
  -- those that were behind it, but for its neighbour, which it has passed.
  pub move_job-Placed :
      (id : ℕ) (direction : Direction) (table : List (JobRow Position Fraction))
      (spot : Spot Position Fraction) (x : Position)
      → find_spot floats id [] (queued_jobs floats table) ≡ some spot
      → shift_of floats direction spot ≡ move_to x
      → (move_job floats id direction table ≡ done (set_position floats id x table))
        × Placed floats (passed floats direction spot) x
  unfolding move_job move_from applied
  move_job-Placed id up table spot x f h =
      (rw (f, h) refl, shift_of-Placed up spot x (found_place id table spot f) h)
  move_job-Placed id down table spot x f h =
      (rw (f, h) refl, shift_of-Placed down spot x (found_place id table spot f) h)
  move_job-Placed id top table spot x f h = absurd (no_shift_top spot x h)

  before_first :
      (t : QueuedJob Position Fraction) (qs : List (QueuedJob Position Fraction))
      → Sorted floats.before qs
      → All
          (NotAfter floats.before
            (at_position floats (position_between floats none (first_position floats qs)) t))
          qs
  unfolding position_between
  before_first t [] k = tt
  before_first t (q ∷ qs) k =
      Under-behind floats laws t (floats.one_less q.queue_position) (q ∷ qs) k
        (laws.less q.queue_position)

  -- A job that is moved to the top comes before every queued job, with the position that is written.
  pub move_to_top-first :
      (id : ℕ) (table : List (JobRow Position Fraction)) (t : QueuedJob Position Fraction)
      → let x = position_between floats none (first_position floats (queued_jobs floats table)) in
        (move_to_top floats id table
          ≡ set_top floats id x (suc (top_rank floats (keep is_queued table))) table)
        × All (NotAfter floats.before (at_position floats x t)) (queued_jobs floats table)
  unfolding move_to_top
  move_to_top-first id table t =
      (refl, before_first t (queued_jobs floats table) (queue_start table).sorted)
