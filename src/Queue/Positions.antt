-- ===== src/Queue/Positions.antt =====
-- The order of the queue and the actions that change it (backend/lftpweb/core/queue.py,
-- `position_between`, `move_to_top` and `move_job`). Positions are floats in the source: here they
-- are any type with the operations that are used of floats.
use lftpweb.Common.{
  ℕ, suc, Bool, false, ◌&&◌, ◌||◌, not, Option, none, some, List, [], ◌∷◌, ◌==◌, map, keep, max,
  if◌then◌else◌,
}
use lftpweb.Flight.Sql.{JobState, queued}
use lftpweb.Flight.Sql.{job_in}
use lftpweb.Scheduler.{QueuedJob, sort_jobs}

-- `x < y`, `x - 1.0`, `x + 1.0`, `(x + y) / 2.0` and `float(n)`.
pub record Arithmetic (Position : Type 0) : Type 0 where
  pub before : Position → Position → Bool
  pub one_less : Position → Position
  pub one_more : Position → Position
  pub middle : Position → Position → Position
  pub from_number : ℕ → Position

-- A row of the table `job`.
pub record JobRow (Position Fraction : Type 0) : Type 0 where
  pub job : QueuedJob Position Fraction
  pub state : JobState
  pub rank : ℕ

abbrev pub is_queued : {Position Fraction : Type 0} → JobRow Position Fraction → Bool
is_queued row = job_in row.state (queued ∷ [])

-- The rows before a job in the queue, nearest first; the job; the rows after it, nearest first.
pub record Spot (Position Fraction : Type 0) : Type 0 where
  pub ahead : List (QueuedJob Position Fraction)
  pub here : QueuedJob Position Fraction
  pub behind : List (QueuedJob Position Fraction)

pub data Direction : Type 0 where
  up down top : Direction

-- What a move comes to with the positions as they are.
pub data Shift (Position : Type 0) : Type 0 where
  at_edge : Shift Position
  exhausted : Shift Position
  move_to : Position → Shift Position

-- What a call answers: `ValueError`, `JobNotQueuedError`, the table it leaves, or the renormalised
-- table on which the method calls itself.
pub data Moved (Position Fraction : Type 0) : Type 0 where
  not_found not_queued : Moved Position Fraction
  done : List (JobRow Position Fraction) → Moved Position Fraction
  try_again : List (JobRow Position Fraction) → Moved Position Fraction

module _ {Position : Type 0} (floats : Arithmetic Position) where
  open floats use {before, one_less, one_more, middle, from_number}

  unfoldable pub position_between : Option Position → Option Position → Position
  position_between none none = from_number 1
  position_between none (some upper) = one_less upper
  position_between (some lower) none = one_more lower
  position_between (some lower) (some upper) = middle lower upper

  -- The midpoint is not strictly between its two bounds.
  abbrev pub is_exhausted : Option Position → Option Position → Position → Bool
  is_exhausted (some lower) (some upper) x = not (before lower x) || not (before x upper)
  is_exhausted _ _ x = false

  unfoldable pub shift_between : Option Position → Option Position → Shift Position
  unfolding position_between
  shift_between lower upper =
      let x = position_between lower upper in
      if is_exhausted lower upper x then exhausted else move_to x

  module _ {Fraction : Type 0} where
    -- `positions[outward_idx]`, or `None` past the end.
    abbrev pub outward : List (QueuedJob Position Fraction) → Option Position
    outward [] = none
    outward (q ∷ qs) = some q.queue_position

    -- The moves by one place.
    unfoldable pub shift_up : List (QueuedJob Position Fraction) → Shift Position
    unfolding shift_between
    shift_up [] = at_edge
    shift_up (neighbour ∷ rest) = shift_between (outward rest) (some neighbour.queue_position)

    unfoldable pub shift_down : List (QueuedJob Position Fraction) → Shift Position
    unfolding shift_between
    shift_down [] = at_edge
    shift_down (neighbour ∷ rest) = shift_between (some neighbour.queue_position) (outward rest)

    -- `ids.index(job_id)`, with the rows on both sides.
    unfoldable pub find_spot :
        ℕ
        → List (QueuedJob Position Fraction)
        → List (QueuedJob Position Fraction)
        → Option (Spot Position Fraction)
    find_spot id ahead [] = none
    find_spot id ahead (q ∷ qs) =
        if q.id == id
        then some (record { ahead = ahead; here = q; behind = qs })
        else find_spot id (q ∷ ahead) qs

    -- `SELECT ... WHERE state = 'queued' ORDER BY queue_position ASC, id ASC`
    unfoldable pub queued_jobs :
        List (JobRow Position Fraction) → List (QueuedJob Position Fraction)
    queued_jobs table = sort_jobs before (map (λ row. row.job) (keep is_queued table))

    abbrev pub at_position : Position → QueuedJob Position Fraction → QueuedJob Position Fraction
    at_position x q = record q { queue_position = x }

    -- `UPDATE job SET queue_position = ? WHERE id = ? AND state = 'queued'`
    unfoldable pub set_position :
        ℕ → Position → List (JobRow Position Fraction) → List (JobRow Position Fraction)
    set_position id x = map (λ row.
        if row.job.id == id && is_queued row
        then record row { job = at_position x row.job }
        else row)

    -- The loop of `_renormalize_queue_positions`, from a number on. It updates queued rows alone,
    -- since the ids are those of queued rows and are unique.
    unfoldable pub renumber :
        ℕ
        → List (QueuedJob Position Fraction)
        → List (JobRow Position Fraction)
        → List (JobRow Position Fraction)
    unfolding set_position
    renumber i [] table = table
    renumber i (q ∷ qs) table = renumber (suc i) qs (set_position q.id (from_number i) table)

    unfoldable pub renormalize_queue_positions :
        List (JobRow Position Fraction) → List (JobRow Position Fraction)
    unfolding queued_jobs renumber
    renormalize_queue_positions table = renumber 1 (queued_jobs table) table

    -- `SELECT MIN(queue_position)`, of the queued rows in order.
    abbrev pub first_position : List (QueuedJob Position Fraction) → Option Position
    first_position [] = none
    first_position (q ∷ qs) = some q.queue_position

    abbrev pub top_rank : List (JobRow Position Fraction) → ℕ
    top_rank [] = 0
    top_rank (row ∷ rows) = max row.rank (top_rank rows)

    -- `UPDATE job SET queue_position = ?, rank = ? WHERE id = ? AND state = 'queued'`
    unfoldable pub set_top :
        ℕ → Position → ℕ → List (JobRow Position Fraction) → List (JobRow Position Fraction)
    set_top id x rank [] = []
    set_top id x rank (row ∷ rows) =
        let rest = set_top id x rank rows in
        if row.job.id == id && is_queued row
        then record row { job = at_position x row.job; rank = rank } ∷ rest
        else row ∷ rest

    unfoldable pub move_to_top :
        ℕ → List (JobRow Position Fraction) → List (JobRow Position Fraction)
    unfolding position_between queued_jobs set_top
    move_to_top id table =
        set_top id (position_between none (first_position (queued_jobs table)))
          (suc (top_rank (keep is_queued table))) table

    -- `_fetch_job` finds a row.
    unfoldable pub has_job : ℕ → List (JobRow Position Fraction) → Bool
    has_job id [] = false
    has_job id (row ∷ rows) = row.job.id == id || has_job id rows

    unfoldable pub applied :
        ℕ → List (JobRow Position Fraction) → Shift Position → Moved Position Fraction
    unfolding set_position renormalize_queue_positions
    applied id table at_edge = done table
    applied id table exhausted = try_again (renormalize_queue_positions table)
    applied id table (move_to x) = done (set_position id x table)

    unfoldable pub shift_of : Direction → Spot Position Fraction → Shift Position
    unfolding shift_up shift_down
    shift_of up spot = shift_up spot.ahead
    shift_of down spot = shift_down spot.behind
    shift_of top spot = at_edge

    -- The body of `move_job` for `up` and `down`, from the job's place in the queue.
    unfoldable pub move_from :
        Direction
        → ℕ
        → List (JobRow Position Fraction)
        → Option (Spot Position Fraction)
        → Moved Position Fraction
    unfolding applied shift_of has_job
    move_from direction id table none = if has_job id table then not_queued else not_found
    move_from direction id table (some spot) = applied id table (shift_of direction spot)

    -- For `top` the method tests that the job is queued and calls `move_to_top`.
    unfoldable pub move_top_from :
        ℕ
        → List (JobRow Position Fraction)
        → Option (Spot Position Fraction)
        → Moved Position Fraction
    unfolding move_to_top has_job
    move_top_from id table none = if has_job id table then not_queued else not_found
    move_top_from id table (some spot) = done (move_to_top id table)

    -- `move_job`, up to its call of itself. Another direction is refused by the API's schema.
    unfoldable pub move_job :
        ℕ → Direction → List (JobRow Position Fraction) → Moved Position Fraction
    unfolding move_from move_top_from find_spot queued_jobs
    move_job id top table = move_top_from id table (find_spot id [] (queued_jobs table))
    move_job id direction table = move_from direction id table (find_spot id [] (queued_jobs table))
