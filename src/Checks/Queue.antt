-- ===== src/Checks/Queue.antt =====
-- Moves in the queue (backend/lftpweb/core/queue.py) at concrete inputs. A position is a difference
-- of two numbers, in parts of 1024.
use lftpweb.Common.{ℕ, ◌+◌, ◌*◌, ◌/◌, ◌≡◌, refl, none, List, [], ◌∷◌, arith, ltb, keep, All, suc}
use lftpweb.Flight.Sql.{JobState}
use lftpweb.Scheduler.{main, sort_jobs, insert_job}
use lftpweb.Scheduler.Priority.{NotAfter}
use lftpweb.Queue.Positions.{
  Arithmetic, JobRow, Spot, up, done, find_spot, queued_jobs, shift_of, shift_up, shift_between,
  position_between, set_position, move_job, move_to_top, set_top, top_rank, first_position,
  at_position, is_queued,
}
use lftpweb.Queue.Place.{OrderedFloats, Placed, passed}
use lftpweb.Queue.Reorder.{move_job-Placed, move_to_top-first}

abbrev Difference : Type 0
Difference = ℕ × ℕ

abbrev differences : Arithmetic Difference
differences = record {
  before = λ a b. ltb (a.0 + b.1) (b.0 + a.1);
  one_less = λ a. (a.0, a.1 + 1024);
  one_more = λ a. (a.0 + 1024, a.1);
  middle = λ a b. ((a.0 + b.0) / 2, (a.1 + b.1) / 2);
  from_number = λ n. (1024 * n, 0);
}

differences-OrderedFloats : OrderedFloats differences
differences-OrderedFloats = record {
  order = record { asym = λ a b h. ground arith; trans = λ a b c h k. ground arith };
  less = λ x. ground arith;
  more = λ x. ground arith;
}

abbrev row : ℕ → ℕ → JobRow Difference ℕ
row id position = record {
  job = record {
    id = id;
    lane = main;
    queue_position = (1024 * position, 0);
    forced_rate_fraction = none;
  };
  state = JobState.queued;
  rank = 0;
}

abbrev table : List (JobRow Difference ℕ)
table = row 7 3 ∷ row 8 1 ∷ row 9 2 ∷ []

abbrev spot : Spot Difference ℕ
spot = record { ahead = (row 9 2).job ∷ (row 8 1).job ∷ []; here = (row 7 3).job; behind = [] }

move_job-Placed_example :
    (move_job differences 7 up table ≡ done (set_position differences 7 (1536, 0) table))
    × Placed differences (passed differences up spot) (1536, 0)
unfolding find_spot queued_jobs sort_jobs insert_job shift_of shift_up shift_between
    position_between keep
move_job-Placed_example =
    move_job-Placed differences differences-OrderedFloats 7 up table spot (1536, 0) refl refl

move_to_top-first_example :
    let x =
      position_between differences none
        (first_position differences (queued_jobs differences table)) in
    (move_to_top differences 7 table
      ≡ set_top differences 7 x (suc (top_rank differences (keep is_queued table))) table)
    × All
        (NotAfter differences.before (at_position differences x (row 7 3).job))
        (queued_jobs differences table)
move_to_top-first_example =
    move_to_top-first differences differences-OrderedFloats 7 table (row 7 3).job
