-- ===== src/Scheduler.antt =====
-- The pure admission decision (backend/lftpweb/core/scheduler.py).
-- Bandwidths are whole numbers per second. A share is the quotient of two such numbers, compared with
-- the floor by cross multiplication and cut to a whole number, as `int` cuts it; the quotients of
-- the source are floats, which agree below 2^52. `forced_rate_fraction` and `queue_position` are
-- floats too: the first is used by `round(fraction * B)` alone and the second is only compared, so
-- both types and these two operations are parameters.
pub mod Bounds
pub mod Priority
pub mod Progress
pub mod Forced
pub mod Once
use lftpweb.Common.{
  ℕ, zero, suc, ◌+◌, ◌-◌, ◌*◌, ◌/◌, Bool, true, false, ◌&&◌, ◌||◌, not, Option, none, some, List,
  [], ◌∷◌, ◌++◌, map, ltb, leb, ◌==◌, length, take, keep, elem, sum_by, min, if◌then◌else◌, is_some,
}

pub data Lane : Type 0 where
  main small : Lane

abbrev pub is_main : Lane → Bool
is_main main = true
is_main small = false

pub record SchedulerSettings : Type 0 where
  pub max_bandwidth_bps : ℕ
  pub max_concurrent_transfers : ℕ
  pub small_lane_concurrency : ℕ
  pub small_lane_reserve_bps : ℕ
  pub min_share_floor_bps : ℕ

pub record RunningJob : Type 0 where
  pub id : ℕ
  pub lane : Lane
  pub rate_limit_bps : ℕ

pub record QueuedJob (Position Fraction : Type 0) : Type 0 where
  pub id : ℕ
  pub lane : Lane
  pub queue_position : Position
  pub forced_rate_fraction : Option Fraction

pub record AdmitDecision (Fraction : Type 0) : Type 0 where
  pub job_id : ℕ
  pub lane : Lane
  pub rate_limit_bps : ℕ
  pub forced_rate_fraction : Option Fraction

abbrev pub main_running : List RunningJob → List RunningJob
main_running = keep (λ r. is_main r.lane)

abbrev pub small_running : List RunningJob → List RunningJob
small_running = keep (λ r. not (is_main r.lane))

-- `while share < floor and ready > 1`: how many jobs are left ready.
unfoldable pub shrink_ready : ℕ → ℕ → ℕ → ℕ
shrink_ready headroom floor zero = zero
shrink_ready headroom floor (suc zero) = 1
shrink_ready headroom floor (suc (suc n)) =
    let fewer = shrink_ready headroom floor (suc n) in
    if ltb headroom (floor * suc (suc n)) then fewer else suc (suc n)

module _ {Position Fraction : Type 0} (before : Position → Position → Bool) where
  -- `<=` on the tuples `_priority_key(q) = (q.queue_position, q.id)`
  abbrev pub priority_leb : QueuedJob Position Fraction → QueuedJob Position Fraction → Bool
  priority_leb a b =
      before a.queue_position b.queue_position
      || (not (before b.queue_position a.queue_position) && leb a.id b.id)

  unfoldable pub insert_job :
      QueuedJob Position Fraction
      → List (QueuedJob Position Fraction)
      → List (QueuedJob Position Fraction)
  insert_job q [] = q ∷ []
  insert_job q (r ∷ rs) = if priority_leb q r then q ∷ r ∷ rs else r ∷ insert_job q rs

  -- `sorted(..., key=_priority_key)`
  unfoldable pub sort_jobs : List (QueuedJob Position Fraction) → List (QueuedJob Position Fraction)
  unfolding insert_job
  sort_jobs [] = []
  sort_jobs (q ∷ qs) = insert_job q (sort_jobs qs)

module _ {Position Fraction : Type 0} where
  -- The jobs that enter the first sort.
  abbrev pub is_forced : QueuedJob Position Fraction → Bool
  is_forced q = is_main q.lane && is_some q.forced_rate_fraction

  abbrev pub decide : Lane → ℕ → QueuedJob Position Fraction → AdmitDecision Fraction
  decide lane rate q = record {
    job_id = q.id;
    lane = lane;
    rate_limit_bps = rate;
    forced_rate_fraction = none;
  }

-- `sum(d.rate_limit_bps for d in decisions)`
abbrev pub rate_total : {Fraction : Type 0} → List (AdmitDecision Fraction) → ℕ
rate_total = sum_by (λ d. d.rate_limit_bps)

-- `allocated`
abbrev pub allocated : {Fraction : Type 0} → List RunningJob → List (AdmitDecision Fraction) → ℕ
allocated running forced = sum_by (λ r. r.rate_limit_bps) (main_running running) + rate_total forced

module _ {Position Fraction : Type 0} where
  abbrev pub small_queue : List (QueuedJob Position Fraction) → List (QueuedJob Position Fraction)
  small_queue = keep (λ q. not (is_main q.lane))

module _ {Position Fraction : Type 0} (before : Position → Position → Bool)
    (scaled : Fraction → ℕ → ℕ) (settings : SchedulerSettings) where
  open settings use {
    max_bandwidth_bps, max_concurrent_transfers, small_lane_concurrency, small_lane_reserve_bps,
    min_share_floor_bps,
  }

  -- The decision for a forced job; the filter leaves none without a fraction.
  unfoldable pub force : QueuedJob Position Fraction → AdmitDecision Fraction
  force q = record {
    job_id = q.id;
    lane = main;
    rate_limit_bps = elim q.forced_rate_fraction [
      | none ↦ 0
      | some fraction ↦ scaled fraction max_bandwidth_bps
    ];
    forced_rate_fraction = q.forced_rate_fraction;
  }

  unfoldable pub forced_decisions :
      List (QueuedJob Position Fraction) → List (AdmitDecision Fraction)
  forced_decisions queue = map force (sort_jobs before (keep is_forced queue))

  -- The main-lane jobs whose id is not among the forced ones.
  unfoldable pub main_queue :
      List (QueuedJob Position Fraction)
      → List (AdmitDecision Fraction)
      → List (QueuedJob Position Fraction)
  main_queue queue forced =
      keep (λ q. is_main q.lane && not (elem q.id (map (λ d. d.job_id) forced))) queue

  -- `headroom`; where the difference is negative in the source, it is 0 here, and both fail the
  -- test `headroom > 0`.
  abbrev pub headroom : List RunningJob → List (AdmitDecision Fraction) → ℕ
  headroom running forced = max_bandwidth_bps - small_lane_reserve_bps - allocated running forced

  abbrev pub main_ready :
      List RunningJob → List (QueuedJob Position Fraction) → List (AdmitDecision Fraction) → ℕ
  main_ready running queue forced =
      min (max_concurrent_transfers - (length (main_running running) + length forced))
        (length (main_queue queue forced))

  -- The admissions of the main lane for a given headroom and number of ready jobs.
  unfoldable pub admit_ready :
      ℕ → ℕ → List (QueuedJob Position Fraction) → List (AdmitDecision Fraction)
  admit_ready room ready jobs =
      if ltb 0 ready && ltb 0 room
      then (let left = shrink_ready room min_share_floor_bps ready in
          map (decide main (room / left)) (take left (sort_jobs before jobs)))
      else []

  unfoldable pub admit_main :
      List RunningJob
      → List (QueuedJob Position Fraction)
      → List (AdmitDecision Fraction)
      → List (AdmitDecision Fraction)
  unfolding admit_ready
  admit_main running queue forced =
      admit_ready (headroom running forced) (main_ready running queue forced)
        (main_queue queue forced)

  abbrev pub small_ready : List RunningJob → List (QueuedJob Position Fraction) → ℕ
  small_ready running queue =
      min (small_lane_concurrency - length (small_running running)) (length (small_queue queue))

  unfoldable pub admit_small :
      List RunningJob → List (QueuedJob Position Fraction) → List (AdmitDecision Fraction)
  admit_small running queue =
      let ready = small_ready running queue in
      if ltb 0 ready
      then map (decide small (small_lane_reserve_bps / (length (small_running running) + ready)))
          (take ready (sort_jobs before (small_queue queue)))
      else []

  unfoldable pub admit :
      List RunningJob → List (QueuedJob Position Fraction) → List (AdmitDecision Fraction)
  unfolding forced_decisions admit_main admit_small
  admit running queue =
      let forced = forced_decisions queue in
      forced ++ (admit_main running queue forced ++ admit_small running queue)
