-- ===== src/Scheduler/Bounds.antt =====
-- What one call of `admit` (backend/lftpweb/core/scheduler.py) may hand out: bandwidth, slots and
-- the floor of a share.
use lftpweb.Common.{
  ◌&&◌, ℕ, zero, suc, ◌+◌, ◌*◌, ◌/◌, ◌≤◌, ◌<◌, ◌≡◌, refl, ◌⊎◌, inl, inr, Bool, true, none, List, [],
  ◌∷◌, map, arith, ltb, length, take, length-take, sum_by, All, Bool-cases,
}
use native.Mathlib.Nat.{div-mul-le_self, le-div_iff_mul-le}
use lftpweb.Scheduler.{
  Lane, main, small, SchedulerSettings, RunningJob, QueuedJob, AdmitDecision, shrink_ready,
  sort_jobs, decide, rate_total, main_queue, main_running, small_running, allocated, headroom,
  main_ready, admit_ready, admit_main, small_queue, small_ready, admit_small,
}

le-eq_or_lt : (m n : ℕ) → m ≤ suc n → (m ≡ suc n) ⊎ (m ≤ n)
le-eq_or_lt m n h = grind arith

ltb→lt : (a b : ℕ) → ltb a b ≡ true → a < b
ltb→lt a b h = ground arith

-- What the floor loop leaves: as many jobs as can have a share of at least the floor, and one job
-- in any case.
pub record Shrunk (room floor ready left : ℕ) : Type 0 where
  pub some_left : 1 ≤ left
  pub no_more : left ≤ ready
  pub above_floor : (left ≡ 1) ⊎ (floor * left ≤ room)
  pub largest : (n : ℕ) → left < n → n ≤ ready → room < floor * n

pub shrink_ready-Shrunk :
    (room floor n : ℕ) → Shrunk room floor (suc n) (shrink_ready room floor (suc n))
unfolding shrink_ready
shrink_ready-Shrunk room floor zero = record {
  some_left = omega arith;
  no_more = omega arith;
  above_floor = inl refl;
  largest = λ n h k. absurd (omega arith);
}
shrink_ready-Shrunk room floor (suc n) =
    let k = shrink_ready-Shrunk room floor n in
    elim (Bool-cases (ltb room (floor * suc (suc n)))) [
      | inl e ↦ rw e (record {
        some_left = k.some_left;
        no_more = omega (arith, k.no_more);
        above_floor = k.above_floor;
        largest = λ m h l. elim (le-eq_or_lt m (suc n) l) [
          | inl q ↦ rw q (ltb→lt _ _ e)
          | inr q ↦ k.largest m h q
        ];
      })
      | inr e ↦ rw e (record {
        some_left = omega arith;
        no_more = omega arith;
        above_floor = inr (ground arith);
        largest = λ m h l. absurd (omega arith);
      })
    ]

module _ {Position Fraction : Type 0} where
  rate_total-map-decide :
      (lane : Lane) (rate : ℕ) (qs : List (QueuedJob Position Fraction))
      → rate_total (map (decide lane rate) qs) ≡ rate * length qs
  unfolding sum_by
  rate_total-map-decide lane rate [] = omega arith
  rate_total-map-decide lane rate (q ∷ qs) = omega (arith, rate_total-map-decide lane rate qs)

  pub length-map-decide :
      (lane : Lane) (rate : ℕ) (qs : List (QueuedJob Position Fraction))
      → length (map (decide lane rate) qs) ≡ length qs
  length-map-decide lane rate [] = refl
  length-map-decide lane rate (q ∷ qs) = omega (arith, length-map-decide lane rate qs)

  -- Every decision is one of the given rate.
  All-map-decide :
      (lane : Lane) (rate : ℕ) (qs : List (QueuedJob Position Fraction))
      → All
          (λ d. (d.lane ≡ lane) × (d.rate_limit_bps ≡ rate) × (d.forced_rate_fraction ≡ none))
          (map (decide lane rate) qs)
  All-map-decide lane rate [] = tt
  All-map-decide lane rate (q ∷ qs) = ((refl, refl, refl), All-map-decide lane rate qs)

share_le : (room left n : ℕ) → n ≤ left → room / left * n ≤ room
share_le room left n h = grind (arith, div-mul-le_self room left)

floor_le_share : (room floor left : ℕ) → 1 ≤ left → floor * left ≤ room → floor ≤ room / left
floor_le_share room floor left p h = (le-div_iff_mul-le p).1 h

-- What the main lane gets of a headroom.
pub record MainShare (room floor ready : ℕ) {Fraction : Type 0} (ds : List (AdmitDecision Fraction))
    : Type 0 where
  pub in_room : rate_total ds ≤ room
  pub in_slots : length ds ≤ ready
  pub above_floor : (length ds ≤ 1) ⊎ All (λ d. floor ≤ d.rate_limit_bps) ds

above_floor-map-decide :
    {Position Fraction : Type 0} (floor rate : ℕ) (qs : List (QueuedJob Position Fraction))
    → floor ≤ rate
    → All (λ d. floor ≤ d.rate_limit_bps) (map (decide main rate) qs)
above_floor-map-decide floor rate [] h = tt
above_floor-map-decide floor rate (q ∷ qs) h = (h, above_floor-map-decide floor rate qs h)

no_share :
    (room floor ready : ℕ) {Fraction : Type 0} → MainShare room floor ready {Fraction = Fraction} []
unfolding sum_by
no_share room floor ready = record {
  in_room = omega arith;
  in_slots = omega arith;
  above_floor = inl (omega arith);
}

module _ {Position Fraction : Type 0} where
  given_share :
      (room floor ready left : ℕ) (qs : List (QueuedJob Position Fraction))
      → Shrunk room floor ready left
      → MainShare room floor ready (map (decide main (room / left)) (take left qs))
  given_share room floor ready left qs k =
      let few : length (take left qs) ≤ left = omega (arith, length-take left qs) in
      record {
        in_room =
            rw (rate_total-map-decide main (room / left) (take left qs)) (share_le room left _ few);
        in_slots =
            rw (length-map-decide main (room / left) (take left qs)) (omega (arith, k.no_more));
        above_floor = elim k.above_floor [
          | inl one ↦ inl (rw (length-map-decide main (room / left) (take left qs)) (omega arith))
          | inr h ↦ inr (
              above_floor-map-decide floor (room / left) (take left qs)
                (floor_le_share room floor left k.some_left h))
        ];
      }

module _ {Position Fraction : Type 0} (before : Position → Position → Bool)
    (scaled : Fraction → ℕ → ℕ) (settings : SchedulerSettings) where
  open settings use {
    max_bandwidth_bps, max_concurrent_transfers, small_lane_concurrency, small_lane_reserve_bps,
    min_share_floor_bps,
  }

  admit_ready-MainShare :
      (room ready : ℕ) (jobs : List (QueuedJob Position Fraction))
      → MainShare room min_share_floor_bps ready
          (admit_ready before scaled settings room ready jobs)
  unfolding admit_ready
  admit_ready-MainShare room zero jobs = no_share room min_share_floor_bps zero
  admit_ready-MainShare room (suc n) jobs = elim (Bool-cases (ltb 0 (suc n) && ltb 0 room)) [
    | inl e ↦ rw e (
        given_share room min_share_floor_bps (suc n) (shrink_ready room min_share_floor_bps (suc n))
          (sort_jobs before jobs) (shrink_ready-Shrunk room min_share_floor_bps n))
    | inr e ↦ rw e (no_share room min_share_floor_bps (suc n))
  ]

  admit_ready-cases :
      (room ready : ℕ) (jobs : List (QueuedJob Position Fraction))
      → (admit_ready before scaled settings room ready jobs ≡ []) ⊎ ((0 < room) × (0 < ready))
  unfolding admit_ready
  admit_ready-cases room ready jobs = elim (Bool-cases (ltb 0 ready && ltb 0 room)) [
    | inl e ↦ inr (ground arith)
    | inr e ↦ inl (rw e)
  ]

  -- What the main lane may take beside the running and the forced jobs.
  pub record MainBudget (running : List RunningJob) (forced ds : List (AdmitDecision Fraction))
      : Type 0 where
    pub bandwidth :
        (ds ≡ [])
        ⊎ (allocated running forced + rate_total ds + small_lane_reserve_bps ≤ max_bandwidth_bps)
    pub slots :
        (ds ≡ [])
        ⊎ (length (main_running running) + length forced + length ds ≤ max_concurrent_transfers)
    pub floor : (length ds ≤ 1) ⊎ All (λ d. min_share_floor_bps ≤ d.rate_limit_bps) ds

  -- With what is running and forced, the new main-lane jobs stay within the bandwidth that is left
  -- beside the fast lane's reserve and within the slots, unless none is admitted; and each has a
  -- share of at least the floor, unless only one is.
  pub admit_main-MainBudget :
      (running : List RunningJob) (queue : List (QueuedJob Position Fraction))
      (forced : List (AdmitDecision Fraction))
      → MainBudget running forced (admit_main before scaled settings running queue forced)
  unfolding admit_main
  admit_main-MainBudget running queue forced =
      let room = headroom before scaled settings running forced in
      let ready = main_ready before scaled settings running queue forced in
      let jobs = main_queue before scaled settings queue forced in
      let share = admit_ready-MainShare room ready jobs in
      elim (admit_ready-cases room ready jobs) [
        | inl e ↦ record { bandwidth = inl e; slots = inl e; floor = share.above_floor }
        | inr pos ↦ record {
          bandwidth = inr (omega (arith, share.in_room, pos.0));
          slots = inr (omega (arith, share.in_slots, pos.1));
          floor = share.above_floor;
        }
      ]

  -- What the fast lane may take.
  pub record SmallBudget (running : List RunningJob) (ds : List (AdmitDecision Fraction))
      : Type 0 where
    pub bandwidth : rate_total ds ≤ small_lane_reserve_bps
    pub slots : (ds ≡ []) ⊎ (length (small_running running) + length ds ≤ small_lane_concurrency)

  -- The new fast-lane jobs have rates that add up to no more than the fast lane's reserve, and with
  -- those that run they stay within its slots, unless none is admitted.
  pub admit_small-SmallBudget :
      (running : List RunningJob) (queue : List (QueuedJob Position Fraction))
      → SmallBudget running (admit_small before scaled settings running queue)
  unfolding admit_small sum_by
  admit_small-SmallBudget running queue =
      let ready = small_ready before scaled settings running queue in
      let active = length (small_running running) + ready in
      let qs = take ready (sort_jobs before (small_queue queue)) in
      let few : length qs ≤ ready =
        omega (arith, length-take ready (sort_jobs before (small_queue queue))) in
      elim (Bool-cases (ltb 0 ready)) [
        | inl e ↦ rw e (record {
          bandwidth =
              rw (rate_total-map-decide small (small_lane_reserve_bps / active) qs)
                (share_le small_lane_reserve_bps active (length qs) (omega arith));
          slots = inr (
              rw (length-map-decide small (small_lane_reserve_bps / active) qs)
                (omega (arith, ltb→lt _ _ e)));
        })
        | inr e ↦ rw e (record { bandwidth = omega arith; slots = inl refl })
      ]
