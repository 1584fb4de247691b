-- ===== src/Queue/Settings.antt =====
-- The site's transfer settings (backend/lftpweb/core/queue.py, `TransferSettings`): the ceiling, the
-- throttle, the limit in force and the fast lane's reserve.
use lftpweb.Common.{
  ℕ, String, ◌/◌, ◌≤◌, ◌<◌, ◌≡◌, Bool, true, Option, none, some, List, [], arith, leb, min, max,
  length, keep, if◌then◌else◌, is_some, sum_by,
}
use lftpweb.Scheduler.{
  SchedulerSettings, QueuedJob, main, headroom, main_ready, main_queue, admit_main,
}
use lftpweb.Scheduler.Bounds.{length-map-decide}
use lftpweb.Scheduler.Priority.{PositionOrder}
use lftpweb.Scheduler.Progress.{admit_main-Started}

-- Rates and sizes are whole numbers of bytes; `retry_backoff_base_s` is in seconds.
pub record TransferSettings : Type 0 where
  pub max_bandwidth_bps : ℕ
  pub max_concurrent_transfers : ℕ
  pub small_item_threshold_bytes : ℕ
  pub small_lane_concurrency : ℕ
  pub small_lane_reserve_bps : Option ℕ
  pub min_share_floor_bps : ℕ
  pub mirror_parallel_transfer_count : ℕ
  pub mirror_use_pget_n : ℕ
  pub pget_default_n : ℕ
  pub max_attempts : ℕ
  pub retry_backoff_base_s : ℕ
  pub extra_lftp_settings : String
  pub throttle_bandwidth_bps : Option ℕ

unfoldable pub effective_bandwidth_bps : TransferSettings → ℕ
effective_bandwidth_bps s = elim s.throttle_bandwidth_bps [
  | none ↦ s.max_bandwidth_bps
  | some throttle ↦ min throttle s.max_bandwidth_bps
]

unfoldable pub clamp_throttle_to_ceiling : TransferSettings → TransferSettings
clamp_throttle_to_ceiling s = record s {
  throttle_bandwidth_bps = elim s.throttle_bandwidth_bps [
    | none ↦ none
    | some throttle ↦
        if leb throttle s.max_bandwidth_bps then some throttle else some s.max_bandwidth_bps
  ];
}

-- The setting row: `save_transfer_settings` writes the clamped settings and returns them.
unfoldable pub save_transfer_settings : TransferSettings → TransferSettings
save_transfer_settings = clamp_throttle_to_ceiling

-- `tenth limit` is `round(limit * 0.10)`, a product of floats.
module _ (tenth : ℕ → ℕ) where
  unfoldable pub effective_small_lane_reserve_bps : TransferSettings → ℕ
  effective_small_lane_reserve_bps s =
      let limit = effective_bandwidth_bps s in
      let raw : ℕ = elim s.small_lane_reserve_bps [
        | none ↦ max (tenth limit) 1_000_000
        | some reserve ↦ reserve
      ] in
      min raw (limit / 2)

  unfoldable pub scheduler_settings : TransferSettings → SchedulerSettings
  scheduler_settings s = record {
    max_bandwidth_bps = effective_bandwidth_bps s;
    max_concurrent_transfers = s.max_concurrent_transfers;
    small_lane_concurrency = s.small_lane_concurrency;
    small_lane_reserve_bps = effective_small_lane_reserve_bps s;
    min_share_floor_bps = s.min_share_floor_bps;
  }

-- With a throttle set, saving leaves the limit in force as it is, and saving again with another
-- ceiling makes it the lower of that limit and the new ceiling: a higher ceiling does not raise it.
pub ceiling_raise :
    (s : TransferSettings) (ceiling : ℕ)
    → let saved = save_transfer_settings s in
      let raised = save_transfer_settings (record saved { max_bandwidth_bps = ceiling }) in
      is_some s.throttle_bandwidth_bps ≡ true
      → (effective_bandwidth_bps raised ≡ min (effective_bandwidth_bps saved) ceiling)
        × (effective_bandwidth_bps saved ≡ effective_bandwidth_bps s)
unfolding save_transfer_settings clamp_throttle_to_ceiling effective_bandwidth_bps
ceiling_raise s ceiling h = ground arith

reserve_le_half :
    (tenth : ℕ → ℕ) (s : TransferSettings)
    → effective_small_lane_reserve_bps tenth s ≤ effective_bandwidth_bps s / 2
unfolding effective_small_lane_reserve_bps
reserve_le_half tenth s = omega arith

module _ {Position Fraction : Type 0} (before : Position → Position → Bool)
    (scaled : Fraction → ℕ → ℕ) (tenth : ℕ → ℕ) (s : TransferSettings) where
  abbrev sched : SchedulerSettings
  sched = scheduler_settings tenth s

  some_headroom :
      0 < effective_bandwidth_bps s → 0 < headroom {Position = Position} before scaled sched [] []
  unfolding scheduler_settings sum_by keep
  some_headroom b = omega (arith, reserve_le_half tenth s)

  some_ready :
      (queue : List (QueuedJob Position Fraction))
      → 0 < s.max_concurrent_transfers
      → 0 < length (main_queue before scaled sched queue [])
      → 0 < main_ready before scaled sched [] queue []
  unfolding scheduler_settings keep
  some_ready queue n q = omega arith

  -- With no transfer running and none forced, a positive limit and at least one slot start a
  -- main-lane job whenever one is queued, whatever the reserve of the fast lane is set to.
  pub never_starved :
      (order : PositionOrder before) (queue : List (QueuedJob Position Fraction))
      → 0 < effective_bandwidth_bps s
      → 0 < s.max_concurrent_transfers
      → 0 < length (main_queue before scaled sched queue [])
      → 0 < length (admit_main before scaled sched [] queue [])
  never_starved order queue b n q =
      let started =
        admit_main-Started before scaled sched order [] queue [] (some_headroom b)
          (some_ready queue n q) in
      rw started.decisions
        (rw (length-map-decide main _ started.started) started.how_many.some_left)
