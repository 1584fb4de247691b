-- ===== src/Checks/Scheduler.antt =====
-- Admission (backend/lftpweb/core/scheduler.py, core/queue.py) at concrete inputs. Positions are
-- numbers here, and a fraction is a number of percent.
use lftpweb.Common.{
  ℕ, ◌*◌, ◌/◌, ◌<◌, ◌≡◌, refl, none, some, List, [], ◌∷◌, arith, ltb, length, min, keep, elem,
  sum_by, any, true, false, ◌==◌,
}
use lftpweb.Scheduler.{
  main, SchedulerSettings, RunningJob, QueuedJob, admit_main, admit_small, headroom, main_ready,
  main_queue, forced_decisions, admit,
}
use lftpweb.Scheduler.Forced.{admit-forced}
use lftpweb.Scheduler.Bounds.{
  MainBudget, admit_main-MainBudget, SmallBudget, admit_small-SmallBudget,
}
use lftpweb.Scheduler.Priority.{PositionOrder}
use lftpweb.Scheduler.Progress.{Started, admit_main-Started}
use lftpweb.Queue.Settings.{
  TransferSettings, save_transfer_settings, effective_bandwidth_bps, ceiling_raise,
  scheduler_settings, never_starved,
}

abbrev percent : ℕ → ℕ → ℕ
percent p b = p * b / 100

abbrev settings : SchedulerSettings
settings = record {
  max_bandwidth_bps = 10_000_000;
  max_concurrent_transfers = 3;
  small_lane_concurrency = 2;
  small_lane_reserve_bps = 1_000_000;
  min_share_floor_bps = 500_000;
}

abbrev job : ℕ → ℕ → QueuedJob ℕ ℕ
job id position = record {
  id = id;
  lane = main;
  queue_position = position;
  forced_rate_fraction = none;
}

abbrev jobs : List (QueuedJob ℕ ℕ)
jobs = job 1 30 ∷ job 2 10 ∷ job 3 20 ∷ []

abbrev running : List RunningJob
running = record { id = 9; lane = main; rate_limit_bps = 3_000_000 } ∷ []

nat_order : PositionOrder ltb
nat_order = record { asym = λ a b h. ground arith; trans = λ a b c h k. ground arith }

admit_main-MainBudget_example :
    MainBudget ltb percent settings running [] (admit_main ltb percent settings running jobs [])
admit_main-MainBudget_example = admit_main-MainBudget ltb percent settings running jobs []

admit_small-SmallBudget_example :
    SmallBudget ltb percent settings running (admit_small ltb percent settings running jobs)
admit_small-SmallBudget_example = admit_small-SmallBudget ltb percent settings running jobs

admit_main-Started_example :
    Started ltb
      (headroom {Position = ℕ} ltb percent settings running [])
      500_000
      (main_ready ltb percent settings running jobs [])
      (main_queue ltb percent settings jobs [])
      (admit_main ltb percent settings running jobs [])
unfolding sum_by keep main_queue elem
admit_main-Started_example =
    admit_main-Started ltb percent settings nat_order running jobs [] (omega arith) (omega arith)

abbrev site : TransferSettings
site = record {
  max_bandwidth_bps = 10_000_000;
  max_concurrent_transfers = 2;
  small_item_threshold_bytes = 10_000_000;
  small_lane_concurrency = 2;
  small_lane_reserve_bps = none;
  min_share_floor_bps = 500_000;
  mirror_parallel_transfer_count = 4;
  mirror_use_pget_n = 4;
  pget_default_n = 4;
  max_attempts = 3;
  retry_backoff_base_s = 30;
  extra_lftp_settings = "";
  throttle_bandwidth_bps = some 1_000_000;
}

ceiling_raise_example :
    let saved = save_transfer_settings site in
    let raised = save_transfer_settings (record saved { max_bandwidth_bps = 50_000_000 }) in
    (effective_bandwidth_bps raised ≡ min (effective_bandwidth_bps saved) 50_000_000)
    × (effective_bandwidth_bps saved ≡ effective_bandwidth_bps site)
ceiling_raise_example = ceiling_raise site 50_000_000 refl

abbrev tenth : ℕ → ℕ
tenth n = n / 10

never_starved_example :
    0 < length (admit_main ltb percent (scheduler_settings tenth site) [] jobs [])
unfolding effective_bandwidth_bps scheduler_settings main_queue elem keep
never_starved_example =
    never_starved ltb percent tenth site nat_order jobs (omega arith) (omega arith) (omega arith)

abbrev with_forced : List (QueuedJob ℕ ℕ)
with_forced =
    record { id = 4; lane = main; queue_position = 99; forced_rate_fraction = some 25 } ∷ jobs

admit-forced_example :
    (any (λ d. d.job_id == 4) (admit ltb percent settings running with_forced) ≡ true)
    × (any
          (λ d. d.job_id == 4)
          (admit_main ltb percent settings running with_forced
            (forced_decisions ltb percent settings with_forced))
        ≡ false)
unfolding any
admit-forced_example = admit-forced ltb percent settings 4 running with_forced refl
