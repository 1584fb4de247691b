-- ===== src/Checks/Jobs.antt =====
-- The life of a job (backend/lftpweb/core/queue.py) at concrete inputs.
use lftpweb.Common.{
  any, elem, sum_by, take, first, length, ℕ, ◌+◌, ◌*◌, ◌-◌, ◌/◌, ◌≤◌, ◌<◌, ◌≡◌, refl, String, Bool,
  true, false, none, some, [], ◌∷◌, count, All, ltb,
}
use lftpweb.Common.Text.{has_slash}
use lftpweb.Item.{ItemState, remote_only}
use lftpweb.Scheduler.{main, AdmitDecision, sort_jobs, main_queue, shrink_ready}
use lftpweb.Queue.Positions.{Arithmetic}
use lftpweb.Queue.Settings.{
  TransferSettings, effective_bandwidth_bps, effective_small_lane_reserve_bps,
}
use lftpweb.Flight.Sql.{JobState}
use lftpweb.Lftp.Command.{HostCreds, mirror, agent, insecure}
use lftpweb.Jobs.Rows.{Job, ItemRow, QueueRow, TransferQueue, RunningProcess, exited}
use lftpweb.Jobs.Table.{fetch_item, fetch_job}
use lftpweb.Jobs.Enqueue.{enqueue_item}
use lftpweb.Jobs.Reap.{Exit}
use lftpweb.Jobs.Admit.{Host, World, launched}
use lftpweb.Jobs.Spawn.{admit_jobs, spawn_decision}
use lftpweb.Jobs.Startup.{start}
use lftpweb.Jobs.Sound.{active_for, runs_as}
use lftpweb.Jobs.Reachable.{Reachable, first_start, step, enqueue, admit, Reachable-one_active}
use lftpweb.Jobs.Processes.{History, runs_for, History-runs_for}
use lftpweb.Jobs.Downloaded.{has_brought_all}

abbrev numbers : Arithmetic ℕ
numbers = record {
  before = ltb;
  one_less = λ n. n - 1;
  one_more = λ n. n + 1;
  middle = λ a b. (a + b) / 2;
  from_number = λ n. n;
}

abbrev percent : ℕ → ℕ
percent n = n

abbrev site : TransferSettings
site = record {
  max_bandwidth_bps = 10_000_000;
  max_concurrent_transfers = 2;
  small_item_threshold_bytes = 100;
  small_lane_concurrency = 2;
  small_lane_reserve_bps = none;
  min_share_floor_bps = 500_000;
  mirror_parallel_transfer_count = 4;
  mirror_use_pget_n = 4;
  pget_default_n = 4;
  max_attempts = 3;
  retry_backoff_base_s = 30;
  extra_lftp_settings = "";
  throttle_bandwidth_bps = none;
}

abbrev show : ItemRow
show = record {
  id = 5;
  queue_id = 1;
  rel_path = "show";
  is_dir = true;
  state = remote_only;
  substate = none;
  remote_size = some 500;
  local_size = none;
  downloaded_at = none;
  auto_queue_suppressed = false;
  suppressed_reason = none;
  error_class = none;
  error_detail = none;
  pending_download_prefix = none;
}

abbrev tv : QueueRow
tv = record {
  id = 1;
  remote_path = "/seed/tv/";
  local_path = "/tv";
  download_prefix_enabled = some false;
  download_prefix = none;
}

abbrev empty_queue : TransferQueue ℕ ℕ
empty_queue = record {
  jobs = [];
  next_id = 1;
  items = show ∷ [];
  queues = tv ∷ [];
  settings = site;
  pause_setting = record { paused = false; paused_until = none };
  running = [];
  backoff_until = [];
  paused = false;
  paused_until = none;
  admission_hold = false;
  has_postprocess = true;
  events = [];
  triggered = [];
}

abbrev mounted : String → Bool
mounted path = true

abbrev no_prefix : QueueRow → ItemRow → Bool
no_prefix q i = false

abbrev creds : HostCreds
creds = record {
  address = "seedbox";
  port = 22;
  username = "me";
  auth_method = agent;
  key_path = none;
  password = none;
  known_hosts_policy = insecure;
  pinned_host_key = none;
  ssh_key = none;
}

abbrev host : Host
host = record { creds = creds; connection_limit = none; credentials_need_reentry = false }

abbrev world : World
world = record {
  now = 1000;
  monotonic = 10;
  patterns = [];
  prefix_settings = record { enabled = true; prefix = ".downloading-" };
  host = some host;
  run_dir = "/run/lftpweb";
  launch = λ spec. launched 77;
}

abbrev at_rate : ℕ → ℕ → ℕ
at_rate fraction rate = fraction * rate / 100

abbrev tenth_of : ℕ → ℕ
tenth_of rate = rate / 10

abbrev begun : TransferQueue ℕ ℕ
begun = start numbers percent mounted no_prefix 900 empty_queue

abbrev waiting : TransferQueue ℕ ℕ
waiting = (enqueue_item numbers percent 5 false 950 none begun).1

abbrev transferring : TransferQueue ℕ ℕ
transferring = admit_jobs world numbers at_rate tenth_of 100 waiting

waiting-Reachable : Reachable numbers percent waiting
waiting-Reachable =
    step (first_start mounted no_prefix 900 empty_queue refl refl) (enqueue 5 false 950 none)

transferring-Reachable : Reachable numbers percent transferring
transferring-Reachable = step waiting-Reachable (admit world at_rate tenth_of 100)

Reachable-one_active_example :
    ((item : ℕ) → count (active_for item) transferring.jobs ≤ 1)
    × All (λ p. 0 < count (runs_as p.job_id p.item_id) transferring.jobs) transferring.running
Reachable-one_active_example =
    Reachable-one_active numbers percent transferring transferring-Reachable

one_process_runs : length transferring.running ≡ 1
unfolding admit_jobs fetch_job first enqueue_item start sort_jobs elem main_queue
    effective_bandwidth_bps effective_small_lane_reserve_bps sum_by take shrink_ready
one_process_runs = refl

abbrev process : RunningProcess ℕ
process = record {
  job_id = 1;
  item_id = 5;
  queue_id = 1;
  rel_path = "show";
  is_dir = true;
  kind = mirror;
  lane = main;
  rate_limit_bps = 9_000_000;
  forced_rate_fraction = none;
  local_root = "/tv/show";
  bytes_total = some 500;
  bytes_start = 0;
  stop_requested = false;
  pause_requested = false;
}

abbrev all_there : Exit
all_there = record {
  code = exited 0;
  tail = "";
  finished_at = 2000;
  retried_at = 2000;
  monotonic = 20;
  disk = record { files = ("a", 400) ∷ ("b", 100) ∷ []; evidence = []; local_bytes = 500 };
  settled = true;
}

abbrev downloading_show : ItemRow
downloading_show = record show { state = ItemState.downloading }

show_is_complete : has_brought_all process all_there transferring ≡ true
unfolding has_brought_all admit_jobs fetch_job first enqueue_item start has_slash sort_jobs elem
    main_queue effective_bandwidth_bps effective_small_lane_reserve_bps sum_by take shrink_ready
show_is_complete = refl

-- An excluded child that is on disk in part keeps the item from being downloaded.
abbrev excluded_child : ItemRow
excluded_child = record show {
  id = 6;
  rel_path = "show/a";
  is_dir = false;
  state = ItemState.excluded;
  remote_size = some 900;
}

excluded_child_counts :
    has_brought_all process all_there (record transferring { items = excluded_child ∷ [] }) ≡ false
unfolding has_brought_all has_slash
excluded_child_counts = refl

no_child_listed :
    has_brought_all process
      (record all_there { disk = record { files = []; evidence = []; local_bytes = 500 } })
      (record transferring { items = excluded_child ∷ [] })
    ≡ true
unfolding has_brought_all has_slash
no_child_listed = refl

-- Two queued jobs for one item, as two racing requests can leave them.
abbrev queued_row : ℕ → Job ℕ ℕ
queued_row n = record {
  id = n;
  item_id = 5;
  kind = mirror;
  state = JobState.queued;
  lane = main;
  rank = 0;
  attempt = 1;
  forced_full_rate = false;
  forced_rate_fraction = none;
  queue_position = n;
  queued_at = 950;
  started_at = none;
  finished_at = none;
  dismissed_at = none;
  pid = none;
  exit_code = none;
  error_class = none;
  output_tail = none;
  rate_limit_bps = none;
  bytes_start = 0;
  bytes_done = 0;
  bytes_total = none;
}

abbrev decision : ℕ → AdmitDecision ℕ
decision n = record {
  job_id = n;
  lane = main;
  rate_limit_bps = 4_000_000;
  forced_rate_fraction = none;
}

abbrev raced : TransferQueue ℕ ℕ
raced = record empty_queue { jobs = queued_row 1 ∷ queued_row 2 ∷ [] }

abbrev both_spawned : TransferQueue ℕ ℕ
both_spawned = spawn_decision world (decision 2) host (spawn_decision world (decision 1) host raced)

History-runs_for_example : count (runs_for 5) both_spawned.running ≤ 1
History-runs_for_example = History-runs_for numbers both_spawned 5 (
    History.spawn world (decision 2) host
      (History.spawn world (decision 1) host (History.begin raced refl)))

first_is_spawned : length both_spawned.running ≡ 1
unfolding spawn_decision fetch_job first fetch_item any
first_is_spawned = refl
