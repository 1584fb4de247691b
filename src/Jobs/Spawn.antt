-- ===== src/Jobs/Spawn.antt =====
-- Starting the process of an admitted job, and one tick of the loop (backend/lftpweb/core/queue.py,
-- `_spawn_decision`, `_fail_job`, `_admit`, `_reap_finished`, `tick`).
use lftpweb.Common.{
  ℕ, String, false, Option, none, some, List, [], ◌∷◌, ◌++◌, ◌==◌, any, if◌then◌else◌, update,
  first, is_some,
}
use lftpweb.Item.{ItemState, downloading}
use lftpweb.Flight.Sql.{running, failed}
use lftpweb.Scheduler.{AdmitDecision}
use lftpweb.Queue.Positions.{Arithmetic}
use lftpweb.Patterns.Compiled.{compiled_for_queue, exclude_globs}
use lftpweb.Lftp.Output.{ErrorClass, auth_failed, spawn_failed}
use lftpweb.Lftp.Command.{JobSpec}
use lftpweb.Jobs.Rows.{Job, ItemRow, QueueRow, RunningProcess, TransferQueue, permanent_error}
use lftpweb.Jobs.Table.{fetch_item, fetch_job, set_job, suppress_item, set_error, value_or_zero}
use lftpweb.Jobs.Admit.{
  Host, Launch, launched, no_pin, raises, World, Target, target_of, connections, below, decisions,
}
use lftpweb.Jobs.Reap.{Exit, reap_one}
use lftpweb.Jobs.Control.{expire_pause_if_due}

module _ {Position Fraction : Type 0} (world : World) where
  -- What lftp is asked for.
  unfoldable pub spec_for :
      AdmitDecision Fraction
      → Host
      → TransferQueue Position Fraction
      → Job Position Fraction
      → ItemRow
      → QueueRow
      → Target
      → JobSpec
  unfolding compiled_for_queue exclude_globs
  spec_for d host s job item queue_row target = record {
    job_id = d.job_id;
    kind = job.kind;
    creds = host.creds;
    remote_path = below queue_row.remote_path item.rel_path;
    local_path = target.local_full;
    rate_limit_bps = some d.rate_limit_bps;
    connection_limit = host.connection_limit;
    parallel = s.settings.mirror_parallel_transfer_count;
    pget_n = connections job.kind s.settings;
    exclude_globs = exclude_globs (compiled_for_queue item.queue_id false world.patterns);
    extra_settings = s.settings.extra_lftp_settings;
    save_status_interval_s = 1;
    run_dir = world.run_dir;
    mirror_rename_target = target.renamed;
  }

  abbrev pub started_as :
      AdmitDecision Fraction → ℕ → ItemRow → Job Position Fraction → Job Position Fraction
  started_as d pid item j = record j {
    state = running;
    pid = some pid;
    started_at = some world.now;
    rate_limit_bps = some d.rate_limit_bps;
    forced_full_rate = is_some d.forced_rate_fraction;
    forced_rate_fraction = d.forced_rate_fraction;
    bytes_start = value_or_zero item.local_size;
    bytes_total = item.remote_size;
  }

  -- The process is entered in `_running`, its job is running and its item is downloading.
  unfoldable pub started :
      AdmitDecision Fraction
      → ℕ
      → Job Position Fraction
      → ItemRow
      → Target
      → TransferQueue Position Fraction
      → TransferQueue Position Fraction
  unfolding set_job update
  started d pid job item target s = record s {
    running =
        s.running
        ++ (record {
          job_id = d.job_id;
          item_id = item.id;
          queue_id = item.queue_id;
          rel_path = item.rel_path;
          is_dir = item.is_dir;
          kind = job.kind;
          lane = d.lane;
          rate_limit_bps = d.rate_limit_bps;
          forced_rate_fraction = d.forced_rate_fraction;
          local_root = target.progress_root;
          bytes_total = item.remote_size;
          bytes_start = value_or_zero item.local_size;
          stop_requested = false;
          pause_requested = false;
        }
            ∷ []);
    jobs = set_job d.job_id (started_as d pid item) s.jobs;
    items =
        update (λ i. i.id == item.id)
          (λ i. record i { state = downloading; pending_download_prefix = target.prefix }) s.items;
  }

  abbrev pub fail_item :
      Option (Job Position Fraction) → ErrorClass → String → List ItemRow → List ItemRow
  fail_item none class detail items = items
  fail_item (some job) class detail items =
      set_error job.item_id class detail
        (suppress_item job.item_id permanent_error ItemState.failed items)

  -- `_fail_job`; the detail is cut to its first 4096 characters before it comes here.
  unfoldable pub fail_job :
      ℕ → ErrorClass → String → TransferQueue Position Fraction → TransferQueue Position Fraction
  unfolding fetch_job set_job set_error suppress_item
  fail_job id class detail s = record s {
    jobs =
        set_job id
          (λ j. record j {
            state = failed;
            finished_at = some world.now;
            error_class = some class;
            output_tail = some detail;
          })
          s.jobs;
    items = fail_item (fetch_job id s.jobs) class detail s.items;
  }

  -- Without a pinned key the job fails for good.
  unfoldable pub refuse_unpinned :
      ℕ → ℕ → String → TransferQueue Position Fraction → TransferQueue Position Fraction
  unfolding set_job suppress_item
  refuse_unpinned id item_id text s = record s {
    jobs =
        set_job id
          (λ j. record j {
            state = failed;
            error_class = some auth_failed;
            output_tail = some text;
          })
          s.jobs;
    items = suppress_item item_id permanent_error ItemState.failed s.items;
  }

  abbrev pub after_launch :
      Launch
      → AdmitDecision Fraction
      → Job Position Fraction
      → ItemRow
      → Target
      → TransferQueue Position Fraction
      → TransferQueue Position Fraction
  after_launch (launched pid) d job item target s = started d pid job item target s
  after_launch (no_pin text) d job item target s = refuse_unpinned d.job_id item.id text s
  after_launch (raises text) d job item target s = fail_job d.job_id spawn_failed text s

  abbrev pub spawn_in :
      Option QueueRow
      → AdmitDecision Fraction
      → Host
      → Job Position Fraction
      → ItemRow
      → TransferQueue Position Fraction
      → TransferQueue Position Fraction
  spawn_in none d host job item s = s
  spawn_in (some queue_row) d host job item s =
      let target = target_of job.kind world.prefix_settings queue_row item in
      after_launch (world.launch (spec_for d host s job item queue_row target)) d job item target s

  -- One process for an item at most.
  abbrev pub spawn_item :
      Option ItemRow
      → AdmitDecision Fraction
      → Host
      → Job Position Fraction
      → TransferQueue Position Fraction
      → TransferQueue Position Fraction
  spawn_item none d host job s = s
  spawn_item (some item) d host job s =
      if any (λ p. p.item_id == item.id) s.running
      then s
      else spawn_in (first (λ q. q.id == item.queue_id) s.queues) d host job item s

  abbrev pub spawn_job :
      Option (Job Position Fraction)
      → AdmitDecision Fraction
      → Host
      → TransferQueue Position Fraction
      → TransferQueue Position Fraction
  spawn_job none d host s = s
  spawn_job (some job) d host s = spawn_item (fetch_item job.item_id s.items) d host job s

  -- `_spawn_decision`, with the `except` of its caller.
  unfoldable pub spawn_decision :
      AdmitDecision Fraction
      → Host
      → TransferQueue Position Fraction
      → TransferQueue Position Fraction
  unfolding fetch_job fetch_item any first spec_for started refuse_unpinned fail_job target_of
  spawn_decision d host s = spawn_job (fetch_job d.job_id s.jobs) d host s

  unfoldable pub spawn_all :
      List (AdmitDecision Fraction)
      → Host
      → TransferQueue Position Fraction
      → TransferQueue Position Fraction
  unfolding spawn_decision
  spawn_all [] host s = s
  spawn_all (d ∷ ds) host s = spawn_all ds host (spawn_decision d host s)

  abbrev pub spawn_with :
      Option Host
      → List (AdmitDecision Fraction)
      → TransferQueue Position Fraction
      → TransferQueue Position Fraction
  spawn_with none ds s = s
  spawn_with (some host) ds s = if host.credentials_need_reentry then s else spawn_all ds host s

  module _ (floats : Arithmetic Position) (scaled : Fraction → ℕ → ℕ) (tenth : ℕ → ℕ)
      (full : Fraction) where
    -- `_admit`
    unfoldable pub admit_jobs : TransferQueue Position Fraction → TransferQueue Position Fraction
    unfolding decisions spawn_all
    admit_jobs s =
        if s.paused
        then s
        else if s.admission_hold
        then s
        else spawn_with world.host (decisions floats scaled tenth full world.monotonic s) s

    -- `_reap_finished`: `ended` pairs the processes that have exited with how.
    unfoldable pub reap_finished :
        List (RunningProcess Fraction × Exit)
        → TransferQueue Position Fraction
        → TransferQueue Position Fraction
    unfolding reap_one
    reap_finished [] s = s
    reap_finished ((proc, e) ∷ ended) s = reap_finished ended (reap_one floats proc e s)

    -- `tick`, without its samples of progress and throughput.
    unfoldable pub tick :
        List (RunningProcess Fraction × Exit)
        → TransferQueue Position Fraction
        → TransferQueue Position Fraction
    unfolding expire_pause_if_due reap_finished admit_jobs
    tick ended s = admit_jobs (reap_finished ended (expire_pause_if_due world.now s))
