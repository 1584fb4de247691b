-- ===== src/Jobs/Admit.antt =====
-- Admitting jobs and starting their processes (backend/lftpweb/core/queue.py, `_admit`,
-- `_spawn_decision`, `_resolve_download_prefix_for_spawn`, `_fail_job`, `tick`).
use Prim.Native.String.{◌++◌ as ◌<>◌}
use lftpweb.Common.Search.{strip_slashes}
use lftpweb.Common.{
  ℕ, String, Bool, true, false, ◌&&◌, ◌||◌, not, Option, none, some, List, [], ◌∷◌, map, ◌==◌, ◌=s◌,
  ltb, leb, elem, if◌then◌else◌, keep, is_some,
}
use lftpweb.Common.Path.{parent_of}
use lftpweb.Scheduler.{QueuedJob, RunningJob, AdmitDecision, admit}
use lftpweb.Queue.Positions.{Arithmetic}
use lftpweb.Queue.Settings.{TransferSettings, scheduler_settings}
use lftpweb.DownloadPrefix.{DownloadPrefixSettings, resolve_for_queue, prefixed_name}
use lftpweb.Patterns.Compiled.{Pattern, basename}
use lftpweb.Lftp.Command.{JobKind, mirror, pget, HostCreds, JobSpec}
use lftpweb.Jobs.Rows.{Job, ItemRow, QueueRow, TransferQueue}
use lftpweb.Jobs.Table.{waits, running_process}

-- `self._backoff_until.get(item_id, 0.0)`
unfoldable pub backoff_of : ℕ → List (ℕ × ℕ) → ℕ
backoff_of id [] = 0
backoff_of id ((i, deadline) ∷ es) =
    let rest = backoff_of id es in if i == id then deadline else rest

-- `_resolve_download_prefix_for_spawn`: a prefix that the item has already is kept.
abbrev prefix_if : Bool × String → Option String
prefix_if (on, prefix) = if on then some prefix else none

unfoldable pub resolve_download_prefix : DownloadPrefixSettings → ItemRow → QueueRow → Option String
unfolding resolve_for_queue
resolve_download_prefix site item queue_row = elim item.pending_download_prefix [
  | none ↦
      prefix_if (resolve_for_queue queue_row.download_prefix_enabled queue_row.download_prefix site)
  | some existing ↦ some existing
]

-- Where a transfer writes: lftp's local path, the path that the progress is read from, and whether the
-- first is the renamed target itself.
pub record Target : Type 0 where
  pub local_full : String
  pub progress_root : String
  pub renamed : Bool
  pub prefix : Option String

abbrev pub below : String → String → String
below root rel_path = strip_slashes root <> ("/" <> rel_path)

abbrev local_parent : QueueRow → Option String → String
local_parent queue_row none = strip_slashes queue_row.local_path
local_parent queue_row (some parent) =
    if parent =s "" then strip_slashes queue_row.local_path else below queue_row.local_path parent

abbrev mirror_target : QueueRow → ItemRow → Option String → Target
mirror_target queue_row item none = record {
  local_full = local_parent queue_row (parent_of item.rel_path);
  progress_root = below queue_row.local_path item.rel_path;
  renamed = false;
  prefix = none;
}
mirror_target queue_row item (some prefix) =
    let full =
      local_parent queue_row (parent_of item.rel_path)
      <> ("/" <> prefixed_name prefix (basename item.rel_path)) in
    record { local_full = full; progress_root = full; renamed = true; prefix = some prefix }

unfoldable pub target_of : JobKind → DownloadPrefixSettings → QueueRow → ItemRow → Target
unfolding resolve_download_prefix prefixed_name strip_slashes parent_of basename
target_of pget site queue_row item = record {
  local_full = below queue_row.local_path item.rel_path;
  progress_root = below queue_row.local_path item.rel_path;
  renamed = false;
  prefix = none;
}
target_of mirror site queue_row item =
    mirror_target queue_row item (resolve_download_prefix site item queue_row)

-- `_host_provider()`: the host, its pinned key among the credentials, and its connection limit.
pub record Host : Type 0 where
  pub creds : HostCreds
  pub connection_limit : Option ℕ
  pub credentials_need_reentry : Bool

-- What `lftp.spawn` comes to: a process, `NoHostKeyPinError`, or another exception and its text.
pub data Launch : Type 0 where
  launched : ℕ → Launch
  no_pin : String → Launch
  raises : String → Launch

-- What a pass reads beside the state: both clocks, the table `pattern`, the site's prefix setting,
-- the host, the directory for lftp's files, and `lftp.spawn`.
pub record World : Type 0 where
  pub now : ℕ
  pub monotonic : ℕ
  pub patterns : List Pattern
  pub prefix_settings : DownloadPrefixSettings
  pub host : Option Host
  pub run_dir : String
  pub launch : JobSpec → Launch

abbrev pub connections : JobKind → TransferSettings → ℕ
connections mirror settings = settings.mirror_use_pget_n
connections pget settings = settings.pget_default_n

module _ {Position Fraction : Type 0} (floats : Arithmetic Position) (scaled : Fraction → ℕ → ℕ)
    (tenth : ℕ → ℕ) where
  -- `resolve_forced_rate_fraction`: a row forced before fractions were kept has the full rate.
  unfoldable pub resolve_forced_rate_fraction : Fraction → Job Position Fraction → Option Fraction
  resolve_forced_rate_fraction full job = elim job.forced_rate_fraction [
    | none ↦ (if job.forced_full_rate then some full else none)
    | some fraction ↦ some fraction
  ]

  -- `ORDER BY queue_position ASC, id ASC`
  abbrev pub not_after : Job Position Fraction → Job Position Fraction → Bool
  not_after a b =
      floats.before a.queue_position b.queue_position
      || (not (floats.before b.queue_position a.queue_position) && leb a.id b.id)

  unfoldable pub insert_in_order :
      Job Position Fraction → List (Job Position Fraction) → List (Job Position Fraction)
  insert_in_order j [] = j ∷ []
  insert_in_order j (k ∷ ks) = if not_after j k then j ∷ k ∷ ks else k ∷ insert_in_order j ks

  unfoldable pub in_order : List (Job Position Fraction) → List (Job Position Fraction)
  unfolding insert_in_order
  in_order [] = []
  in_order (j ∷ js) = insert_in_order j (in_order js)

  abbrev pub as_queued : Fraction → Job Position Fraction → QueuedJob Position Fraction
  as_queued full j = record {
    id = j.id;
    lane = j.lane;
    queue_position = j.queue_position;
    forced_rate_fraction = resolve_forced_rate_fraction full j;
  }

  -- The loop of `_admit` over the queued rows: the rows that may start, one for an item at most.
  unfoldable pub candidates :
      ℕ
      → TransferQueue Position Fraction
      → List ℕ
      → List (Job Position Fraction)
      → List (Job Position Fraction)
  unfolding running_process backoff_of
  candidates monotonic s active [] = []
  candidates monotonic s active (j ∷ js) =
      let skip =
        is_some (running_process j.id s.running)
        || ltb monotonic (backoff_of j.item_id s.backoff_until)
        || elem j.item_id active in
      let rest = candidates monotonic s (if skip then active else j.item_id ∷ active) js in
      if skip then rest else j ∷ rest

  abbrev pub running_jobs : TransferQueue Position Fraction → List RunningJob
  running_jobs s =
      map (λ p. record { id = p.job_id; lane = p.lane; rate_limit_bps = p.rate_limit_bps })
        s.running

  unfoldable pub ready_jobs : ℕ → TransferQueue Position Fraction → List (Job Position Fraction)
  unfolding candidates in_order keep
  ready_jobs monotonic s =
      candidates monotonic s (map (λ p. p.item_id) s.running) (in_order (keep waits s.jobs))

  -- The decisions of one pass.
  unfoldable pub decisions :
      Fraction → ℕ → TransferQueue Position Fraction → List (AdmitDecision Fraction)
  unfolding admit scheduler_settings ready_jobs resolve_forced_rate_fraction
  decisions full monotonic s =
      admit floats.before scaled (scheduler_settings tenth s.settings) (running_jobs s)
        (map (as_queued full) (ready_jobs monotonic s))
