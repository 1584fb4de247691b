-- ===== src/Jobs/Startup.antt =====
-- What the transfer queue does when it starts (backend/lftpweb/core/queue.py, `start`,
-- `_reconcile_orphaned_jobs`, `_requeue_interrupted_item`, `_rescue_position`,
-- `_requeue_stranded_downloaded`, `_mount_ok`).
use lftpweb.Common.{
  ℕ, String, Bool, true, false, ◌&&◌, ◌||◌, not, Option, none, some, List, [], ◌∷◌, map, ◌=s◌,
  length, ltb, leb, ◌==◌, leb, any, elem, if◌then◌else◌, keep, update, first, is_some,
}
use lftpweb.Common.Dict.{or_else}
use lftpweb.Common.Text.{has_slash}
use lftpweb.Item.{ItemState, downloading, partial, is_downloaded}
use lftpweb.Flight.Sql.{failed}
use lftpweb.Queue.Positions.{Arithmetic, position_between}
use lftpweb.Lftp.Output.{ErrorClass, interrupted}
use lftpweb.Jobs.Rows.{
  Job, ItemRow, QueueRow, TransferQueue, interrupted_requeued, interrupted_requeue_gated,
}
use lftpweb.Jobs.Table.{runs, is_active, waits, fetch_item}
use lftpweb.Jobs.Enqueue.{Answer, answered, refused, enqueue_item}
use lftpweb.Jobs.Control.{expire_pause_if_due}

abbrev is_interrupted : Option ErrorClass → Bool
is_interrupted (some interrupted) = true
is_interrupted _ = false

abbrev is_downloading : ItemState → Bool
is_downloading downloading = true
is_downloading _ = false

-- `INTERRUPTED_OUTPUT_TAIL`
abbrev pub interrupted_output_tail : String
interrupted_output_tail =
    "Transfer interrupted by an application restart or crash -- the process did not exit on its own. Partial bytes on disk are retained; the next attempt for this item resumes from them."

-- `COALESCE(NULLIF(output_tail, ''), ?)`
abbrev tail_or_note : Option String → Option String
tail_or_note none = some interrupted_output_tail
tail_or_note (some t) = if t =s "" then some interrupted_output_tail else some t

-- `self._fetch_queue` and the sentinel of its local root; `mounted` is `mount_sentinel.check`.
abbrev healthy : (String → Bool) → Option QueueRow → Bool
healthy mounted none = false
healthy mounted (some q) = mounted q.local_path

-- `_mount_ok`. The answer that the call remembers for a queue is the one that it gave before.
unfoldable pub mount_ok : (String → Bool) → ℕ → List QueueRow → Bool
unfolding first
mount_ok mounted id queues = healthy mounted (first (λ q. q.id == id) queues)

-- What the start carries along: the state and the queues that it has already reported.
pub record Starting (Position Fraction : Type 0) : Type 0 where
  pub queue : TransferQueue Position Fraction
  pub gated : List ℕ

module _ {Position Fraction : Type 0} (floats : Arithmetic Position) (percent : ℕ → Fraction) where
  abbrev pub orphaned : ℕ → Job Position Fraction → Job Position Fraction
  orphaned now j = record j {
    state = failed;
    pid = none;
    error_class = some interrupted;
    finished_at = some now;
    output_tail = tail_or_note j.output_tail;
  }

  -- The two updates of `_reconcile_orphaned_jobs`.
  unfoldable pub fail_orphans : ℕ → List (Job Position Fraction) → List (Job Position Fraction)
  unfolding update
  fail_orphans now = update runs (orphaned now)

  unfoldable pub release_items : List (Job Position Fraction) → List ItemRow → List ItemRow
  unfolding update any
  release_items jobs =
      update
        (λ i.
          is_downloading i.state
          && any (λ j. j.item_id == i.id && is_interrupted j.error_class) jobs)
        (λ i. record i { state = partial })

  -- `_rescue_position`: the jobs in the place that a time of queueing has among the unmoved ones.
  abbrev unmoved : Job Position Fraction → Bool
  unmoved job = waits job && job.rank == 0

  abbrev better : Bool → Position → Option Position → Position
  better greatest x none = x
  better greatest x (some y) =
      if greatest
      then (if floats.before x y then y else x)
      else (if floats.before y x then y else x)

  unfoldable pub extreme :
      Bool → (Job Position Fraction → Bool) → List (Job Position Fraction) → Option Position
  extreme greatest wanted [] = none
  extreme greatest wanted (j ∷ js) =
      let rest = extreme greatest wanted js in
      if wanted j then some (better greatest j.queue_position rest) else rest

  abbrev between : Option Position → Option Position → Option Position → Position
  between (some l) (some r) boosted = position_between floats (some l) (some r)
  between none (some r) boosted = position_between floats boosted (some r)
  between (some l) none boosted = position_between floats (some l) none
  between none none boosted = position_between floats boosted none

  unfoldable pub rescue_position : ℕ → List (Job Position Fraction) → Position
  unfolding extreme position_between
  rescue_position queued_at jobs =
      between (extreme true (λ j. unmoved j && leb j.queued_at queued_at) jobs)
        (extreme false (λ j. unmoved j && ltb queued_at j.queued_at) jobs)
        (extreme true (λ j. waits j && not (j.rank == 0)) jobs)

  abbrev pub requeued :
      ℕ → Bool → Answer ℕ × TransferQueue Position Fraction → TransferQueue Position Fraction
  requeued item_id fresh (refused r, s) = s
  requeued item_id fresh (answered job_id, s) = record s {
    events = interrupted_requeued item_id job_id fresh ∷ s.events;
  }

  abbrev pub gate : ℕ → Starting Position Fraction → Starting Position Fraction
  gate queue_id s = if elem queue_id s.gated then s else record {
    queue = record (s.queue) { events = interrupted_requeue_gated queue_id ∷ s.queue.events };
    gated = queue_id ∷ s.gated;
  }

  abbrev pub requeue_found :
      (String → Bool)
      → Option ItemRow
      → Bool
      → ℕ
      → Starting Position Fraction
      → Starting Position Fraction
  requeue_found mounted none fresh queued_at s = s
  requeue_found mounted (some item) fresh queued_at s =
      if mount_ok mounted item.queue_id s.queue.queues
      then record s {
        queue = requeued item.id fresh (
            enqueue_item floats percent item.id false queued_at
              (some (rescue_position queued_at s.queue.jobs)) s.queue);
      }
      else gate item.queue_id s

  -- `_requeue_interrupted_item`
  unfoldable pub requeue_interrupted_item :
      (String → Bool) → ℕ → Bool → ℕ → Starting Position Fraction → Starting Position Fraction
  unfolding fetch_item mount_ok rescue_position enqueue_item
  requeue_interrupted_item mounted item_id fresh queued_at s =
      requeue_found mounted (fetch_item item_id s.queue.items) fresh queued_at s

  unfoldable pub requeue_orphans :
      (String → Bool)
      → List (Job Position Fraction)
      → Starting Position Fraction
      → Starting Position Fraction
  unfolding requeue_interrupted_item
  requeue_orphans mounted [] s = s
  requeue_orphans mounted (j ∷ js) s =
      requeue_orphans mounted js (requeue_interrupted_item mounted j.item_id true j.queued_at s)

  -- The last job of an item, by its id.
  unfoldable pub last_job_of : ℕ → List (Job Position Fraction) → Option (Job Position Fraction)
  last_job_of item_id [] = none
  last_job_of item_id (j ∷ js) =
      let later = last_job_of item_id js in
      if j.item_id == item_id then or_else later (some j) else later

  abbrev queued_at_of : Option (Job Position Fraction) → ℕ
  queued_at_of none = 0
  queued_at_of (some job) = job.queued_at

  abbrev was_interrupted : Option (Job Position Fraction) → Bool
  was_interrupted none = false
  was_interrupted (some job) = is_interrupted job.error_class

  -- The `WHERE` of `_requeue_stranded_downloaded`.
  abbrev stranded : List (Job Position Fraction) → ItemRow → Bool
  stranded jobs i =
      is_downloaded i.state
      && is_some i.pending_download_prefix
      && not (has_slash i.rel_path)
      && not (any (λ j. j.item_id == i.id && is_active j) jobs)
      && was_interrupted (last_job_of i.id jobs)

  abbrev is_on_disk : (QueueRow → ItemRow → Bool) → Option QueueRow → ItemRow → Bool
  is_on_disk prefixed none item = false
  is_on_disk prefixed (some q) item = prefixed q item

  -- The loop over the candidates, with the time that each one's last job was queued at;
  -- `prefixed q i` says that the item's directory on disk still has the prefix of its column.
  unfoldable pub requeue_candidates :
      (String → Bool)
      → (QueueRow → ItemRow → Bool)
      → List ℕ
      → List (ItemRow × ℕ)
      → Starting Position Fraction
      → Starting Position Fraction
  unfolding first requeue_interrupted_item
  requeue_candidates mounted prefixed handled [] s = s
  requeue_candidates mounted prefixed handled ((i, queued_at) ∷ is) s =
      requeue_candidates mounted prefixed handled is (
        if elem i.id handled
          || not (is_on_disk prefixed (first (λ q. q.id == i.queue_id) s.queue.queues) i)
        then s
        else requeue_interrupted_item mounted i.id false queued_at s)

  -- Its `SELECT`, with the time that each item's last job was queued at.
  abbrev pub stranded_items : Starting Position Fraction → List (ItemRow × ℕ)
  stranded_items s =
      map (λ i. (i, queued_at_of (last_job_of i.id s.queue.jobs)))
        (keep (stranded s.queue.jobs) s.queue.items)

  -- `_requeue_stranded_downloaded`
  unfoldable pub requeue_stranded_downloaded :
      (String → Bool)
      → (QueueRow → ItemRow → Bool)
      → List ℕ
      → Starting Position Fraction
      → Starting Position Fraction
  unfolding keep last_job_of any requeue_candidates
  requeue_stranded_downloaded mounted prefixed handled s =
      requeue_candidates mounted prefixed handled (stranded_items s) s

  -- The updates of `_reconcile_orphaned_jobs`, where a row is left running.
  abbrev pub cleared : ℕ → TransferQueue Position Fraction → TransferQueue Position Fraction
  cleared now s = if length (keep runs s.jobs) == 0 then s else record s {
    jobs = fail_orphans now s.jobs;
    items = release_items (fail_orphans now s.jobs) s.items;
  }

  -- `_reconcile_orphaned_jobs`
  unfoldable pub reconcile_orphaned_jobs :
      (String → Bool)
      → (QueueRow → ItemRow → Bool)
      → ℕ
      → TransferQueue Position Fraction
      → TransferQueue Position Fraction
  unfolding keep fail_orphans release_items requeue_orphans requeue_stranded_downloaded
  reconcile_orphaned_jobs mounted prefixed now s =
      let rows = keep runs s.jobs in
      let done =
        requeue_stranded_downloaded mounted prefixed (map (λ j. j.item_id) rows)
          (requeue_orphans mounted rows (record { queue = cleared now s; gated = [] })) in
      done.queue

  -- `start`, up to the task that it creates.
  unfoldable pub start :
      (String → Bool)
      → (QueueRow → ItemRow → Bool)
      → ℕ
      → TransferQueue Position Fraction
      → TransferQueue Position Fraction
  unfolding expire_pause_if_due reconcile_orphaned_jobs
  start mounted prefixed now s = reconcile_orphaned_jobs mounted prefixed now (
      expire_pause_if_due now
        (record s { paused = s.pause_setting.paused; paused_until = s.pause_setting.paused_until }))
