-- ===== src/Jobs/Outcome.antt =====
-- Where a transfer's end leaves its item (backend/lftpweb/core/queue.py, `_reap_one`).
use lftpweb.Common.{
  ℕ, ◌≡◌, refl, ◌∙◌, ap, Bool, true, false, ◌&&◌, ◌||◌, not, Option, none, some, List, ◌∷◌, arith,
  if◌then◌else◌, is_some, inl, inr, subst, sym, Option-cases,
}
use lftpweb.Common.Text.{has_slash}
use lftpweb.Common.Search.{last_chars}
use lftpweb.Item.{ItemState, partial, downloaded, remote_only, stopped}
use lftpweb.Queue.Positions.{Arithmetic}
use lftpweb.Lftp.Output.{ErrorClass, classify_output}
use lftpweb.Jobs.Rows.{Job, ItemRow, RunningProcess, TransferQueue}
use lftpweb.Jobs.Table.{
  fetch_item, running_process, stop_tracking, current_attempt, suppress_item, set_error, insert_job,
}
use lftpweb.Jobs.Found.{fetch_item-update, flush-found}
use mathlib.Core.Bool.{true≢false}
use lftpweb.Jobs.Children.{flush_child_progress_final}
use lftpweb.Jobs.Completeness.{completeness_on_disk}
use lftpweb.Jobs.Reap.{
  Exit, reap_one, reap_tracked, reap_stopped, reap_paused, reap_succeeded, reap_failed, is_zero,
  landed, land, trigger_if, retry, give_up, can_retry, fail_row, finish_job,
}

-- Three tests of a transfer that exited with 0.
unfoldable pub is_settled_for : {Fraction : Type 0} → RunningProcess Fraction → Exit → Bool
is_settled_for proc e = has_slash proc.rel_path || e.settled

-- A way that a transfer ends.
pub data Ending : Type 0 where
  was_stopped was_paused incomplete unsettled finished failed_for_now failed_for_good : Ending

-- The state of the item after each ending.
abbrev pub item_state_after : Ending → ItemState
item_state_after was_stopped = stopped
item_state_after was_paused = ItemState.queued
item_state_after incomplete = partial
item_state_after unsettled = remote_only
item_state_after finished = downloaded
item_state_after failed_for_now = ItemState.queued
item_state_after failed_for_good = ItemState.failed

-- Whether auto-queue leaves the item alone after it: `none` where the column is not written.
abbrev pub suppressed_after : Ending → Bool → Bool
suppressed_after was_stopped before = true
suppressed_after was_paused before = before
suppressed_after incomplete before = false
suppressed_after unsettled before = false
suppressed_after finished before = false
suppressed_after failed_for_now before = before
suppressed_after failed_for_good before = true

abbrev pub is_finished : Ending → Bool
is_finished finished = true
is_finished _ = false

-- The state of a row and whether auto-queue leaves it alone.
abbrev pub seen : Option ItemRow → Option (ItemState × Bool)
seen none = none
seen (some i) = some (i.state, i.auto_queue_suppressed)

module _ {Position Fraction : Type 0} (floats : Arithmetic Position) where
  -- How the transfer has ended, read off the state before: a stop goes before a pause, a pause before
  -- the exit code.
  unfoldable pub ending_of :
      RunningProcess Fraction → Exit → TransferQueue Position Fraction → Ending
  unfolding is_settled_for
  ending_of proc e s =
      if proc.stop_requested
      then was_stopped
      else if proc.pause_requested
      then was_paused
      else if is_zero e.code
      then (if not (is_settled_for proc e)
          then unsettled
          else if completeness_on_disk proc e.disk
              (flush_child_progress_final proc e.disk.files s.items)
          then finished
          else incomplete)
      else if can_retry floats (classify_output e.tail)
          (current_attempt proc.job_id (fail_row floats proc e (classify_output e.tail) s.jobs)) s
      then failed_for_now
      else failed_for_good

  trigger_if-triggered :
      (wanted : Bool) (id : ℕ) (t : TransferQueue Position Fraction)
      → (trigger_if floats wanted id t).triggered
        ≡ (if wanted then id ∷ t.triggered else t.triggered)
  trigger_if-triggered true id t = refl
  trigger_if-triggered false id t = refl

  trigger_if-items :
      (wanted : Bool) (id : ℕ) (t : TransferQueue Position Fraction)
      → (trigger_if floats wanted id t).items ≡ t.items
  trigger_if-items true id t = refl
  trigger_if-items false id t = refl

  module _ (proc : RunningProcess Fraction) (e : Exit) (s : TransferQueue Position Fraction)
      (i : ItemRow) (found : fetch_item proc.item_id s.items ≡ some i) where
    abbrev wanted : Bool
    wanted = s.has_postprocess && not (has_slash proc.rel_path)

    -- The item and the list of the triggered ones, as the ending says.
    record As (x : Ending) (t : TransferQueue Position Fraction) : Type 0 where
      triggered :
          t.triggered
          ≡ (if is_finished x && wanted then proc.item_id ∷ s.triggered else s.triggered)
      item :
          seen (fetch_item proc.item_id t.items)
          ≡ some (item_state_after x, suppressed_after x i.auto_queue_suppressed)

    both_As :
        {x y : Ending} {t u : TransferQueue Position Fraction} (b : Bool)
        → As x t
        → As y u
        → As (if b then x else y) (if b then t else u)
    both_As true k l = k
    both_As false k l = l

    stopped_As : As was_stopped (reap_stopped floats proc e s)
    unfolding reap_stopped suppress_item
    stopped_As = record {
      triggered = refl;
      item = ap seen (fetch_item-update proc.item_id _ s.items i (λ x. refl) found);
    }

    paused_As : As was_paused (reap_paused floats proc e s)
    unfolding reap_paused
    paused_As = record {
      triggered = refl;
      item = ap seen (fetch_item-update proc.item_id _ s.items i (λ x. refl) found);
    }

    retried_As :
        (class : ErrorClass) (attempt : ℕ) (jobs : List (Job Position Fraction))
        → As failed_for_now (retry floats proc e class attempt (record s { jobs = jobs }))
    unfolding retry set_error insert_job
    retried_As class attempt jobs =
        let queued_again =
          fetch_item-update proc.item_id (λ x. record x { state = ItemState.queued }) s.items i
            (λ x. refl) found in
        record {
          triggered = refl;
          item = ap seen (fetch_item-update proc.item_id _ _ _ (λ x. refl) queued_again);
        }

    given_up_As :
        (class : ErrorClass) (jobs : List (Job Position Fraction))
        → As failed_for_good (give_up floats proc e class (record s { jobs = jobs }))
    unfolding give_up suppress_item set_error
    given_up_As class jobs =
        let told =
          fetch_item-update proc.item_id
            (λ x. record x {
              error_class = some class;
              error_detail = some (last_chars 2000 e.tail);
            })
            s.items i (λ x. refl) found in
        record {
          triggered = refl;
          item = ap seen (fetch_item-update proc.item_id _ _ _ (λ x. refl) told);
        }

    failed_As :
        As
          (if can_retry floats
              (classify_output e.tail)
              (current_attempt proc.job_id (fail_row floats proc e (classify_output e.tail) s.jobs))
              s
            then failed_for_now
            else failed_for_good)
          (reap_failed floats proc e s)
    unfolding reap_failed can_retry
    failed_As =
        both_As {x = failed_for_now} {y = failed_for_good} _ (retried_As _ _ _) (given_up_As _ _)

    landed-As :
        (settled complete : Bool) (jobs : List (Job Position Fraction)) (items : List ItemRow)
        (row : ItemRow)
        → fetch_item proc.item_id items ≡ some row
        → As (if not settled then unsettled else if complete then finished else incomplete) (
            trigger_if floats
              (settled && complete && s.has_postprocess && not (has_slash proc.rel_path))
              proc.item_id
              (landed floats settled complete proc e (record s { jobs = jobs; items = items })))
    unfolding landed land
    landed-As true true jobs items row h = record {
      triggered = trigger_if-triggered wanted proc.item_id _;
      item =
          ap (λ is. seen (fetch_item proc.item_id is)) (trigger_if-items wanted proc.item_id _)
          ∙ ap seen (fetch_item-update proc.item_id _ items row (λ x. refl) h);
    }
    landed-As true false jobs items row h = record {
      triggered = refl;
      item = ap seen (fetch_item-update proc.item_id _ items row (λ x. refl) h);
    }
    landed-As false complete jobs items row h = record {
      triggered = refl;
      item = ap seen (fetch_item-update proc.item_id _ items row (λ x. refl) h);
    }

    abbrev flushed : List ItemRow
    flushed = flush_child_progress_final proc e.disk.files s.items

    same_test : (if not (has_slash proc.rel_path) then e.settled else true) ≡ is_settled_for proc e
    unfolding is_settled_for
    same_test = ground arith

    flushed-As :
        (row : ItemRow)
        → fetch_item proc.item_id flushed ≡ some row
        → As
            (if not (is_settled_for proc e)
              then unsettled
              else if completeness_on_disk proc e.disk flushed
              then finished
              else incomplete)
            (reap_succeeded floats proc e s)
    unfolding reap_succeeded
    flushed-As row h =
        subst
          (λ b.
            As
              (if not b
                then unsettled
                else if completeness_on_disk proc e.disk flushed
                then finished
                else incomplete)
              (reap_succeeded floats proc e s))
          same_test
          (landed-As (if not (has_slash proc.rel_path) then e.settled else true)
            (completeness_on_disk proc e.disk flushed) (finish_job floats proc e s.items s.jobs)
            flushed row h)

    succeeded_As :
        As
          (if not (is_settled_for proc e)
            then unsettled
            else if completeness_on_disk proc e.disk flushed
            then finished
            else incomplete)
          (reap_succeeded floats proc e s)
    succeeded_As = elim (Option-cases (fetch_item proc.item_id flushed)) [
      | inl gone ↦ absurd (
          true≢false (
            sym (flush-found proc proc.item_id e.disk.files s.items (ap is_some found))
            ∙ ap is_some gone))
      | inr (row, h) ↦ flushed-As row h
    ]

    reap_tracked-As : As (ending_of proc e s) (reap_tracked floats proc e s)
    unfolding ending_of
    reap_tracked-As = both_As {x = was_stopped} proc.stop_requested stopped_As (
        both_As {x = was_paused} proc.pause_requested paused_As
          (both_As (is_zero e.code) succeeded_As failed_As))

  -- The item and the triggered ones after a transfer has ended.
  pub reap_one-ending_of :
      (proc : RunningProcess Fraction) (e : Exit) (s : TransferQueue Position Fraction)
      (i : ItemRow)
      → fetch_item proc.item_id s.items ≡ some i
      → is_some (running_process proc.job_id s.running) ≡ true
      → (seen (fetch_item proc.item_id (reap_one floats proc e s).items)
          ≡ some (
            item_state_after (ending_of proc e s),
            suppressed_after (ending_of proc e s) i.auto_queue_suppressed,
          ))
        × ((reap_one floats proc e s).triggered ≡ (
            if is_finished (ending_of proc e s)
              && (s.has_postprocess && not (has_slash proc.rel_path))
            then proc.item_id ∷ s.triggered
            else s.triggered))
  unfolding reap_one ending_of can_retry
  reap_one-ending_of proc e s i found tracked =
      let untracked = record s { running = stop_tracking proc.job_id s.running } in
      let k = reap_tracked-As proc e untracked i found in rw tracked (k.item, k.triggered)
