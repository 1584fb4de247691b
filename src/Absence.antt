-- ===== src/Absence.antt =====
-- The rules by which a scan's fresh reading gives way to what is stored of an item:
-- `is_local_shrink`, `resolve_absence` and `resolve_vanished` of
-- backend/lftpweb/core/mount_sentinel.py, `outcome_survives_rescan` of
-- backend/lftpweb/core/postprocess.py and `reconsider_removed_state` of
-- backend/lftpweb/core/local_delete.py.
pub mod Grace
use lftpweb.Common.{
  ℕ, ◌+◌, Bool, true, false, ◌&&◌, ◌||◌, not, Option, none, some, leb, ◌==◌, is_some, if◌then◌else◌,
}
use lftpweb.Item.{
  ItemState, removed_local, removed_both, local_only, downloaded, partial, remote_only, is_terminal,
  is_complete, is_removed, is_removed_local, is_partial, is_remote_only,
}

-- `DEFAULT_GRACE_S`, in microseconds
abbrev pub default_grace : ℕ
default_grace = 600_000_000

-- `_elapsed_grace`: `now - first_missing >= grace`
abbrev pub elapsed_grace : ℕ → ℕ → ℕ → Bool
elapsed_grace first_missing now grace = leb (first_missing + grace) now

abbrev pub both_known_equal : Option ℕ → Option ℕ → Bool
both_known_equal (some a) (some b) = b == a
both_known_equal _ _ = false

unfoldable pub is_local_shrink : ItemState → ItemState → Option ℕ → Option ℕ → Bool
is_local_shrink prev_state structural prev_remote_size remote_size =
    is_partial structural
    && (is_complete prev_state && both_known_equal prev_remote_size remote_size)

-- What is stored instead of a fresh reading: a state and `first_missing_at`.
abbrev pub Override : Type 0
Override = Option (ItemState × Option ℕ)

-- The clock that both branches of `resolve_absence` run: it is not started while the mount is
-- not healthy, starts at the first absent reading, and gives `expired` when it has run out.
abbrev pub run_grace : ItemState → Option ℕ → Bool → ℕ → ℕ → (ℕ → Override) → Override
run_grace prev_state missing false now grace expired = some (prev_state, missing)
run_grace prev_state none true now grace expired = some (prev_state, some now)
run_grace prev_state (some since) true now grace expired =
    if elapsed_grace since now grace then expired since else some (prev_state, some since)

-- The second half of `resolve_absence`, after the branch of a local shrink. The first test is on
-- `_STICKY_PREV_STATES`, the complete states and `REMOVED_LOCAL`.
unfoldable pub resolve_missing : ItemState → Option ℕ → ItemState → Bool → ℕ → ℕ → Override
resolve_missing prev_state missing structural mount_ok now grace =
    if not (is_remote_only structural)
      || not (is_complete prev_state || is_removed_local prev_state)
    then none
    else if is_removed_local prev_state
    then some (removed_local, missing)
    else run_grace prev_state missing mount_ok now grace (λ since. some (removed_local, some since))

-- `prev_state` is `None` for a path that has no row; both tests of the source then fail.
unfoldable pub resolve_absence :
    Option ItemState → Option ℕ → ItemState → Bool → ℕ → ℕ → Option ℕ → Option ℕ → Override
unfolding is_local_shrink resolve_missing
resolve_absence none missing structural mount_ok now grace prev_remote_size remote_size = none
resolve_absence (some prev_state) missing structural mount_ok now grace prev_remote_size
      remote_size =
    if is_local_shrink prev_state structural prev_remote_size remote_size
    then run_grace prev_state missing mount_ok now grace (λ since. none)
    else resolve_missing prev_state missing structural mount_ok now grace

unfoldable pub resolve_vanished : ItemState → Option ItemState
resolve_vanished partial = some removed_both
resolve_vanished local_only = some removed_both
resolve_vanished _ = none

unfoldable pub outcome_survives_rescan : Option ItemState → ItemState → Option ℕ → Bool
outcome_survives_rescan none structural remote_deleted_at = false
outcome_survives_rescan (some prev_state) downloaded remote_deleted_at = is_terminal prev_state
outcome_survives_rescan (some prev_state) local_only remote_deleted_at =
    is_terminal prev_state && is_some remote_deleted_at
outcome_survives_rescan (some prev_state) _ remote_deleted_at = false

unfoldable pub reconsider_removed_state : ItemState → Bool → Bool → ItemState → Option ItemState
reconsider_removed_state prev_state remote_present local_present structural =
    if not (is_removed prev_state)
    then none
    else if not remote_present && not local_present
    then none
    else if remote_present && not local_present
    then some removed_local
    else if local_present && not remote_present
    then some local_only
    else some structural
