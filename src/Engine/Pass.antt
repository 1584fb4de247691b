-- ===== src/Engine/Pass.antt =====
-- What one whole pass of `_persist` (backend/lftpweb/core/engine.py) keeps of a row, whatever the
-- two trees show.
use lftpweb.Common.{ℕ, String, ◌≡◌, refl, true, false, some, List}
use lftpweb.Common.Dict.{lookup}
use lftpweb.Item.{Item, is_removed}
use lftpweb.Absence.{reconsider_removed_state}
use lftpweb.Reconcile.Node.{ReconciledNode}
use lftpweb.Engine.Protected.{is_protected}
use lftpweb.Engine.Persist.{Pass, protected_row, open_row}
use lftpweb.Engine.Sweep.{persist}
use lftpweb.Engine.Kept.{Holds, KeptBy}
use lftpweb.Engine.Rows.{persist-Holds}

-- The columns that a scan never changes, and the completion stamp, which it never moves.
pub record SameIdentity (a b : Item) : Type 0 where
  pub same_id : b.id ≡ a.id
  pub same_remote_deleted_at : b.remote_deleted_at ≡ a.remote_deleted_at
  pub same_arr_status : b.arr_status ≡ a.arr_status
  pub same_suppressed : b.auto_queue_suppressed ≡ a.auto_queue_suppressed
  pub stamp_kept : (t : ℕ) → a.downloaded_at ≡ some t → b.downloaded_at ≡ some t

SameIdentity-KeptBy :
    (pass : Pass) (k : String) (prev : Item) → KeptBy pass k prev (SameIdentity prev)
unfolding protected_row open_row
SameIdentity-KeptBy pass k prev = record {
  by_protected = λ node item b h. record {
    same_id = h.same_id;
    same_remote_deleted_at = h.same_remote_deleted_at;
    same_arr_status = h.same_arr_status;
    same_suppressed = h.same_suppressed;
    stamp_kept = h.stamp_kept;
  };
  by_open = λ node settle item b r h. record {
    same_id = h.same_id;
    same_remote_deleted_at = h.same_remote_deleted_at;
    same_arr_status = h.same_arr_status;
    same_suppressed = h.same_suppressed;
    stamp_kept = λ t e. rw (h.stamp_kept t e);
  };
  by_sweep = λ state missing item b v h. record {
    same_id = h.same_id;
    same_remote_deleted_at = h.same_remote_deleted_at;
    same_arr_status = h.same_arr_status;
    same_suppressed = h.same_suppressed;
    stamp_kept = h.stamp_kept;
  };
}

-- Every row is still there after a pass, with its id, its *arr status, its suppression and its
-- remote deletion time, and a completion time that was set is never moved.
pub persist-SameIdentity :
    (pass : Pass) (k : String) (prev : Item) (next_id : ℕ) (nodes : List ReconciledNode)
    → lookup k pass.previous ≡ some prev
    → Holds k (SameIdentity prev) (persist pass next_id nodes).items
persist-SameIdentity pass k prev next_id nodes there =
    persist-Holds pass k prev (SameIdentity prev) next_id nodes (SameIdentity-KeptBy pass k prev)
      there
      (record {
        same_id = refl;
        same_remote_deleted_at = refl;
        same_arr_status = refl;
        same_suppressed = refl;
        stamp_kept = λ t e. e;
      })

-- The row keeps the state that it had.
abbrev pub SameState : Item → Item → Type 0
SameState a b = b.state ≡ a.state

SameState-KeptBy :
    (pass : Pass) (k : String) (prev : Item)
    → is_protected pass.busy pass.previous k ≡ true
    → is_removed prev.state ≡ false
    → KeptBy pass k prev (SameState prev)
unfolding protected_row reconsider_removed_state
SameState-KeptBy pass k prev b r = record {
  by_protected = λ node item _ h. rw r h;
  by_open = λ node settle item u r' h. cc;
  by_sweep = λ state missing item u v h. cc;
}

-- A scan leaves the state of a protected row as it is, whatever the two trees show, unless the row
-- says that its local content was removed.
pub protected_keeps_state :
    (pass : Pass) (k : String) (prev : Item) (next_id : ℕ) (nodes : List ReconciledNode)
    → lookup k pass.previous ≡ some prev
    → is_protected pass.busy pass.previous k ≡ true
    → is_removed prev.state ≡ false
    → Holds k (SameState prev) (persist pass next_id nodes).items
protected_keeps_state pass k prev next_id nodes there b r =
    persist-Holds pass k prev (SameState prev) next_id nodes (SameState-KeptBy pass k prev b r)
      there refl
