-- ===== src/Engine/Removal.antt =====
-- When one whole pass of `_persist` (backend/lftpweb/core/engine.py) says of a row that its local
-- content was removed.
use lftpweb.Common.{
  ℕ, String, ◌≡◌, refl, ◌⊎◌, inl, inr, Bool, true, false, Option, none, some, List, arith,
  or_default, Bool-cases,
}
use lftpweb.Common.Dict.{lookup}
use lftpweb.Common.TextList.{elem_text}
use lftpweb.Item.{Item, ItemState, remote_only, is_complete, is_removed}
use lftpweb.Absence.{
  default_grace, resolve_absence, Override, resolve_vanished, outcome_survives_rescan,
  reconsider_removed_state,
}
use lftpweb.Absence.Grace.{GraceOver, resolve_absence-GraceOver}
use lftpweb.Reconcile.Node.{ReconciledNode, Structural, as_item_state, structural_state}
use lftpweb.Engine.Persist.{
  Pass, protected_row, open_row, reading_for, absence_reading, settled_reading, gated_reading,
}
use lftpweb.Engine.Sweep.{swept, resolve_prev_state, vanished_reading, persist}
use lftpweb.Engine.Kept.{Holds, Vanishes, KeptBy}
use lftpweb.Engine.Rows.{persist-Holds}

-- What lets a scan say that a row was removed: the grace period is over on a healthy mount, or the
-- program deleted the file itself.
pub data MayBeRemoved (pass : Pass) (k : String) (prev : Item) : Type 0 where
  grace_over :
      GraceOver prev.first_missing_at pass.mount_ok pass.now default_grace
      → MayBeRemoved pass k prev
  deleted_by_us : elem_text k pass.deleted_archive_paths ≡ true → MayBeRemoved pass k prev

abbrev pub RemovedOnlyIf : Type 0 → Item → Type 0
RemovedOnlyIf A item = (is_removed item.state ≡ false) ⊎ A

complete_not_removed : (s : ItemState) → is_complete s ≡ true → is_removed s ≡ false
complete_not_removed s h = ground arith

structural_not_removed : (s : Structural) → is_removed (as_item_state s) ≡ false
structural_not_removed s = ground arith

gated_not_removed :
    (g : Bool) (s : ItemState) (m : Option ℕ)
    → is_removed s ≡ false
    → is_removed (gated_reading g (s, m)).state ≡ false
unfolding gated_reading
gated_not_removed g s m h = ground arith

abbrev Grace : Pass → Item → Type 0
Grace pass prev = GraceOver prev.first_missing_at pass.mount_ok pass.now default_grace

absence_reading_removed :
    (pass : Pass) (node : ReconciledNode) (prev : Item) (o : Override)
    → absence_reading pass node prev ≡ o
    → is_removed prev.state ≡ false
    → (is_removed (or_default (structural_state node, none) o).0 ≡ false) ⊎ Grace pass prev
unfolding absence_reading
absence_reading_removed pass node prev none e h = inl (structural_not_removed node.structural)
absence_reading_removed pass node prev (some (s, m)) e h =
    elim (resolve_absence-GraceOver _ _ _ _ _ _ _ _ s m e) [
      | inl same ↦ inl (rw same h)
      | inr (over, gone) ↦ inr over
    ]

same_or_over : (s t : ItemState) (A : Type 0) (B : Type 0) → (s ≡ t) ⊎ (A × B) → (s ≡ t) ⊎ A
same_or_over s t A B (inl e) = inl e
same_or_over s t A B (inr (a, b)) = inr a

settled_reading_removed :
    (pass : Pass) (node : ReconciledNode) (prev : Item)
    → is_removed prev.state ≡ false
    → (is_removed (settled_reading pass node (some prev)).0 ≡ false) ⊎ Grace pass prev
unfolding settled_reading
settled_reading_removed pass node prev h =
    elim (Bool-cases
      (outcome_survives_rescan (some prev.state) (structural_state node) prev.remote_deleted_at)) [
        | inl e ↦ rw e (inl h)
        | inr e ↦ rw e (absence_reading_removed pass node prev _ refl h)
      ]

resolve_prev_state_lem :
    (prev : Item) → is_complete prev.state ≡ true → resolve_prev_state prev ≡ prev.state
resolve_prev_state_lem prev h = ground arith

resolve_vanished_lem : (s : ItemState) → is_complete s ≡ true → resolve_vanished s ≡ none
unfolding resolve_vanished
resolve_vanished_lem s h = ground arith

swept_removed :
    (o : Override) (t s : ItemState) (m : Option ℕ) (A : Type 0)
    → is_complete t ≡ true
    → ((s' : ItemState) (m' : Option ℕ) → o ≡ some (s', m') → (s' ≡ t) ⊎ A)
    → swept o none ≡ some (s, m)
    → (is_removed s ≡ false) ⊎ A
swept_removed none t s m A c v h = cc
swept_removed (some (s', m')) t s m A c v h = elim (v s' m' refl) [
  | inl same ↦ inl (ground arith)
  | inr a ↦ inr a
]

vanished_reading_removed :
    (pass : Pass) (prev : Item) (s : ItemState) (m : Option ℕ)
    → is_complete prev.state ≡ true
    → vanished_reading pass prev ≡ some (s, m)
    → (is_removed s ≡ false) ⊎ Grace pass prev
unfolding vanished_reading
vanished_reading_removed pass prev s m c h =
    swept_removed
      (resolve_absence (some prev.state) prev.first_missing_at remote_only pass.mount_ok pass.now
        default_grace none none)
      prev.state s m (Grace pass prev) c
      (λ s' m' e. same_or_over _ _ _ _ (resolve_absence-GraceOver _ _ _ _ _ _ _ _ s' m' e))
      (rw (resolve_prev_state_lem prev c, resolve_vanished_lem prev.state c) at h)

abbrev May : Pass → String → Item → Item → Type 0
May pass k prev = RemovedOnlyIf (MayBeRemoved pass k prev)

may :
    (pass : Pass) (k : String) (prev : Item) (s : ItemState)
    → (is_removed s ≡ false) ⊎ Grace pass prev
    → (is_removed s ≡ false) ⊎ MayBeRemoved pass k prev
may pass k prev s (inl h) = inl h
may pass k prev s (inr g) = inr (MayBeRemoved.grace_over g)

Vanishes-removed :
    (pass : Pass) (k : String) (prev : Item) (s : ItemState) (m : Option ℕ)
    → is_complete prev.state ≡ true
    → Vanishes pass k prev s m
    → (is_removed s ≡ false) ⊎ MayBeRemoved pass k prev
Vanishes-removed pass k prev _ _ c (Vanishes.spent d) = inl refl
Vanishes-removed pass k prev _ _ c (Vanishes.orphaned d) = inr (MayBeRemoved.deleted_by_us d)
Vanishes-removed pass k prev s m c (Vanishes.read d e) =
    may pass k prev s (vanished_reading_removed pass prev s m c e)

reading_removed :
    (g : Bool) (r : ItemState × Option ℕ) (A : Type 0)
    → (is_removed r.0 ≡ false) ⊎ A
    → (is_removed (gated_reading g r).state ≡ false) ⊎ A
reading_removed g (s, m) A (inl h) = inl (gated_not_removed g s m h)
reading_removed g r A (inr a) = inr a

May-KeptBy :
    (pass : Pass) (k : String) (prev : Item)
    → is_complete prev.state ≡ true
    → KeptBy pass k prev (May pass k prev)
unfolding protected_row open_row reading_for reconsider_removed_state
May-KeptBy pass k prev c =
    let n : is_removed prev.state ≡ false = complete_not_removed prev.state c in
    record {
      by_protected = λ node item b h. rw n h;
      by_open = λ node settle item b r h.
          reading_removed _ _ _ (may pass k prev _ (settled_reading_removed pass node prev n));
      by_sweep = λ s m item b v h. Vanishes-removed pass k prev s m c v;
    }

-- A scan says of a complete row that it was removed only if the mount is healthy and its local
-- content has been missing for the grace period, or if this program deleted the file itself,
-- whatever the two trees show.
pub removal_needs_grace :
    (pass : Pass) (k : String) (prev : Item) (next_id : ℕ) (nodes : List ReconciledNode)
    → lookup k pass.previous ≡ some prev
    → is_complete prev.state ≡ true
    → Holds k (RemovedOnlyIf (MayBeRemoved pass k prev)) (persist pass next_id nodes).items
removal_needs_grace pass k prev next_id nodes there c =
    persist-Holds pass k prev (May pass k prev) next_id nodes (May-KeptBy pass k prev c) there
      (inl (complete_not_removed prev.state c))
