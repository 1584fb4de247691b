-- ===== src/Engine/Persist.antt =====
-- `_persist` of backend/lftpweb/core/engine.py, branch by branch.
use lftpweb.Common.{
  ℕ, suc, String, Bool, true, false, ◌&&◌, not, Option, none, some, List, [], ◌∷◌, is_some,
  or_default, if◌then◌else◌, ◌=s◌,
}
use lftpweb.Common.Dict.{Dict, lookup, insert}
use lftpweb.Common.Text.{has_slash}
use lftpweb.Item.{Item, ItemState, remote_only, downloaded, is_remote_only, is_downloaded}
use lftpweb.Absence.{
  Override, default_grace, resolve_absence, outcome_survives_rescan, reconsider_removed_state,
}
use lftpweb.Settle.{Fingerprint, SettleRecord, advance_settle, is_settled}
use lftpweb.Reconcile.Node.{ReconciledNode, structural_state}
use lftpweb.Engine.Protected.{Busy, Items, is_protected}

-- What a pass is given and what it reads once, before it writes anything.
pub record Pass : Type 0 where
  pub busy : Busy
  pub previous : Items
  pub prev_settle : Dict SettleRecord
  pub fingerprints : Option (Dict Fingerprint)
  pub partial_scan : Bool
  pub settle_enabled : Bool
  pub mount_ok : Bool
  pub now : ℕ
  pub deleted_archive_paths : List String

-- What a pass writes. `next_id` is the id of the next row that is inserted.
pub record Progress : Type 0 where
  pub items : Items
  pub next_id : ℕ
  pub written : List String
  pub new_settle : Dict SettleRecord
  pub unstuck : List String
  pub archive_paths_to_purge : List String

abbrev pub settling : Option String
settling = some "settling"

abbrev pub is_settling : Option String → Bool
is_settling none = false
is_settling (some s) = s =s "settling"

-- The settle record that a top-level node has after this pass, and whether it is a new one.
unfoldable pub settle_record_for : Pass → String → Option SettleRecord × Bool
settle_record_for pass path = if has_slash path then (none, false) else elim pass.fingerprints [
  | none ↦ (lookup path pass.prev_settle, false)
  | some fps ↦ elim (lookup path fps) [
    | none ↦ (none, false)
    | some fp ↦
        (some (advance_settle (lookup path pass.prev_settle) fp pass.partial_scan pass.now), true)
  ]
]

-- The columns that both upserts set from the node, over an existing row.
abbrev pub with_node : ReconciledNode → Item → Item
with_node node item = record item {
  is_dir = node.is_dir;
  remote_size = node.remote_size;
  local_size = node.local_size;
  remote_mtime = node.remote_mtime;
  local_mtime = node.local_mtime;
}

-- A row that an `INSERT` creates.
abbrev pub new_item : ℕ → ReconciledNode → ItemState → Item
new_item id node state = record {
  id = id;
  is_dir = node.is_dir;
  remote_size = node.remote_size;
  local_size = node.local_size;
  remote_mtime = node.remote_mtime;
  local_mtime = node.local_mtime;
  state = state;
  substate = none;
  first_missing_at = none;
  downloaded_at = none;
  remote_deleted_at = none;
  arr_status = none;
  auto_queue_suppressed = false;
}

abbrev pub corrected_state : ReconciledNode → Option Item → Option ItemState
corrected_state node none = none
corrected_state node (some prev) =
    reconsider_removed_state prev.state (is_some node.remote_size) (is_some node.local_size)
      (structural_state node)

-- The branch of a protected path: `state = COALESCE(corrected_state, state)`, where the correction
-- comes from the row that was read before the pass.
unfoldable pub protected_row : ReconciledNode → Option Item → Item → Item
protected_row node prev item = record (with_node node item) {
  state = or_default item.state (corrected_state node prev);
}

-- The call of `resolve_absence` for a node whose row is there.
unfoldable pub absence_reading : Pass → ReconciledNode → Item → Override
absence_reading pass node prev =
    resolve_absence (some prev.state) prev.first_missing_at (structural_state node) pass.mount_ok
      pass.now default_grace prev.remote_size node.remote_size

-- The state and `first_missing_at` of a path that is not protected, before the settle gate.
unfoldable pub settled_reading : Pass → ReconciledNode → Option Item → ItemState × Option ℕ
settled_reading pass node none = (structural_state node, none)
settled_reading pass node (some prev) =
    if outcome_survives_rescan (some prev.state) (structural_state node) prev.remote_deleted_at
    then (prev.state, none)
    else or_default (structural_state node, none) (absence_reading pass node prev)

-- What the settle gate makes of it: the state, the substate and `first_missing_at`.
pub record Reading : Type 0 where
  pub state : ItemState
  pub substate : Option String
  pub first_missing_at : Option ℕ

abbrev pub gate_shut : Pass → Option SettleRecord → Bool
gate_shut pass none = false
gate_shut pass (some r) = pass.settle_enabled && not (is_settled (some r) pass.now)

unfoldable pub gated_reading : Bool → ItemState × Option ℕ → Reading
gated_reading false (state, missing) = record {
  state = state;
  substate = none;
  first_missing_at = missing;
}
gated_reading true (downloaded, missing) = record {
  state = remote_only;
  substate = settling;
  first_missing_at = none;
}
gated_reading true (remote_only, missing) = record {
  state = remote_only;
  substate = settling;
  first_missing_at = missing;
}
gated_reading true (state, missing) = record {
  state = state;
  substate = none;
  first_missing_at = missing;
}

unfoldable pub reading_for : Pass → ReconciledNode → Option SettleRecord → Option Item → Reading
unfolding settled_reading gated_reading
reading_for pass node settle prev =
    gated_reading (gate_shut pass settle) (settled_reading pass node prev)

-- `state == "DOWNLOADED"` stamps `downloaded_at`, which `COALESCE` keeps once it is set.
abbrev pub stamp : Pass → ItemState → Option ℕ
stamp pass state = if is_downloaded state then some pass.now else none

abbrev pub coalesce {ℓ} : {A : Type ℓ} → Option A → Option A → Option A
coalesce none b = b
coalesce (some a) b = some a

unfoldable pub open_row : Pass → ReconciledNode → Reading → Item → Item
open_row pass node r item = record (with_node node item) {
  state = r.state;
  substate = r.substate;
  first_missing_at = r.first_missing_at;
  downloaded_at = coalesce item.downloaded_at (stamp pass r.state);
}

abbrev pub is_unstuck : Option Item → ItemState → Bool
is_unstuck none state = false
is_unstuck (some prev) state =
    is_remote_only prev.state && (is_settling prev.substate && is_downloaded state)

-- The row that an upsert leaves: `update` of the one that is there, or else the created one.
abbrev pub upserted : (Item → Item) → (ℕ → Item) → ℕ → Option Item → Item
upserted update created id none = created id
upserted update created id (some item) = update item

unfoldable pub upsert_item : String → (Item → Item) → (ℕ → Item) → Progress → Progress
upsert_item path update created p =
    let found = lookup path p.items in
    record p {
      items = insert path (upserted update created p.next_id found) p.items;
      next_id = if is_some found then p.next_id else suc p.next_id;
    }

unfoldable pub persist_protected : Pass → ReconciledNode → Progress → Progress
unfolding protected_row upsert_item
persist_protected pass node =
    upsert_item node.rel_path (protected_row node (lookup node.rel_path pass.previous))
      (λ id. new_item id node (structural_state node))

unfoldable pub persist_open : Pass → ReconciledNode → Option SettleRecord → Progress → Progress
unfolding open_row upsert_item
persist_open pass node settle p =
    let prev = lookup node.rel_path pass.previous in
    let r = reading_for pass node settle prev in
    let p' =
      upsert_item node.rel_path (open_row pass node r)
        (λ id. open_row pass node r (new_item id node r.state)) p in
    record p' {
      unstuck = if is_unstuck prev r.state then node.rel_path ∷ p'.unstuck else p'.unstuck;
    }

-- The first loop's body. A node's settle record is kept whether or not its path is protected.
unfoldable pub persist_node : Pass → Progress → ReconciledNode → Progress
persist_node pass p node =
    let path = node.rel_path in
    let (settle, is_new) = settle_record_for pass path in
    let p1 = record p {
      written = path ∷ p.written;
      new_settle = elim settle [
        | none ↦ p.new_settle
        | some r ↦ if is_new then insert path r p.new_settle else p.new_settle
      ];
    } in
    if is_protected pass.busy pass.previous path
    then persist_protected pass node p1
    else persist_open pass node settle p1

unfoldable pub persist_nodes : Pass → Progress → List ReconciledNode → Progress
persist_nodes pass p [] = p
persist_nodes pass p (node ∷ nodes) = persist_nodes pass (persist_node pass p node) nodes
