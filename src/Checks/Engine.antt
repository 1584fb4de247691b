-- ===== src/Checks/Engine.antt =====
-- One scan pass (backend/lftpweb/core/engine.py) at concrete inputs.
use lftpweb.Common.{
  ℕ, String, refl, Bool, true, false, Option, none, some, List, [], ◌∷◌, any, elem,
}
use lftpweb.Common.Dict.{lookup}
use lftpweb.Item.{Item, ItemState}
use lftpweb.Common.Text.{has_slash}
use lftpweb.Settle.{advance_settle, is_settled, fresh_streak}
use lftpweb.Engine.GateShut.{GateShut, NotNewlyDownloaded, gate_keeps_out}
use lftpweb.Reconcile.Node.{ReconciledNode, Structural}
use lftpweb.Engine.Protected.{Items, is_protected, is_protected_row, below_one_of}
use lftpweb.Engine.Persist.{Pass, settle_record_for}
use lftpweb.Engine.Sweep.{persist}
use lftpweb.Engine.Kept.{Holds}
use lftpweb.Engine.Pass.{SameIdentity, persist-SameIdentity, SameState, protected_keeps_state}
use lftpweb.Engine.Removal.{MayBeRemoved, RemovedOnlyIf, removal_needs_grace}

abbrev item : ℕ → ItemState → Option ℕ → Item
item id state missing = record {
  id = id;
  is_dir = true;
  remote_size = some 100;
  local_size = some 100;
  remote_mtime = none;
  local_mtime = none;
  state = state;
  substate = none;
  first_missing_at = missing;
  downloaded_at = some 12;
  remote_deleted_at = none;
  arr_status = none;
  auto_queue_suppressed = false;
}

-- A verified release that has left both trees, a download that a job owns, and a new release.
abbrev rows : Items
rows =
    ("gone", item 1 ItemState.verified (some 1_000))
    ∷ ("busy", item 2 ItemState.downloading none)
    ∷ []

abbrev node : String → Structural → ReconciledNode
node path state = record {
  rel_path = path;
  is_dir = true;
  structural = state;
  remote_size = some 100;
  local_size = some 40;
  remote_mtime = none;
  local_mtime = none;
}

abbrev nodes : List ReconciledNode
nodes = node "busy" Structural.partial ∷ node "new" Structural.remote_only ∷ []

abbrev pass_at : Bool → ℕ → Pass
pass_at mount now = record {
  busy = record { active_jobs = 2 ∷ []; in_flight = [] };
  previous = rows;
  prev_settle = [];
  fingerprints = none;
  partial_scan = false;
  settle_enabled = true;
  mount_ok = mount;
  now = now;
  deleted_archive_paths = [];
}

removal_needs_grace_example :
    let pass = pass_at true 700_000_000 in
    Holds "gone"
      (RemovedOnlyIf (MayBeRemoved pass "gone" (item 1 ItemState.verified (some 1_000))))
      (persist pass 3 nodes).items
unfolding lookup
removal_needs_grace_example =
    removal_needs_grace (pass_at true 700_000_000) "gone" (item 1 ItemState.verified (some 1_000)) 3
      nodes refl refl

protected_keeps_state_example :
    Holds "busy"
      (SameState (item 2 ItemState.downloading none))
      (persist (pass_at true 700_000_000) 3 nodes).items
unfolding lookup is_protected is_protected_row elem
protected_keeps_state_example =
    protected_keeps_state (pass_at true 700_000_000) "busy" (item 2 ItemState.downloading none) 3
      nodes refl refl refl

persist-SameIdentity_example :
    Holds "gone"
      (SameIdentity (item 1 ItemState.verified (some 1_000)))
      (persist (pass_at false 700_000_000) 3 nodes).items
unfolding lookup
persist-SameIdentity_example =
    persist-SameIdentity (pass_at false 700_000_000) "gone" (item 1 ItemState.verified (some 1_000))
      3 nodes refl

abbrev arriving : Item
arriving = item 5 ItemState.partial none

-- The first scan that sees a release of which every byte is here.
abbrev first_scan : Pass
first_scan = record (pass_at true 1_000) {
  previous = ("new", arriving) ∷ [];
  fingerprints =
      some (("new", record { file_count = 1; total_bytes = 100; max_mtime = some 3 }) ∷ []);
}

first_scan-GateShut : GateShut first_scan "new"
unfolding settle_record_for has_slash lookup advance_settle is_settled
first_scan-GateShut = record {
  enabled = refl;
  current =
      fresh_streak (some 1_000) (record { file_count = 1; total_bytes = 100; max_mtime = some 3 })
        1_000;
  at_path = refl;
  unsettled = refl;
}

gate_keeps_out_example :
    Holds "new"
      (NotNewlyDownloaded arriving)
      (persist first_scan 6 (node "new" Structural.downloaded ∷ [])).items
unfolding lookup is_protected is_protected_row elem below_one_of any
gate_keeps_out_example =
    gate_keeps_out first_scan "new" arriving 6 (node "new" Structural.downloaded ∷ []) refl refl
      first_scan-GateShut
