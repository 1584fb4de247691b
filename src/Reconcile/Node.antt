-- ===== src/Reconcile/Node.antt =====
-- One node of the merged tree (backend/lftpweb/core/reconcile.py, `ReconciledNode` and the states
-- that a comparison of the trees can give).
use lftpweb.Common.{ℕ, String, Bool, Option}
use lftpweb.Item.{ItemState}

-- `STATE_REMOTE_ONLY` to `STATE_EXCLUDED`
pub data Structural : Type 0 where
  remote_only local_only partial downloaded excluded : Structural

-- The same state in the vocabulary of the `item` table.
abbrev pub as_item_state : Structural → ItemState
as_item_state Structural.remote_only = ItemState.remote_only
as_item_state Structural.local_only = ItemState.local_only
as_item_state Structural.partial = ItemState.partial
as_item_state Structural.downloaded = ItemState.downloaded
as_item_state Structural.excluded = ItemState.excluded

pub record ReconciledNode : Type 0 where
  pub rel_path : String
  pub is_dir : Bool
  pub structural : Structural
  pub remote_size : Option ℕ
  pub local_size : Option ℕ
  pub remote_mtime : Option ℕ
  pub local_mtime : Option ℕ

-- `node.structural_state`
abbrev pub structural_state : ReconciledNode → ItemState
structural_state node = as_item_state node.structural
