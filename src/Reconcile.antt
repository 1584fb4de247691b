-- ===== src/Reconcile.antt =====
-- The comparison of the two trees (backend/lftpweb/core/reconcile.py).
pub mod Node
pub mod Rollup
pub mod Subtree
pub mod PathOrder
pub mod Merge
pub mod Totals
pub mod Completeness
pub mod Nodes
