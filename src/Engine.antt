-- ===== src/Engine.antt =====
-- The scan loop's persist step (backend/lftpweb/core/engine.py): which rows a scan may not touch,
-- and what one pass writes for the nodes that it saw and for the rows whose paths it did not see.
-- A queue's rows are a dictionary by `rel_path`. Paths are texts without lone surrogates, on which
-- `to_safe_text` is the identity.
pub mod Protected
pub mod Persist
pub mod Sweep
pub mod Pass
pub mod Kept
pub mod Paths
pub mod Rows
pub mod Removal
pub mod GateShut
