-- ===== src/Remote/Entry.antt =====
-- One node of the remote tree (backend/lftpweb/core/remote.py, `RemoteEntry`).
use lftpweb.Common.{ℕ, String, Bool}

-- `mtime` is counted in whole units from the epoch; it is only compared.
pub record RemoteEntry : Type 0 where
  pub rel_path : String
  pub is_dir : Bool
  pub size : ℕ
  pub mtime : ℕ
