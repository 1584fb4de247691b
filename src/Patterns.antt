-- ===== src/Patterns.antt =====
-- Select, skip and file-exclude patterns (backend/lftpweb/core/patterns.py).
pub mod Glob
pub mod Compiled
pub mod Agreement
pub mod Fuel
