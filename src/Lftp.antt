-- ===== src/Lftp.antt =====
-- The lftp child process (backend/lftpweb/core/lftp.py): its command line, its files and its output.
pub mod Output
pub mod Quote
pub mod Command
pub mod Spawn
pub mod Cleanup
