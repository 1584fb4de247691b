-- ===== src/Remote.antt =====
-- The remote side of a scan (backend/lftpweb/core/remote.py).
pub mod Entry
pub mod Records
pub mod Wire
pub mod Lines
pub mod RoundTrip
pub mod HostKeys
pub mod Entries
pub mod Listing
