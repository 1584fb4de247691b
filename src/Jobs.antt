-- ===== src/Jobs.antt =====
-- The transfer queue's tables and its state in memory (backend/lftpweb/core/queue.py, `TransferQueue`).
-- A handler is a function from the state to the state that it leaves: it runs to its end before the
-- next one starts. Times are counted in microseconds, positions and rate fractions are the types of
-- the queue's order. The events that are published to open pages, the progress samples and the log
-- are left out.
pub mod Rows
pub mod Table
pub mod Enqueue
pub mod Completeness
pub mod Children
pub mod Reap
pub mod Control
pub mod Startup
pub mod Admit
pub mod Spawn
pub mod Sound
pub mod Steps
pub mod Ending
pub mod Stopping
pub mod Starting
pub mod Restart
pub mod Admitting
pub mod Reachable
pub mod Processes
pub mod Found
pub mod Outcome
pub mod Downloaded
