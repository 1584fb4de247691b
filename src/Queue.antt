-- ===== src/Queue.antt =====
-- The transfer queue (backend/lftpweb/core/queue.py).
pub mod Settings
pub mod Positions
pub mod Place
pub mod Reorder
