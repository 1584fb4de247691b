-- ===== src/Auth.antt =====
-- Signing in (backend/lftpweb/core/auth.py, api/auth.py).
pub mod Limiter
pub mod Window
pub mod Retry
