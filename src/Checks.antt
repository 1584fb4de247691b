-- ===== src/Checks.antt =====
-- Tests of the definitions and the theorems at concrete inputs, a module for each component.
mod Settle
mod Engine
mod Reconcile
mod Scheduler
mod Flight
mod Jobs
mod Lftp
mod Patterns
mod Auth
mod Preflight
mod Queue
mod Remote
mod LocalScan
mod ItemView
