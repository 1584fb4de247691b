-- ===== src/Lib.antt =====
-- lftpweb moves releases from a seedbox to a local disk: it scans both trees, merges them into
-- one state per path, stores that state, queues transfers and runs lftp for them. This library
-- models the decisions of its backend (backend/lftpweb/core) and proves what they promise.
--
-- The parts, in the order in which one scan and one scheduler tick go through them:
--
-- - Remote: backend/lftpweb/core/remote.py. Entry has the remote tree's entries, `RemoteEntry`;
--   Records reads the records that the remote side prints, Wire, Lines and RoundTrip compare it
--   with a printer. Entries has the tree below a root and the result of `find`, Listing a theorem
--   on that tree, HostKeys the pinned keys and the ways in which their file can fail.
-- - LocalScan: of backend/lftpweb/core/local_scan.py the size of a partial file and the entry
--   that a walk keeps of several names of one file (Best); the walk itself is a list of files
--   here.
-- - Reconcile: backend/lftpweb/core/reconcile.py. Rollup has `_rollup`, Merge has `reconcile`
--   with the state of a directory and of a file, Node the node it gives. Subtree, PathOrder and
--   Totals compare the rollup with the sum over a subtree; Completeness and Nodes compare a
--   directory's state with the files below it. Trees are dictionaries by path; `all_paths` is a
--   list here and a set there.
-- - Settle: backend/lftpweb/core/settle.py, the gate that waits until a remote item has stopped
--   changing: `compute_fingerprints`, `advance_settle`, `is_settled`; Store has the table
--   `item_settle` and its readers. Gate and Fingerprints have the theorems on histories of scans
--   and on the tree.
-- - Absence: what a scan makes of a missing or smaller local copy: `resolve_absence`,
--   `resolve_vanished` and `is_local_shrink` of backend/lftpweb/core/mount_sentinel.py,
--   `outcome_survives_rescan` of backend/lftpweb/core/postprocess.py and
--   `reconsider_removed_state` of backend/lftpweb/core/local_delete.py.
-- - Item: a row of the table `item`, with its states (backend/lftpweb/migrations).
-- - Engine: `_persist` of backend/lftpweb/core/engine.py over one queue's rows. Protected has
--   `_protected_rel_paths`, Persist the loop over the nodes, Sweep the loop over the rows whose
--   paths were not seen. Kept, Paths and Rows carry a property of one row through the whole pass;
--   Pass, Removal and GateShut apply that. The rows are a dictionary by path; the transaction,
--   the logging and the published events are left out.
-- - Scheduler: `admit` of backend/lftpweb/core/scheduler.py, with the floor loop as
--   `shrink_ready`. Bounds, Priority and Progress have what it keeps to, in which order it starts
--   jobs, and that it does; Forced has the jobs that a user has forced, Once how often a job is
--   admitted.
-- - Queue: Settings has the ceiling, the throttle, the fast lane's reserve and the settings that
--   `admit` is given (`TransferSettings` of backend/lftpweb/core/queue.py). Positions has
--   `position_between`, `move_to_top` and `move_job`; Place and Reorder have where a moved job
--   comes to stand.
-- - Jobs: the transfer queue itself, `TransferQueue` of backend/lftpweb/core/queue.py. Rows has
--   its tables and what it holds in memory, Table the helpers on the table `job`, Enqueue the
--   requests of a user, Control stopping, pausing and the site limit, Completeness, Children and
--   Reap what becomes of a process that has ended (Reap/Ended for one that was stopped, paused or
--   exited with 0), Startup the rescues after a restart, Admit and Spawn a tick. Sound, Steps,
--   Ending, Stopping, Starting, Admitting, Restart and Reachable have the invariant of the
--   tables, Processes that of the tracked processes; Found, Outcome and Downloaded say where the
--   end of a transfer leaves its item. Each handler is one step, as if none began while another
--   waits for the database.
-- - Lftp: backend/lftpweb/core/lftp.py. Quote and Command build the lftp program of a job, Output
--   classifies and keeps what it prints, Spawn writes the files of a job and starts it; Cleanup
--   is about these files where that fails.
-- - Patterns: backend/lftpweb/core/patterns.py. Glob has the matcher of Python's `fnmatch`,
--   Compiled the patterns of a queue; Agreement compares the globs that lftp is given with the
--   predicate, Fuel is about the translation of a glob.
-- - ItemView: the lifecycle facets of backend/lftpweb/core/itemview.py, compared with the state
--   that a scan gives a file.
-- - DownloadPrefix: backend/lftpweb/core/download_prefix.py, the name of an item while it is
--   downloaded.
-- - Flight: backend/lftpweb/core/pipeline_flight.py. The module builds SQL text; here it builds
--   the expressions themselves (Sql), with the three-valued meaning that SQLite gives them. Laws
--   has the theorems.
-- - Auth: Limiter has `LoginRateLimiter` of backend/lftpweb/core/auth.py and the `login` handler
--   of backend/lftpweb/api/auth.py; Window compares it with the log of its calls, Retry has when
--   a client is let in again.
-- - Preflight: `PreflightHold` of backend/lftpweb/core/preflight.py; Held compares it with the
--   log of refreshes.
-- - Common: tests, lists, dictionaries, paths and timestamps that the others share.
-- - Checks: each theorem that has hypotheses, at a concrete input, and runs of the definitions.
--
-- Numbers are natural numbers: sizes in bytes, rates in bytes a second, times in microseconds
-- since the epoch (the precision of the stored timestamps), or in seconds in Flight. A difference
-- that is negative in the source is written as a comparison of sums. Floats are parameters: queue
-- positions with their order and the operations on them, the rate of a forced job, a tenth of the
-- limit. The text of a timestamp is a parameter with one law, that parsing inverts formatting.
-- All loops are structural recursions over what they go through, but for two: the translation of
-- a glob has the number of its characters as fuel, of which any greater amount gives the same
-- tokens, and the decimal digits of a number have the number itself, which is divided by ten at
-- each step. The one call that `move_job` makes of itself is left to the caller, who is given the
-- renormalised table.
--
-- Not modelled: the processes themselves, sockets, files and the event loop; the progress and
-- metrics samples, the lists for the web API and the shutdown of backend/lftpweb/core/queue.py;
-- the rest of the web API and the frontend; the parts of core that are named in no file of this
-- library.
pub mod Absence
pub mod Auth
mod Checks
pub mod Common
pub mod DownloadPrefix
pub mod Engine
pub mod Flight
pub mod Item
pub mod ItemView
pub mod Jobs
pub mod Lftp
pub mod LocalScan
pub mod Patterns
pub mod Preflight
pub mod Queue
pub mod Reconcile
pub mod Remote
pub mod Scheduler
pub mod Settle
