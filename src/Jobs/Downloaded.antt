-- ===== src/Jobs/Downloaded.antt =====
-- When a transfer's end leaves its item as downloaded (backend/lftpweb/core/queue.py, `_reap_one`).
use lftpweb.Common.{Bool, false, ◌&&◌, not, Option, none, some, leb}
use lftpweb.Item.{is_downloaded}
use lftpweb.Jobs.Rows.{ItemRow, RunningProcess, TransferQueue}
use lftpweb.Jobs.Children.{bytes_to_have}
use lftpweb.Jobs.Completeness.{is_empty}
use lftpweb.Jobs.Reap.{Exit, is_zero}
use lftpweb.Jobs.Outcome.{is_settled_for}

-- The row is there and its state is downloaded.
abbrev pub shows_downloaded : Option ItemRow → Bool
shows_downloaded none = false
shows_downloaded (some i) = is_downloaded i.state

module _ {Position Fraction : Type 0} where
  -- A transfer that has brought all: neither stopped nor paused, exit code 0, the remote side settled
  -- where the item is at the top of its queue, no temporary file or sidecar left, and as many bytes
  -- on disk as all files to have, an excluded one among them only if it is on disk.
  unfoldable pub has_brought_all :
      RunningProcess Fraction → Exit → TransferQueue Position Fraction → Bool
  unfolding is_settled_for bytes_to_have
  has_brought_all proc e s =
      not proc.stop_requested
      && not proc.pause_requested
      && is_zero e.code
      && is_settled_for proc e
      && (is_empty e.disk.evidence
          && leb (bytes_to_have proc e.disk.files s.items) e.disk.local_bytes)
