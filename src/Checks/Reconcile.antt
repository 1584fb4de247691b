-- ===== src/Checks/Reconcile.antt =====
-- The merged tree (backend/lftpweb/core/reconcile.py) at concrete inputs.
use lftpweb.Common.{ℕ, ◌+◌, String, ◌≡◌, refl, Bool, true, false, some, [], ◌∷◌, all, any}
use lftpweb.Common.Dict.{keys, Dict, lookup, map_items}
use lftpweb.Common.Text.{descends}
use lftpweb.Common.TextList.{elem_text}
use lftpweb.Common.Path.{parent_of, parent_after}
use lftpweb.Remote.Entry.{RemoteEntry}
use lftpweb.Reconcile.Node.{Structural}
use lftpweb.Reconcile.Rollup.{total_at, rollup}
use lftpweb.Reconcile.PathOrder.{distinct, all-Closed}
use lftpweb.Reconcile.Totals.{IsTree, entries_below, rollup-entries_below}
use lftpweb.Reconcile.Merge.{LocalEntry, reconcile, remote_size_own}
use lftpweb.Reconcile.Completeness.{described_state}
use lftpweb.Reconcile.Nodes.{state_of, reconcile-described}

abbrev remote_node : String → Bool → ℕ → RemoteEntry
remote_node path dir size = record { rel_path = path; is_dir = dir; size = size; mtime = 7 }

abbrev local_node : String → ℕ → Bool → LocalEntry
local_node path size temp = record {
  rel_path = path;
  is_dir = false;
  size = size;
  mtime = 7;
  is_temp = temp;
}

abbrev tree : Dict RemoteEntry
tree =
    ("r/a", remote_node "r/a" false 10)
    ∷ ("r", remote_node "r" true 0)
    ∷ ("r/b", remote_node "r/b" false 20)
    ∷ []

tree-IsTree : IsTree tree
unfolding distinct elem_text parent_of parent_after all
tree-IsTree = record { no_twins = refl; has_parents = all-Closed (keys tree) refl }

-- One file is whole, the other one has all its bytes but still a temporary name.
abbrev here : Dict LocalEntry
here = ("r/a", local_node "r/a" 10 false) ∷ ("r/b", local_node "r/b" 20 true) ∷ []

abbrev all_count : String → RemoteEntry → Bool
all_count path entry = true

rollup-entries_below_example :
    total_at (rollup tree (map_items remote_size_own tree)) "r"
    ≡ 0 + entries_below remote_size_own "r" tree
unfolding lookup
rollup-entries_below_example =
    rollup-entries_below remote_size_own tree "r" (remote_node "r" true 0) tree-IsTree refl

reconcile-described_example :
    state_of all_count tree here (lookup "r" (reconcile all_count tree here))
    ≡ some (described_state all_count here tree "r")
unfolding lookup
reconcile-described_example =
    reconcile-described all_count tree here "r" (remote_node "r" true 0) tree-IsTree refl refl

still_partial : described_state all_count here tree "r" ≡ Structural.partial
unfolding lookup all any descends
still_partial = refl
