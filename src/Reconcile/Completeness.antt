-- ===== src/Reconcile/Completeness.antt =====
-- What a directory's state (backend/lftpweb/core/reconcile.py) says of the files below it.
use lftpweb.Common.{
  ℕ, ◌≤◌, String, ◌≡◌, refl, Bool, true, false, ◌&&◌, ◌||◌, not, some, [], ◌∷◌, arith, is_some,
  if◌then◌else◌, sum_by, any, all, ◌==◌,
}
use lftpweb.Common.Dict.{Dict, lookup, map_items}
use lftpweb.Common.Text.{descends}
use lftpweb.Remote.Entry.{RemoteEntry}
use lftpweb.Reconcile.Node.{Structural, remote_only, partial, downloaded}
use lftpweb.Reconcile.Merge.{
  LocalEntry, is_whole, relevant_own, complete_own, local_present_own, remote_file_own,
  directory_state, remote_directory_state,
}
use lftpweb.Reconcile.Rollup.{total_at, rollup}
use lftpweb.Reconcile.Totals.{IsTree, entries_below, rollup-entries_below}

-- A remote file below the directory.
abbrev pub file_below : String → String × RemoteEntry → Bool
file_below p (q, e) = descends p q && not e.is_dir

-- Nothing of its own counts of a directory.
directory_total :
    (f : String → RemoteEntry → ℕ) (tree : Dict RemoteEntry) (p : String) (entry : RemoteEntry)
    → IsTree tree
    → lookup p tree ≡ some entry
    → f p entry ≡ 0
    → total_at (rollup tree (map_items f tree)) p ≡ entries_below f p tree
directory_total f tree p entry t h z = omega (arith, rollup-entries_below f tree p entry t h, z)

-- The cascade on four numbers, read as one on what the numbers say.
state_of_counts :
    (relevant complete present files : ℕ) (here counted whole some_present some_file : Bool)
    → (relevant == 0) ≡ not counted
    → (complete == relevant) ≡ whole
    → (present == 0) ≡ not some_present
    → (files == 0) ≡ not some_file
    → (counted ≡ false → whole ≡ true)
    → (counted ≡ false → some_present ≡ false)
    → (counted ≡ true → some_file ≡ true)
    → directory_state relevant complete present files here ≡ (
        if whole && (some_file || here)
        then downloaded
        else if some_present
        then partial
        else remote_only)
unfolding directory_state
state_of_counts relevant complete present files here counted whole some_present some_file a b c d f
      g h =
    ground arith

module _ (predicate : String → RemoteEntry → Bool) (local_tree : Dict LocalEntry) where
  -- A remote file below the directory that counts.
  abbrev pub counted_below : String → String × RemoteEntry → Bool
  counted_below p (q, e) = descends p q && (not e.is_dir && predicate q e)

  -- It has all its bytes here, if it counts.
  abbrev pub whole_if_counted : String → String × RemoteEntry → Bool
  whole_if_counted p (q, e) = not (counted_below p (q, e)) || is_whole e (lookup q local_tree)

  abbrev pub present_and_counted : String → String × RemoteEntry → Bool
  present_and_counted p (q, e) = counted_below p (q, e) && is_some (lookup q local_tree)

  complete_le :
      (p : String) (tree : Dict RemoteEntry)
      → entries_below (complete_own predicate local_tree) p tree
        ≤ entries_below (relevant_own predicate) p tree
  unfolding sum_by
  complete_le p [] = omega arith
  complete_le p ((q, e) ∷ tree) = ground (arith, complete_le p tree)

  complete-all :
      (p : String) (tree : Dict RemoteEntry)
      → (entries_below (complete_own predicate local_tree) p tree
          == entries_below (relevant_own predicate) p tree)
        ≡ all (whole_if_counted p) tree
  unfolding sum_by all
  complete-all p [] = refl
  complete-all p ((q, e) ∷ tree) = ground (arith, complete-all p tree, complete_le p tree)

  relevant-any :
      (p : String) (tree : Dict RemoteEntry)
      → (entries_below (relevant_own predicate) p tree == 0) ≡ not (any (counted_below p) tree)
  unfolding sum_by any
  relevant-any p [] = refl
  relevant-any p ((q, e) ∷ tree) = ground (arith, relevant-any p tree)

  present-any :
      (p : String) (tree : Dict RemoteEntry)
      → (entries_below (local_present_own predicate local_tree) p tree == 0)
        ≡ not (any (present_and_counted p) tree)
  unfolding sum_by any
  present-any p [] = refl
  present-any p ((q, e) ∷ tree) = ground (arith, present-any p tree)

  files-any :
      (p : String) (tree : Dict RemoteEntry)
      → (entries_below remote_file_own p tree == 0) ≡ not (any (file_below p) tree)
  unfolding sum_by any
  files-any p [] = refl
  files-any p ((q, e) ∷ tree) = ground (arith, files-any p tree)

  none_counted-all :
      (p : String) (tree : Dict RemoteEntry)
      → any (counted_below p) tree ≡ false
      → all (whole_if_counted p) tree ≡ true
  unfolding any all
  none_counted-all p [] h = refl
  none_counted-all p ((q, e) ∷ tree) h = ground (arith, none_counted-all p tree)

  none_counted-present :
      (p : String) (tree : Dict RemoteEntry)
      → any (counted_below p) tree ≡ false
      → any (present_and_counted p) tree ≡ false
  unfolding any
  none_counted-present p [] h = refl
  none_counted-present p ((q, e) ∷ tree) h = ground (arith, none_counted-present p tree)

  counted-file :
      (p : String) (tree : Dict RemoteEntry)
      → any (counted_below p) tree ≡ true
      → any (file_below p) tree ≡ true
  unfolding any
  counted-file p [] h = cc
  counted-file p ((q, e) ∷ tree) h = ground (arith, counted-file p tree)

  -- What the state of a remote directory should be, read off the files below it.
  abbrev pub described_state : Dict RemoteEntry → String → Structural
  described_state tree p =
      if all (whole_if_counted p) tree && (any (file_below p) tree || is_some (lookup p local_tree))
      then downloaded
      else if any (present_and_counted p) tree
      then partial
      else remote_only

  pub remote_directory_state-described :
      (tree : Dict RemoteEntry) (p : String) (entry : RemoteEntry)
      → IsTree tree
      → lookup p tree ≡ some entry
      → entry.is_dir ≡ true
      → remote_directory_state predicate tree local_tree p ≡ described_state tree p
  unfolding remote_directory_state
  remote_directory_state-described tree p entry t h d =
      rw
        (
          directory_total (relevant_own predicate) tree p entry t h (ground arith),
          directory_total (complete_own predicate local_tree) tree p entry t h (ground arith),
          directory_total (local_present_own predicate local_tree) tree p entry t h (ground arith),
          directory_total remote_file_own tree p entry t h (ground arith),
        )
        (state_of_counts _ _ _ _ (is_some (lookup p local_tree)) _ _ _ _ (relevant-any p tree)
          (complete-all p tree) (present-any p tree) (files-any p tree) (none_counted-all p tree)
          (none_counted-present p tree) (counted-file p tree))
