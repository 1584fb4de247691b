-- ===== src/Reconcile/Merge.antt =====
-- `reconcile` (backend/lftpweb/core/reconcile.py): one queue's remote and local trees merged into
-- one state per path. `predicate` says which remote files count towards completeness.
use lftpweb.Common.{
  ℕ, String, Bool, true, false, ◌&&◌, not, Option, none, some, List, ◌++◌, map, leb, ◌==◌, is_some,
  if◌then◌else◌, keep,
}
use lftpweb.Common.Dict.{Dict, lookup, has_key, keys, map_items}
use lftpweb.Remote.Entry.{RemoteEntry}
use lftpweb.Reconcile.Node.{
  Structural, ReconciledNode, remote_only, local_only, partial, downloaded, excluded,
}
use lftpweb.Reconcile.Rollup.{total_at, rollup}

pub record LocalEntry : Type 0 where
  pub rel_path : String
  pub is_dir : Bool
  pub size : ℕ
  pub mtime : ℕ
  pub is_temp : Bool

-- The local copy is under its real name and has all the bytes.
abbrev pub is_whole : RemoteEntry → Option LocalEntry → Bool
is_whole entry none = false
is_whole entry (some here) = not here.is_temp && leb entry.size here.size

-- `(remote_entry or local_entry).is_dir`; where both are missing the source would raise, but no
-- such path is looked at.
abbrev pub is_dir_at : Option RemoteEntry → Option LocalEntry → Bool
is_dir_at (some entry) here = entry.is_dir
is_dir_at none (some here) = here.is_dir
is_dir_at none none = false

abbrev pub remote_size_own : String → RemoteEntry → ℕ
remote_size_own path entry = if entry.is_dir then 0 else entry.size

abbrev pub local_size_own : String → LocalEntry → ℕ
local_size_own path entry = if entry.is_dir then 0 else entry.size

abbrev pub remote_file_own : String → RemoteEntry → ℕ
remote_file_own path entry = if entry.is_dir then 0 else 1

-- `all_paths`, a set in the source: every path of either tree, once.
unfoldable pub all_paths : Dict RemoteEntry → Dict LocalEntry → List String
all_paths remote_tree local_tree =
    keys remote_tree ++ keep (λ p. not (has_key p remote_tree)) (keys local_tree)

-- A file's `mtime`, `None` for a directory.
abbrev pub remote_mtime_at : Bool → Option RemoteEntry → Option ℕ
remote_mtime_at true entry = none
remote_mtime_at false none = none
remote_mtime_at false (some entry) = some entry.mtime

abbrev pub local_mtime_at : Bool → Option LocalEntry → Option ℕ
local_mtime_at true entry = none
local_mtime_at false none = none
local_mtime_at false (some entry) = some entry.mtime

-- The state of a directory that is in the remote tree, from its four totals.
unfoldable pub directory_state : ℕ → ℕ → ℕ → ℕ → Bool → Structural
directory_state relevant complete local_present remote_files here =
    if relevant == 0
    then (if remote_files == 0 then (if here then downloaded else remote_only) else downloaded)
    else if complete == relevant
    then downloaded
    else if local_present == 0
    then remote_only
    else partial

module _ (predicate : String → RemoteEntry → Bool) where
  -- `relevant_own`
  abbrev pub relevant_own : String → RemoteEntry → ℕ
  relevant_own path entry = if entry.is_dir then 0 else if not (predicate path entry) then 0 else 1

  -- `complete_own`
  abbrev pub complete_own : Dict LocalEntry → String → RemoteEntry → ℕ
  complete_own local_tree path entry =
      if entry.is_dir
      then 0
      else if not (predicate path entry)
      then 0
      else if is_whole entry (lookup path local_tree)
      then 1
      else 0

  -- `local_present_own`
  abbrev pub local_present_own : Dict LocalEntry → String → RemoteEntry → ℕ
  local_present_own local_tree path entry =
      if entry.is_dir
      then 0
      else if not (predicate path entry)
      then 0
      else if is_some (lookup path local_tree)
      then 1
      else 0

  unfoldable pub file_state : String → Option RemoteEntry → Option LocalEntry → Structural
  file_state path none here = local_only
  file_state path (some entry) none = if not (predicate path entry) then excluded else remote_only
  file_state path (some entry) (some here) =
      if not (predicate path entry)
      then excluded
      else if leb entry.size here.size && not here.is_temp
      then downloaded
      else partial

  module _ (remote_tree : Dict RemoteEntry) (local_tree : Dict LocalEntry) where
    unfoldable pub remote_directory_state : String → Structural
    unfolding directory_state
    remote_directory_state path =
        directory_state (total_at (rollup remote_tree (map_items relevant_own remote_tree)) path)
          (total_at (rollup remote_tree (map_items (complete_own local_tree) remote_tree)) path)
          (total_at (rollup remote_tree (map_items (local_present_own local_tree) remote_tree))
            path)
          (total_at (rollup remote_tree (map_items remote_file_own remote_tree)) path)
          (is_some (lookup path local_tree))

    unfoldable pub state_at : String → Option RemoteEntry → Option LocalEntry → Structural
    unfolding remote_directory_state file_state
    state_at path entry here =
        if is_dir_at entry here
        then (if is_some entry then remote_directory_state path else local_only)
        else file_state path entry here

    unfoldable pub node_at : String → ReconciledNode
    unfolding state_at
    node_at path =
        let entry = lookup path remote_tree in
        let here = lookup path local_tree in
        let dir = is_dir_at entry here in
        record {
          rel_path = path;
          is_dir = dir;
          structural = state_at path entry here;
          remote_size =
              if is_some entry
              then lookup path (rollup remote_tree (map_items remote_size_own remote_tree))
              else none;
          local_size =
              if is_some here
              then lookup path (rollup local_tree (map_items local_size_own local_tree))
              else none;
          remote_mtime = remote_mtime_at dir entry;
          local_mtime = local_mtime_at dir here;
        }

    unfoldable pub reconcile : Dict ReconciledNode
    unfolding all_paths node_at
    reconcile = map (λ path. (path, node_at path)) (all_paths remote_tree local_tree)
