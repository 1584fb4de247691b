-- ===== src/Engine/Sweep.antt =====
-- The "vanished from both trees" sweep at the end of `_persist` (backend/lftpweb/core/engine.py),
-- and the whole pass.
use lftpweb.Common.{
  ℕ, String, ◌&&◌, ◌||◌, not, Option, none, some, List, [], ◌∷◌, if◌then◌else◌, keep, map,
}
use lftpweb.Common.Dict.{lookup, insert}
use lftpweb.Common.Text.{has_slash, before_slash}
use lftpweb.Common.TextList.{elem_text, sort_texts}
use lftpweb.Item.{
  Item, ItemState, remote_only, downloaded, excluded, removed_local, removed_both, is_cleaned,
  is_removed, is_local_only,
}
use lftpweb.Absence.{Override, default_grace, resolve_absence, resolve_vanished}
use lftpweb.Reconcile.Node.{ReconciledNode}
use lftpweb.Engine.Protected.{Items, is_protected}
use lftpweb.Engine.Persist.{Pass, Progress, persist_nodes}

-- `resolve_prev_state`: a cleaned item's `LOCAL_ONLY` rides the grace period as `DOWNLOADED`.
abbrev pub resolve_prev_state : Item → ItemState
resolve_prev_state prev =
    if is_local_only prev.state && is_cleaned prev.arr_status then downloaded else prev.state

-- `REMOVED_LOCAL` of a path that has left both trees is `REMOVED_BOTH`.
abbrev pub both_gone : ItemState → ItemState
both_gone removed_local = removed_both
both_gone state = state

abbrev pub swept : Override → Option ItemState → Override
swept (some (state, missing)) fallback = some (both_gone state, missing)
swept none none = none
swept none (some state) = some (state, none)

-- What becomes of a vanished row whose file this program did not delete itself: `none` is the
-- `continue` that leaves the row alone.
unfoldable pub vanished_reading : Pass → Item → Override
vanished_reading pass prev =
    swept
      (resolve_absence (some (resolve_prev_state prev)) prev.first_missing_at remote_only
        pass.mount_ok pass.now default_grace none none)
      (resolve_vanished prev.state)

-- The `UPDATE` that ends the loop's body, and the entry in `written` that goes before it.
abbrev pub vanished_item : ItemState → Option ℕ → Item → Item
vanished_item state missing item = record item {
  remote_size = none;
  local_size = none;
  local_mtime = none;
  state = state;
  first_missing_at = missing;
}

-- `UPDATE item SET ... WHERE rel_path = ?`, from the row that is found.
unfoldable pub updated_rows : String → (Item → Item) → Items → Option Item → Items
updated_rows path update items none = items
updated_rows path update items (some item) = insert path (update item) items

unfoldable pub write_vanished : String → ItemState → Option ℕ → Progress → Progress
unfolding updated_rows
write_vanished path state missing p = record p {
  written = if is_removed state then p.written else path ∷ p.written;
  items = updated_rows path (vanished_item state missing) p.items (lookup path p.items);
}

unfoldable pub sweep_archive : String → Progress → Progress
unfolding write_vanished
sweep_archive path p =
    if not (has_slash path) || elem_text (before_slash path) p.written
    then write_vanished path excluded none p
    else write_vanished path removed_both none
        (record p { archive_paths_to_purge = path ∷ p.archive_paths_to_purge })

unfoldable pub write_override : String → Override → Progress → Progress
unfolding write_vanished
write_override path none p = p
write_override path (some (state, missing)) p = write_vanished path state missing p

unfoldable pub sweep_row : Pass → String → Item → Progress → Progress
unfolding sweep_archive write_override
sweep_row pass path prev p =
    if elem_text path pass.deleted_archive_paths
    then sweep_archive path p
    else write_override path (vanished_reading pass prev) p

-- `previous[rel_path]`; the paths that are swept are keys of `previous`.
unfoldable pub sweep_found : Pass → String → Option Item → Progress → Progress
unfolding sweep_row
sweep_found pass path none p = p
sweep_found pass path (some prev) p = sweep_row pass path prev p

unfoldable pub sweep_path : Pass → Progress → String → Progress
unfolding sweep_found
sweep_path pass p path = sweep_found pass path (lookup path pass.previous) p

unfoldable pub sweep : Pass → Progress → List String → Progress
sweep pass p [] = p
sweep pass p (path ∷ paths) = sweep pass (sweep_path pass p path) paths

-- `sorted(set(previous) - written - protected)`
unfoldable pub vanished_paths : Pass → List String → List String
vanished_paths pass written = sort_texts (
    keep (λ path. not (elem_text path written) && not (is_protected pass.busy pass.previous path))
      (map (λ entry. entry.0) pass.previous))

abbrev pub begin : Pass → ℕ → Progress
begin pass next_id = record {
  items = pass.previous;
  next_id = next_id;
  written = [];
  new_settle = [];
  unstuck = [];
  archive_paths_to_purge = [];
}

-- The whole of `_persist` over the rows: the nodes, then the sweep. The caller saves `new_settle`,
-- drops the purged archive paths and triggers post-processing of the unstuck items.
unfoldable pub persist : Pass → ℕ → List ReconciledNode → Progress
persist pass next_id nodes =
    let p = persist_nodes pass (begin pass next_id) nodes in
    sweep pass p (vanished_paths pass p.written)
