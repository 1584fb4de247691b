-- ===== src/Checks/ItemView.antt =====
-- The lifecycle facets (backend/lftpweb/core/itemview.py) at concrete inputs.
use lftpweb.Common.{◌≡◌, refl, true, false, none, some}
use lftpweb.Item.{ItemState}
use lftpweb.ItemView.{FacetRow, dim, is_green, lifecycle_facets, local_facet-file_state, red}
use lftpweb.Reconcile.Merge.{LocalEntry, file_state}
use lftpweb.Reconcile.Node.{as_item_state}
use lftpweb.Remote.Entry.{RemoteEntry}

abbrev remote_file : RemoteEntry
remote_file = record { rel_path = "show/a"; is_dir = false; size = 7; mtime = 12 }

-- Still under its temporary name.
abbrev temp_file : LocalEntry
temp_file = record { rel_path = "show/a"; is_dir = false; size = 7; mtime = 13; is_temp = true }

abbrev temp_row : FacetRow
temp_row = record {
  state = ItemState.partial;
  remote_size = some 7;
  local_size = some 7;
  first_missing_at = none;
  remote_deleted_at = none;
  verified_at = none;
  extracted_at = none;
}

temp_row_is_merged :
    temp_row.state
    ≡ as_item_state (file_state (λ path entry. true) "show/a" (some remote_file) (some temp_file))
unfolding file_state
temp_row_is_merged = refl

local_facet-file_state_example : is_green (lifecycle_facets temp_row).here.level ≡ true
local_facet-file_state_example =
    local_facet-file_state (λ path entry. true) "show/a" (some remote_file) (some temp_file)
      temp_row temp_row_is_merged refl refl refl

abbrev corrupt_row : FacetRow
corrupt_row = record {
  state = ItemState.corrupt;
  remote_size = none;
  local_size = some 7;
  first_missing_at = some 3;
  remote_deleted_at = some 2;
  verified_at = none;
  extracted_at = none;
}

corrupt_is_red : (lifecycle_facets corrupt_row).verified.level ≡ red
unfolding lifecycle_facets
corrupt_is_red = refl

missing_is_dim : (lifecycle_facets corrupt_row).here.level ≡ dim
unfolding lifecycle_facets
missing_is_dim = refl
