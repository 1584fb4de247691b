-- ===== src/Reconcile/Rollup.antt =====
-- `_rollup` (backend/lftpweb/core/reconcile.py): each path's own number and those of all that lies
-- below it, added up from the deepest paths to the top.
use lftpweb.Common.{
  ℕ, ◌+◌, String, Option, none, some, List, [], ◌∷◌, leb, or_default, if◌then◌else◌,
}
use lftpweb.Common.Dict.{Dict, lookup, insert, keys}
use lftpweb.Common.Path.{parent_of, depth}

unfoldable pub insert_path : String → List String → List String
insert_path p [] = p ∷ []
insert_path p (q ∷ qs) = if leb (depth q) (depth p) then p ∷ q ∷ qs else q ∷ insert_path p qs

-- `sorted(entries, key=lambda p: p.count("/"), reverse=True)`, which is stable.
unfoldable pub sort_paths : List String → List String
sort_paths [] = []
sort_paths (p ∷ ps) = insert_path p (sort_paths ps)

-- `totals[p]`, for a key that is there.
abbrev pub total_at : Dict ℕ → String → ℕ
total_at totals p = or_default 0 (lookup p totals)

-- `totals[parent] += n`, if `parent in totals`.
unfoldable pub add_at : String → ℕ → Option ℕ → Dict ℕ → Dict ℕ
add_at parent n none totals = totals
add_at parent n (some m) totals = insert parent (m + n) totals

-- The loop's body, with the path's parent.
unfoldable pub add_to_parent : Dict ℕ → String → Option String → Dict ℕ
unfolding add_at
add_to_parent totals path none = totals
add_to_parent totals path (some parent) =
    add_at parent (total_at totals path) (lookup parent totals) totals

unfoldable pub rollup_from : Dict ℕ → List String → Dict ℕ
rollup_from totals [] = totals
rollup_from totals (path ∷ paths) = rollup_from (add_to_parent totals path (parent_of path)) paths

unfoldable pub rollup : {E : Type 0} → Dict E → Dict ℕ → Dict ℕ
rollup entries contributions = rollup_from contributions (sort_paths (keys entries))
