-- ===== src/Reconcile/Totals.antt =====
-- `_rollup` (backend/lftpweb/core/reconcile.py) over the numbers of a tree's entries, against the
-- sum over the subtree.
use text.Mathlib.TextEquality.{eq_iff}
use text.Mathlib.TextPositions.{eq_refl}
use lftpweb.Common.{
  ℕ, ◌+◌, String, ◌≡◌, refl, sym, ◌∙◌, true, false, some, [], ◌∷◌, arith, ◌=s◌, if◌then◌else◌,
  sum_by, All,
}
use lftpweb.Common.Dict.{keys, Dict, lookup, has_key, map_items, lookup-map_items}
use lftpweb.Common.Text.{descends}
use lftpweb.Common.TextList.{elem_text, elem_text-keys}
use lftpweb.Reconcile.Rollup.{total_at, rollup, sort_paths}
use lftpweb.Reconcile.Subtree.{below, total_at-rollup_from}
use lftpweb.Reconcile.PathOrder.{
  distinct, Closed, sum_by-sort_paths, ready-sort_paths, elem_text-sort_paths,
}

-- A scanned tree: no path is twice in it, and with a path its parent is there.
pub record IsTree {E : Type 0} (tree : Dict E) : Type 0 where
  pub no_twins : distinct (keys tree) ≡ true
  pub has_parents : Closed (keys tree)

module _ {E : Type 0} where
  -- The numbers of the entries that lie below a path, added up.
  abbrev pub entries_below : (String → E → ℕ) → String → Dict E → ℕ
  entries_below f p tree = sum_by (λ e. if descends p e.0 then f e.0 e.1 else 0) tree

  abbrev Found : Dict E → String × E → Type 0
  Found tree x = lookup x.0 tree ≡ some x.1

  Found-later :
      (q : String) (e : E) (tree part : Dict E)
      → elem_text q (keys part) ≡ false
      → All (Found tree) part
      → All (Found ((q, e) ∷ tree)) part
  unfolding elem_text lookup
  Found-later q e tree [] h a = tt
  Found-later q e tree ((r, v) ∷ part) h (f, a) =
      let apart : (q =s r) ≡ false = ground (arith, eq_iff q r, eq_iff r q) in
      (rw apart f, Found-later q e tree part (ground arith) a)

  -- Where no path is twice in a tree, each entry is what is found at its path.
  pub All-Found : (tree : Dict E) → distinct (keys tree) ≡ true → All (Found tree) tree
  unfolding distinct lookup
  All-Found [] h = tt
  All-Found ((q, e) ∷ tree) h =
      let here : lookup q ((q, e) ∷ tree) ≡ some e = rw (eq_refl q) refl in
      (here, Found-later q e tree tree (ground arith) (All-Found tree (ground arith)))

  below-entries :
      (f : String → E → ℕ) (p : String) (tree part : Dict E)
      → All (Found tree) part
      → below (total_at (map_items f tree)) p (keys part) ≡ entries_below f p part
  unfolding sum_by
  below-entries f p tree [] a = refl
  below-entries f p tree ((q, e) ∷ part) (h, a) =
      rw (lookup-map_items f q tree, h, below-entries f p tree part a) refl

  -- For a scanned tree, the total of a path is its own number and those of all entries below it.
  pub rollup-entries_below :
      (f : String → E → ℕ) (tree : Dict E) (p : String) (e : E)
      → IsTree tree
      → lookup p tree ≡ some e
      → total_at (rollup tree (map_items f tree)) p ≡ f p e + entries_below f p tree
  unfolding rollup
  rollup-entries_below f tree p e t h =
      total_at-rollup_from (map_items f tree) (sort_paths (keys tree)) p
        (ready-sort_paths (keys tree) t.no_twins t.has_parents) keyed
      ∙ rw
          (
            lookup-map_items f p tree,
            h,
            sum_by-sort_paths (λ q. if descends p q then total_at (map_items f tree) q else 0)
                (keys tree),
            below-entries f p tree tree (All-Found tree t.no_twins),
          )
          refl
    where
      keyed :
          (s : String)
          → elem_text s (sort_paths (keys tree)) ≡ true
          → has_key s (map_items f tree) ≡ true
      keyed s m =
          let q : has_key s tree ≡ true =
            sym (elem_text-keys s tree) ∙ sym (elem_text-sort_paths s (keys tree)) ∙ m in
          rw (lookup-map_items f s tree) (ground arith)
