-- ===== src/Reconcile/Nodes.antt =====
-- The dictionary of nodes that `reconcile` (backend/lftpweb/core/reconcile.py) returns.
use text.Mathlib.TextEquality.{eq_iff}
use lftpweb.Common.{
  String, ◌≡◌, refl, ◌∙◌, ap, Bool, true, ◌||◌, not, Option, none, some, List, [], ◌∷◌, inl, inr,
  arith, if◌then◌else◌, map, keep, Bool-cases, ◌=s◌,
}
use lftpweb.Common.Dict.{keys, Dict, lookup, has_key}
use lftpweb.Common.TextList.{elem_text, elem_text-append, elem_text-keep, elem_text-keys}
use lftpweb.Remote.Entry.{RemoteEntry}
use lftpweb.Reconcile.Node.{Structural, ReconciledNode}
use lftpweb.Reconcile.Merge.{LocalEntry, all_paths, node_at, state_at, reconcile}
use lftpweb.Reconcile.Totals.{IsTree}
use lftpweb.Reconcile.Completeness.{described_state, remote_directory_state-described}

lookup-map :
    {V : Type 0} (f : String → V) (s : String) (ps : List String)
    → lookup s (map (λ p. (p, f p)) ps) ≡ (if elem_text s ps then some (f s) else none)
unfolding lookup elem_text
lookup-map f s [] = refl
lookup-map f s (p ∷ ps) = elim (Bool-cases (p =s s)) [
  | inl e ↦ rw e (ap (λ x. some (f x)) ((eq_iff p s).0 e))
  | inr e ↦ rw e (lookup-map f s ps)
]

elem_text-all_paths :
    (s : String) (remote_tree : Dict RemoteEntry) (local_tree : Dict LocalEntry)
    → elem_text s (all_paths remote_tree local_tree)
      ≡ (has_key s remote_tree || has_key s local_tree)
unfolding all_paths
elem_text-all_paths s remote_tree local_tree = ground (
  arith,
  elem_text-append s (keys remote_tree) (keep (λ p. not (has_key p remote_tree)) (keys local_tree)),
  elem_text-keep s (λ p. not (has_key p remote_tree)) (keys local_tree),
  elem_text-keys s remote_tree,
  elem_text-keys s local_tree,
)

module _ (predicate : String → RemoteEntry → Bool) (remote_tree : Dict RemoteEntry)
    (local_tree : Dict LocalEntry) where
  -- A path has a node exactly if one of the two trees has it, and it is the node of that path.
  pub lookup-reconcile :
      (p : String)
      → lookup p (reconcile predicate remote_tree local_tree) ≡ (
          if has_key p remote_tree || has_key p local_tree
          then some (node_at predicate remote_tree local_tree p)
          else none)
  unfolding reconcile
  lookup-reconcile p =
      lookup-map (node_at predicate remote_tree local_tree) p (all_paths remote_tree local_tree)
      ∙ rw (elem_text-all_paths p remote_tree local_tree) refl

  -- The state that the result has for a path.
  abbrev pub state_of : Option ReconciledNode → Option Structural
  state_of none = none
  state_of (some node) = some node.structural

  -- For a scanned remote tree, a directory of it is downloaded exactly if each counted file below
  -- it has all its bytes here under its real name and it has a remote file below it or a local
  -- copy; else it is partial if some counted file below it is here, and remote only if none is.
  pub reconcile-described :
      (p : String) (entry : RemoteEntry)
      → IsTree remote_tree
      → lookup p remote_tree ≡ some entry
      → entry.is_dir ≡ true
      → state_of (lookup p (reconcile predicate remote_tree local_tree))
        ≡ some (described_state predicate local_tree remote_tree p)
  unfolding node_at state_at
  reconcile-described p entry t h d =
      rw (lookup-reconcile p, h)
        (simp d (
          ap some
            (remote_directory_state-described predicate local_tree remote_tree p entry t h d)))
