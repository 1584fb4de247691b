-- ===== src/Settle/Fingerprints.antt =====
-- `compute_fingerprints` of backend/lftpweb/core/settle.py against a description of the subtree
-- that reads it item by item.
use lftpweb.Common.{
  ◌∙◌, ℕ, ◌+◌, String, ◌≡◌, refl, Bool, false, ◌&&◌, ◌||◌, not, Option, none, some, List, [], ◌∷◌,
  max, arith, length, sum_by, ◌=s◌, or_default, if◌then◌else◌, Bool-cases, eq_iff, inl, inr,
}
use lftpweb.Common.Dict.{
  Dict, lookup, lookup-insert, lookup-set_default, lookup-map_items, map_items,
}
use lftpweb.Common.Text.{before_slash}
use lftpweb.Remote.Entry.{RemoteEntry}
use lftpweb.Settle.{
  Fingerprint, Tallies, fingerprint_of, tally_dir, tally_file, tally_entry, tally_tree, no_tallies,
  newest, compute_fingerprints,
}

-- The files in the subtree of one top-level item.
unfoldable pub files_under : String → Dict RemoteEntry → List RemoteEntry
files_under top [] = []
files_under top ((path, entry) ∷ tree) =
    let rest = files_under top tree in
    if before_slash path =s top && not entry.is_dir then entry ∷ rest else rest

-- Some node of the tree lies under this top-level item, or is it.
unfoldable pub is_present : String → Dict RemoteEntry → Bool
is_present top [] = false
is_present top ((path, entry) ∷ tree) = before_slash path =s top || is_present top tree

abbrev pub later : Option ℕ → Option ℕ → Option ℕ
later none b = b
later (some a) none = some a
later (some a) (some b) = some (max a b)

unfoldable pub latest : List RemoteEntry → Option ℕ
latest [] = none
latest (e ∷ es) = later (some e.mtime) (latest es)

-- The number of files, their total size and the latest file time.
abbrev pub summary : List RemoteEntry → Fingerprint
summary es = record {
  file_count = length es;
  total_bytes = sum_by (λ e. e.size) es;
  max_mtime = latest es;
}

abbrev pub describe : String → Dict RemoteEntry → Option Fingerprint
describe top tree = if is_present top tree then some (summary (files_under top tree)) else none

abbrev empty : Fingerprint
empty = record { file_count = 0; total_bytes = 0; max_mtime = none }

abbrev join : Fingerprint → Fingerprint → Fingerprint
join a b = record {
  file_count = a.file_count + b.file_count;
  total_bytes = a.total_bytes + b.total_bytes;
  max_mtime = later a.max_mtime b.max_mtime;
}

abbrev add_file : RemoteEntry → Fingerprint → Fingerprint
add_file e f = record {
  file_count = f.file_count + 1;
  total_bytes = f.total_bytes + e.size;
  max_mtime = some (newest f.max_mtime e.mtime);
}

abbrev start : Option Fingerprint → Fingerprint
start = or_default empty

-- What one entry of the tree does to the fingerprint of one top-level item.
observe : String → String → RemoteEntry → Option Fingerprint → Option Fingerprint
observe top path e o =
    if before_slash path =s top
    then some (if e.is_dir then start o else add_file e (start o))
    else o

observe_tree : String → Option Fingerprint → Dict RemoteEntry → Option Fingerprint
observe_tree top o [] = o
observe_tree top o ((path, e) ∷ tree) = observe_tree top (observe top path e o) tree

abbrev field {ℓ} : {A : Type ℓ} → (Fingerprint → A) → Option Fingerprint → Option A
field f none = none
field f (some x) = some (f x)

-- The three dictionaries hold at one key the parts of one fingerprint, or hold nothing.
record Holds (top : String) (t : Tallies) (o : Option Fingerprint) : Type 0 where
  count : lookup top t.file_count ≡ field (λ f. f.file_count) o
  total : lookup top t.total_bytes ≡ field (λ f. f.total_bytes) o
  mtime : lookup top t.max_mtime ≡ field (λ f. f.max_mtime) o

Holds-tally_dir :
    (top key : String) (t : Tallies) (o : Option Fingerprint)
    → Holds top t o
    → Holds top (tally_dir key t) (if key =s top then some (start o) else o)
unfolding tally_dir
Holds-tally_dir top key t none h = record {
  count = simp lookup-set_default (rw h.count (ground arith));
  total = simp lookup-set_default (rw h.total (ground arith));
  mtime = simp lookup-set_default (rw h.mtime (ground arith));
}
Holds-tally_dir top key t (some f) h = record {
  count = simp lookup-set_default (rw h.count (ground arith));
  total = simp lookup-set_default (rw h.total (ground arith));
  mtime = simp lookup-set_default (rw h.mtime (ground arith));
}

Holds-tally_file :
    (top key : String) (e : RemoteEntry) (t : Tallies) (o : Option Fingerprint)
    → Holds top t o
    → Holds top (tally_file key e t) (if key =s top then some (add_file e (start o)) else o)
unfolding tally_file
Holds-tally_file top key e t none h = record {
  count = simp lookup-insert (ground (arith, eq_iff key top));
  total = simp lookup-insert (ground (arith, eq_iff key top));
  mtime = simp lookup-insert (ground (arith, eq_iff key top));
}
Holds-tally_file top key e t (some f) h = record {
  count = simp lookup-insert (ground (arith, eq_iff key top));
  total = simp lookup-insert (ground (arith, eq_iff key top));
  mtime = simp lookup-insert (ground (arith, eq_iff key top));
}

Holds-tally_entry :
    (top path : String) (e : RemoteEntry) (t : Tallies) (o : Option Fingerprint)
    → Holds top t o
    → Holds top (tally_entry t path e) (observe top path e o)
unfolding tally_entry observe
Holds-tally_entry top path e t o h = elim (Bool-cases e.is_dir) [
  | inl d ↦ rw d (Holds-tally_dir top (before_slash path) t o h)
  | inr d ↦ rw d (Holds-tally_file top (before_slash path) e t o h)
]

Holds-tally_tree :
    (top : String) (t : Tallies) (o : Option Fingerprint) (tree : Dict RemoteEntry)
    → Holds top t o
    → Holds top (tally_tree t tree) (observe_tree top o tree)
unfolding tally_tree observe_tree
Holds-tally_tree top t o [] h = h
Holds-tally_tree top t o ((path, e) ∷ tree) h =
    Holds-tally_tree top (tally_entry t path e) (observe top path e o) tree
      (Holds-tally_entry top path e t o h)

abbrev described : String → Option Fingerprint → Dict RemoteEntry → Option Fingerprint
described top none tree = describe top tree
described top (some f) tree = some (join f (summary (files_under top tree)))

observe-described :
    (top path : String) (e : RemoteEntry) (o : Option Fingerprint) (tree : Dict RemoteEntry)
    → described top (observe top path e o) tree ≡ described top o ((path, e) ∷ tree)
unfolding observe files_under is_present latest sum_by
observe-described top path e none tree = ground arith
observe-described top path e (some f) tree = ground arith

observe_tree-described :
    (top : String) (o : Option Fingerprint) (tree : Dict RemoteEntry)
    → observe_tree top o tree ≡ described top o tree
unfolding observe_tree files_under is_present latest sum_by
observe_tree-described top none [] = refl
observe_tree-described top (some f) [] = ground arith
observe_tree-described top o ((path, e) ∷ tree) =
    observe_tree-described top (observe top path e o) tree ∙ observe-described top path e o tree

-- What `compute_fingerprints` returns at a key, from what the three dictionaries hold there.
read_fingerprint :
    (top : String) (t : Tallies) (o : Option Fingerprint)
    → Holds top t o
    → lookup top (map_items (fingerprint_of t) t.file_count) ≡ o
read_fingerprint top t none h = simp (lookup-map_items, h.count)
read_fingerprint top t (some f) h = simp (lookup-map_items, h.count, h.total, h.mtime)

-- Whatever the tree, the fingerprint of a top-level item is the number of files in its subtree,
-- their total size and their latest time, and an item has one exactly if a node lies under it.
pub compute_fingerprints-describe :
    (tree : Dict RemoteEntry) (top : String)
    → lookup top (compute_fingerprints tree) ≡ describe top tree
unfolding compute_fingerprints lookup
compute_fingerprints-describe tree top =
    read_fingerprint top (tally_tree no_tallies tree) (observe_tree top none tree) (
      Holds-tally_tree top no_tallies none tree
        (record { count = refl; total = refl; mtime = refl }))
    ∙ observe_tree-described top none tree
