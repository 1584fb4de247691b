-- ===== src/Reconcile/PathOrder.antt =====
-- The order in which `_rollup` (backend/lftpweb/core/reconcile.py) takes the paths: in a tree that
-- has the parent of each of its paths, each parent comes after its children.
use text.Mathlib.TextEquality.{eq_iff}
use text.Mathlib.TextPositions.{eq_refl}
use lftpweb.Common.{
  ℕ, suc, ◌+◌, String, ◌≡◌, refl, sym, ◌∙◌, ap, Bool, true, ◌&&◌, ◌||◌, not, Option, none, some,
  List, [], ◌∷◌, inl, inr, arith, leb, ◌=s◌, sum_by, all, Bool-cases, Option-cases,
}
use lftpweb.Common.TextList.{elem_text}
use lftpweb.Common.Path.{parent_of, depth, depth-parent_of}
use lftpweb.Reconcile.Rollup.{insert_path, sort_paths}
use lftpweb.Reconcile.Subtree.{once, ready}

unfoldable pub distinct : List String → Bool
distinct [] = true
distinct (q ∷ qs) = not (elem_text q qs) && distinct qs

unfoldable pub deepest_first : List String → Bool
deepest_first [] = true
deepest_first (q ∷ qs) = all (λ s. leb (depth s) (depth q)) qs && deepest_first qs

-- The parent of each member is a member.
abbrev pub Closed : List String → Type 0
Closed qs = (q r : String) → elem_text q qs ≡ true → parent_of q ≡ some r → elem_text r qs ≡ true

pub elem_text-insert_path :
    (s p : String) (qs : List String) → elem_text s (insert_path p qs) ≡ (p =s s || elem_text s qs)
unfolding elem_text insert_path
elem_text-insert_path s p [] = refl
elem_text-insert_path s p (q ∷ qs) = ground (arith, elem_text-insert_path s p qs)

pub elem_text-sort_paths :
    (s : String) (qs : List String) → elem_text s (sort_paths qs) ≡ elem_text s qs
unfolding elem_text sort_paths
elem_text-sort_paths s [] = refl
elem_text-sort_paths s (q ∷ qs) =
    ground (arith, elem_text-insert_path s q (sort_paths qs), elem_text-sort_paths s qs)

distinct-insert_path :
    (p : String) (qs : List String)
    → distinct (insert_path p qs) ≡ (not (elem_text p qs) && distinct qs)
unfolding distinct insert_path elem_text
distinct-insert_path p [] = refl
distinct-insert_path p (q ∷ qs) =
    ground (arith, distinct-insert_path p qs, elem_text-insert_path q p qs, eq_iff p q, eq_iff q p)

distinct-sort_paths : (qs : List String) → distinct (sort_paths qs) ≡ distinct qs
unfolding distinct sort_paths
distinct-sort_paths [] = refl
distinct-sort_paths (q ∷ qs) = ground (
  arith,
  distinct-insert_path q (sort_paths qs),
  distinct-sort_paths qs,
  elem_text-sort_paths q qs,
)

all-insert_path :
    (f : String → Bool) (p : String) (qs : List String)
    → all f (insert_path p qs) ≡ (f p && all f qs)
unfolding all insert_path
all-insert_path f p [] = refl
all-insert_path f p (q ∷ qs) = ground (arith, all-insert_path f p qs)

all_mono :
    (f g : String → Bool) (qs : List String)
    → ((s : String) → f s ≡ true → g s ≡ true)
    → all f qs ≡ true
    → all g qs ≡ true
unfolding all
all_mono f g [] h e = refl
all_mono f g (q ∷ qs) h e = ground (arith, h q, all_mono f g qs h)

deepest_first-insert_path :
    (p : String) (qs : List String)
    → deepest_first qs ≡ true
    → deepest_first (insert_path p qs) ≡ true
unfolding deepest_first insert_path all
deepest_first-insert_path p [] h = refl
deepest_first-insert_path p (q ∷ qs) h = elim (Bool-cases (leb (depth q) (depth p))) [
  | inl e ↦ rw e (
      ground (
        arith,
        all_mono (λ s. leb (depth s) (depth q)) (λ s. leb (depth s) (depth p)) qs
            (λ s l. ground arith),
      ))
  | inr e ↦ rw e (
      ground (
        arith,
        all-insert_path (λ s. leb (depth s) (depth q)) p qs,
        deepest_first-insert_path p qs,
      ))
]

deepest_first-sort_paths : (qs : List String) → deepest_first (sort_paths qs) ≡ true
unfolding deepest_first sort_paths
deepest_first-sort_paths [] = refl
deepest_first-sort_paths (q ∷ qs) =
    deepest_first-insert_path q (sort_paths qs) (deepest_first-sort_paths qs)

all-elem :
    (f : String → Bool) (s : String) (qs : List String)
    → all f qs ≡ true
    → elem_text s qs ≡ true
    → f s ≡ true
unfolding all elem_text
all-elem f s [] h e = cc
all-elem f s (q ∷ qs) h e = elim (Bool-cases (q =s s)) [
  | inl same ↦ ap f (sym ((eq_iff q s).0 same)) ∙ ground arith
  | inr other ↦ all-elem f s qs (ground arith) (ground arith)
]

distinct-once :
    (r : String) (qs : List String) → distinct qs ≡ true → elem_text r qs ≡ true → once r qs ≡ true
unfolding distinct elem_text once
distinct-once r [] d e = cc
distinct-once r (q ∷ qs) d e = elim (Bool-cases (r =s q)) [
  | inl same ↦
      let moved : elem_text r qs ≡ elem_text q qs =
        ap (λ x. elem_text x qs) ((eq_iff r q).0 same) in
      ground arith
  | inr other ↦ ground (arith, distinct-once r qs, eq_iff r q, eq_iff q r)
]

-- A parent is not at the head, so it is in the tail.
parent_in_tail :
    (q : String) (qs : List String) (s r : String)
    → deepest_first (q ∷ qs) ≡ true
    → elem_text s (q ∷ qs) ≡ true
    → parent_of s ≡ some r
    → elem_text r (q ∷ qs) ≡ true
    → elem_text r qs ≡ true
unfolding deepest_first elem_text all
parent_in_tail q qs s r d m e h = elim (Bool-cases (q =s r)) [
  | inl same ↦
      let low : leb (depth s) (depth q) ≡ true =
        all-elem (λ x. leb (depth x) (depth q)) s (q ∷ qs) (ground arith) m in
      let level : depth q ≡ depth r = ap depth ((eq_iff q r).0 same) in
      let up : depth s ≡ suc (depth r) = depth-parent_of s r e in absurd (ground arith)
  | inr other ↦ ground arith
]

ready-deepest_first :
    (qs : List String) → deepest_first qs ≡ true → distinct qs ≡ true → Closed qs → ready qs ≡ true
unfolding deepest_first distinct ready elem_text
ready-deepest_first [] d u c = refl
ready-deepest_first (q ∷ qs) d u c =
    let in_tail : (s r : String)
        → elem_text s (q ∷ qs) ≡ true
        → parent_of s ≡ some r
        → elem_text r qs ≡ true =
      λ s r m e. parent_in_tail q qs s r d m e (c s r m e) in
    let rest : ready qs ≡ true =
      ready-deepest_first qs (ground arith) (ground arith)
        (λ s r m e. in_tail s r (ground arith) e) in
    elim (Option-cases (parent_of q)) [
      | inl e ↦ rw e rest
      | inr (r, e) ↦
          let self : elem_text q (q ∷ qs) ≡ true = rw (eq_refl q) refl in
          rw (e, distinct-once r qs (ground arith) (in_tail q r self e)) rest
    ]

sum_by-insert_path :
    (f : String → ℕ) (p : String) (qs : List String)
    → sum_by f (insert_path p qs) ≡ f p + sum_by f qs
unfolding sum_by insert_path
sum_by-insert_path f p [] = refl
sum_by-insert_path f p (q ∷ qs) = ground (arith, sum_by-insert_path f p qs)

pub sum_by-sort_paths : (f : String → ℕ) (qs : List String) → sum_by f (sort_paths qs) ≡ sum_by f qs
unfolding sum_by sort_paths
sum_by-sort_paths f [] = refl
sum_by-sort_paths f (q ∷ qs) =
    ground (arith, sum_by-insert_path f q (sort_paths qs), sum_by-sort_paths f qs)

pub ready-sort_paths :
    (qs : List String) → distinct qs ≡ true → Closed qs → ready (sort_paths qs) ≡ true
ready-sort_paths qs u c =
    ready-deepest_first (sort_paths qs) (deepest_first-sort_paths qs) (distinct-sort_paths qs ∙ u)
      (λ q r m e. elem_text-sort_paths r qs ∙ c q r (sym (elem_text-sort_paths q qs) ∙ m) e)

abbrev parent_in : Option String → List String → Bool
parent_in none qs = true
parent_in (some r) qs = elem_text r qs

-- The test of `Closed`.
pub all-Closed : (qs : List String) → all (λ q. parent_in (parent_of q) qs) qs ≡ true → Closed qs
all-Closed qs h q r m e =
    let there : parent_in (parent_of q) qs ≡ true =
      all-elem (λ x. parent_in (parent_of x) qs) q qs h m in
    rw e at there
