-- ===== src/Reconcile/Subtree.antt =====
-- What `_rollup` (backend/lftpweb/core/reconcile.py) adds up: the loop over paths of which each
-- one's parent is still to come.
use text.Mathlib.TextEquality.{eq_iff}
use lftpweb.Common.{
  ℕ, ◌+◌, String, ◌≡◌, refl, sym, ◌∙◌, ap, Bool, true, false, ◌&&◌, not, Option, none, some, List,
  [], ◌∷◌, inl, inr, arith, ◌=s◌, is_some, if◌then◌else◌, sum_by, Bool-cases,
}
use lftpweb.Common.Dict.{Dict, lookup, has_key, lookup-insert}
use lftpweb.Common.TextList.{elem_text}
use lftpweb.Common.Path.{parent_of}
use lftpweb.Common.Text.{descends}
use lftpweb.Common.Path.{descends-parent_of, no_parent-descends, descends_irrefl}
use lftpweb.Reconcile.Rollup.{total_at, add_at, add_to_parent, rollup_from}

-- `f` added up over the members that lie below `p`.
abbrev pub below : (String → ℕ) → String → List String → ℕ
below f p qs = sum_by (λ q. if descends p q then f q else 0) qs

-- The text is a member, and is one only once.
unfoldable pub once : String → List String → Bool
once r [] = false
once r (q ∷ qs) = if r =s q then not (elem_text r qs) else once r qs

abbrev parent_once : Option String → List String → Bool
parent_once none qs = true
parent_once (some r) qs = once r qs

-- The parent of each path comes after it.
unfoldable pub ready : List String → Bool
ready [] = true
ready (q ∷ qs) = parent_once (parent_of q) qs && ready qs

abbrev pub Keyed : Dict ℕ → List String → Type 0
Keyed totals qs = (s : String) → elem_text s qs ≡ true → has_key s totals ≡ true

once-elem : (r : String) (qs : List String) → once r qs ≡ true → elem_text r qs ≡ true
unfolding once elem_text
once-elem r [] h = cc
once-elem r (q ∷ qs) h = ground (arith, once-elem r qs, eq_iff r q, eq_iff q r)

-- A number added at one text changes the sum by it once, if that text is counted.
below-absent :
    (f : String → ℕ) (p r : String) (k : ℕ) (qs : List String)
    → elem_text r qs ≡ false
    → below (λ s. if r =s s then f s + k else f s) p qs ≡ below f p qs
unfolding elem_text sum_by
below-absent f p r k [] h = refl
below-absent f p r k (q ∷ qs) h = ground (arith, below-absent f p r k qs, eq_iff r q, eq_iff q r)

below-once :
    (f : String → ℕ) (p r : String) (k : ℕ) (qs : List String)
    → once r qs ≡ true
    → below (λ s. if r =s s then f s + k else f s) p qs
      ≡ below f p qs + (if descends p r then k else 0)
unfolding once sum_by
below-once f p r k [] h = cc
below-once f p r k (q ∷ qs) h = elim (Bool-cases (r =s q)) [
  | inl e ↦
      let rest : elem_text r qs ≡ false = ground (arith) in
      let same : descends p r ≡ descends p q = ap (descends p) ((eq_iff r q).0 e) in
      ground (arith, below-absent f p r k qs rest)
  | inr e ↦ ground (arith, below-once f p r k qs)
]

lookup-add_at :
    (parent : String) (n : ℕ) (o : Option ℕ) (totals : Dict ℕ) (s : String)
    → lookup parent totals ≡ o
    → is_some o ≡ true
    → total_at (add_at parent n o totals) s
      ≡ (if parent =s s then total_at totals s + n else total_at totals s)
unfolding add_at
lookup-add_at parent n none totals s e h = cc
lookup-add_at parent n (some m) totals s e h = elim (Bool-cases (parent =s s)) [
  | inl same ↦
      let q : lookup s totals ≡ some m =
        ap (λ x. lookup x totals) (sym ((eq_iff parent s).0 same)) ∙ e in
      simp lookup-insert (rw (same, q) refl)
  | inr other ↦ simp lookup-insert (rw other refl)
]

has_key-add_at :
    (parent : String) (n : ℕ) (o : Option ℕ) (totals : Dict ℕ) (s : String)
    → has_key s totals ≡ true
    → has_key s (add_at parent n o totals) ≡ true
unfolding add_at
has_key-add_at parent n none totals s h = h
has_key-add_at parent n (some m) totals s h = ground (arith, lookup-insert parent s (m + n) totals)

has_key-add_to_parent :
    (totals : Dict ℕ) (q : String) (o : Option String) (s : String)
    → has_key s totals ≡ true
    → has_key s (add_to_parent totals q o) ≡ true
unfolding add_to_parent
has_key-add_to_parent totals q none s h = h
has_key-add_to_parent totals q (some r) s h = has_key-add_at r _ (lookup r totals) totals s h

below-same :
    (f g : String → ℕ) (p : String) (qs : List String)
    → ((s : String) → f s ≡ g s)
    → below f p qs ≡ below g p qs
unfolding sum_by
below-same f g p [] h = refl
below-same f g p (q ∷ qs) h = rw (h q, below-same f g p qs h) refl

-- One step of the loop keeps the total of a path and of what is pending below it.
step_total :
    (totals : Dict ℕ) (q : String) (o : Option String) (qs : List String) (p : String)
    → parent_of q ≡ o
    → parent_once o qs ≡ true
    → Keyed totals qs
    → total_at (add_to_parent totals q o) p + below (total_at (add_to_parent totals q o)) p qs
      ≡ total_at totals p
        + ((if descends p q then total_at totals q else 0) + below (total_at totals) p qs)
unfolding add_to_parent
step_total totals q none qs p e h keyed = rw (no_parent-descends p q e) (omega arith)
step_total totals q (some r) qs p e h keyed =
    let k = total_at totals q in
    let here : has_key r totals ≡ true = keyed r (once-elem r qs h) in
    let moved : (s : String)
        → total_at (add_at r k (lookup r totals) totals) s
          ≡ (if r =s s then total_at totals s + k else total_at totals s) =
      λ s. lookup-add_at r k (lookup r totals) totals s refl here in
    let own : total_at (add_to_parent totals q (some r)) p
        ≡ (if r =s p then total_at totals p + k else total_at totals p) =
      moved p in
    let sums : below (total_at (add_to_parent totals q (some r))) p qs
        ≡ below (λ s. if r =s s then total_at totals s + k else total_at totals s) p qs =
      below-same _ _ p qs moved in
    rw (own, sums, below-once (total_at totals) p r k qs h, descends-parent_of p q r e)
      (elim (Bool-cases (r =s p)) [
        | inl same ↦
            let back : (p =s r) ≡ true = (eq_iff p r).1 (sym ((eq_iff r p).0 same)) in
            let none_below : descends p r ≡ false =
              ap (descends p) ((eq_iff r p).0 same) ∙ descends_irrefl p in
            rw (same, back, none_below) (omega arith)
        | inr other ↦
            let back : (p =s r) ≡ false = ground (arith, eq_iff p r, eq_iff r p) in
            rw (other, back) (omega arith)
      ])

-- After the loop a path has its own number and those of all the paths that came below it.
pub total_at-rollup_from :
    (totals : Dict ℕ) (qs : List String) (p : String)
    → ready qs ≡ true
    → Keyed totals qs
    → total_at (rollup_from totals qs) p ≡ total_at totals p + below (total_at totals) p qs
unfolding rollup_from ready sum_by elem_text
total_at-rollup_from totals [] p h keyed = omega arith
total_at-rollup_from totals (q ∷ qs) p h keyed =
    let tail : Keyed totals qs = λ s e. keyed s (ground arith) in
    ground (
      arith,
      total_at-rollup_from (add_to_parent totals q (parent_of q)) qs p (ground arith)
          (λ s e. has_key-add_to_parent totals q (parent_of q) s (tail s e)),
      step_total totals q (parent_of q) qs p refl (ground arith) tail,
    )
