-- ===== src/Common/Path.antt =====
-- POSIX-style relative paths as Python strings: the parent, the depth, and what lies below.
use Prim.Native.Char.{Char, code}
use Prim.Native.String.{String, ◌∷◌ as cons, [] as empty_text}
use Prim.Native.Nat.{Ordering, compare as compare_numbers}
use Prim.Native.String.{compare, then as then_by}
use Prim.Native.String.compare
use text.Mathlib.Text.{is_eq}
use lftpweb.Common.{
  ℕ, suc, ◌≡◌, refl, ◌∙◌, ap, subst, true, false, ◌&&◌, ◌||◌, Option, none, some, inl, inr, arith,
  ◌==◌, ◌=s◌, if◌then◌else◌, Bool-cases, Option-cases,
}
use lftpweb.Common.Text.{slash, descends}

-- The parent of a text with one more character in front.
unfoldable pub parent_after : Char → Option String → Option String
parent_after c (some r) = some (cons c r)
parent_after c none = if code c == slash then some empty_text else none

-- `_parent`: `rel_path.rsplit("/", 1)[0]`, the text before the last slash, or `None`.
unfoldable pub parent_of : String → Option String
parent_of empty_text = none
parent_of (cons c s) = parent_after c (parent_of s)

-- `p.count("/")`
unfoldable pub depth : String → ℕ
depth empty_text = 0
depth (cons c s) = let n = depth s in if code c == slash then suc n else n

no_parent-depth : (s : String) → parent_of s ≡ none → depth s ≡ 0
unfolding parent_of depth parent_after
no_parent-depth empty_text h = refl
no_parent-depth (cons c s) h = elim (Option-cases (parent_of s)) [
  | inl e ↦ ground (arith, no_parent-depth s e)
  | inr (r, e) ↦ ground arith
]

some_injective : {a b : String} → some a ≡ some b → a ≡ b
some_injective e = cc

-- What `parent_after` returns, case by case.
data ParentAfter (c : Char) : String → Option String → Type 0 where
  here : (code c == slash) ≡ true → ParentAfter c empty_text none
  deeper : (q : String) → ParentAfter c (cons c q) (some q)

parent_after_lem :
    (c : Char) (r : String) (o : Option String) → parent_after c o ≡ some r → ParentAfter c r o
unfolding parent_after
parent_after_lem c r none h = elim (Bool-cases (code c == slash)) [
  | inl e ↦ subst (λ x. ParentAfter c x none) (some_injective (rw e at h)) (ParentAfter.here e)
  | inr e ↦ cc
]
parent_after_lem c r (some q) h =
    subst (λ x. ParentAfter c x (some q)) (some_injective h) (ParentAfter.deeper q)

depth-ParentAfter :
    (c : Char) (s r : String) (o : Option String)
    → parent_of s ≡ o
    → ParentAfter c r o
    → ((q : String) → o ≡ some q → depth s ≡ suc (depth q))
    → depth (cons c s) ≡ suc (depth r)
unfolding depth
depth-ParentAfter c s _ none e (ParentAfter.here slashed) step = ground (arith, no_parent-depth s e)
depth-ParentAfter c s _ (some q) e (ParentAfter.deeper _) step = ground (arith, step q refl)

-- A parent is one level up.
pub depth-parent_of : (s r : String) → parent_of s ≡ some r → depth s ≡ suc (depth r)
unfolding parent_of
depth-parent_of empty_text r h = cc
depth-parent_of (cons c s) r h =
    depth-ParentAfter c s r (parent_of s) refl (parent_after_lem c r (parent_of s) h)
      (depth-parent_of s)

is_eq-then : (o p : Ordering) → is_eq (then_by o p) ≡ (is_eq o && is_eq p)
is_eq-then Ordering.lt p = refl
is_eq-then Ordering.eq p = refl
is_eq-then Ordering.gt p = refl

same_cons : (c d : Char) (s t : String) → (cons c s =s cons d t) ≡ (code c == code d && s =s t)
same_cons c d s t =
    (ap is_eq (compare.cons-cons c d s t)
      ∙ is_eq-then (compare_numbers (code c) (code d)) (compare s t))

pub no_parent-descends : (p s : String) → parent_of s ≡ none → descends p s ≡ false
unfolding parent_of parent_after descends
no_parent-descends empty_text empty_text h = refl
no_parent-descends (cons a p) empty_text h = refl
no_parent-descends empty_text (cons c s) h = elim (Option-cases (parent_of s)) [
  | inl e ↦ ground arith
  | inr (q, e) ↦ cc
]
no_parent-descends (cons a p) (cons c s) h = elim (Option-cases (parent_of s)) [
  | inl e ↦ ground (arith, no_parent-descends p s e)
  | inr (q, e) ↦ cc
]

descends-ParentAfter :
    (p : String) (c : Char) (s r : String) (o : Option String)
    → parent_of s ≡ o
    → ParentAfter c r o
    → ((p q : String) → o ≡ some q → descends p s ≡ (p =s q || descends p q))
    → descends p (cons c s) ≡ (p =s r || descends p r)
unfolding descends
descends-ParentAfter empty_text c s _ none e (ParentAfter.here slashed) step = ground arith
descends-ParentAfter (cons a p) c s _ none e (ParentAfter.here slashed) step =
    rw (ap is_eq (compare.cons-nil a p)) (ground (arith, no_parent-descends p s e))
descends-ParentAfter empty_text c s _ (some q) e (ParentAfter.deeper _) step =
    rw (ap is_eq (compare.nil-cons c q)) refl
descends-ParentAfter (cons a p) c s _ (some q) e (ParentAfter.deeper _) step =
    rw (same_cons a c p q, step p q refl) (ground arith)

-- What lies below a path is its children and what lies below them.
pub descends-parent_of :
    (p q r : String) → parent_of q ≡ some r → descends p q ≡ (p =s r || descends p r)
unfolding parent_of
descends-parent_of p empty_text r h = cc
descends-parent_of p (cons c s) r h =
    descends-ParentAfter p c s r (parent_of s) refl (parent_after_lem c r (parent_of s) h)
      (λ p q. descends-parent_of p s q)

pub descends_irrefl : (p : String) → descends p p ≡ false
unfolding descends
descends_irrefl empty_text = refl
descends_irrefl (cons c s) = ground (arith, descends_irrefl s)
