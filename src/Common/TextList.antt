-- ===== src/Common/TextList.antt =====
-- Lists of Python strings: sorting and membership.
use Prim.Native.String.{String, ◌++◌ as text_append}
use mathlib.Core.Path.{◌≡◌, refl, ap}
use mathlib.Core.Logic.{inl, inr}
use native.Mathlib.Omega.{arith}
use text.Mathlib.TextEquality.{eq_iff}
use lftpweb.Common.Lists.{keep}
use lftpweb.Common.Dict.{Dict, lookup, has_key, keys}
use mathlib.Core.Bool.{Bool, false, ◌||◌, ◌&&◌}
use mathlib.Core.List.{List, [], ◌∷◌, ◌++◌}
use lftpweb.Common.Tests.{◌=s◌, if◌then◌else◌, Bool-cases}
use lftpweb.Common.Text.{text_leb}

unfoldable pub insert_text : String → List String → List String
insert_text s [] = s ∷ []
insert_text s (t ∷ ts) = if text_leb s t then s ∷ t ∷ ts else t ∷ insert_text s ts

-- `sorted(...)` of strings.
unfoldable pub sort_texts : List String → List String
sort_texts [] = []
sort_texts (t ∷ ts) = insert_text t (sort_texts ts)

-- `s in xs`
unfoldable pub elem_text : String → List String → Bool
elem_text s [] = false
elem_text s (t ∷ ts) = t =s s || elem_text s ts

pub elem_text-append :
    (s : String) (xs ys : List String) → elem_text s (xs ++ ys) ≡ (elem_text s xs || elem_text s ys)
unfolding elem_text
elem_text-append s [] ys = refl
elem_text-append s (x ∷ xs) ys = ground (arith, elem_text-append s xs ys)

pub elem_text-keep :
    (s : String) (f : String → Bool) (xs : List String)
    → elem_text s (keep f xs) ≡ (elem_text s xs && f s)
unfolding elem_text keep
elem_text-keep s f [] = refl
elem_text-keep s f (x ∷ xs) = elim (Bool-cases (x =s s)) [
  | inl e ↦ let q : f x ≡ f s = ap f ((eq_iff x s).0 e) in ground (arith, elem_text-keep s f xs)
  | inr e ↦ ground (arith, elem_text-keep s f xs)
]

pub elem_text-keys {ℓ} : {V : Type ℓ} (s : String) (d : Dict V) → elem_text s (keys d) ≡ has_key s d
unfolding elem_text lookup
elem_text-keys s [] = refl
elem_text-keys s ((q, v) ∷ d) = ground (arith, elem_text-keys s d)

-- `sep.join(parts)`
unfoldable pub join : String → List String → String
join sep [] = ""
join sep (p ∷ []) = p
join sep (p ∷ q ∷ ps) = text_append p (text_append sep (join sep (q ∷ ps)))
