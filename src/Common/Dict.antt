-- ===== src/Common/Dict.antt =====
-- Python's `dict` with string keys, in insertion order. Assigning to a key that is there keeps
-- its place; a new key goes to the end.
use Prim.Native.String.{String}
use mathlib.Core.Path.{◌≡◌, refl}
use mathlib.Core.Bool.{Bool}
use mathlib.Core.Option.{Option, none, some}
use mathlib.Core.List.{List, [], ◌∷◌, map}
use native.Mathlib.Omega.{arith}
use text.Mathlib.TextEquality.{eq_iff}
use lftpweb.Common.Tests.{◌=s◌, if◌then◌else◌, is_some}

abbrev pub Dict {ℓ} : Type ℓ → Type ℓ
Dict V = List (String × V)

abbrev pub or_else {ℓ} : {A : Type ℓ} → Option A → Option A → Option A
or_else none b = b
or_else (some a) b = some a

module _ {ℓ} {V : Type ℓ} where
  -- The last value that is given for a key; in a dictionary there is one at most.
  unfoldable pub last_given : String → Dict V → Option V
  last_given key [] = none
  last_given key ((k, v) ∷ d) = or_else (last_given key d) (if k =s key then some v else none)

  -- `d.get(k)`
  unfoldable pub lookup : String → Dict V → Option V
  lookup k [] = none
  lookup k ((j, v) ∷ d) = if j =s k then some v else lookup k d

  -- `d[k] = v`
  unfoldable pub insert : String → V → Dict V → Dict V
  insert k v [] = (k, v) ∷ []
  insert k v ((j, w) ∷ d) = if j =s k then (j, v) ∷ d else (j, w) ∷ insert k v d

  -- `d.setdefault(k, v)`
  unfoldable pub set_default : String → V → Dict V → Dict V
  set_default k v [] = (k, v) ∷ []
  set_default k v ((j, w) ∷ d) = if j =s k then (j, w) ∷ d else (j, w) ∷ set_default k v d

  -- `d.pop(k, None)`, `del d[k]`
  unfoldable pub without : String → Dict V → Dict V
  without k [] = []
  without k ((j, v) ∷ d) = let rest = without k d in if j =s k then rest else (j, v) ∷ rest

  -- `k in d`
  abbrev pub has_key : String → Dict V → Bool
  has_key k d = is_some (lookup k d)

  pub lookup-insert :
      (k j : String) (v : V) (d : Dict V)
      → lookup j (insert k v d) ≡ (if k =s j then some v else lookup j d)
  unfolding lookup insert
  lookup-insert k j v [] = refl
  lookup-insert k j v ((i, w) ∷ d) =
      ground (arith, eq_iff k j, eq_iff i k, eq_iff i j, lookup-insert k j v d)

  pub lookup-set_default :
      (k j : String) (v : V) (d : Dict V)
      → lookup j (set_default k v d)
        ≡ (if k =s j then (if has_key j d then lookup j d else some v) else lookup j d)
  unfolding lookup set_default
  lookup-set_default k j v [] = ground arith
  lookup-set_default k j v ((i, w) ∷ d) =
      ground (arith, eq_iff k j, eq_iff i k, eq_iff i j, lookup-set_default k j v d)

  pub lookup-without :
      (k j : String) (d : Dict V) → lookup j (without k d) ≡ (if k =s j then none else lookup j d)
  unfolding lookup without
  lookup-without k j [] = ground arith
  lookup-without k j ((i, v) ∷ d) =
      ground (arith, lookup-without k j d, eq_iff i k, eq_iff i j, eq_iff k j)

  pub ruleset dict_laws = (lookup-insert, lookup-set_default, lookup-without)

-- The keys of a dictionary, in its order.
abbrev pub keys {ℓ} : {V : Type ℓ} → Dict V → List String
keys d = map (λ e. e.0) d

-- A dict comprehension that keeps the keys, `{k: f(k, v) for k, v in d.items()}`.
unfoldable pub map_items {ℓ κ} : {V : Type ℓ} {W : Type κ} → (String → V → W) → Dict V → Dict W
map_items f [] = []
map_items f ((k, v) ∷ d) = (k, f k v) ∷ map_items f d

abbrev pub apply_at {ℓ κ} :
    {V : Type ℓ} {W : Type κ} → (String → V → W) → String → Option V → Option W
apply_at f k none = none
apply_at f k (some v) = some (f k v)

pub lookup-map_items {ℓ κ} :
    {V : Type ℓ} {W : Type κ} (f : String → V → W) (k : String) (d : Dict V)
    → lookup k (map_items f d) ≡ apply_at f k (lookup k d)
unfolding lookup map_items
lookup-map_items f k [] = refl
lookup-map_items f k ((j, v) ∷ d) = ground (arith, eq_iff j k, lookup-map_items f k d)
