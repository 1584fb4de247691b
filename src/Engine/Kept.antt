-- ===== src/Engine/Kept.antt =====
-- What a write of `_persist` (backend/lftpweb/core/engine.py) to one row keeps of another, and of
-- its own.
use text.Mathlib.TextPositions.{eq_refl}
use lftpweb.Common.{
  ℕ, String, ◌≡◌, sym, ◌∙◌, ap, subst, inl, inr, true, false, Option, none, some, ◌=s◌, eq_iff,
  Bool-cases,
}
use lftpweb.Common.Dict.{lookup, lookup-insert}
use lftpweb.Common.TextList.{elem_text}
use lftpweb.Item.{Item, ItemState, excluded, removed_both}
use lftpweb.Settle.{SettleRecord}
use lftpweb.Reconcile.Node.{ReconciledNode}
use lftpweb.Engine.Protected.{Items, is_protected}
use lftpweb.Engine.Persist.{
  settle_record_for, Pass, Progress, protected_row, open_row, reading_for, upsert_item,
}
use lftpweb.Engine.Sweep.{updated_rows, vanished_item, vanished_reading}

pub some_injective : {a b : Item} → some a ≡ some b → a ≡ b
some_injective e = cc

-- The row is there and satisfies `P`.
abbrev pub Holds : String → (Item → Type 0) → Items → Type 0
Holds k P items = (item : Item) × (lookup k items ≡ some item) × P item

-- The ways in which the sweep comes to a state for a path.
pub data Vanishes (pass : Pass) (k : String) (prev : Item) : ItemState → Option ℕ → Type 0 where
  spent : elem_text k pass.deleted_archive_paths ≡ true → Vanishes pass k prev excluded none
  orphaned : elem_text k pass.deleted_archive_paths ≡ true → Vanishes pass k prev removed_both none
  read :
      {state : ItemState} {missing : Option ℕ}
      → elem_text k pass.deleted_archive_paths ≡ false
      → vanished_reading pass prev ≡ some (state, missing)
      → Vanishes pass k prev state missing

abbrev pub Unprotected : Pass → String → Type 0
Unprotected pass k = is_protected pass.busy pass.previous k ≡ false

-- `P` is kept by each kind of write to the row at `k`.
pub record KeptBy (pass : Pass) (k : String) (prev : Item) (P : Item → Type 0) : Type 0 where
  pub by_protected :
      (node : ReconciledNode) (item : Item)
      → is_protected pass.busy pass.previous k ≡ true
      → P item
      → P (protected_row node (some prev) item)
  pub by_open :
      (node : ReconciledNode) (settle : Option SettleRecord) (item : Item)
      → Unprotected pass k
      → (settle_record_for pass k).0 ≡ settle
      → P item
      → P (open_row pass node (reading_for pass node settle (some prev)) item)
  pub by_sweep :
      (state : ItemState) (missing : Option ℕ) (item : Item)
      → Unprotected pass k
      → Vanishes pass k prev state missing
      → P item
      → P (vanished_item state missing item)

lookup-upsert_other :
    (k path : String) (u : Item → Item) (c : ℕ → Item) (p : Progress)
    → (path =s k) ≡ false
    → lookup k (upsert_item path u c p).items ≡ lookup k p.items
unfolding upsert_item
lookup-upsert_other k path u c p h = simp lookup-insert (rw h)

lookup-upsert_self :
    (k : String) (u : Item → Item) (c : ℕ → Item) (p : Progress) (item : Item)
    → lookup k p.items ≡ some item
    → lookup k (upsert_item k u c p).items ≡ some (u item)
unfolding upsert_item
lookup-upsert_self k u c p item e = simp (lookup-insert, eq_refl) (rw e)

pub Holds-upsert :
    (k path : String) (P : Item → Type 0) (u : Item → Item) (c : ℕ → Item) (p : Progress)
    → (path ≡ k → (item : Item) → P item → P (u item))
    → Holds k P p.items
    → Holds k P (upsert_item path u c p).items
Holds-upsert k path P u c p step (item, e, h) = elim (Bool-cases (path =s k)) [
  | inl same ↦
      let q : path ≡ k = (eq_iff path k).0 same in
      (
        u item,
        subst (λ x. lookup k (upsert_item x u c p).items ≡ some (u item)) (sym q)
            (lookup-upsert_self k u c p item e),
        step q item h,
      )
  | inr other ↦ (item, lookup-upsert_other k path u c p other ∙ e, h)
]

pub Holds-updated_rows :
    (k path : String) (P : Item → Type 0) (u : Item → Item) (items : Items) (found : Option Item)
    → lookup path items ≡ found
    → (path ≡ k → (item : Item) → P item → P (u item))
    → Holds k P items
    → Holds k P (updated_rows path u items found)
unfolding updated_rows
Holds-updated_rows k path P u items none f step h = h
Holds-updated_rows k path P u items (some found) f step (item, e, h) =
    elim (Bool-cases (path =s k)) [
      | inl same ↦
          let q : path ≡ k = (eq_iff path k).0 same in
          let here : found ≡ item = some_injective (sym f ∙ ap (λ x. lookup x items) q ∙ e) in
          (u found, simp lookup-insert (rw same), step q found (subst P (sym here) h))
      | inr other ↦ (item, simp lookup-insert (rw other e), h)
    ]
