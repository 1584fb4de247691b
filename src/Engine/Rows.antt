-- ===== src/Engine/Rows.antt =====
-- One row through a pass of `_persist` (backend/lftpweb/core/engine.py): a property of the row that
-- every kind of write keeps holds after the pass.
use lftpweb.Common.{
  ℕ, String, ◌≡◌, refl, sym, ◌∙◌, ap, subst, inl, inr, true, false, ◌||◌, not, Option, none, some,
  List, [], ◌∷◌, All, Bool-cases,
}
use lftpweb.Common.Dict.{lookup}
use lftpweb.Common.TextList.{elem_text}
use lftpweb.Common.Text.{has_slash, before_slash}
use lftpweb.Absence.{Override}
use lftpweb.Item.{Item, ItemState, excluded, removed_both}
use lftpweb.Settle.{SettleRecord}
use lftpweb.Reconcile.Node.{ReconciledNode, structural_state}
use lftpweb.Engine.Protected.{is_protected}
use lftpweb.Engine.Persist.{
  settle_record_for, Pass, Progress, protected_row, open_row, reading_for, new_item,
  persist_protected, persist_open, persist_node, persist_nodes,
}
use lftpweb.Engine.Sweep.{
  vanished_item, vanished_reading, write_vanished, sweep_archive, sweep_row, write_override,
  sweep_found, sweep_path, sweep, begin, persist,
}
use lftpweb.Engine.Kept.{
  Holds, Vanishes, KeptBy, Unprotected, some_injective, Holds-upsert, Holds-updated_rows,
}
use lftpweb.Engine.Paths.{vanished_paths-Unprotected}

module _ (pass : Pass) (k : String) (prev : Item) (P : Item → Type 0) (kept : KeptBy pass k prev P)
    (there : lookup k pass.previous ≡ some prev) where
  Holds-persist_protected :
      (node : ReconciledNode) (p : Progress)
      → is_protected pass.busy pass.previous node.rel_path ≡ true
      → Holds k P p.items
      → Holds k P (persist_protected pass node p).items
  unfolding persist_protected
  Holds-persist_protected node p b h =
      Holds-upsert k node.rel_path P (protected_row node (lookup node.rel_path pass.previous))
        (λ id. new_item id node (structural_state node)) p
        (λ q item hp.
          subst (λ o. P (protected_row node o item))
            (sym (ap (λ x. lookup x pass.previous) q ∙ there))
            (kept.by_protected node item
              (subst (λ x. is_protected pass.busy pass.previous x ≡ true) q b) hp))
        h

  Holds-persist_open :
      (node : ReconciledNode) (settle : Option SettleRecord) (p : Progress)
      → Unprotected pass node.rel_path
      → (settle_record_for pass node.rel_path).0 ≡ settle
      → Holds k P p.items
      → Holds k P (persist_open pass node settle p).items
  unfolding persist_open
  Holds-persist_open node settle p b r h =
      Holds-upsert k node.rel_path P
        (open_row pass node (reading_for pass node settle (lookup node.rel_path pass.previous)))
        (λ id.
          open_row pass node (reading_for pass node settle (lookup node.rel_path pass.previous)) (
            new_item id node
              (reading_for pass node settle (lookup node.rel_path pass.previous)).state))
        p
        (λ q item hp.
          subst (λ o. P (open_row pass node (reading_for pass node settle o) item))
            (sym (ap (λ x. lookup x pass.previous) q ∙ there))
            (kept.by_open node settle item (subst (Unprotected pass) q b)
              (subst (λ x. (settle_record_for pass x).0 ≡ settle) q r) hp))
        h

  Holds-persist_node :
      (node : ReconciledNode) (p : Progress)
      → Holds k P p.items
      → Holds k P (persist_node pass p node).items
  unfolding persist_node
  Holds-persist_node node p h =
      elim (Bool-cases (is_protected pass.busy pass.previous node.rel_path)) [
        | inl b ↦ rw b (Holds-persist_protected node _ b h)
        | inr b ↦ rw b (Holds-persist_open node _ _ b refl h)
      ]

  Holds-persist_nodes :
      (nodes : List ReconciledNode) (p : Progress)
      → Holds k P p.items
      → Holds k P (persist_nodes pass p nodes).items
  unfolding persist_nodes
  Holds-persist_nodes [] p h = h
  Holds-persist_nodes (node ∷ nodes) p h =
      Holds-persist_nodes nodes (persist_node pass p node) (Holds-persist_node node p h)

  Holds-write_vanished :
      (path : String) (state : ItemState) (missing : Option ℕ) (p : Progress)
      → (path ≡ k → Unprotected pass k × Vanishes pass k prev state missing)
      → Holds k P p.items
      → Holds k P (write_vanished path state missing p).items
  unfolding write_vanished
  Holds-write_vanished path state missing p v h =
      Holds-updated_rows k path P (vanished_item state missing) p.items (lookup path p.items) refl
        (λ q item hp. let (b, w) = v q in kept.by_sweep state missing item b w hp) h

  Holds-write_override :
      (path : String) (o : Override) (p : Progress)
      → (path ≡ k
          → (state : ItemState) (missing : Option ℕ) → o ≡ some (state, missing)
          → Unprotected pass k × Vanishes pass k prev state missing)
      → Holds k P p.items
      → Holds k P (write_override path o p).items
  unfolding write_override
  Holds-write_override path none p v h = h
  Holds-write_override path (some (state, missing)) p v h =
      Holds-write_vanished path state missing p (λ q. v q state missing refl) h

  Holds-sweep_archive :
      (path : String) (p : Progress)
      → (path ≡ k → Unprotected pass k × (elem_text k pass.deleted_archive_paths ≡ true))
      → Holds k P p.items
      → Holds k P (sweep_archive path p).items
  unfolding sweep_archive
  Holds-sweep_archive path p v h =
      elim (Bool-cases (not (has_slash path) || elem_text (before_slash path) p.written)) [
        | inl e ↦ rw e (
            Holds-write_vanished path excluded none p
              (λ q. let (b, d) = v q in (b, Vanishes.spent d)) h)
        | inr e ↦ rw e (
            Holds-write_vanished path removed_both none
              (record p { archive_paths_to_purge = path ∷ p.archive_paths_to_purge })
              (λ q. let (b, d) = v q in (b, Vanishes.orphaned d)) h)
      ]

  Holds-sweep_row :
      (path : String) (found : Item) (p : Progress)
      → Unprotected pass path
      → lookup path pass.previous ≡ some found
      → Holds k P p.items
      → Holds k P (sweep_row pass path found p).items
  unfolding sweep_row
  Holds-sweep_row path found p b f h =
      elim (Bool-cases (elem_text path pass.deleted_archive_paths)) [
        | inl e ↦ rw e (
            Holds-sweep_archive path p
              (λ q. (
                subst (Unprotected pass) q b,
                subst (λ x. elem_text x pass.deleted_archive_paths ≡ true) q e,
              ))
              h)
        | inr e ↦ rw e (
            Holds-write_override path (vanished_reading pass found) p
              (λ q state missing r. (
                subst (Unprotected pass) q b,
                Vanishes.read (subst (λ x. elem_text x pass.deleted_archive_paths ≡ false) q e) (
                    subst (λ x. vanished_reading pass x ≡ some (state, missing))
                      (some_injective (sym f ∙ ap (λ x. lookup x pass.previous) q ∙ there)) r),
              ))
              h)
      ]

  Holds-sweep_found :
      (path : String) (found : Option Item) (p : Progress)
      → Unprotected pass path
      → lookup path pass.previous ≡ found
      → Holds k P p.items
      → Holds k P (sweep_found pass path found p).items
  unfolding sweep_found
  Holds-sweep_found path none p b f h = h
  Holds-sweep_found path (some found) p b f h = Holds-sweep_row path found p b f h

  Holds-sweep_path :
      (path : String) (p : Progress)
      → Unprotected pass path
      → Holds k P p.items
      → Holds k P (sweep_path pass p path).items
  unfolding sweep_path
  Holds-sweep_path path p b h = Holds-sweep_found path (lookup path pass.previous) p b refl h

  Holds-sweep :
      (paths : List String) (p : Progress)
      → All (Unprotected pass) paths
      → Holds k P p.items
      → Holds k P (sweep pass p paths).items
  unfolding sweep
  Holds-sweep [] p b h = h
  Holds-sweep (path ∷ paths) p b h =
      Holds-sweep paths (sweep_path pass p path) b.1 (Holds-sweep_path path p b.0 h)

-- A property of a row that every kind of write keeps holds of it after the whole pass.
pub persist-Holds :
    (pass : Pass) (k : String) (prev : Item) (P : Item → Type 0) (next_id : ℕ)
    (nodes : List ReconciledNode)
    → KeptBy pass k prev P
    → lookup k pass.previous ≡ some prev
    → P prev
    → Holds k P (persist pass next_id nodes).items
unfolding persist
persist-Holds pass k prev P next_id nodes kept there h =
    Holds-sweep pass k prev P kept there _ _ (vanished_paths-Unprotected pass _)
      (Holds-persist_nodes pass k prev P kept there nodes (begin pass next_id) (prev, there, h))
