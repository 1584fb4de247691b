-- ===== src/Jobs/Found.antt =====
-- Rows are found again after the updates of `_reap_one` (backend/lftpweb/core/queue.py).
use lftpweb.Common.{
  ℕ, ◌≡◌, refl, ◌∙◌, ap, Bool, true, some, List, [], ◌∷◌, ◌==◌, is_some, first, update, inl, inr,
  Bool-cases, none_not_some, some_injective, String,
}
use lftpweb.Jobs.Rows.{ItemRow, RunningProcess}
use lftpweb.Jobs.Table.{fetch_item}
use lftpweb.Jobs.Children.{is_child, flush_row, flush_files, flush_kind, flush_child_progress_final}
use lftpweb.Lftp.Command.{JobKind, mirror, pget}

-- An update by the id leaves the row at its place.
pub fetch_item-update :
    (id : ℕ) (f : ItemRow → ItemRow) (items : List ItemRow) (i : ItemRow)
    → ((x : ItemRow) → (f x).id ≡ x.id)
    → fetch_item id items ≡ some i
    → fetch_item id (update (λ x. x.id == id) f items) ≡ some (f i)
unfolding fetch_item first update
fetch_item-update id f [] i same h = absurd (none_not_some h)
fetch_item-update id f (x ∷ xs) i same h = elim (Bool-cases (x.id == id)) [
  | inl e ↦
      let here : x ≡ i = some_injective (rw e at h) in
      let kept : ((f x).id == id) ≡ true = ap (λ n. n == id) (same x) ∙ e in
      rw e (rw kept (ap (λ y. some (f y)) here))
  | inr e ↦ rw e (rw e (fetch_item-update id f xs i same (rw e at h)))
]

-- An update that leaves the ids finds a row where there was one.
found-update :
    (id : ℕ) (p : ItemRow → Bool) (f : ItemRow → ItemRow) (items : List ItemRow)
    → ((x : ItemRow) → (f x).id ≡ x.id)
    → is_some (fetch_item id items) ≡ true
    → is_some (fetch_item id (update p f items)) ≡ true
unfolding fetch_item first update
found-update id p f [] same h = h
found-update id p f (x ∷ xs) same h = elim (Bool-cases (x.id == id)) [
  | inl e ↦ elim (Bool-cases (p x)) [
    | inl a ↦ rw a (rw (same x) (rw e refl))
    | inr a ↦ rw a (rw e refl)
  ]
  | inr e ↦
      let rest = found-update id p f xs same (rw e at h) in
      elim (Bool-cases (p x)) [ inl a ↦ rw a (rw (same x) (rw e rest)) | inr a ↦ rw a (rw e rest) ]
]

module _ {Fraction : Type 0} (proc : RunningProcess Fraction) (id : ℕ) where
  found_files :
      (files : List (String × ℕ)) (items : List ItemRow)
      → is_some (fetch_item id items) ≡ true
      → is_some (fetch_item id (flush_files proc files items)) ≡ true
  unfolding flush_files
  found_files [] items h = h
  found_files ((rel, size) ∷ files) items h =
      found_files files (update (is_child proc rel) (flush_row size) items)
        (found-update id (is_child proc rel) (flush_row size) items (λ x. refl) h)

  found_kind :
      (kind : JobKind) (files : List (String × ℕ)) (items : List ItemRow)
      → is_some (fetch_item id items) ≡ true
      → is_some (fetch_item id (flush_kind proc kind files items)) ≡ true
  found_kind pget files items h = h
  found_kind mirror files items h = found_files files items h

  pub flush-found :
      (files : List (String × ℕ)) (items : List ItemRow)
      → is_some (fetch_item id items) ≡ true
      → is_some (fetch_item id (flush_child_progress_final proc files items)) ≡ true
  unfolding flush_child_progress_final
  flush-found files items h = found_kind proc.kind files items h
