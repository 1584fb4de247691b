-- ===== src/Engine/Paths.antt =====
-- The paths that the sweep of `_persist` (backend/lftpweb/core/engine.py) visits.
use lftpweb.Common.{String, ◌≡◌, inl, inr, Bool, true, List, [], ◌∷◌, keep, arith, All, Bool-cases}
use lftpweb.Common.TextList.{sort_texts, insert_text}
use lftpweb.Common.Text.{text_leb}
use lftpweb.Engine.Persist.{Pass}
use lftpweb.Engine.Sweep.{vanished_paths}
use lftpweb.Engine.Kept.{Unprotected}

module _ (Q : String → Type 0) where
  All-insert_text : (t : String) (ts : List String) → Q t → All Q ts → All Q (insert_text t ts)
  unfolding insert_text
  All-insert_text t [] q h = (q, tt)
  All-insert_text t (u ∷ us) q h = elim (Bool-cases (text_leb t u)) [
    | inl e ↦ rw e (q, h)
    | inr e ↦ rw e (h.0, All-insert_text t us q h.1)
  ]

  All-sort_texts : (ts : List String) → All Q ts → All Q (sort_texts ts)
  unfolding sort_texts
  All-sort_texts [] h = h
  All-sort_texts (t ∷ ts) h = All-insert_text t (sort_texts ts) h.0 (All-sort_texts ts h.1)

  All-keep :
      (f : String → Bool) (ts : List String) → ((t : String) → f t ≡ true → Q t) → All Q (keep f ts)
  unfolding keep
  All-keep f [] h = tt
  All-keep f (t ∷ ts) h = elim (Bool-cases (f t)) [
    | inl e ↦ rw e (h t e, All-keep f ts h)
    | inr e ↦ rw e (All-keep f ts h)
  ]

pub vanished_paths-Unprotected :
    (pass : Pass) (written : List String) → All (Unprotected pass) (vanished_paths pass written)
unfolding vanished_paths
vanished_paths-Unprotected pass written =
    All-sort_texts (Unprotected pass) _ (All-keep (Unprotected pass) _ _ (λ t h. ground arith))
