-- ===== src/Jobs/Children.antt =====
-- The rows below an item at the end of its transfer (backend/lftpweb/core/queue.py,
-- `_flush_child_progress_final`), and what they make of the bytes that are expected.
use Prim.Native.String.{◌++◌ as ◌<>◌}
use lftpweb.Common.{
  ℕ, ◌+◌, String, ◌≡◌, refl, sym, ap, ◌∙◌, Bool, true, false, ◌&&◌, not, Option, none, some, List,
  [], ◌∷◌, any, keep, sum_by, update, inl, inr, arith, ◌==◌, ◌=s◌, leb, if◌then◌else◌, Bool-cases,
}
use lftpweb.Item.{ItemState, downloaded, partial}
use lftpweb.Lftp.Command.{JobKind, mirror, pget}
use lftpweb.Jobs.Rows.{ItemRow, RunningProcess}
use lftpweb.Jobs.Table.{value_or_zero}
use lftpweb.Jobs.Completeness.{
  is_excluded, like_below, total_of, relevant_remote_total, expected_bytes,
}

-- The state of a child whose file has a size: it is kept where no remote size is known.
abbrev pub flushed_state : ℕ → Option ℕ → ItemState → ItemState
flushed_state size none state = state
flushed_state size (some remote_size) state = if leb remote_size size then downloaded else partial

abbrev pub flush_row : ℕ → ItemRow → ItemRow
flush_row size i = record i {
  local_size = some size;
  state = flushed_state size i.remote_size i.state;
}

module _ {Fraction : Type 0} (proc : RunningProcess Fraction) where
  -- The row of a file below the item.
  abbrev pub is_child : String → ItemRow → Bool
  is_child rel i = i.queue_id == proc.queue_id && i.rel_path =s (proc.rel_path <> ("/" <> rel))

  unfoldable pub flush_files : List (String × ℕ) → List ItemRow → List ItemRow
  unfolding update
  flush_files [] items = items
  flush_files ((rel, size) ∷ files) items =
      flush_files files (update (is_child rel) (flush_row size) items)

  abbrev pub flush_kind : JobKind → List (String × ℕ) → List ItemRow → List ItemRow
  flush_kind pget files items = items
  flush_kind mirror files items = flush_files files items

  -- `_flush_child_progress_final`, of the files below `local_root` with their sizes.
  unfoldable pub flush_child_progress_final : List (String × ℕ) → List ItemRow → List ItemRow
  unfolding flush_files
  flush_child_progress_final files items = flush_kind proc.kind files items

  -- What a row below the item counts for, in the tables before: an excluded file counts if it is on
  -- disk all the same.
  abbrev pub weight : List (String × ℕ) → ItemRow → ℕ
  weight files i =
      if is_excluded i.state && not (any (λ f. is_child f.0 i) files)
      then 0
      else value_or_zero i.remote_size

  abbrev weights_of : Option ℕ → List (String × ℕ) → List ItemRow → ℕ
  weights_of bytes_total files [] = value_or_zero bytes_total
  weights_of bytes_total files (i ∷ is) = sum_by (weight files) (i ∷ is)

  abbrev below_item : ItemRow → Bool
  below_item i = i.queue_id == proc.queue_id && not i.is_dir && like_below proc.rel_path i.rel_path

  -- The bytes that a transfer is to have brought, from the files on disk and the tables before it is
  -- reaped: those of the file itself, or of all files below it.
  abbrev weights_for : JobKind → List (String × ℕ) → List ItemRow → ℕ
  weights_for pget files items = value_or_zero proc.bytes_total
  weights_for mirror files items = weights_of proc.bytes_total files (keep below_item items)

  unfoldable pub bytes_to_have : List (String × ℕ) → List ItemRow → ℕ
  unfolding keep sum_by any like_below
  bytes_to_have files items = weights_for proc.kind files items

  total_weights :
      (xs : List ItemRow)
      → sum_by (λ j. value_or_zero j.remote_size) (keep (λ j. not (is_excluded j.state)) xs)
        ≡ sum_by (weight []) xs
  unfolding keep sum_by any
  total_weights [] = refl
  total_weights (x ∷ xs) = elim (Bool-cases (is_excluded x.state)) [
    | inl e ↦ rw e (omega (arith, total_weights xs))
    | inr e ↦ rw e (ap (λ n. value_or_zero x.remote_size + n) (total_weights xs))
  ]

  same_either : (b : Bool) (n : ℕ) → (if b then n else n) ≡ n
  same_either true n = refl
  same_either false n = refl

  counted : (b : Bool) (n : ℕ) → (if b && false then 0 else n) ≡ n
  counted true n = refl
  counted false n = refl

  not_excluded : (b : Bool) → is_excluded (if b then downloaded else partial) ≡ false
  not_excluded true = refl
  not_excluded false = refl

  flushed_weight :
      (listed : Bool) (size : ℕ) (remote : Option ℕ) (state : ItemState)
      → (if is_excluded (flushed_state size remote state) && not listed
          then 0
          else value_or_zero remote)
        ≡ (if is_excluded state && false then 0 else value_or_zero remote)
  flushed_weight listed size none state =
      same_either (is_excluded state && not listed) 0
      ∙ sym (same_either (is_excluded state && false) 0)
  flushed_weight listed size (some remote) state =
      rw (not_excluded (leb remote size)) (sym (counted (is_excluded state) remote))

  flush_weights :
      (rel : String) (size : ℕ) (files : List (String × ℕ)) (xs : List ItemRow)
      → sum_by (weight files) (update (is_child rel) (flush_row size) xs)
        ≡ sum_by (weight ((rel, size) ∷ files)) xs
  unfolding sum_by update any
  flush_weights rel size files [] = refl
  flush_weights rel size files (x ∷ xs) = elim (Bool-cases (is_child rel x)) [
    | inl e ↦ rw e (
        ap (λ n. n + sum_by (weight files) (update (is_child rel) (flush_row size) xs))
          (flushed_weight (any (λ f. is_child f.0 x) files) size x.remote_size x.state)
        ∙ ap (λ n. (if is_excluded x.state && false then 0 else value_or_zero x.remote_size) + n)
            (flush_weights rel size files xs))
    | inr e ↦ rw e (ap (λ n. weight files x + n) (flush_weights rel size files xs))
  ]

  keep-flush :
      (rel : String) (size : ℕ) (xs : List ItemRow)
      → keep below_item (update (is_child rel) (flush_row size) xs)
        ≡ update (is_child rel) (flush_row size) (keep below_item xs)
  unfolding keep update
  keep-flush rel size [] = refl
  keep-flush rel size (x ∷ xs) = elim (Bool-cases (is_child rel x)) [
    | inl e ↦ rw e (elim (Bool-cases (below_item x)) [
      | inl b ↦ rw b (rw e (ap (λ ys. flush_row size x ∷ ys) (keep-flush rel size xs)))
      | inr b ↦ rw b (keep-flush rel size xs)
    ])
    | inr e ↦ rw e (elim (Bool-cases (below_item x)) [
      | inl b ↦ rw b (rw e (ap (λ ys. x ∷ ys) (keep-flush rel size xs)))
      | inr b ↦ rw b (keep-flush rel size xs)
    ])
  ]

  weights_of_total :
      (xs : List ItemRow) → total_of proc.bytes_total xs ≡ weights_of proc.bytes_total [] xs
  weights_of_total [] = refl
  weights_of_total (x ∷ xs) = total_weights (x ∷ xs)

  weights_of_flush :
      (rel : String) (size : ℕ) (files : List (String × ℕ)) (xs : List ItemRow)
      → weights_of proc.bytes_total files (update (is_child rel) (flush_row size) xs)
        ≡ weights_of proc.bytes_total ((rel, size) ∷ files) xs
  unfolding update
  weights_of_flush rel size files [] = refl
  weights_of_flush rel size files (x ∷ xs) = flush_weights rel size files (x ∷ xs)

  total-flush_files :
      (files : List (String × ℕ)) (items : List ItemRow)
      → total_of proc.bytes_total (keep below_item (flush_files files items))
        ≡ weights_of proc.bytes_total files (keep below_item items)
  unfolding flush_files
  total-flush_files [] items = weights_of_total (keep below_item items)
  total-flush_files ((rel, size) ∷ files) items =
      total-flush_files files (update (is_child rel) (flush_row size) items)
      ∙ ap (weights_of proc.bytes_total files) (keep-flush rel size items)
      ∙ weights_of_flush rel size files (keep below_item items)

  flush_kind-bytes :
      (kind : JobKind) (files : List (String × ℕ)) (items : List ItemRow)
      → expected_bytes kind proc (flush_kind kind files items) ≡ weights_for kind files items
  unfolding relevant_remote_total
  flush_kind-bytes pget files items = refl
  flush_kind-bytes mirror files items = total-flush_files files items

  -- What the flushed rows say is expected, read off the rows before.
  pub expected_bytes-flush :
      (files : List (String × ℕ)) (items : List ItemRow)
      → expected_bytes proc.kind proc (flush_child_progress_final files items)
        ≡ bytes_to_have files items
  unfolding flush_child_progress_final bytes_to_have
  expected_bytes-flush files items = flush_kind-bytes proc.kind files items
