-- ===== src/ItemView.antt =====
-- The lifecycle facets of a row (backend/lftpweb/core/itemview.py), and what the local one says of a
-- file that a scan has just merged (backend/lftpweb/core/reconcile.py).
use lftpweb.Common.{
  ℕ, zero, suc, String, ◌≡◌, refl, Bool, true, false, ◌&&◌, ◌||◌, not, Option, none, some, arith,
  leb, ltb, ◌==◌, if◌then◌else◌,
}
use lftpweb.Item.{ItemState, item_code, is_complete, is_removed}
use lftpweb.Remote.Entry.{RemoteEntry}
use lftpweb.Reconcile.Node.{Structural, as_item_state}
use lftpweb.Reconcile.Merge.{LocalEntry, file_state}

pub data Level : Type 0 where
  green amber red dim : Level

-- `{"level": ..., "reason": ...}`
pub record Facet : Type 0 where
  pub level : Level
  pub reason : String

abbrev facet : Level → String → Facet
facet level reason = record { level = level; reason = reason }

-- `_remote_facet`
unfoldable pub remote_facet : Option ℕ → Option ℕ → Facet
remote_facet (some size) remote_deleted_at = facet green "present"
remote_facet none (some deleted) = facet dim "deleted_by_us"
remote_facet none none = facet dim "no_remote"

-- The rule for a state that is no statement about the local copy: the sizes decide.
unfoldable pub leaf_facet : Option ℕ → Option ℕ → Facet
leaf_facet none remote_size = facet dim "absent"
leaf_facet (some zero) remote_size = facet dim "absent"
leaf_facet (some (suc n)) none = facet amber "partial"
leaf_facet (some (suc n)) (some size) =
    if leb size (suc n) then facet green "complete" else facet amber "partial"

abbrev asserted_facet : Option ℕ → Facet
asserted_facet none = facet green "complete"
asserted_facet (some since) = facet dim "missing"

-- `_local_facet`
unfoldable pub local_facet : ItemState → Option ℕ → Option ℕ → Option ℕ → Facet
unfolding leaf_facet
local_facet state local_size remote_size first_missing_at =
    if is_complete state
    then asserted_facet first_missing_at
    else if is_removed state
    then facet dim "removed_by_us"
    else if item_code state == item_code ItemState.excluded
    then facet dim "excluded"
    else if item_code state == item_code ItemState.local_only
    then facet green "local_only"
    else leaf_facet local_size remote_size

-- `_verified_facet`
unfoldable pub verified_facet : ItemState → Option ℕ → Facet
verified_facet state (some verified_at) = facet green "verified"
verified_facet state none =
    if item_code state == item_code ItemState.corrupt
    then facet red "corrupt"
    else if item_code state == item_code ItemState.verifying
    then facet amber "in_progress"
    else facet dim "not_verified"

-- `_extracted_facet`
unfoldable pub extracted_facet : ItemState → Option ℕ → Facet
extracted_facet state (some extracted_at) = facet green "extracted"
extracted_facet state none =
    if item_code state == item_code ItemState.extract_failed
    then facet red "failed"
    else if item_code state == item_code ItemState.extracting
    then facet amber "in_progress"
    else facet dim "not_extracted"

-- The columns that the facets are read from.
pub record FacetRow : Type 0 where
  pub state : ItemState
  pub remote_size : Option ℕ
  pub local_size : Option ℕ
  pub first_missing_at : Option ℕ
  pub remote_deleted_at : Option ℕ
  pub verified_at : Option ℕ
  pub extracted_at : Option ℕ

pub record LifecycleFacets : Type 0 where
  pub remote : Facet
  pub here : Facet
  pub verified : Facet
  pub extracted : Facet

-- `_lifecycle_facets`
unfoldable pub lifecycle_facets : FacetRow → LifecycleFacets
unfolding remote_facet local_facet verified_facet extracted_facet
lifecycle_facets row = record {
  remote = remote_facet row.remote_size row.remote_deleted_at;
  here = local_facet row.state row.local_size row.remote_size row.first_missing_at;
  verified = verified_facet row.state row.verified_at;
  extracted = extracted_facet row.state row.extracted_at;
}

abbrev pub is_green : Level → Bool
is_green green = true
is_green _ = false

abbrev pub size_of_remote : Option RemoteEntry → Option ℕ
size_of_remote none = none
size_of_remote (some e) = some e.size

abbrev pub size_of_local : Option LocalEntry → Option ℕ
size_of_local none = none
size_of_local (some e) = some e.size

-- Nothing of a file is missing here: it has no remote counterpart, or one that is counted and no
-- larger than the local copy; an empty file under its temporary name does not count as a copy.
abbrev pub all_here : (RemoteEntry → Bool) → Option RemoteEntry → Option LocalEntry → Bool
all_here counted none here = true
all_here counted (some entry) none = false
all_here counted (some entry) (some here) =
    counted entry && leb entry.size here.size && (not here.is_temp || ltb 0 here.size)

abbrev merged : Bool → Bool → Bool → Structural
merged counted covers temporary =
    if not counted
    then Structural.excluded
    else if covers && not temporary
    then Structural.downloaded
    else Structural.partial

merged_empty :
    (counted covers temporary : Bool) (size : ℕ)
    → is_green
        (local_facet
          (as_item_state (merged counted covers temporary))
          (some zero)
          (some size)
          none).level
      ≡ (counted && covers && (not temporary || ltb 0 zero))
unfolding local_facet
merged_empty true true true size = refl
merged_empty true true false size = refl
merged_empty true false true size = refl
merged_empty true false false size = refl
merged_empty false covers temporary size = refl

positive : (n : ℕ) → ltb 0 (suc n) ≡ true
positive n = ground arith

absent_copy :
    (counted : Bool) (size : ℕ)
    → is_green
        (local_facet
          (as_item_state (if not counted then Structural.excluded else Structural.remote_only))
          none
          (some size)
          none).level
      ≡ false
unfolding local_facet
absent_copy true size = refl
absent_copy false size = refl

merged-some :
    (counted covers temporary : Bool) (size n : ℕ)
    → leb size (suc n) ≡ covers
    → is_green
        (local_facet
          (as_item_state (merged counted covers temporary))
          (some (suc n))
          (some size)
          none).level
      ≡ (counted && covers && (not temporary || ltb 0 (suc n)))
unfolding local_facet
merged-some true true true size n e = rw e (rw (positive n) refl)
merged-some true true false size n e = refl
merged-some true false true size n e = rw e refl
merged-some true false false size n e = rw e refl
merged-some false covers temporary size n e = refl

merged_any :
    (counted temporary : Bool) (size n : ℕ)
    → is_green
        (local_facet
          (as_item_state (merged counted (leb size n) temporary))
          (some n)
          (some size)
          none).level
      ≡ (counted && leb size n && (not temporary || ltb 0 n))
merged_any counted temporary size zero = merged_empty counted (leb size zero) temporary size
merged_any counted temporary size (suc n) =
    merged-some counted (leb size (suc n)) temporary size n refl

merged_facet :
    (predicate : String → RemoteEntry → Bool) (path : String) (entry : Option RemoteEntry)
    (here : Option LocalEntry)
    → is_green
        (local_facet
          (as_item_state (file_state predicate path entry here))
          (size_of_local here)
          (size_of_remote entry)
          none).level
      ≡ all_here (predicate path) entry here
unfolding local_facet file_state
merged_facet predicate path none here = refl
merged_facet predicate path (some entry) none = absent_copy (predicate path entry) entry.size
merged_facet predicate path (some entry) (some here) =
    merged_any (predicate path entry) here.is_temp entry.size here.size

-- Of a row that holds a file with the state that the merge of the two trees gives it, the sizes of
-- its entries and no time since which it is missing, the local facet is green exactly where nothing
-- of the file is missing here: it has no remote counterpart, or one that the patterns count and that
-- is no larger than the local copy. A copy under its temporary name that has reached that size is
-- green as well, unless it is empty, although the state is partial. Rows for which a scan keeps
-- another state (protected, gated or overridden ones) are not meant.
pub local_facet-file_state :
    (predicate : String → RemoteEntry → Bool) (path : String) (entry : Option RemoteEntry)
    (here : Option LocalEntry) (row : FacetRow)
    → row.state ≡ as_item_state (file_state predicate path entry here)
    → row.local_size ≡ size_of_local here
    → row.remote_size ≡ size_of_remote entry
    → row.first_missing_at ≡ none
    → is_green (lifecycle_facets row).here.level ≡ all_here (predicate path) entry here
unfolding lifecycle_facets
local_facet-file_state predicate path entry here row s l r m =
    rw (s, l, r, m) (merged_facet predicate path entry here)
