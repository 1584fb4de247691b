-- ===== src/LocalScan/Best.antt =====
-- Which name of a file the local scan (backend/lftpweb/core/local_scan.py) keeps: the same one
-- whatever the order in which the directory is listed.
use text.Mathlib.TextEquality.{eq_iff}
use lftpweb.Common.{
  ℕ, String, ◌≡◌, refl, ◌∙◌, ap, Bool, true, false, ◌&&◌, Option, none, some, List, [], ◌∷◌, inl,
  inr, arith, max, ◌=s◌, if◌then◌else◌, Bool-cases,
}
use lftpweb.Common.Dict.{Dict, lookup, lookup-insert}
use lftpweb.Reconcile.Merge.{LocalEntry}
use lftpweb.LocalScan.{same_flag, keeps_existing, add_local_file, add_files}

-- Whether a file has a temporary name, and its size.
abbrev pub Kind : Type 0
Kind = Bool × ℕ

abbrev pub kind_of : Option LocalEntry → Option Kind
kind_of none = none
kind_of (some e) = some (e.is_temp, e.size)

abbrev pub larger : Option ℕ → Option ℕ → Option ℕ
larger none b = b
larger (some a) none = some a
larger (some a) (some b) = some (max a b)

-- The largest size that a path has among the files whose names are temporary, or are not.
unfoldable pub largest : Bool → String → List LocalEntry → Option ℕ
largest temp path [] = none
largest temp path (file ∷ files) =
    larger (if file.rel_path =s path && same_flag temp file.is_temp then some file.size else none)
      (largest temp path files)

-- The largest file under its real name, or else the largest one under a temporary name.
abbrev pub preferred : Option ℕ → Option ℕ → Option Kind
preferred (some n) temp = some (false, n)
preferred none (some n) = some (true, n)
preferred none none = none

abbrev real_size : Option LocalEntry → Option ℕ
real_size none = none
real_size (some e) = if e.is_temp then none else some e.size

abbrev temp_size : Option LocalEntry → Option ℕ
temp_size none = none
temp_size (some e) = if e.is_temp then some e.size else none

add_one :
    (found : Option LocalEntry) (file : LocalEntry) (r t : Option ℕ)
    → let kept = (if keeps_existing found file then found else some file) in
      preferred (larger (real_size kept) r) (larger (temp_size kept) t)
      ≡ preferred
          (larger (real_size found) (larger (real_size (some file)) r))
          (larger (temp_size found) (larger (temp_size (some file)) t))
add_one found file r t = ground arith

lookup-add_local_file :
    (entries : Dict LocalEntry) (file : LocalEntry) (path : String)
    → lookup path (add_local_file entries file) ≡ (
        if file.rel_path =s path
        then (if keeps_existing (lookup path entries) file then lookup path entries else some file)
        else lookup path entries)
unfolding add_local_file
lookup-add_local_file entries file path = elim (Bool-cases (file.rel_path =s path)) [
  | inl e ↦
      let q : lookup file.rel_path entries ≡ lookup path entries =
        ap (λ x. lookup x entries) ((eq_iff file.rel_path path).0 e) in
      elim (Bool-cases (keeps_existing (lookup path entries) file)) [
        | inl k ↦ simp (q, k, e) refl
        | inr k ↦ simp (q, k, e, lookup-insert) refl
      ]
  | inr e ↦ elim (Bool-cases (keeps_existing (lookup file.rel_path entries) file)) [
    | inl k ↦ simp (k, e) refl
    | inr k ↦ simp (k, e, lookup-insert) refl
  ]
]

kind_of_lem :
    (o : Option LocalEntry)
    → kind_of o ≡ preferred (larger (real_size o) none) (larger (temp_size o) none)
kind_of_lem none = refl
kind_of_lem (some e) = ground arith

real_size_lem :
    (file : LocalEntry)
    → (if same_flag false file.is_temp then some file.size else none) ≡ real_size (some file)
real_size_lem file = ground arith

temp_size_lem :
    (file : LocalEntry)
    → (if same_flag true file.is_temp then some file.size else none) ≡ temp_size (some file)
temp_size_lem file = ground arith

kept_from :
    (files : List LocalEntry) (entries : Dict LocalEntry) (path : String)
    → kind_of (lookup path (add_files entries files))
      ≡ preferred
          (larger (real_size (lookup path entries)) (largest false path files))
          (larger (temp_size (lookup path entries)) (largest true path files))
unfolding add_files largest
kept_from [] entries path = kind_of_lem (lookup path entries)
kept_from (file ∷ files) entries path =
    kept_from files (add_local_file entries file) path ∙ elim (Bool-cases (file.rel_path =s path)) [
      | inl e ↦
          simp (lookup-add_local_file entries file path, e, real_size_lem file, temp_size_lem file)
            (add_one (lookup path entries) file (largest false path files)
              (largest true path files))
      | inr e ↦ simp (lookup-add_local_file entries file path, e) refl
    ]

-- After a walk over any files in any order, a path has the largest file under its real name, or, if
-- there is none, the largest one under a temporary name.
pub add_files-preferred :
    (files : List LocalEntry) (path : String)
    → kind_of (lookup path (add_files [] files))
      ≡ preferred (largest false path files) (largest true path files)
unfolding lookup
add_files-preferred files path = kept_from files [] path
