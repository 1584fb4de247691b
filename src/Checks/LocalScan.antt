-- ===== src/Checks/LocalScan.antt =====
-- The local scan (backend/lftpweb/core/local_scan.py) at concrete inputs.
use lftpweb.Common.{ℕ, ◌≡◌, refl, Bool, true, false, some, List, [], ◌∷◌, sum_by}
use lftpweb.Common.Dict.{lookup}
use lftpweb.Reconcile.Merge.{LocalEntry}
use lftpweb.LocalScan.{add_files, effective_size}
use lftpweb.LocalScan.Best.{kind_of, largest, preferred, add_files-preferred}

abbrev file : ℕ → Bool → LocalEntry
file size temp = record { rel_path = "a"; is_dir = false; size = size; mtime = 7; is_temp = temp }

abbrev files : List LocalEntry
files = file 90 true ∷ file 10 false ∷ file 40 true ∷ []

add_files-preferred_example :
    kind_of (lookup "a" (add_files [] files))
    ≡ preferred (largest false "a" files) (largest true "a" files)
add_files-preferred_example = add_files-preferred files "a"

real_name_wins : preferred (largest false "a" files) (largest true "a" files) ≡ some (false, 10)
unfolding largest
real_name_wins = refl

two_chunks : effective_size (record { size = 100; chunks = (10, 50) ∷ (60, 100) ∷ [] }) ≡ 20
unfolding effective_size sum_by
two_chunks = refl
