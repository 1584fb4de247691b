-- ===== src/Checks/Patterns.antt =====
-- Patterns and prefixes (backend/lftpweb/core/patterns.py, download_prefix.py) at concrete inputs.
use lftpweb.Common.{◌≡◌, refl, true, false, [], ◌∷◌, any}
use lftpweb.Patterns.Glob.{fnmatch}
use lftpweb.Patterns.Compiled.{CompiledPatterns, file_excluded, exclude_globs, begins}
use lftpweb.Patterns.Agreement.{Lowering, exclude_globs-file_excluded}
use lftpweb.DownloadPrefix.{prefixed_name, reserved_names, validate_prefix, prefixed_name-reserved}

-- Texts in lower case are left as they are.
abbrev in_lower_case : Lowering
in_lower_case = record { lower = λ s. s; lower-stars = λ s. refl; lower-is_glob = λ s. refl }

abbrev compiled : CompiledPatterns
compiled = record {
  select = [];
  skip = [];
  file_exclude = "sample" ∷ "*.n?o" ∷ [];
  patterns_only = false;
}

exclude_globs-file_excluded_example :
    any (λ g. fnmatch "a sample.mkv" g) (exclude_globs compiled)
    ≡ file_excluded in_lower_case.lower compiled "a sample.mkv"
exclude_globs-file_excluded_example =
    exclude_globs-file_excluded in_lower_case compiled "a sample.mkv"

glob_excludes : file_excluded in_lower_case.lower compiled "show.nfo" ≡ true
unfolding file_excluded
glob_excludes = refl

class_matches : fnmatch "s02e1" "s0[1-3]e[!a-z]" ≡ true
unfolding fnmatch
class_matches = refl

prefixed_name-reserved_example :
    any (λ r. begins r (prefixed_name ".part-" "_UNPACK_x")) reserved_names ≡ false
unfolding validate_prefix
prefixed_name-reserved_example = prefixed_name-reserved ".part-" "_UNPACK_x" refl
