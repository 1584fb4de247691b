-- ===== src/Patterns/Compiled.antt =====
-- Compiled patterns and their tests (backend/lftpweb/core/patterns.py).
use Prim.Native.Char.{code}
use Prim.Native.String.{◌++◌ as ◌<>◌}
use lftpweb.Common.{
  ℕ, String, Bool, true, false, ◌&&◌, ◌||◌, not, Option, none, some, List, [], ◌∷◌, map, ◌==◌, any,
  keep, if◌then◌else◌,
}
use lftpweb.Common.Search.{anywhere}
use lftpweb.Common.Text.{has_slash}
use lftpweb.Remote.Entry.{RemoteEntry}
use lftpweb.Patterns.Glob.{fnmatch}

-- `_is_glob`: one of `*`, `?` and `[` occurs.
unfoldable pub is_glob : String → Bool
is_glob String.[] = false
is_glob (String.◌∷◌ c s) = (code c == b'*' || code c == b'?' || code c == b'[') || is_glob s

-- The text begins with `p`.
unfoldable pub begins : String → String → Bool
begins String.[] s = true
begins (String.◌∷◌ c p) String.[] = false
begins (String.◌∷◌ c p) (String.◌∷◌ d s) = code c == code d && begins p s

-- `p in s`
unfoldable pub contains : String → String → Bool
unfolding anywhere begins
contains p s = anywhere (begins p) s

pub data PatternKind : Type 0 where
  select skip file_exclude : PatternKind

abbrev pub is_select : PatternKind → Bool
is_select select = true
is_select _ = false

abbrev pub is_skip : PatternKind → Bool
is_skip skip = true
is_skip _ = false

abbrev pub is_file_exclude : PatternKind → Bool
is_file_exclude file_exclude = true
is_file_exclude _ = false

-- A row of `pattern`; without a queue it holds for every queue.
pub record Pattern : Type 0 where
  pub kind : PatternKind
  pub expr : String
  pub enabled : Bool
  pub queue_id : Option ℕ

pub record CompiledPatterns : Type 0 where
  pub select : List String
  pub skip : List String
  pub file_exclude : List String
  pub patterns_only : Bool

abbrev exprs : (PatternKind → Bool) → List Pattern → List String
exprs wanted patterns = map (λ p. p.expr) (keep (λ p. p.enabled && wanted p.kind) patterns)

-- `CompiledPatterns.compile`
unfoldable pub compile : List Pattern → Bool → CompiledPatterns
unfolding keep
compile patterns patterns_only = record {
  select = exprs is_select patterns;
  skip = exprs is_skip patterns;
  file_exclude = exprs is_file_exclude patterns;
  patterns_only = patterns_only;
}

abbrev applies_to : ℕ → Option ℕ → Bool
applies_to id none = true
applies_to id (some q) = q == id

-- `load_patterns`: the table's rows in the order of their ids.
unfoldable pub load_patterns : ℕ → List Pattern → List Pattern
unfolding keep
load_patterns id table = keep (λ p. p.enabled && applies_to id p.queue_id) table

-- `compiled_for_queue`
unfoldable pub compiled_for_queue : ℕ → Bool → List Pattern → CompiledPatterns
unfolding compile load_patterns
compiled_for_queue id patterns_only table = compile (load_patterns id table) patterns_only

-- `p if _is_glob(p) else f"*{p}*"`
unfoldable pub as_glob : String → String
unfolding is_glob
as_glob p = if is_glob p then p else "*" <> (p <> "*")

-- `exclude_globs`
unfoldable pub exclude_globs : CompiledPatterns → List String
unfolding as_glob
exclude_globs compiled = map as_glob compiled.file_exclude

-- `rel_path.rsplit("/", 1)[-1]`
unfoldable pub basename : String → String
basename String.[] = String.[]
basename (String.◌∷◌ c s) =
    let rest = basename s in
    if has_slash s then rest else if code c == b'/' then s else String.◌∷◌ c s

-- `lower` is `str.lower`.
module _ (lower : String → String) where
  unfoldable pub pattern_matches : String → String → Bool
  unfolding is_glob fnmatch contains
  pattern_matches expr name =
      if is_glob expr then fnmatch (lower name) (lower expr) else contains (lower expr) (lower name)

  -- `CompiledPatterns.file_excluded`
  unfoldable pub file_excluded : CompiledPatterns → String → Bool
  unfolding pattern_matches any
  file_excluded compiled name = any (λ p. pattern_matches p name) compiled.file_exclude

  abbrev is_empty : List String → Bool
  is_empty [] = true
  is_empty (p ∷ ps) = false

  -- `CompiledPatterns.item_matches`
  unfoldable pub item_matches : CompiledPatterns → String → Bool → Bool
  unfolding pattern_matches any file_excluded
  item_matches compiled name is_file =
      if any (λ p. pattern_matches p name) compiled.skip
      then false
      else if is_file && file_excluded compiled name
      then false
      else if is_empty compiled.select
      then not compiled.patterns_only
      else any (λ p. pattern_matches p name) compiled.select

  -- `build_counts_predicate`
  unfoldable pub build_counts_predicate : CompiledPatterns → String → RemoteEntry → Bool
  unfolding file_excluded basename
  build_counts_predicate compiled rel_path entry = not (file_excluded compiled (basename rel_path))
