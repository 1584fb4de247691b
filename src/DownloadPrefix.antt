-- ===== src/DownloadPrefix.antt =====
-- The prefix of a directory that is being downloaded (backend/lftpweb/core/download_prefix.py).
use Prim.Native.Char.{code}
use Prim.Native.String.{◌++◌ as ◌<>◌}
use text.Mathlib.TextLemmas.{cons-append}
use mathlib.Core.Bool.{true≢false}
use lftpweb.Common.{
  String, ◌≡◌, refl, Bool, true, false, ◌||◌, Option, none, some, List, [], ◌∷◌, arith, ◌==◌, ◌=s◌,
  any, if◌then◌else◌, Bool-cases, inl, inr, or_default,
}
use lftpweb.Common.Text.{has_slash}
use lftpweb.Patterns.Compiled.{begins}

-- `RESERVED_NAMES`
abbrev pub reserved_names : List String
reserved_names = "_UNPACK_" ∷ "_FAILED_" ∷ ".lftpweb-mount-ok" ∷ []

unfoldable pub has_backslash : String → Bool
has_backslash String.[] = false
has_backslash (String.◌∷◌ c s) = code c == 92 || has_backslash s

-- Why a prefix is refused.
pub data PrefixError : Type 0 where
  empty separator dots reserved : PrefixError

abbrev pub collides : String → String → Bool
collides prefix name = prefix =s name || begins name prefix || begins prefix name

-- `validate_prefix`
unfoldable pub validate_prefix : String → Bool → Option PrefixError
unfolding has_slash has_backslash any begins
validate_prefix prefix enabled =
    if prefix =s ""
    then (if enabled then some empty else none)
    else if has_slash prefix || has_backslash prefix
    then some separator
    else if prefix =s "." || prefix =s ".."
    then some dots
    else if any (collides prefix) reserved_names
    then some reserved
    else none

pub record DownloadPrefixSettings : Type 0 where
  pub enabled : Bool
  pub prefix : String

-- `resolve_for_queue`: a queue's own setting wins over the site's.
unfoldable pub resolve_for_queue :
    Option Bool → Option String → DownloadPrefixSettings → Bool × String
resolve_for_queue queue_enabled queue_prefix site =
    (or_default site.enabled queue_enabled, or_default site.prefix queue_prefix)

-- `prefixed_name`
unfoldable pub prefixed_name : String → String → String
prefixed_name prefix name = prefix <> name

begins-append :
    (r p name : String) → begins r p ≡ false → begins p r ≡ false → begins r (p <> name) ≡ false
unfolding begins
begins-append String.[] p name h k = absurd (true≢false h)
begins-append (String.◌∷◌ c r) String.[] name h k = absurd (true≢false k)
begins-append (String.◌∷◌ c r) (String.◌∷◌ d p) name h k =
    rw (cons-append d p name) (elim (Bool-cases (code c == code d)) [
      | inl e ↦ let below = begins-append r p name (ground arith) (ground arith) in ground arith
      | inr e ↦ rw e refl
    ])

not_reserved :
    (prefix : String)
    → validate_prefix prefix true ≡ none
    → any (collides prefix) reserved_names ≡ false
unfolding validate_prefix
not_reserved prefix h = ground arith

-- A prefix that is accepted while the setting is on gives no name that begins with one of the names
-- the program reserves for itself, whatever the name of the directory is.
pub prefixed_name-reserved :
    (prefix name : String)
    → validate_prefix prefix true ≡ none
    → any (λ r. begins r (prefixed_name prefix name)) reserved_names ≡ false
unfolding validate_prefix prefixed_name any
prefixed_name-reserved prefix name h =
    let apart = not_reserved prefix h in
    ground (
      arith,
      begins-append "_UNPACK_" prefix name (ground arith) (ground arith),
      begins-append "_FAILED_" prefix name (ground arith) (ground arith),
      begins-append ".lftpweb-mount-ok" prefix name (ground arith) (ground arith),
    )
