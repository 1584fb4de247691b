-- ===== src/Lftp/Command.antt =====
-- The settings file and the command line of one lftp process (backend/lftpweb/core/lftp.py). The
-- texts `why` of the settings table are shown in the interface alone and are left out, and
-- `pinned_host_key` and `key_path` count as absent when empty, as the source tests them.
use Prim.Native.Char.{code}
use Prim.Native.String.{◌++◌ as ◌<>◌}
use lftpweb.Common.{
  ℕ, String, Bool, true, false, ◌||◌, Option, none, some, List, [], ◌∷◌, ◌++◌, map, ◌==◌, ltb, ◌=s◌,
  if◌then◌else◌,
}
use lftpweb.Common.Search.{strip}
use lftpweb.Common.Decimal.{decimal}
use lftpweb.Common.TextList.{join}
use lftpweb.Lftp.Quote.{lftp_quote}

pub data AuthMethod : Type 0 where
  key agent password : AuthMethod

pub data HostPolicy : Type 0 where
  accept_and_pin strict insecure : HostPolicy

pub data JobKind : Type 0 where
  mirror pget : JobKind

pub record HostCreds : Type 0 where
  pub address : String
  pub port : ℕ
  pub username : String
  pub auth_method : AuthMethod
  pub key_path : Option String
  pub password : Option String
  pub known_hosts_policy : HostPolicy
  pub pinned_host_key : Option String
  pub ssh_key : Option String

-- `ValueError` for a missing key path or password, `NoHostKeyPinError`, or the result.
pub data Built {ℓ} (A : Type ℓ) : Type ℓ where
  value_error no_host_key_pin : Built A
  built : A → Built A

infixl 20 ◌>>=◌
abbrev pub ◌>>=◌ {ℓ κ} : {A : Type ℓ} {B : Type κ} → Built A → (A → Built B) → Built B
value_error >>= f = value_error
no_host_key_pin >>= f = no_host_key_pin
built a >>= f = f a

-- `x` where it is set and is not the empty text.
abbrev pub truthy : Option String → Option String
truthy none = none
truthy (some s) = if s =s "" then none else some s

abbrev identity_parts : AuthMethod → Option String → Built (List String)
identity_parts key none = value_error
identity_parts key (some path) = built ("-i" ∷ path ∷ [])
identity_parts agent path = built []
identity_parts password path = built []

abbrev checking_parts : HostPolicy → Option String → Built (List String)
checking_parts insecure path =
    built ("-o" ∷ "StrictHostKeyChecking=no" ∷ "-o" ∷ "UserKnownHostsFile=/dev/null" ∷ [])
checking_parts accept_and_pin none = no_host_key_pin
checking_parts accept_and_pin (some path) =
    built ("-o" ∷ "StrictHostKeyChecking=yes" ∷ "-o" ∷ ("UserKnownHostsFile=" <> path) ∷ [])
checking_parts strict none = no_host_key_pin
checking_parts strict (some path) =
    built ("-o" ∷ "StrictHostKeyChecking=yes" ∷ "-o" ∷ ("UserKnownHostsFile=" <> path) ∷ [])

-- `_connect_program`
unfoldable pub connect_program : HostCreds → Option String → Built String
unfolding join
connect_program creds known_hosts_path = do
  identity ← identity_parts creds.auth_method (truthy creds.key_path)
  checking ← checking_parts creds.known_hosts_policy known_hosts_path
  built (join " " (("ssh" ∷ "-a" ∷ "-x" ∷ []) ++ (identity ++ checking)))

-- What one job asks of lftp.
pub record JobSpec : Type 0 where
  pub job_id : ℕ
  pub kind : JobKind
  pub creds : HostCreds
  pub remote_path : String
  pub local_path : String
  pub rate_limit_bps : Option ℕ
  pub connection_limit : Option ℕ
  pub parallel : ℕ
  pub pget_n : ℕ
  pub exclude_globs : List String
  pub extra_settings : String
  pub save_status_interval_s : ℕ
  pub run_dir : String
  pub mirror_rename_target : Bool

-- `TuningSetting`: a key, its value, and whether it comes from the settings page.
pub record TuningSetting : Type 0 where
  pub key : String
  pub value : String
  pub configurable : Bool

abbrev fixed : String → String → TuningSetting
fixed k v = record { key = k; value = v; configurable = false }

abbrev limit_setting : String → Option ℕ → List TuningSetting
limit_setting k none = []
limit_setting k (some n) = record { key = k; value = decimal n; configurable = true } ∷ []

abbrev above_one : ℕ → List String → List TuningSetting
above_one n ks =
    if ltb 1 n then map (λ k. record { key = k; value = decimal n; configurable = true }) ks else []

-- `effective_tuning_settings`, with the defaults of its last parameters.
unfoldable pub effective_tuning_settings : JobSpec → List TuningSetting
unfolding decimal
effective_tuning_settings spec =
    (fixed "pget:save-status" (decimal spec.save_status_interval_s <> "s")
      ∷ fixed "pget:min-chunk-size" "1048576"
      ∷ fixed "net:max-retries" "3"
      ∷ fixed "net:timeout" "30s"
      ∷ fixed "net:reconnect-interval-base" "5"
      ∷ fixed "net:reconnect-interval-multiplier" "1.5"
      ∷ fixed "xfer:use-temp-file" "yes"
      ∷ fixed "xfer:temp-file-name" "\"*.lftp\""
      ∷ fixed "mirror:parallel-directories" "yes"
      ∷ [])
    ++ (limit_setting "net:limit-total-rate" spec.rate_limit_bps
        ++ (limit_setting "net:connection-limit" spec.connection_limit
            ++ (above_one spec.parallel ("mirror:parallel-transfer-count" ∷ [])
                ++ above_one spec.pget_n ("mirror:use-pget-n" ∷ "pget:default-n" ∷ []))))

abbrev set_line : TuningSetting → String
set_line s = "set " <> (s.key <> (" " <> (s.value <> ";")))

abbrev extra_lines : String → List String
extra_lines text = if text =s "" then [] else text ∷ []

abbrev open_password : AuthMethod → Option String → Built String
open_password password none = value_error
open_password password (some secret) = built secret
open_password key secret = built ""
open_password agent secret = built ""

abbrev open_line : HostCreds → String → String
open_line creds secret =
    "open -u "
    <> (lftp_quote creds.username
        <> (","
            <> (lftp_quote secret
                <> (" sftp://" <> (creds.address <> (":" <> (decimal creds.port <> ";")))))))

-- `build_rc_text`
unfoldable pub build_rc_text : HostCreds → Option String → JobSpec → Built String
unfolding connect_program effective_tuning_settings strip join lftp_quote decimal
build_rc_text creds known_hosts_path spec = do
  program ← connect_program creds known_hosts_path
  secret ← open_password creds.auth_method creds.password
  built (
      join "\n" (
        ("# lftpweb per-job settings + credentials — mode 0600, /run tmpfs, unlinked on exit."
          ∷ ("set sftp:connect-program \"" <> (program <> "\";"))
          ∷ map set_line (effective_tuning_settings spec))
        ++ (extra_lines (strip spec.extra_settings) ++ (open_line creds secret ∷ [])))
      <> "\n")

abbrev ends_with_slash : String → Bool
ends_with_slash String.[] = false
ends_with_slash (String.◌∷◌ c s) =
    let later = ends_with_slash s in if s =s "" then code c == b'/' else later

-- The directory that mirror is given: its target, or the parent of its target.
abbrev mirror_dir : JobSpec → String
mirror_dir spec =
    if spec.mirror_rename_target || ends_with_slash spec.local_path
    then spec.local_path
    else spec.local_path <> "/"

abbrev exclude_part : String → String
exclude_part glob = "--exclude-glob " <> lftp_quote glob

abbrev command_of : JobKind → JobSpec → String
command_of pget spec =
    "pget -c -n "
    <> (decimal spec.pget_n
        <> (" " <> (lftp_quote spec.remote_path <> (" -o " <> lftp_quote spec.local_path))))
command_of mirror spec = join " " (
    ("mirror"
      ∷ "-c"
      ∷ ("--parallel=" <> decimal spec.parallel)
      ∷ ("--use-pget-n=" <> decimal spec.pget_n)
      ∷ map exclude_part spec.exclude_globs)
    ++ (lftp_quote spec.remote_path ∷ lftp_quote (mirror_dir spec) ∷ []))

-- `build_transfer_command`
unfoldable pub build_transfer_command : JobSpec → String
unfolding join lftp_quote decimal
build_transfer_command spec = command_of spec.kind spec
