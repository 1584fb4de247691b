-- ===== src/Checks/Lftp.antt =====
-- The lftp child process (backend/lftpweb/core/lftp.py) at concrete inputs.
use Prim.Native.String.{◌++◌ as ◌<>◌}
use lftpweb.Common.{ℕ, ◌≡◌, refl, String, Bool, false, none, some, List, [], ◌∷◌}
use lftpweb.Common.Dict.{Dict, lookup}
use lftpweb.Lftp.Output.{
  capture, concat, last_of, capture-last_of, classify_output, local_fs_error, remote_gone,
}
use lftpweb.Lftp.Quote.{lftp_quote, word_of, plain, word_of-lftp_quote}
use lftpweb.Lftp.Command.{HostCreds, JobSpec, key, mirror, strict, build_transfer_command}
use lftpweb.Lftp.Spawn.{Writing, written, spawn}
use lftpweb.Lftp.Cleanup.{spawn-raised}

abbrev chunks : List (List ℕ)
chunks = (1 ∷ 2 ∷ []) ∷ (3 ∷ 4 ∷ []) ∷ []

capture-last_of_example : capture 3 [] chunks ≡ last_of 3 (concat chunks)
capture-last_of_example = capture-last_of 3 chunks

word_of-lftp_quote_example :
    word_of plain (lftp_quote "it's; rm" <> " next") ≡ some ("it's; rm", " next")
word_of-lftp_quote_example = word_of-lftp_quote "it's; rm" " next" refl

-- A failed rename is a local error, not a missing remote file.
rename_is_local : classify_output "mv: rename(a.lftp): No such file or directory" ≡ local_fs_error
unfolding classify_output
rename_is_local = refl

missing_is_remote : classify_output "Access failed: No such file" ≡ remote_gone
unfolding classify_output
missing_is_remote = refl

abbrev creds : HostCreds
creds = record {
  address = "seedbox";
  port = 22;
  username = "me";
  auth_method = key;
  key_path = none;
  password = none;
  known_hosts_policy = strict;
  pinned_host_key = some "ssh-ed25519 AAAA";
  ssh_key = some "secret";
}

abbrev spec : JobSpec
spec = record {
  job_id = 7;
  kind = mirror;
  creds = creds;
  remote_path = "/seed/show";
  local_path = "/tv";
  rate_limit_bps = some 500;
  connection_limit = none;
  parallel = 2;
  pget_n = 1;
  exclude_globs = "*.nfo" ∷ [];
  extra_settings = "";
  save_status_interval_s = 1;
  run_dir = "/run";
  mirror_rename_target = false;
}

abbrev disk : String → Writing
disk path = written

abbrev ends_in_break : String → Bool
ends_in_break text = false

abbrev files : Dict String
files = ("/run/job-3.rc", "other") ∷ []

spawn-raised_example :
    lookup "/run/job-7.key" (spawn disk false ends_in_break spec files).1
    ≡ lookup "/run/job-7.key" files
unfolding spawn lookup
spawn-raised_example =
    spawn-raised disk false ends_in_break spec files "/run/job-7.key" refl refl refl refl refl refl

mirror_command :
    build_transfer_command spec
    ≡ "mirror -c --parallel=2 --use-pget-n=1 --exclude-glob '*.nfo' '/seed/show' '/tv/'"
unfolding build_transfer_command
mirror_command = refl
