-- ===== src/Lftp/Spawn.antt =====
-- `spawn` (backend/lftpweb/core/lftp.py): the files that it writes for one job and removes again when
-- it raises. The directory is a dictionary from paths to texts.
use Prim.Native.String.{◌++◌ as ◌<>◌}
use lftpweb.Common.{String, Bool, true, false, Option, none, some, ◌==◌, if◌then◌else◌}
use lftpweb.Common.Decimal.{decimal}
use lftpweb.Common.Dict.{Dict, insert, without}
use lftpweb.Lftp.Quote.{lftp_quote}
use lftpweb.Lftp.Command.{
  HostCreds, JobSpec, AuthMethod, key, agent, password, Built, value_error, no_host_key_pin, built,
  truthy, build_rc_text, build_transfer_command,
}

-- How the writing of a file goes: `os.open` raises, the writing itself raises, the `chmod` of the
-- written file raises, or all is well.
pub data Writing : Type 0 where
  not_opened broken not_protected written : Writing

-- `_write_secret_file`: whether it returns, and the directory after it. A file whose `chmod` raises
-- stays.
unfoldable pub write_secret_file : Writing → String → String → Dict String → Bool × Dict String
write_secret_file not_opened path text files = (false, files)
write_secret_file broken path text files = (false, without path (insert path text files))
write_secret_file not_protected path text files = (false, insert path text files)
write_secret_file written path text files = (true, insert path text files)

-- `path.unlink(missing_ok=True)` where the path is set; it is taken to remove the file.
abbrev pub unlink : Option String → Dict String → Dict String
unlink none files = files
unlink (some path) files = without path files

abbrev pub job_file : JobSpec → String → String
job_file spec suffix = spec.run_dir <> ("/job-" <> (decimal spec.job_id <> suffix))

abbrev host_field : HostCreds → String
host_field creds =
    if creds.port == 22
    then creds.address
    else "[" <> (creds.address <> ("]:" <> decimal creds.port))

-- `_known_hosts_line`
abbrev line_of : HostCreds → Option String → Option String
line_of creds none = none
line_of creds (some pinned) = some (host_field creds <> (" " <> (pinned <> "\n")))

unfoldable pub known_hosts_line : HostCreds → Option String
unfolding decimal
known_hosts_line creds = line_of creds (truthy creds.pinned_host_key)

-- What the call comes to: it raises, or lftp runs with this script and these files.
pub record Spawned : Type 0 where
  pub script : String
  pub rc_path : String
  pub known_hosts_path : Option String
  pub ssh_key_path : Option String

pub data Outcome : Type 0 where
  raised : Outcome
  spawned : Spawned → Outcome

-- The texts of a pasted key's file end in a line break.
abbrev pub key_text : (String → Bool) → String → String
key_text ends_in_break text = if ends_in_break text then text else text <> "\n"

abbrev pub pasted_key : AuthMethod → Option String → Option String
pasted_key key ssh_key = truthy ssh_key
pasted_key agent ssh_key = none
pasted_key password ssh_key = none

-- How the writings go, whether the program starts, and the test of `str.endswith("\n")`.
module _ (disk : String → Writing) (starts : Bool) (ends_in_break : String → Bool) where
  -- The command is run; if that raises, all three files are removed.
  unfoldable pub exec :
      JobSpec → Option String → Option String → Dict String → Outcome × Dict String
  unfolding decimal lftp_quote build_transfer_command
  exec spec known_hosts ssh_key files =
      let rc_path = job_file spec ".rc" in
      if starts
      then (
        spawned (record {
          script =
              "source "
              <> (lftp_quote rc_path
                  <> ("; set cmd:fail-exit true; " <> build_transfer_command spec));
          rc_path = rc_path;
          known_hosts_path = known_hosts;
          ssh_key_path = ssh_key;
        }),
        files,
      )
      else (raised, unlink ssh_key (unlink known_hosts (unlink (some rc_path) files)))

  -- The settings file is written, or the `except` of the block runs.
  abbrev pub after_rc :
      JobSpec → Option String → Option String → Bool × Dict String → Outcome × Dict String
  after_rc spec known_hosts ssh_key (true, files) = exec spec known_hosts ssh_key files
  after_rc spec known_hosts ssh_key (false, files) =
      (raised, unlink known_hosts (unlink ssh_key files))

  unfoldable pub write_rc :
      JobSpec → Option String → Option String → Built String → Dict String → Outcome × Dict String
  unfolding exec write_secret_file decimal
  write_rc spec known_hosts ssh_key value_error files =
      (raised, unlink known_hosts (unlink ssh_key files))
  write_rc spec known_hosts ssh_key no_host_key_pin files =
      (raised, unlink known_hosts (unlink ssh_key files))
  write_rc spec known_hosts ssh_key (built text) files =
      after_rc spec known_hosts ssh_key
        (write_secret_file (disk (job_file spec ".rc")) (job_file spec ".rc") text files)

  abbrev pub after_key :
      JobSpec → Option String → String → Bool × Dict String → Outcome × Dict String
  after_key spec known_hosts path (true, files) =
      write_rc spec known_hosts (some path)
        (build_rc_text (record (spec.creds) { key_path = some path }) known_hosts spec) files
  after_key spec known_hosts path (false, files) =
      (raised, unlink known_hosts (unlink (some path) files))

  -- A pasted key gets a file of its own, which wins over `key_path`.
  unfoldable pub write_key :
      JobSpec → Option String → Option String → Dict String → Outcome × Dict String
  unfolding write_rc write_secret_file build_rc_text decimal
  write_key spec known_hosts none files =
      write_rc spec known_hosts none (build_rc_text spec.creds known_hosts spec) files
  write_key spec known_hosts (some text) files =
      let path = job_file spec ".key" in
      after_key spec known_hosts path
        (write_secret_file (disk path) path (key_text ends_in_break text) files)

  -- The writing of the pinned key stands before the `try`.
  abbrev pub after_pin : JobSpec → String → Bool × Dict String → Outcome × Dict String
  after_pin spec path (true, files) =
      write_key spec (some path) (pasted_key spec.creds.auth_method spec.creds.ssh_key) files
  after_pin spec path (false, files) = (raised, files)

  abbrev pub write_pin : JobSpec → Option String → Dict String → Outcome × Dict String
  write_pin spec none files =
      write_key spec none (pasted_key spec.creds.auth_method spec.creds.ssh_key) files
  write_pin spec (some line) files =
      let path = job_file spec ".known_hosts" in
      after_pin spec path (write_secret_file (disk path) path line files)

  unfoldable pub spawn : JobSpec → Dict String → Outcome × Dict String
  unfolding write_key write_secret_file known_hosts_line decimal
  spawn spec files = write_pin spec (known_hosts_line spec.creds) files
