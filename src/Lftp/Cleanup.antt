-- ===== src/Lftp/Cleanup.antt =====
-- What `spawn` (backend/lftpweb/core/lftp.py) leaves in its directory when it raises.
use lftpweb.Common.{
  String, ◌≢◌, inl, inr, Bool-cases, ◌≡◌, refl, sym, subst, Bool, true, false, ◌&&◌, ◌||◌, Option,
  none, some, arith, ◌=s◌, eq_iff, if◌then◌else◌,
}
use lftpweb.Common.Dict.{Dict, lookup, insert, without, lookup-insert, lookup-without}
use lftpweb.Lftp.Command.{JobSpec, Built, value_error, no_host_key_pin, built}
use lftpweb.Lftp.Spawn.{
  Writing, not_opened, broken, not_protected, written, write_secret_file, unlink, job_file, Outcome,
  raised, spawned, Spawned, exec, write_rc, write_key, write_pin, after_rc, after_key, after_pin,
  spawn, known_hosts_line, key_text,
}

abbrev is_not_protected : Writing → Bool
is_not_protected not_protected = true
is_not_protected _ = false

abbrev hits : Option String → String → Bool
hits none p = false
hits (some path) p = path =s p

lookup-unlink :
    (o : Option String) (p : String) (d : Dict String)
    → lookup p (unlink o d) ≡ (if hits o p then none else lookup p d)
lookup-unlink none p d = refl
lookup-unlink (some path) p d = lookup-without path p d

-- The file is one that `spawn` does not remove when its `chmod` has raised.
abbrev pub stays : (String → Writing) → JobSpec → String → String → Bool
stays disk spec suffix p =
    is_not_protected (disk (job_file spec suffix)) && job_file spec suffix =s p

spawned_raised : {s : Spawned} → spawned s ≢ raised
spawned_raised e = cc

module _ (disk : String → Writing) (starts : Bool) (ends_in_break : String → Bool) (spec : JobSpec)
    (files : Dict String) (p : String) where
  -- A file that stays is another one.
  elsewhere :
      (suffix : String)
      → stays disk spec suffix p ≡ false
      → not_protected ≡ disk (job_file spec suffix)
      → (job_file spec suffix =s p) ≡ false
  elsewhere suffix h w =
      subst (λ x. (is_not_protected x && job_file spec suffix =s p) ≡ false) (sym w) h

  undone_left :
      (kh key : Option String) (now : Dict String) (path text : String)
      → (path =s p) ≡ false
      → (if hits kh p || hits key p then none else lookup p now) ≡ lookup p files
      → lookup p (unlink kh (unlink key (insert path text now))) ≡ lookup p files
  undone_left kh key now path text other same =
      let d1 = insert path text now in
      ground (
        arith,
        lookup-unlink kh p (unlink key d1),
        lookup-unlink key p d1,
        lookup-insert path p text now,
      )

  -- Without the two files, the directory is at `p` as it was.
  abbrev Same : Option String → Option String → Dict String → Type 0
  Same kh key now = (if hits kh p || hits key p then none else lookup p now) ≡ lookup p files

  abbrev Back : Outcome × Dict String → Type 0
  Back result = result.0 ≡ raised → lookup p result.1 ≡ lookup p files

  exec-Back :
      (kh key : Option String) (now : Dict String) (text : String)
      → lookup (job_file spec ".rc") files ≡ none
      → Same kh key now
      → Back (exec disk starts ends_in_break spec kh key (insert (job_file spec ".rc") text now))
  unfolding exec
  exec-Back kh key now text fresh same = elim (Bool-cases starts) [
    | inl t ↦ rw t (λ e. absurd (spawned_raised e))
    | inr t ↦ rw t (λ e.
        let rc = job_file spec ".rc" in
        let d1 = insert rc text now in
        ground (
          arith,
          eq_iff rc p,
          lookup-unlink key p (unlink kh (without rc d1)),
          lookup-unlink kh p (without rc d1),
          lookup-without rc p d1,
          lookup-insert rc p text now,
        ))
  ]

  undone :
      (kh key : Option String) (now : Dict String)
      → Same kh key now
      → Back (raised, unlink kh (unlink key now))
  undone kh key now same e =
      ground (arith, lookup-unlink kh p (unlink key now), lookup-unlink key p now)

  undone_broken :
      (kh key : Option String) (now : Dict String) (rc text : String)
      → lookup rc files ≡ none
      → Same kh key now
      → Back (raised, unlink kh (unlink key (without rc (insert rc text now))))
  undone_broken kh key now rc text fresh same e =
      let d1 = insert rc text now in
      ground (
        arith,
        eq_iff rc p,
        lookup-unlink kh p (unlink key (without rc d1)),
        lookup-unlink key p (without rc d1),
        lookup-without rc p d1,
        lookup-insert rc p text now,
      )

  write_rc-Back :
      (kh key : Option String) (rc : Built String) (now : Dict String)
      → lookup (job_file spec ".rc") files ≡ none
      → stays disk spec ".rc" p ≡ false
      → Same kh key now
      → Back (write_rc disk starts ends_in_break spec kh key rc now)
  unfolding write_rc write_secret_file
  write_rc-Back kh key value_error now fresh here same = undone kh key now same
  write_rc-Back kh key no_host_key_pin now fresh here same = undone kh key now same
  write_rc-Back kh key (built text) now fresh here same = go (disk (job_file spec ".rc")) refl
    where
      go :
          (w : Writing)
          → w ≡ disk (job_file spec ".rc")
          → Back (
              after_rc disk starts ends_in_break spec kh key
                (write_secret_file w (job_file spec ".rc") text now))
      go not_opened w = undone kh key now same
      go broken w = undone_broken kh key now (job_file spec ".rc") text fresh same
      go not_protected w =
          λ e. undone_left kh key now (job_file spec ".rc") text (elsewhere ".rc" here w) same
      go written w = exec-Back kh key now text fresh same

  -- A written file is one more that has to be removed.
  with_key :
      (kh : Option String) (now : Dict String) (path text : String)
      → lookup path files ≡ none
      → Same kh none now
      → Same kh (some path) (insert path text now)
  with_key kh now path text fresh same =
      ground (arith, eq_iff path p, lookup-insert path p text now)

  with_pin :
      (path text : String)
      → lookup path files ≡ none
      → Same (some path) none (insert path text files)
  with_pin path text fresh = ground (arith, eq_iff path p, lookup-insert path p text files)

  not_kept :
      (path text : String)
      → lookup path files ≡ none
      → lookup p (without path (insert path text files)) ≡ lookup p files
  not_kept path text fresh = ground (
    arith,
    eq_iff path p,
    lookup-without path p (insert path text files),
    lookup-insert path p text files,
  )

  broken_key :
      (kh : Option String) (now : Dict String) (path text : String)
      → lookup path files ≡ none
      → Same kh none now
      → Back (raised, unlink kh (unlink (some path) (without path (insert path text now))))
  broken_key kh now path text fresh same e =
      let d1 = insert path text now in
      ground (
        arith,
        eq_iff path p,
        lookup-unlink kh p (without path (without path d1)),
        lookup-without path p (without path d1),
        lookup-without path p d1,
        lookup-insert path p text now,
      )

  unopened_key :
      (kh : Option String) (now : Dict String) (path : String)
      → lookup path files ≡ none
      → Same kh none now
      → Back (raised, unlink kh (unlink (some path) now))
  unopened_key kh now path fresh same e =
      ground
        (arith, eq_iff path p, lookup-unlink kh p (without path now), lookup-without path p now)

  kept_key :
      (kh : Option String) (now : Dict String) (path text : String)
      → lookup path files ≡ none
      → Same kh none now
      → Back (raised, unlink kh (unlink (some path) (insert path text now)))
  kept_key kh now path text fresh same e =
      let d1 = insert path text now in
      ground (
        arith,
        eq_iff path p,
        lookup-unlink kh p (without path d1),
        lookup-without path p d1,
        lookup-insert path p text now,
      )

  write_key-Back :
      (kh pasted : Option String) (now : Dict String)
      → lookup (job_file spec ".key") files ≡ none
      → lookup (job_file spec ".rc") files ≡ none
      → stays disk spec ".rc" p ≡ false
      → Same kh none now
      → Back (write_key disk starts ends_in_break spec kh pasted now)
  unfolding write_key write_secret_file
  write_key-Back kh none now no_key no_rc here same = write_rc-Back kh none _ now no_rc here same
  write_key-Back kh (some secret) now no_key no_rc here same = go (disk path)
    where
      path : String
      path = job_file spec ".key"

      text : String
      text = key_text ends_in_break secret

      go :
          (w : Writing)
          → Back
              (after_key disk starts ends_in_break spec kh path (write_secret_file w path text now))
      go not_opened = unopened_key kh now path no_key same
      go broken = broken_key kh now path text no_key same
      go not_protected = kept_key kh now path text no_key same
      go written =
          write_rc-Back kh (some path) _ (insert path text now) no_rc here
            (with_key kh now path text no_key same)

  write_pin-Back :
      (line : Option String)
      → lookup (job_file spec ".known_hosts") files ≡ none
      → lookup (job_file spec ".key") files ≡ none
      → lookup (job_file spec ".rc") files ≡ none
      → stays disk spec ".known_hosts" p ≡ false
      → stays disk spec ".rc" p ≡ false
      → Back (write_pin disk starts ends_in_break spec line files)
  unfolding write_secret_file
  write_pin-Back none no_pin no_key no_rc there here =
      write_key-Back none _ files no_key no_rc here refl
  write_pin-Back (some line) no_pin no_key no_rc there here = go (disk path) refl
    where
      path : String
      path = job_file spec ".known_hosts"

      go :
          (w : Writing)
          → w ≡ disk path
          → Back
              (after_pin disk starts ends_in_break spec path (write_secret_file w path line files))
      go not_opened w e = refl
      go broken w e = not_kept path line no_pin
      go not_protected w e =
          rw (lookup-insert path p line files) (rw (elsewhere ".known_hosts" there w) refl)
      go written w e =
          write_key-Back (some path) _ (insert path line files) no_key no_rc here
            (with_pin path line no_pin) e

-- When `spawn` raises, at whichever of its steps, the directory is as it was before at every path but
-- two: the files with the host key, the pasted key and the settings of the job are gone, and no other
-- file has changed. The two are the host key's file and the settings file, each only if it was
-- written and the `chmod` that follows has raised. The job's three files must not have been there
-- before the call, and the removals do not raise.
pub spawn-raised :
    (disk : String → Writing) (starts : Bool) (ends_in_break : String → Bool) (spec : JobSpec)
    (files : Dict String) (p : String)
    → lookup (job_file spec ".known_hosts") files ≡ none
    → lookup (job_file spec ".key") files ≡ none
    → lookup (job_file spec ".rc") files ≡ none
    → stays disk spec ".known_hosts" p ≡ false
    → stays disk spec ".rc" p ≡ false
    → (spawn disk starts ends_in_break spec files).0 ≡ raised
    → lookup p (spawn disk starts ends_in_break spec files).1 ≡ lookup p files
unfolding spawn
spawn-raised disk starts ends_in_break spec files p no_pin no_key no_rc there here =
    write_pin-Back disk starts ends_in_break spec files p (known_hosts_line spec.creds) no_pin
      no_key no_rc there here
