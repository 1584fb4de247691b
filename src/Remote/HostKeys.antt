-- ===== src/Remote/HostKeys.antt =====
-- The pinned host keys (backend/lftpweb/core/remote.py, `KnownHostsStore` and the
-- `PinningSSHClient` of `_make_client_factory`).
use Prim.Native.String.{◌++◌ as ◌<>◌}
use mathlib.Core.Bool.{true≢false, false≢true}
use lftpweb.Common.{
  ℕ, String, ◌≡◌, refl, sym, ap, ◌∙◌, none_not_some, Bool, true, false, Option, none, some, List,
  [], ◌∷◌, inl, inr, ◌=s◌, eq_iff, if◌then◌else◌, Bool-cases, ◌&&◌, all, arith,
}
use lftpweb.Common.Dict.{Dict, lookup, insert, lookup-insert}
use lftpweb.Common.Decimal.{decimal}
use lftpweb.Lftp.Command.{HostPolicy, insecure, strict, accept_and_pin}

-- `KnownHostsStore._key`
unfoldable pub key_of : String → ℕ → String
key_of host port = host <> (":" <> decimal port)

-- What the file holds: a dictionary, or nothing that can be parsed (also where there is no file).
abbrev pub Contents : Type 0
Contents = Option (Dict String)

-- How the file can be used: whether it can be read, and where a write raises, what is left in it.
pub data Writes : Type 0 where
  works : Writes
  raises_leaving : Contents → Writes

pub record Access : Type 0 where
  pub readable : Bool
  pub writes : Writes

abbrev or_empty : Contents → Dict String
or_empty none = []
or_empty (some data_held) = data_held

-- `KnownHostsStore._load`: a file that cannot be read or parsed counts as an empty one.
abbrev pub load : Access → Contents → Dict String
load access file = if access.readable then or_empty file else []

-- `KnownHostsStore.get`
unfoldable pub get : Access → String → ℕ → Contents → Option String
unfolding lookup
get access host port file = lookup (key_of host port) (load access file)

-- `result_holder["reason"]`; the fingerprint that goes with it only stands in messages.
pub data Rejection : Type 0 where
  mismatch unknown : Rejection

-- What is answered, and the file after it. `save_failed` stands for the exception.
pub data Verdict : Type 0 where
  trusted : Verdict
  rejected : Rejection → Verdict
  save_failed : Verdict

-- `KnownHostsStore._save` in `pin`
abbrev pub saved : Writes → Dict String → Verdict × Contents
saved works held = (trusted, some held)
saved (raises_leaving file) held = (save_failed, file)

-- `KnownHostsStore.pin`
unfoldable pub pin : Access → String → ℕ → String → Contents → Verdict × Contents
unfolding insert
pin access host port exported file =
    saved access.writes (insert (key_of host port) exported (load access file))

-- What is made of a key by what is pinned.
unfoldable pub against :
    Access → HostPolicy → Option String → String → ℕ → String → Contents → Verdict × Contents
unfolding pin
against access policy (some pinned) host port exported file =
    if pinned =s exported then (trusted, file) else (rejected mismatch, file)
against access insecure none host port exported file = (trusted, file)
against access strict none host port exported file = (rejected unknown, file)
against access accept_and_pin none host port exported file = pin access host port exported file

-- `validate_host_public_key`, of the text of a key.
unfoldable pub validate_host_public_key :
    Access → HostPolicy → String → ℕ → String → Contents → Verdict × Contents
unfolding get against
validate_host_public_key access insecure host port exported file = (trusted, file)
validate_host_public_key access strict host port exported file =
    against access strict (get access host port file) host port exported file
validate_host_public_key access accept_and_pin host port exported file =
    against access accept_and_pin (get access host port file) host port exported file

-- A connection that was tried.
pub record Attempt : Type 0 where
  pub access : Access
  pub policy : HostPolicy
  pub host : String
  pub port : ℕ
  pub exported : String

unfoldable pub file_after : List Attempt → Contents → Contents
unfolding validate_host_public_key
file_after [] file = file
file_after (a ∷ attempts) file =
    file_after attempts (validate_host_public_key a.access a.policy a.host a.port a.exported file).1

-- The file can be read, and written where that is tried.
abbrev writes_work : Writes → Bool
writes_work works = true
writes_work (raises_leaving file) = false

abbrev pub is_usable : Access → Bool
is_usable access = access.readable && writes_work access.writes

-- The file holds a key under a name.
abbrev Holds : String → String → Contents → Type 0
Holds key k file = lookup key (or_empty file) ≡ some k

either_Holds :
    (b : Bool) (key k : String) (v w : Verdict × Contents)
    → Holds key k v.1
    → Holds key k w.1
    → Holds key k (if b then v else w).1
either_Holds true key k v w h g = h
either_Holds false key k v w h g = g

pinned_other :
    (w : Writes) (key k name exported : String) (held : Dict String)
    → writes_work w ≡ true
    → lookup name held ≡ none
    → lookup key held ≡ some k
    → Holds key k (saved w (insert name exported held)).1
pinned_other works key k name exported held u e h =
    rw (lookup-insert name key exported held) (elim (Bool-cases (name =s key)) [
      | inl same ↦
          absurd (none_not_some (sym e ∙ ap (λ j. lookup j held) ((eq_iff _ _).0 same) ∙ h))
      | inr other ↦ rw other h
    ])
pinned_other (raises_leaving file) key k name exported held u e h = absurd (false≢true u)

module _ (access : Access) (usable : is_usable access ≡ true) where
  -- A usable file is read as what it holds.
  reads : (file : Contents) → load access file ≡ or_empty file
  reads file = elim (Bool-cases access.readable) [
    | inl e ↦ rw e refl
    | inr e ↦ absurd (false≢true (sym (ap (λ b. b && writes_work access.writes) e) ∙ usable))
  ]

  writable : writes_work access.writes ≡ true
  writable = ground (arith, usable)

  -- A pinned key is left as it is.
  against-Holds :
      (key k : String) (policy : HostPolicy) (o : Option String) (host : String) (port : ℕ)
      (exported : String) (file : Contents)
      → get access host port file ≡ o
      → Holds key k file
      → Holds key k (against access policy o host port exported file).1
  unfolding against get pin
  against-Holds key k policy (some pinned) host port exported file e h =
      either_Holds (pinned =s exported) key k (trusted, file) (rejected mismatch, file) h h
  against-Holds key k insecure none host port exported file e h = h
  against-Holds key k strict none host port exported file e h = h
  against-Holds key k accept_and_pin none host port exported file e h = rw (reads file) (
      pinned_other access.writes key k (key_of host port) exported (or_empty file) writable
        (sym (ap (lookup (key_of host port)) (reads file)) ∙ e) h)

  validate-Holds :
      (key k : String) (policy : HostPolicy) (host : String) (port : ℕ) (exported : String)
      (file : Contents)
      → Holds key k file
      → Holds key k (validate_host_public_key access policy host port exported file).1
  unfolding validate_host_public_key
  validate-Holds key k insecure host port exported file h = h
  validate-Holds key k strict host port exported file h =
      against-Holds key k strict _ host port exported file refl h
  validate-Holds key k accept_and_pin host port exported file h =
      against-Holds key k accept_and_pin _ host port exported file refl h

abbrev pub all_usable : List Attempt → Bool
all_usable = all (λ a. is_usable a.access)

file_after-Holds :
    (attempts : List Attempt) (key k : String) (file : Contents)
    → all_usable attempts ≡ true
    → Holds key k file
    → Holds key k (file_after attempts file)
unfolding file_after all
file_after-Holds [] key k file u h = h
file_after-Holds (a ∷ attempts) key k file u h =
    file_after-Holds attempts key k _ (ground (arith, u))
      (validate-Holds a.access (ground (arith, u)) key k a.policy a.host a.port a.exported file h)

abbrev pub is_insecure : HostPolicy → Bool
is_insecure insecure = true
is_insecure strict = false
is_insecure accept_and_pin = false

abbrev pub is_trusted : Verdict → Bool
is_trusted trusted = true
is_trusted (rejected reason) = false
is_trusted save_failed = false

abbrev told : Bool → Contents → Verdict × Contents
told b file = if b then (trusted, file) else (rejected mismatch, file)

held_by :
    (b : Bool) (pinned exported key : String) (file : Contents)
    → (pinned =s exported) ≡ b
    → Holds key pinned file
    → is_trusted (told b file).0 ≡ true
    → Holds key exported (told b file).1
held_by true pinned exported key file e h a = h ∙ ap (λ k. some k) ((eq_iff _ _).0 e)
held_by false pinned exported key file e h a = absurd (false≢true a)

saved-Holds :
    (w : Writes) (key exported : String) (held : Dict String)
    → is_trusted (saved w (insert key exported held)).0 ≡ true
    → Holds key exported (saved w (insert key exported held)).1
saved-Holds works key exported held a =
    lookup-insert key key exported held ∙ rw ((eq_iff key key).1 refl) refl
saved-Holds (raises_leaving file) key exported held a = absurd (false≢true a)

loaded :
    (readable : Bool) (writes : Writes) (key pinned : String) (file : Contents)
    → lookup key (load (record { readable = readable; writes = writes }) file) ≡ some pinned
    → Holds key pinned file
unfolding lookup
loaded true writes key pinned file h = h
loaded false writes key pinned file h = absurd (none_not_some h)

-- An accepted key is held by the file afterwards.
against_trusted :
    (access : Access) (policy : HostPolicy) (o : Option String) (host : String) (port : ℕ)
    (exported : String) (file : Contents)
    → is_insecure policy ≡ false
    → get access host port file ≡ o
    → is_trusted (against access policy o host port exported file).0 ≡ true
    → Holds (key_of host port) exported (against access policy o host port exported file).1
unfolding against get pin
against_trusted access policy (some pinned) host port exported file i e h =
    held_by (pinned =s exported) pinned exported (key_of host port) file refl
      (loaded access.readable access.writes (key_of host port) pinned file e) h
against_trusted access insecure none host port exported file i e h = absurd (true≢false i)
against_trusted access strict none host port exported file i e h = absurd (false≢true h)
against_trusted access accept_and_pin none host port exported file i e h =
    saved-Holds access.writes (key_of host port) exported (load access file) h

validate_trusted :
    (access : Access) (policy : HostPolicy) (host : String) (port : ℕ) (exported : String)
    (file : Contents)
    → is_insecure policy ≡ false
    → is_trusted (validate_host_public_key access policy host port exported file).0 ≡ true
    → Holds
        (key_of host port)
        exported
        (validate_host_public_key access policy host port exported file).1
unfolding validate_host_public_key
validate_trusted access insecure host port exported file i h = absurd (true≢false i)
validate_trusted access strict host port exported file i h =
    against_trusted access strict _ host port exported file i refl h
validate_trusted access accept_and_pin host port exported file i h =
    against_trusted access accept_and_pin _ host port exported file i refl h

-- What is asked of a key where one is pinned: nothing is written.
abbrev pub pinned_verdict : String → String → Contents → Verdict × Contents
pinned_verdict pinned exported file =
    if pinned =s exported then (trusted, file) else (rejected mismatch, file)

validate_against :
    (access : Access) (policy : HostPolicy) (host : String) (port : ℕ) (pinned exported : String)
    (file : Contents)
    → is_insecure policy ≡ false
    → access.readable ≡ true
    → Holds (key_of host port) pinned file
    → validate_host_public_key access policy host port exported file
      ≡ pinned_verdict pinned exported file
unfolding validate_host_public_key get
validate_against access insecure host port pinned exported file i r h = absurd (true≢false i)
validate_against access strict host port pinned exported file i r h = rw r (rw h refl)
validate_against access accept_and_pin host port pinned exported file i r h = rw r (rw h refl)

-- Once a host has presented a key that was accepted under a policy other than `insecure`, then after
-- any further connections, under any policies and with any keys, exactly that key is accepted of this
-- host under a policy other than `insecure`; another is rejected as a mismatch, and the file is left
-- as it is. Between, nothing else may write the file, and it must be readable, and writable for the
-- further connections: a file that cannot be read or parsed counts as one without pins.
pub validate_host_public_key-pinned :
    (first later : Access) (first_policy later_policy : HostPolicy) (host : String) (port : ℕ)
    (first_key later_key : String) (file : Contents) (attempts : List Attempt)
    → is_insecure first_policy ≡ false
    → is_insecure later_policy ≡ false
    → all_usable attempts ≡ true
    → later.readable ≡ true
    → is_trusted (validate_host_public_key first first_policy host port first_key file).0 ≡ true
    → validate_host_public_key later later_policy host port later_key (
        file_after attempts
          (validate_host_public_key first first_policy host port first_key file).1)
      ≡ pinned_verdict first_key later_key (
          file_after attempts
            (validate_host_public_key first first_policy host port first_key file).1)
validate_host_public_key-pinned first later first_policy later_policy host port first_key later_key
      file attempts f l u r h =
    validate_against later later_policy host port first_key later_key _ l r (
      file_after-Holds attempts (key_of host port) first_key _ u
        (validate_trusted first first_policy host port first_key file f h))
