-- ===== src/Remote/Listing.antt =====
-- A remote tree comes back from its records (backend/lftpweb/core/remote.py, `records_to_entries`).
use Prim.Native.Char.{code}
use Prim.Native.String.{◌++◌ as ◌<>◌}
use text.Mathlib.TextLemmas.{nil-append, cons-append}
use mathlib.Core.Bool.{true≢false}
use lftpweb.Common.{
  ℕ, String, ◌≡◌, refl, sym, ap, ◌∙◌, Bool, true, false, Option, none, some, List, [], ◌∷◌, map,
  inl, inr, ==_refl, ◌=s◌, eq_iff, if◌then◌else◌, Bool-cases, some_injective,
}
use lftpweb.Common.Dict.{Dict, lookup, insert, lookup-insert, last_given, or_else}
use lftpweb.Common.Search.{strip_slashes}
use lftpweb.Remote.Entry.{RemoteEntry}
use lftpweb.Remote.Records.{RemoteRecord}
use lftpweb.Remote.Entries.{
  slash_char, after, entry_at, add_record, add_records, records_to_entries,
}

-- The record of an entry below a root.
abbrev pub record_under : String → RemoteEntry → RemoteRecord
record_under root e = record {
  type_char = if e.is_dir then b'd' else b'f';
  size = e.size;
  mtime = e.mtime;
  path = strip_slashes root <> String.◌∷◌ slash_char e.rel_path;
}

-- An entry with its key; the size of a directory is not kept.
abbrev pub listed : RemoteEntry → String × RemoteEntry
listed e = (e.rel_path, record e { size = if e.is_dir then 0 else e.size })

after_self : (s t : String) → after s (s <> t) ≡ some t
unfolding after
after_self String.[] t = ap (λ u. some u) (nil-append t)
after_self (String.◌∷◌ c s) t = rw (cons-append c s t) (rw (==_refl (code c)) (after_self s t))

after_prefix :
    (s r : String) → after (s <> String.◌∷◌ slash_char "") (s <> String.◌∷◌ slash_char r) ≡ some r
unfolding after
after_prefix String.[] r =
    rw (nil-append (String.◌∷◌ slash_char ""), nil-append (String.◌∷◌ slash_char r)) refl
after_prefix (String.◌∷◌ c s) r =
    rw (cons-append c s (String.◌∷◌ slash_char ""), cons-append c s (String.◌∷◌ slash_char r))
      (rw (==_refl (code c)) (after_prefix s r))

after_all : (s : String) → after s s ≡ some ""
unfolding after
after_all String.[] = refl
after_all (String.◌∷◌ c s) = rw (==_refl (code c)) (after_all s)

abbrev starts : String → Bool
starts String.[] = false
starts (String.◌∷◌ c s) = true

other_path : (s : String) (r : String) → ((s <> String.◌∷◌ slash_char r) =s s) ≡ false
other_path s r = elim (Bool-cases ((s <> String.◌∷◌ slash_char r) =s s)) [
  | inl e ↦ absurd (
      true≢false (
        ap starts (
          some_injective (
            sym (after_self s (String.◌∷◌ slash_char r))
            ∙ ap (after s) ((eq_iff _ _).0 e)
            ∙ after_all s))))
  | inr e ↦ e
]

entry_at_kind :
    (rel_path : String) (is_dir : Bool) (size mtime : ℕ) (entries : Dict RemoteEntry)
    → entry_at rel_path
        (record {
          type_char = if is_dir then b'd' else b'f';
          size = size;
          mtime = mtime;
          path = rel_path;
        })
        entries
      ≡ insert rel_path
          (record {
            rel_path = rel_path;
            is_dir = is_dir;
            size = if is_dir then 0 else size;
            mtime = mtime;
          })
          entries
entry_at_kind rel_path true size mtime entries = refl
entry_at_kind rel_path false size mtime entries = refl

add_record_under :
    (root : String) (e : RemoteEntry) (entries : Dict RemoteEntry)
    → add_record (strip_slashes root) (record_under root e) entries
      ≡ insert e.rel_path (listed e).1 entries
unfolding add_record
add_record_under root e entries =
    let same = after_prefix (strip_slashes root) e.rel_path in
    rw (other_path (strip_slashes root) e.rel_path)
      (rw same (entry_at_kind e.rel_path e.is_dir e.size e.mtime entries))

or_else_given :
    (o l : Option RemoteEntry) (b : Bool) (v : RemoteEntry)
    → or_else o (if b then some v else l) ≡ or_else (or_else o (if b then some v else none)) l
or_else_given (some x) l b v = refl
or_else_given none l true v = refl
or_else_given none l false v = refl

lookup-add_records :
    (root p : String) (es : List RemoteEntry) (entries : Dict RemoteEntry)
    → lookup p (add_records (strip_slashes root) (map (record_under root) es) entries)
      ≡ or_else (last_given p (map listed es)) (lookup p entries)
unfolding add_records last_given
lookup-add_records root p [] entries = refl
lookup-add_records root p (e ∷ es) entries =
    ap (λ d. lookup p (add_records (strip_slashes root) (map (record_under root) es) d))
      (add_record_under root e entries)
    ∙ lookup-add_records root p es (insert e.rel_path (listed e).1 entries)
    ∙ ap (or_else (last_given p (map listed es))) (lookup-insert e.rel_path p (listed e).1 entries)
    ∙ or_else_given (last_given p (map listed es)) (lookup p entries) (e.rel_path =s p) (listed e).1

or_else-none : (o : Option RemoteEntry) → or_else o none ≡ o
or_else-none none = refl
or_else-none (some x) = refl

-- The records of any entries below a root, with or without slashes at its end, give at each path the
-- last of these entries that has the path, and no entry at other paths. Directories get size zero.
pub records_to_entries-record_under :
    (root p : String) (es : List RemoteEntry)
    → lookup p (records_to_entries (map (record_under root) es) root) ≡ last_given p (map listed es)
unfolding records_to_entries lookup
records_to_entries-record_under root p es =
    lookup-add_records root p es [] ∙ or_else-none (last_given p (map listed es))
