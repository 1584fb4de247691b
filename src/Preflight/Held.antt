-- ===== src/Preflight/Held.antt =====
-- What `PreflightHold` (backend/lftpweb/core/preflight.py) shows after a history of refreshes.
use text.Mathlib.TextEquality.{eq_iff}
use lftpweb.Common.{
  ℕ, ◌+◌, String, ◌≡◌, refl, ◌∙◌, ap, Bool, ◌&&◌, ◌||◌, not, Option, none, some, List, [], ◌∷◌,
  arith, inl, inr, ltb, if◌then◌else◌, keep, is_some, ◌=s◌, Bool-cases,
}
use lftpweb.Common.Dict.{
  Dict, lookup, insert, without, has_key, keys, last_given, or_else, lookup-insert, lookup-without,
}
use lftpweb.Common.TextList.{elem_text, elem_text-keep, elem_text-keys}
use lftpweb.Preflight.{HoldEntry, preflight_hold, refresh, is_gone, drop_gone, update}

module _ {Shown : Type 0} where
  abbrev entry_at : ℕ → Option Shown → Option (HoldEntry Shown)
  entry_at now none = none
  entry_at now (some row) = some (record { row = row; last_seen = now })

  lookup-refresh :
      (seen : Dict Shown) (now : ℕ) (j : String) (entries : Dict (HoldEntry Shown))
      → lookup j (refresh seen now entries)
        ≡ or_else (entry_at now (last_given j seen)) (lookup j entries)
  unfolding refresh last_given
  lookup-refresh [] now j entries = refl
  lookup-refresh ((key, row) ∷ seen) now j entries = ground (
    arith,
    lookup-refresh seen now j (insert key (record { row = row; last_seen = now }) entries),
    lookup-insert key j (record { row = row; last_seen = now }) entries,
  )

  lookup-drop_gone :
      (retired : List String) (now : ℕ) (ks : List String) (j : String)
      (entries : Dict (HoldEntry Shown))
      → lookup j (drop_gone retired now ks entries) ≡ (
          if elem_text j ks && is_gone retired now j (lookup j entries)
          then none
          else lookup j entries)
  unfolding drop_gone elem_text
  lookup-drop_gone retired now [] j entries = refl
  lookup-drop_gone retired now (key ∷ ks) j entries = elim (Bool-cases (key =s j)) [
    | inl e ↦
        let same : is_gone retired now key (lookup key entries)
            ≡ is_gone retired now j (lookup j entries) =
          ap (λ x. is_gone retired now x (lookup x entries)) ((eq_iff key j).0 e) in
        elim (Bool-cases (is_gone retired now j (lookup j entries))) [
          | inl g ↦
              rw
                (
                  same,
                  g,
                  e,
                  lookup-drop_gone retired now ks j (without key entries),
                  lookup-without key j entries,
                  e,
                )
                (ground arith)
          | inr g ↦ rw (same, g, e, lookup-drop_gone retired now ks j entries, g) (ground arith)
        ]
    | inr e ↦ elim (Bool-cases (is_gone retired now key (lookup key entries))) [
      | inl g ↦
          rw
            (
              g,
              e,
              lookup-drop_gone retired now ks j (without key entries),
              lookup-without key j entries,
              e,
            )
            refl
      | inr g ↦ rw (g, e, lookup-drop_gone retired now ks j entries) refl
    ]
  ]

  has_key-last_given : (j : String) (d : Dict Shown) → is_some (last_given j d) ≡ has_key j d
  unfolding last_given lookup
  has_key-last_given j [] = refl
  has_key-last_given j ((k, v) ∷ d) = ground (arith, has_key-last_given j d)

-- One refresh by the source.
pub record Refresh (Shown : Type 0) : Type 0 where
  pub seen : Dict Shown
  pub at : ℕ
  pub retired : List String

module _ {Shown : Type 0} where
  -- The cache after a log of refreshes, the newest first.
  unfoldable pub cache_after : List (Refresh Shown) → Dict (HoldEntry Shown)
  cache_after [] = []
  cache_after (r ∷ log) = update r.seen r.at r.retired (cache_after log)

  -- What is held after one more refresh that did not see the row.
  abbrev pub still_held :
      Refresh Shown → String → Option (HoldEntry Shown) → Option (HoldEntry Shown)
  still_held r key none = none
  still_held r key (some e) =
      if elem_text key r.retired || ltb (e.last_seen + preflight_hold) r.at then none else some e

  -- What a log says of one key.
  unfoldable pub held : String → List (Refresh Shown) → Option (HoldEntry Shown)
  held key [] = none
  held key (r ∷ log) =
      or_else (entry_at r.at (last_given key r.seen)) (still_held r key (held key log))

  drop_lem :
      (r : Refresh Shown) (key : String) (now_seen : Option Shown)
      (found : Option (HoldEntry Shown)) (b : Bool)
      → is_some now_seen ≡ b
      → let new = or_else (entry_at r.at now_seen) found in
        (if (is_some new && not b) && is_gone r.retired r.at key new then none else new)
        ≡ or_else (entry_at r.at now_seen) (still_held r key found)
  drop_lem r key none none b h = ground arith
  drop_lem r key none (some e) b h = ground arith
  drop_lem r key (some row) found b h = ground arith

  lookup-update :
      (r : Refresh Shown) (key : String) (entries : Dict (HoldEntry Shown))
      → lookup key (update r.seen r.at r.retired entries)
        ≡ or_else (entry_at r.at (last_given key r.seen)) (still_held r key (lookup key entries))
  unfolding update
  lookup-update r key entries =
      let fresh = refresh r.seen r.at entries in
      let unseen : String → Bool = λ k. not (has_key k r.seen) in
      lookup-drop_gone r.retired r.at (keep unseen (keys fresh)) key fresh
      ∙ rw
          (
            elem_text-keep key unseen (keys fresh),
            elem_text-keys key fresh,
            lookup-refresh r.seen r.at key entries,
          )
          (drop_lem r key (last_given key r.seen) (lookup key entries) (has_key key r.seen)
            (has_key-last_given key r.seen))

  -- After any log of refreshes, the cache holds for each key what the log says of it: the row of the
  -- last refresh that saw it, unless a later refresh retired it or came after the hold time was over.
  pub cache_after-held :
      (log : List (Refresh Shown)) (key : String) → lookup key (cache_after log) ≡ held key log
  unfolding cache_after held lookup
  cache_after-held [] key = refl
  cache_after-held (r ∷ log) key =
      lookup-update r key (cache_after log)
      ∙ ap (λ x. or_else (entry_at r.at (last_given key r.seen)) (still_held r key x))
          (cache_after-held log key)
