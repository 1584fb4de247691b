-- ===== src/Preflight.antt =====
-- `PreflightHold` (backend/lftpweb/core/preflight.py): the rows that a source saw last, held for a
-- while when one is missing. `Shown` is the type of a row, which the class never looks into; times
-- are readings of the monotonic clock, in microseconds.
pub mod Held
use lftpweb.Common.{
  ℕ, ◌+◌, String, Bool, true, false, ◌||◌, not, Option, none, some, List, [], ◌∷◌, ltb, map,
  if◌then◌else◌, keep,
}
use lftpweb.Common.Dict.{Dict, lookup, insert, without, has_key, keys}
use lftpweb.Common.TextList.{elem_text}

-- `PREFLIGHT_HOLD_S`
abbrev pub preflight_hold : ℕ
preflight_hold = 150_000_000

-- `_HoldEntry`
pub record HoldEntry (Shown : Type 0) : Type 0 where
  pub row : Shown
  pub last_seen : ℕ

module _ {Shown : Type 0} where
  -- The first loop of `update`.
  unfoldable pub refresh : Dict Shown → ℕ → Dict (HoldEntry Shown) → Dict (HoldEntry Shown)
  refresh [] now entries = entries
  refresh ((key, row) ∷ seen) now entries =
      refresh seen now (insert key (record { row = row; last_seen = now }) entries)

  -- The test of the second loop, `now - last_seen > PREFLIGHT_HOLD_S` written as a sum.
  abbrev pub is_gone : List String → ℕ → String → Option (HoldEntry Shown) → Bool
  is_gone retired now key none = false
  is_gone retired now key (some e) = elem_text key retired || ltb (e.last_seen + preflight_hold) now

  -- The second loop, over the keys that were not seen.
  unfoldable pub drop_gone :
      List String → ℕ → List String → Dict (HoldEntry Shown) → Dict (HoldEntry Shown)
  drop_gone retired now [] entries = entries
  drop_gone retired now (key ∷ ks) entries =
      drop_gone retired now ks
        (if is_gone retired now key (lookup key entries) then without key entries else entries)

  unfoldable pub update :
      Dict Shown → ℕ → List String → Dict (HoldEntry Shown) → Dict (HoldEntry Shown)
  unfolding refresh drop_gone
  update seen now retired entries =
      let fresh = refresh seen now entries in
      drop_gone retired now (keep (λ k. not (has_key k seen)) (keys fresh)) fresh

  -- `items`; `rows` has the rows alone.
  unfoldable pub items : Dict (HoldEntry Shown) → Dict Shown
  items entries = map (λ e. (e.0, e.1.row)) entries
