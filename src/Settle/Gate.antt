-- ===== src/Settle/Gate.antt =====
-- The settle gate over a history of scans (`advance_settle` and `is_settled` of
-- backend/lftpweb/core/settle.py): what an open gate says about the scans that were made.
use lftpweb.Common.{
  ℕ, suc, ◌+◌, ◌≤◌, ◌<◌, ◌≡◌, refl, sym, ap, ◌⊎◌, inl, inr, Bool, true, false, not, Option, none,
  some, List, [], ◌∷◌, ◌++◌, arith, ◌∙◌, length, keep, All, Bool-cases, same_option_iff,
}
use lftpweb.Settle.{
  Fingerprint, SettleRecord, fresh_streak, same_fingerprint, advance_settle, is_settled,
  settle_min_age,
}

-- One scan of one top-level item: its fingerprint, whether the scan carried a partial-scan
-- warning, and the time of the pass.
pub record Scan : Type 0 where
  pub fingerprint : Fingerprint
  pub partial : Bool
  pub at : ℕ

-- The record after a history of scans, the newest first.
unfoldable pub watch : List Scan → Option SettleRecord
watch [] = none
watch (s ∷ older) = some (advance_settle (watch older) s.fingerprint s.partial s.at)

same_fingerprint→≡ : (a b : Fingerprint) → same_fingerprint a b ≡ true → a ≡ b
unfolding same_fingerprint
same_fingerprint→≡ a b h = ground (arith, (same_option_iff a.max_mtime b.max_mtime).0)

pub same_fingerprint_refl : (a : Fingerprint) → same_fingerprint a a ≡ true
unfolding same_fingerprint
same_fingerprint_refl a = ground (arith, (same_option_iff a.max_mtime a.max_mtime).1 refl)

-- The scans of the current streak: `newer` ones that were partial or saw the same fingerprint,
-- after a `start` that was a complete scan or the first one of all.
pub record Streak (history : List Scan) (r : SettleRecord) : Type 0 where
  pub newer : List Scan
  pub start : Scan
  pub older : List Scan
  pub split : history ≡ newer ++ (start ∷ older)
  pub fingerprint : r.fingerprint ≡ start.fingerprint
  pub since : r.first_matched_at ≡ start.at
  pub unchanged : All (λ s. (s.partial ≡ true) ⊎ (s.fingerprint ≡ start.fingerprint)) newer
  pub counted : r.matched_scans ≡ suc (length (keep (λ s. not s.partial) newer))
  pub complete : (start.partial ≡ false) ⊎ (older ≡ [])

held :
    (s : Scan) (history : List Scan) (r : SettleRecord)
    → s.partial ≡ true
    → Streak history r
    → Streak (s ∷ history) r
unfolding keep
held s history r p k = record {
  newer = s ∷ k.newer;
  start = k.start;
  older = k.older;
  split = ap (◌∷◌ s) k.split;
  fingerprint = k.fingerprint;
  since = k.since;
  unchanged = (inl p, k.unchanged);
  counted = rw p k.counted;
  complete = k.complete;
}

matched :
    (s : Scan) (history : List Scan) (r : SettleRecord)
    → s.partial ≡ false
    → s.fingerprint ≡ r.fingerprint
    → Streak history r
    → Streak
        (s ∷ history)
        (record r { fingerprint = s.fingerprint; matched_scans = r.matched_scans + 1 })
unfolding keep
matched s history r p e k = record {
  newer = s ∷ k.newer;
  start = k.start;
  older = k.older;
  split = ap (◌∷◌ s) k.split;
  fingerprint = e ∙ k.fingerprint;
  since = k.since;
  unchanged = (inr (e ∙ k.fingerprint), k.unchanged);
  counted = rw p (omega (arith, k.counted));
  complete = k.complete;
}

restarted :
    (s : Scan) (history : List Scan) (o : Option ℕ)
    → (s.partial ≡ false) ⊎ (history ≡ [])
    → Streak (s ∷ history) (fresh_streak o s.fingerprint s.at)
unfolding keep
restarted s history o c = record {
  newer = [];
  start = s;
  older = history;
  split = refl;
  fingerprint = refl;
  since = refl;
  unchanged = tt;
  counted = refl;
  complete = c;
}

advance-Streak :
    (s : Scan) (history : List Scan) (r : SettleRecord)
    → Streak history r
    → Streak (s ∷ history) (advance_settle (some r) s.fingerprint s.partial s.at)
unfolding advance_settle
advance-Streak s history r k = elim (Bool-cases s.partial) [
  | inl p ↦ simp p (held s history r p k)
  | inr p ↦ simp p (elim (Bool-cases (same_fingerprint r.fingerprint s.fingerprint)) [
    | inl e ↦ rw e (matched s history r p (sym (same_fingerprint→≡ _ _ e)) k)
    | inr e ↦ rw e (restarted s history r.first_observed_at (inl p))
  ])
]

-- The record after any history describes its current streak: when the streak began, that every
-- scan since was partial or saw the same fingerprint, and how many complete ones there were.
pub watch-Streak :
    (s : Scan) (older : List Scan)
    → Streak (s ∷ older) (advance_settle (watch older) s.fingerprint s.partial s.at)
unfolding watch
watch-Streak s [] = unfold advance_settle in restarted s [] (some s.at) (inr refl)
watch-Streak s (u ∷ older) =
    advance-Streak s (u ∷ older) (advance_settle (watch older) u.fingerprint u.partial u.at)
      (watch-Streak u older)

abbrev complete_scans : List Scan → List Scan
complete_scans = keep (λ s. not s.partial)

-- What an open gate promises of the scans that were made.
pub record Watched (history : List Scan) (now : ℕ) : Type 0 where
  pub newer : List Scan
  pub start : Scan
  pub older : List Scan
  pub split : history ≡ newer ++ (start ∷ older)
  pub unchanged : All (λ s. (s.partial ≡ true) ⊎ (s.fingerprint ≡ start.fingerprint)) newer
  pub confirmed : 0 < length (complete_scans newer)
  pub aged : start.at + settle_min_age ≤ now

Streak-Watched :
    (history : List Scan) (r : SettleRecord) (now : ℕ)
    → Streak history r
    → is_settled (some r) now ≡ true
    → Watched history now
unfolding is_settled
Streak-Watched history r now k h = record {
  newer = k.newer;
  start = k.start;
  older = k.older;
  split = k.split;
  unchanged = k.unchanged;
  confirmed = ground (arith, k.counted);
  aged = ground (arith, k.since);
}

-- If the gate is open after a history of scans, then some scan at least the minimum age ago was
-- followed by at least one complete scan, and by no complete scan with another fingerprint.
pub settled-Watched :
    (history : List Scan) (now : ℕ) → is_settled (watch history) now ≡ true → Watched history now
unfolding watch
settled-Watched [] now h = unfold is_settled in cc
settled-Watched (s ∷ older) now h =
    Streak-Watched (s ∷ older) (advance_settle (watch older) s.fingerprint s.partial s.at) now
      (watch-Streak s older) h

-- Complete scans of an item that does not change, at the given times, oldest first.
unfoldable pub steady : Option SettleRecord → Fingerprint → List ℕ → Option SettleRecord
steady o fp [] = o
steady o fp (t ∷ ts) = steady (some (advance_settle o fp false t)) fp ts

abbrev pub BegunBy : Option SettleRecord → ℕ → Type 0
BegunBy none t = Unit
BegunBy (some r) t = r.first_matched_at ≤ t

steady_counts :
    (r : SettleRecord) (fp : Fingerprint) (ts : List ℕ)
    → r.fingerprint ≡ fp
    → (r' : SettleRecord) × (steady (some r) fp ts ≡ some r')
      × (r'.first_matched_at ≡ r.first_matched_at)
      × (r'.matched_scans ≡ r.matched_scans + length ts)
unfolding steady
steady_counts r fp [] h = (r, refl, refl, omega arith)
steady_counts r fp (t ∷ ts) h =
    let same : same_fingerprint r.fingerprint fp ≡ true = rw h (same_fingerprint_refl fp) in
    let next : SettleRecord = record r { fingerprint = fp; matched_scans = r.matched_scans + 1 } in
    let step : advance_settle (some r) fp false t ≡ next = unfold advance_settle in rw same in
    let (r', e, since, count) = steady_counts next fp ts refl in
    (r', rw step e, since, omega (arith, count))

-- What one complete scan leaves, whatever was recorded before.
record After (fp : Fingerprint) (t : ℕ) (r : SettleRecord) : Type 0 where
  seen : r.fingerprint ≡ fp
  began : r.first_matched_at ≤ t
  counts : 0 < r.matched_scans

advance-After :
    (o : Option SettleRecord) (fp : Fingerprint) (t : ℕ)
    → BegunBy o t
    → After fp t (advance_settle o fp false t)
unfolding advance_settle
advance-After none fp t b = record { seen = refl; began = omega arith; counts = omega arith }
advance-After (some r) fp t b = elim (Bool-cases (same_fingerprint r.fingerprint fp)) [
  | inl e ↦ rw e (record { seen = refl; began = b; counts = omega arith })
  | inr e ↦ rw e (record { seen = refl; began = omega arith; counts = omega arith })
]

steady-After :
    (r : SettleRecord) (fp : Fingerprint) (t u : ℕ) (ts : List ℕ) (now : ℕ)
    → After fp t r
    → t + settle_min_age ≤ now
    → is_settled (steady (some r) fp (u ∷ ts)) now ≡ true
steady-After r fp t u ts now a h =
    let (r', e, since, count) = steady_counts r fp (u ∷ ts) a.seen in
    rw e (unfold is_settled in ground (arith, a.began, a.counts, since, count))

-- An item that does not change settles: after a complete scan at `t`, one or more further
-- complete scans that see the same fingerprint open the gate from the minimum age on, whatever
-- was recorded before, if no earlier record began after `t`.
pub steady_settles :
    (o : Option SettleRecord) (fp : Fingerprint) (t u : ℕ) (ts : List ℕ) (now : ℕ)
    → BegunBy o t
    → t + settle_min_age ≤ now
    → is_settled (steady o fp (t ∷ u ∷ ts)) now ≡ true
unfolding steady
steady_settles o fp t u ts now b h =
    steady-After (advance_settle o fp false t) fp t u ts now (advance-After o fp t b) h
