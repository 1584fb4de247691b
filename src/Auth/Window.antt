-- ===== src/Auth/Window.antt =====
-- The limiter (backend/lftpweb/core/auth.py) against the log of what happened: who is blocked is
-- decided by the failures since the last success that are in the window, however often the buckets
-- were pruned.
use text.Mathlib.TextEquality.{eq_iff}
use lftpweb.Common.{
  ℕ, ◌≤◌, String, ◌≡◌, refl, ◌∙◌, ap, Bool, true, false, List, [], ◌∷◌, ◌++◌, arith, inl, inr, leb,
  if◌then◌else◌, keep, length, ◌=s◌, Bool-cases,
}
use lftpweb.Common.Dict.{lookup, insert, lookup-insert, lookup-without}
use lftpweb.Auth.Limiter.{
  LoginRateLimiter, Buckets, bucket, is_recent, pruned, prune, is_blocked, record_failure,
  record_success,
}

-- The limiter's calls.
pub data Event : Type 0 where
  asked : String → ℕ → Event
  failed : String → ℕ → Event
  succeeded : String → Event

module _ (limiter : LoginRateLimiter) where
  unfoldable pub apply_event : Event → Buckets → Buckets
  unfolding prune record_failure record_success
  apply_event (asked key now) b = prune limiter key now b
  apply_event (failed key now) b = record_failure limiter key now b
  apply_event (succeeded key) b = record_success limiter key b

  -- The buckets after a log of calls, the newest first.
  unfoldable pub buckets_after : List Event → Buckets
  unfolding apply_event
  buckets_after [] = []
  buckets_after (e ∷ log) = apply_event e (buckets_after log)

-- The failures of a client since its last success, oldest first.
unfoldable pub failures : String → List Event → List ℕ
failures key [] = []
failures key (asked k now ∷ log) = failures key log
failures key (failed k now ∷ log) =
    if k =s key then failures key log ++ (now ∷ []) else failures key log
failures key (succeeded k ∷ log) = if k =s key then [] else failures key log

-- The clock does not go back, and has not passed `now`.
abbrev pub InOrder : ℕ → List Event → Type 0
InOrder now [] = Unit
InOrder now (asked k t ∷ log) = (t ≤ now) × InOrder t log
InOrder now (failed k t ∷ log) = (t ≤ now) × InOrder t log
InOrder now (succeeded k ∷ log) = InOrder now log

pub keep_twice :
    (f g : ℕ → Bool) (xs : List ℕ)
    → ((x : ℕ) → f x ≡ true → g x ≡ true)
    → keep f (keep g xs) ≡ keep f xs
unfolding keep
keep_twice f g [] h = refl
keep_twice f g (x ∷ xs) h = elim (Bool-cases (g x)) [
  | inl e ↦ rw (e, keep_twice f g xs h) refl
  | inr e ↦ let off : f x ≡ false = ground (arith, h x) in rw (e, off, keep_twice f g xs h) refl
]

keep-append : (f : ℕ → Bool) (xs ys : List ℕ) → keep f (xs ++ ys) ≡ keep f xs ++ keep f ys
unfolding keep
keep-append f [] ys = refl
keep-append f (x ∷ xs) ys = elim (Bool-cases (f x)) [
  | inl e ↦ rw (e, keep-append f xs ys) refl
  | inr e ↦ rw (e, keep-append f xs ys) refl
]

module _ (limiter : LoginRateLimiter) (key : String) where
  pub bucket-insert :
      (k : String) (ts : List ℕ) (b : Buckets)
      → bucket key (insert k ts b) ≡ (if k =s key then ts else bucket key b)
  bucket-insert k ts b = elim (Bool-cases (k =s key)) [
    | inl e ↦ rw (lookup-insert k key ts b, e) refl
    | inr e ↦ rw (lookup-insert k key ts b, e) refl
  ]

  pub recent_mono :
      (t now x : ℕ) → t ≤ now → is_recent limiter now x ≡ true → is_recent limiter t x ≡ true
  recent_mono t now x l h = ground arith

  -- An earlier pruning does not show.
  pub pruned-prune :
      (k : String) (t now : ℕ) (b : Buckets)
      → t ≤ now
      → pruned limiter key now (prune limiter k t b) ≡ pruned limiter key now b
  unfolding prune
  pruned-prune k t now b l = elim (Bool-cases (k =s key)) [
    | inl e ↦
        let q : pruned limiter k t b ≡ pruned limiter key t b =
          ap (λ x. pruned limiter x t b) ((eq_iff k key).0 e) in
        rw (bucket-insert k (pruned limiter k t b) b, e, q)
          (keep_twice (is_recent limiter now) (is_recent limiter t) (bucket key b)
            (λ x. recent_mono t now x l))
    | inr e ↦ rw (bucket-insert k (pruned limiter k t b) b, e) refl
  ]

  pruned-record_failure :
      (k : String) (t now : ℕ) (b : Buckets)
      → t ≤ now
      → pruned limiter key now (record_failure limiter k t b) ≡ (
          if k =s key
          then pruned limiter key now b ++ keep (is_recent limiter now) (t ∷ [])
          else pruned limiter key now b)
  unfolding record_failure
  pruned-record_failure k t now b l = elim (Bool-cases (k =s key)) [
    | inl e ↦
        let q : pruned limiter k t b ≡ pruned limiter key t b =
          ap (λ x. pruned limiter x t b) ((eq_iff k key).0 e) in
        rw
          (
            bucket-insert k (pruned limiter k t b ++ (t ∷ [])) b,
            e,
            q,
            keep-append (is_recent limiter now) (pruned limiter key t b) (t ∷ []),
            keep_twice (is_recent limiter now) (is_recent limiter t) (bucket key b)
                (λ x. recent_mono t now x l),
          )
          refl
    | inr e ↦ rw (bucket-insert k (pruned limiter k t b ++ (t ∷ [])) b, e) refl
  ]

  pruned-record_success :
      (k : String) (now : ℕ) (b : Buckets)
      → pruned limiter key now (record_success limiter k b)
        ≡ (if k =s key then [] else pruned limiter key now b)
  unfolding record_success keep
  pruned-record_success k now b = elim (Bool-cases (k =s key)) [
    | inl e ↦ rw (lookup-without k key b, e) refl
    | inr e ↦ rw (lookup-without k key b, e) refl
  ]

  InOrder-mono : (log : List Event) (t now : ℕ) → t ≤ now → InOrder t log → InOrder now log
  InOrder-mono [] t now l h = tt
  InOrder-mono (asked k u ∷ log) t now l (m, h) = (omega arith, h)
  InOrder-mono (failed k u ∷ log) t now l (m, h) = (omega arith, h)
  InOrder-mono (succeeded k ∷ log) t now l h = InOrder-mono log t now l h

  same_window :
      (log : List Event) (now : ℕ)
      → InOrder now log
      → pruned limiter key now (buckets_after limiter log)
        ≡ keep (is_recent limiter now) (failures key log)
  unfolding buckets_after apply_event failures keep lookup
  same_window [] now h = refl
  same_window (asked k t ∷ log) now (l, h) =
      pruned-prune k t now (buckets_after limiter log) l
      ∙ same_window log now (InOrder-mono log t now l h)
  same_window (failed k t ∷ log) now (l, h) = elim (Bool-cases (k =s key)) [
    | inl e ↦
        pruned-record_failure k t now (buckets_after limiter log) l
        ∙ rw
            (
              e,
              same_window log now (InOrder-mono log t now l h),
              keep-append (is_recent limiter now) (failures key log) (t ∷ []),
            )
            refl
    | inr e ↦
        pruned-record_failure k t now (buckets_after limiter log) l
        ∙ rw (e, same_window log now (InOrder-mono log t now l h)) refl
  ]
  same_window (succeeded k ∷ log) now h = elim (Bool-cases (k =s key)) [
    | inl e ↦ pruned-record_success k now (buckets_after limiter log) ∙ rw e refl
    | inr e ↦ pruned-record_success k now (buckets_after limiter log) ∙ rw e (same_window log now h)
  ]

  -- After any log of calls in the order of time, a client is blocked exactly if at least the
  -- maximum number of its failures since its last success lie in the window.
  pub is_blocked-failures :
      (log : List Event) (now : ℕ)
      → InOrder now log
      → (is_blocked limiter key now (buckets_after limiter log)).0
        ≡ leb limiter.max_failures (length (keep (is_recent limiter now) (failures key log)))
  unfolding is_blocked
  is_blocked-failures log now h =
      ap (λ x. leb limiter.max_failures (length x)) (same_window log now h)
