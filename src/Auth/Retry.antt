-- ===== src/Auth/Retry.antt =====
-- When a blocked client may try again (`retry_after_s` of backend/lftpweb/core/auth.py), and how
-- many failures the `login` handler lets through.
use mathlib.Core.Bool.{false≢true}
use lftpweb.Common.{
  ℕ, ◌+◌, ◌≤◌, ◌<◌, String, ◌≡◌, sym, ◌∙◌, ap, Bool, true, false, List, [], ◌∷◌, ◌++◌, arith, inl,
  inr, leb, min, ◌=s◌, keep, length, Bool-cases, length-append,
}
use lftpweb.Common.Dict.{insert, lookup-insert, lookup-without}
use lftpweb.Auth.Window.{keep_twice, recent_mono, pruned-prune}
use lftpweb.Auth.Limiter.{
  LoginRateLimiter, Buckets, bucket, is_recent, pruned, prune, is_blocked, record_failure,
  record_success, retry_after_s, wait_for, earliest, login,
}

length-keep : (f : ℕ → Bool) (xs : List ℕ) → length (keep f xs) ≤ length xs
unfolding keep
length-keep f [] = omega arith
length-keep f (x ∷ xs) = ground (arith, length-keep f xs)

min_rest : (f : ℕ → Bool) (t m : ℕ) → f (min t m) ≡ false → f t ≡ true → f m ≡ false
min_rest f t m h e = elim (Bool-cases (leb t m)) [
  | inl l ↦ let q : min t m ≡ t = ground arith in absurd (false≢true (sym h ∙ (ap f q ∙ e)))
  | inr g ↦ let q : min t m ≡ m = ground arith in sym (ap f q) ∙ h
]

-- The earliest time is one of the list, so dropping what is not after it shortens the list.
shorter_without_earliest :
    (f : ℕ → Bool) (t : ℕ) (ts : List ℕ)
    → f (earliest t ts) ≡ false
    → length (keep f (t ∷ ts)) < length (t ∷ ts)
unfolding keep earliest
shorter_without_earliest f t [] h = ground arith
shorter_without_earliest f t (u ∷ us) h = elim (Bool-cases (f t)) [
  | inl e ↦
      let r : f (earliest u us) ≡ false = min_rest f t (earliest u us) h e in
      ground (arith, shorter_without_earliest f u us r)
  | inr e ↦ ground (arith, length-keep f (u ∷ us))
]

module _ (limiter : LoginRateLimiter) where
  open limiter use {max_failures, window}

  earliest_leaves :
      (now later : ℕ) (times : List ℕ)
      → 0 < length times
      → now + wait_for limiter now times ≤ later
      → length (keep (is_recent limiter later) times) < length times
  unfolding wait_for
  earliest_leaves now later [] h l = absurd (omega arith)
  earliest_leaves now later (t ∷ ts) h l =
      shorter_without_earliest (is_recent limiter later) t ts (ground arith)

  -- Where the maximum is not 0, a blocked client that has no more failures than the maximum is let
  -- in again once the time that `retry_after_s` tells it has passed.
  pub is_blocked-retry_after_s :
      (key : String) (now later : ℕ) (b : Buckets)
      → 0 < max_failures
      → length (bucket key b) ≤ max_failures
      → (is_blocked limiter key now b).0 ≡ true
      → now + (retry_after_s limiter key now b).0 ≤ later
      → (is_blocked limiter key later b).0 ≡ false
  unfolding is_blocked retry_after_s
  is_blocked-retry_after_s key now later b m few blocked l =
      let full : length (pruned limiter key now b) ≡ max_failures =
        ground (arith, length-keep (is_recent limiter now) (bucket key b)) in
      let same : keep (is_recent limiter later) (pruned limiter key now b)
          ≡ pruned limiter key later b =
        keep_twice (is_recent limiter later) (is_recent limiter now) (bucket key b)
          (λ x. recent_mono limiter key now later x (omega arith)) in
      let fewer : length (keep (is_recent limiter later) (pruned limiter key now b))
          < length (pruned limiter key now b) =
        earliest_leaves now later (pruned limiter key now b) (omega arith) l in
      let less = rw same at fewer in ground arith

  -- Every bucket has at most the maximum number of failures.
  abbrev pub WithinLimit : Buckets → Type 0
  WithinLimit b = (key : String) → length (bucket key b) ≤ max_failures

  WithinLimit-insert :
      (key : String) (ts : List ℕ) (b : Buckets)
      → length ts ≤ max_failures
      → WithinLimit b
      → WithinLimit (insert key ts b)
  WithinLimit-insert key ts b l h k = elim (Bool-cases (key =s k)) [
    | inl e ↦ rw (lookup-insert key k ts b, e) l
    | inr e ↦ rw (lookup-insert key k ts b, e) (h k)
  ]

  WithinLimit-prune :
      (key : String) (now : ℕ) (b : Buckets) → WithinLimit b → WithinLimit (prune limiter key now b)
  unfolding prune
  WithinLimit-prune key now b h =
      WithinLimit-insert key (pruned limiter key now b) b
        (omega (arith, length-keep (is_recent limiter now) (bucket key b), h key)) h

  WithinLimit-record_failure :
      (key : String) (now : ℕ) (b : Buckets)
      → length (pruned limiter key now b) < max_failures
      → WithinLimit b
      → WithinLimit (record_failure limiter key now b)
  unfolding record_failure
  WithinLimit-record_failure key now b l h =
      WithinLimit-insert key (pruned limiter key now b ++ (now ∷ [])) b
        (omega (arith, length-append (pruned limiter key now b) (now ∷ []))) h

  WithinLimit-record_success :
      (key : String) (b : Buckets) → WithinLimit b → WithinLimit (record_success limiter key b)
  unfolding record_success
  WithinLimit-record_success key b h k = elim (Bool-cases (key =s k)) [
    | inl e ↦ rw (lookup-without key k b, e) (omega arith)
    | inr e ↦ rw (lookup-without key k b, e) (h k)
  ]

  -- Calls of `login`, one after the other, never count more failures of any client than the
  -- maximum, whatever the credentials and the times are.
  pub login-WithinLimit :
      (key : String) (valid : Bool) (now : ℕ) (b : Buckets)
      → WithinLimit b
      → WithinLimit (login limiter key valid now b).1
  unfolding login is_blocked retry_after_s
  login-WithinLimit key valid now b h =
      let h1 : WithinLimit (prune limiter key now b) = WithinLimit-prune key now b h in
      elim (Bool-cases (leb max_failures (length (pruned limiter key now b)))) [
        | inl e ↦ rw e (WithinLimit-prune key now (prune limiter key now b) h1)
        | inr e ↦ rw e (elim (Bool-cases valid) [
          | inl v ↦ rw v (WithinLimit-record_success key (prune limiter key now b) h1)
          | inr v ↦ rw v (
              WithinLimit-record_failure key now (prune limiter key now b)
                (rw (pruned-prune limiter key key now now b (omega arith)) (ground arith)) h1)
        ])
      ]
