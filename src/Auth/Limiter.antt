-- ===== src/Auth/Limiter.antt =====
-- `LoginRateLimiter` (backend/lftpweb/core/auth.py) and the order in which the `login` handler of
-- backend/lftpweb/api/auth.py calls it. Times are readings of the monotonic clock, in microseconds.
use lftpweb.Common.{
  ℕ, ◌+◌, ◌-◌, ◌/◌, String, Bool, List, [], ◌∷◌, ◌++◌, ltb, leb, min, or_default, if◌then◌else◌,
  keep, length,
}
use lftpweb.Common.Dict.{Dict, lookup, insert, without}

pub record LoginRateLimiter : Type 0 where
  pub max_failures : ℕ
  pub window : ℕ

-- `_buckets`: the times of the failures of each client, oldest first.
abbrev pub Buckets : Type 0
Buckets = Dict (List ℕ)

abbrev pub bucket : String → Buckets → List ℕ
bucket key buckets = or_default [] (lookup key buckets)

-- What `login` answers: status 429 with the whole seconds to wait in `Retry-After`, 401, or a session.
pub data Answer : Type 0 where
  too_many_attempts : ℕ → Answer
  invalid_credentials : Answer
  signed_in : Answer

-- `min(times)`, of a list with a first member.
unfoldable pub earliest : ℕ → List ℕ → ℕ
earliest t [] = t
earliest t (u ∷ us) = min t (earliest u us)

module _ (limiter : LoginRateLimiter) where
  open limiter use {max_failures, window}

  -- `now - t < self.window_s`, written without the difference.
  abbrev pub is_recent : ℕ → ℕ → Bool
  is_recent now t = ltb now (t + window)

  -- The list that `_prune` returns, and stores.
  abbrev pub pruned : String → ℕ → Buckets → List ℕ
  pruned key now buckets = keep (is_recent now) (bucket key buckets)

  unfoldable pub prune : String → ℕ → Buckets → Buckets
  prune key now buckets = insert key (pruned key now buckets) buckets

  unfoldable pub is_blocked : String → ℕ → Buckets → Bool × Buckets
  unfolding prune
  is_blocked key now buckets =
      (leb max_failures (length (pruned key now buckets)), prune key now buckets)

  unfoldable pub record_failure : String → ℕ → Buckets → Buckets
  record_failure key now buckets = insert key (pruned key now buckets ++ (now ∷ [])) buckets

  unfoldable pub record_success : String → Buckets → Buckets
  record_success key buckets = without key buckets

  -- `max(0.0, self.window_s - (now - min(times)))`, or 0 when there are none.
  unfoldable pub wait_for : ℕ → List ℕ → ℕ
  unfolding earliest
  wait_for now [] = 0
  wait_for now (t ∷ ts) = window + earliest t ts - now

  unfoldable pub retry_after_s : String → ℕ → Buckets → ℕ × Buckets
  unfolding prune wait_for
  retry_after_s key now buckets = (wait_for now (pruned key now buckets), prune key now buckets)

  -- `login`, from the client's address and whether the credentials are right. The clock is read
  -- once here, in microseconds.
  unfoldable pub login : String → Bool → ℕ → Buckets → Answer × Buckets
  unfolding is_blocked retry_after_s record_failure record_success
  login key valid now buckets =
      let (blocked, b1) = is_blocked key now buckets in
      if blocked
      then (let (wait, b2) = retry_after_s key now b1 in
          (too_many_attempts (wait / 1_000_000 + 1), b2))
      else if valid
      then (signed_in, record_success key b1)
      else (invalid_credentials, record_failure key now b1)
