-- ===== src/Checks/Auth.antt =====
-- The login limiter (backend/lftpweb/core/auth.py) at concrete inputs.
use lftpweb.Common.{◌≡◌, refl, false, List, [], ◌∷◌, arith, leb, keep, length}
use lftpweb.Common.Dict.{lookup}
use lftpweb.Auth.Limiter.{
  LoginRateLimiter, Buckets, is_recent, is_blocked, retry_after_s, login, wait_for, earliest,
}
use lftpweb.Auth.Window.{Event, failed, asked, buckets_after, failures, is_blocked-failures}
use lftpweb.Auth.Retry.{WithinLimit, is_blocked-retry_after_s, login-WithinLimit}

abbrev limiter : LoginRateLimiter
limiter = record { max_failures = 2; window = 300 }

abbrev log : List Event
log = failed "ip" 120 ∷ asked "ip" 110 ∷ failed "ip" 100 ∷ []

is_blocked-failures_example :
    (is_blocked limiter "ip" 130 (buckets_after limiter log)).0
    ≡ leb 2 (length (keep (is_recent limiter 130) (failures "ip" log)))
is_blocked-failures_example =
    is_blocked-failures limiter "ip" log 130 (omega arith, (omega arith, (omega arith, tt)))

abbrev full : Buckets
full = ("ip", 100 ∷ 120 ∷ []) ∷ []

is_blocked-retry_after_s_example : (is_blocked limiter "ip" 400 full).0 ≡ false
unfolding is_blocked lookup keep retry_after_s wait_for earliest
is_blocked-retry_after_s_example =
    is_blocked-retry_after_s limiter "ip" 130 400 full (omega arith) (omega arith) refl
      (omega arith)

no_buckets : WithinLimit limiter []
unfolding lookup
no_buckets key = omega arith

login-WithinLimit_example : WithinLimit limiter (login limiter "ip" false 130 []).1
login-WithinLimit_example = login-WithinLimit limiter "ip" false 130 [] no_buckets
