-- ===== src/Absence/Grace.antt =====
-- The grace period of `resolve_absence` (backend/lftpweb/core/mount_sentinel.py): when it lets go
-- of a complete item, and what it holds until then.
use lftpweb.Common.{
  ℕ, ◌+◌, ◌≤◌, ◌≡◌, refl, ◌⊎◌, inl, inr, Bool, true, false, ◌||◌, Option, none, some, arith,
  Bool-cases, not,
}
use lftpweb.Item.{ItemState, removed_local, is_complete, is_removed_local, is_remote_only}
use lftpweb.Absence.{
  Override, elapsed_grace, run_grace, resolve_absence, resolve_missing, is_local_shrink,
}

-- The grace period has run out: the mount is healthy, and the first absent reading is that old.
pub record GraceOver (missing : Option ℕ) (mount_ok : Bool) (now grace : ℕ) : Type 0 where
  pub since : ℕ
  pub first_missing : missing ≡ some since
  pub healthy : mount_ok ≡ true
  pub elapsed : since + grace ≤ now

run_grace-GraceOver :
    (s : ItemState) (missing : Option ℕ) (mount_ok : Bool) (now grace : ℕ) (expired : ℕ → Override)
    (st : ItemState) (m : Option ℕ)
    → ((since : ℕ) → expired since ≡ some (st, m) → st ≡ removed_local)
    → run_grace s missing mount_ok now grace expired ≡ some (st, m)
    → (st ≡ s) ⊎ (GraceOver missing mount_ok now grace × (st ≡ removed_local))
run_grace-GraceOver s missing false now grace expired st m x h = inl (ground arith)
run_grace-GraceOver s none true now grace expired st m x h = inl (ground arith)
run_grace-GraceOver s (some since) true now grace expired st m x h =
    elim (Bool-cases (elapsed_grace since now grace)) [
      | inl e ↦ inr (
        record { since = since; first_missing = refl; healthy = refl; elapsed = ground arith },
        x since (rw e at h),
      )
      | inr e ↦
          let q : ◌≡◌ {A = Override} (some (s, some since)) (some (st, m)) = rw e at h in inl (cc q)
    ]

removed_local_lem : (s : ItemState) → is_removed_local s ≡ true → s ≡ removed_local
removed_local_lem removed_local h = refl
removed_local_lem _ h = cc

resolve_missing-GraceOver :
    (s structural : ItemState) (missing : Option ℕ) (mount_ok : Bool) (now grace : ℕ)
    (st : ItemState) (m : Option ℕ)
    → resolve_missing s missing structural mount_ok now grace ≡ some (st, m)
    → (st ≡ s) ⊎ (GraceOver missing mount_ok now grace × (st ≡ removed_local))
unfolding resolve_missing
resolve_missing-GraceOver s structural missing mount_ok now grace st m h =
    elim (Bool-cases
      (not (is_remote_only structural) || not (is_complete s || is_removed_local s))) [
        | inl e ↦ let q : ◌≡◌ {A = Override} none (some (st, m)) = rw e at h in cc
        | inr e ↦
            let k = rw e at h in
            elim (Bool-cases (is_removed_local s)) [
              | inl r ↦ let q = rw r at k in inl (cc (removed_local_lem s r))
              | inr r ↦
                  run_grace-GraceOver s missing mount_ok now grace _ st m (λ since q. cc)
                    (rw r at k)
            ]
      ]

-- A reading that is overridden keeps the state that the item had, or says that the item was removed
-- and the grace period is over.
pub resolve_absence-GraceOver :
    (s structural : ItemState) (missing : Option ℕ) (mount_ok : Bool) (now grace : ℕ)
    (a b : Option ℕ) (st : ItemState) (m : Option ℕ)
    → resolve_absence (some s) missing structural mount_ok now grace a b ≡ some (st, m)
    → (st ≡ s) ⊎ (GraceOver missing mount_ok now grace × (st ≡ removed_local))
unfolding resolve_absence
resolve_absence-GraceOver s structural missing mount_ok now grace a b st m h =
    elim (Bool-cases (is_local_shrink s structural a b)) [
      | inl e ↦
          run_grace-GraceOver s missing mount_ok now grace (λ _. none) st m (λ since q. cc)
            (rw e at h)
      | inr e ↦ resolve_missing-GraceOver s structural missing mount_ok now grace st m (rw e at h)
    ]
