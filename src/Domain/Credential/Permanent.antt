-- ===== src/Domain/Credential/Permanent.antt =====
-- A permanent lock (internal/domain/credential.go): only an administrator lifts it, and while it holds
-- neither a change nor a reset replaces the password.
use araquanid.Common.Result.{Result-cases}
use araquanid.Domain.Password.{PasswordHash}
use araquanid.Domain.Policy.{
  AttemptContext, LockoutPolicy, CredentialPolicy, validate_lockout_policy,
  validate_credential_policy,
}
use araquanid.Common.Time.{Time}
use araquanid.Domain.Credential.Change.{
  change_password, reset_password, PasswordMatcher, mark_force_password_change, is_permanent,
}
use araquanid.Domain.Credential.{
  Credential, ensure_verifiable, record_failed_attempt, record_successful_verification, pull_events,
  record_login_failed,
}
use araquanid.Common.{◌∷◌, ◌≡◌, refl, inl, inr, some, [], List, All, arith, String, ap}
use araquanid.Domain.Kinds.{locked_permanent}
use araquanid.Domain.Fault.{account_is_locked, DomainError}
use araquanid.Domain.Credential.Lifecycle.{
  changes, unlocks, marks, succeeds, pulls, resets, verifies, fails_attempt, Call, call, run,
  survivor,
}
use araquanid.Common.Method.{returns, fails, panics, Leaves, Outcome, ◌>>=◌, on_error}

-- Any call but `Unlock`.
abbrev pub IsNotUnlock : Call → Type 0
IsNotUnlock (unlocks by now) = ⊥
IsNotUnlock _ = Unit

-- Permanently locked, with the password and the history of `c`.
pub record IsFrozen (c d : Credential) : Type 0 where
  pub status : d.lockout_status ≡ locked_permanent
  pub password : d.password ≡ c.password
  pub history : d.history ≡ c.history

refused_when_permanent :
    (now : Time) (d : Credential)
    → d.lockout_status ≡ locked_permanent
    → ensure_verifiable now d ≡ fails account_is_locked d
unfolding ensure_verifiable
refused_when_permanent now d h = ground arith

attempt-IsFrozen :
    (attempt : AttemptContext) (policy : LockoutPolicy) (now : Time) (c d : Credential)
    → IsFrozen c d
    → Leaves (IsFrozen c) (record_failed_attempt attempt policy now d)
unfolding record_failed_attempt
attempt-IsFrozen attempt policy now c d h = elim (Result-cases (validate_lockout_policy policy)) [
  | inr (e, refused) ↦ rw (refused, record_failed_attempt) h
  | inl passed ↦
      rw (passed, record_failed_attempt)
        (rw (refused_when_permanent now d h.status, ◌>>=◌, on_error)
          (unfold record_login_failed in
            record { status = h.status; password = h.password; history = h.history }))
]

change-IsFrozen :
    (new_hash : PasswordHash) (is_reuse : PasswordMatcher) (by : String) (policy : CredentialPolicy)
    (now : Time) (c d : Credential)
    → IsFrozen c d
    → Leaves (IsFrozen c) (change_password new_hash is_reuse by policy now d)
unfolding change_password
change-IsFrozen new_hash is_reuse by policy now c d h =
    elim (Result-cases (validate_credential_policy policy)) [
      | inr (e, refused) ↦ rw (refused, change_password) h
      | inl passed ↦
          rw (passed, change_password) (rw (refused_when_permanent now d h.status, ◌>>=◌) h)
    ]

reset-IsFrozen :
    (new_hash : PasswordHash) (is_reuse : PasswordMatcher) (policy : CredentialPolicy) (now : Time)
    (c d : Credential)
    → IsFrozen c d
    → Leaves (IsFrozen c) (reset_password new_hash is_reuse policy now d)
unfolding reset_password
reset-IsFrozen new_hash is_reuse policy now c d h =
    elim (Result-cases (validate_credential_policy policy)) [
      | inr (e, refused) ↦ rw (refused, reset_password) h
      | inl passed ↦ rw (passed, ap is_permanent h.status, reset_password) h
    ]

verification-IsFrozen :
    (now : Time) (c d : Credential)
    → IsFrozen c d
    → Leaves (IsFrozen c) (record_successful_verification now d)
unfolding record_successful_verification
verification-IsFrozen now c d h = ground (arith, refused_when_permanent now d h.status)

call-IsFrozen :
    (x : Call) (c d : Credential) → IsNotUnlock x → IsFrozen c d → Leaves (IsFrozen c) (call x d)
unfolding call
call-IsFrozen (verifies now) c d n h = rw (refused_when_permanent now d h.status) h
call-IsFrozen (fails_attempt attempt policy now) c d n h = attempt-IsFrozen attempt policy now c d h
call-IsFrozen (succeeds now) c d n h = verification-IsFrozen now c d h
call-IsFrozen (unlocks by now) c d n h = absurd n
call-IsFrozen (changes new_hash is_reuse by policy now) c d n h =
    change-IsFrozen new_hash is_reuse by policy now c d h
call-IsFrozen (resets new_hash is_reuse policy now) c d n h =
    reset-IsFrozen new_hash is_reuse policy now c d h
call-IsFrozen (marks by now) c d n h = unfold mark_force_password_change in ground arith
call-IsFrozen pulls c d n h = unfold pull_events in ground arith

survivor-IsFrozen :
    (c : Credential) (o : Outcome Credential DomainError (Unit {0}))
    → Leaves (IsFrozen c) o
    → (d : Credential) × (survivor o ≡ some d) × IsFrozen c d
survivor-IsFrozen c (returns a d) h = (d, refl, h)
survivor-IsFrozen c (fails e d) h = (d, refl, h)
survivor-IsFrozen c panics h = absurd h

run_from-IsFrozen :
    (xs : List Call) (c d : Credential)
    → All IsNotUnlock xs
    → IsFrozen c d
    → (d' : Credential) × (run xs d ≡ some d') × IsFrozen c d'
unfolding run
run_from-IsFrozen [] c d n h = (d, refl, h)
run_from-IsFrozen (x ∷ xs) c d n h =
    let (d', e, h') = survivor-IsFrozen c (call x d) (call-IsFrozen x c d n.0 h) in
    let (d'', e', h'') = run_from-IsFrozen xs c d' n.1 h' in (d'', rw (e, run) e', h'')

-- Under a permanent lock every sequence of calls without an administrator's Unlock, failed and
-- successful verifications, changes and resets at any time among them, runs without a panic, and
-- leaves the lock in place and the password and its history as they were.
pub run-IsFrozen :
    (xs : List Call) (c : Credential)
    → c.lockout_status ≡ locked_permanent
    → All IsNotUnlock xs
    → (d : Credential) × (run xs c ≡ some d) × IsFrozen c d
run-IsFrozen xs c h n =
    run_from-IsFrozen xs c c n (record { status = h; password = refl; history = refl })
