-- ===== src/Domain/Credential/Lockout.antt =====
-- Locking and unlocking: IsLocked, EnsureVerifiable, RecordFailedAttempt and lock of
-- internal/domain/credential.go.
use araquanid.Domain.Credential.Validity.{IsValid}
use araquanid.Common.Time.{Time, add}
use araquanid.Domain.Policy.{LockoutPolicy, AttemptContext, validate_lockout_policy}
use araquanid.Domain.Credential.{
  Credential, is_locked, lock, record_failed_attempt, unlock, ensure_verifiable,
  record_login_failed, lock_at_threshold, set_lock, count_failure,
}
use araquanid.Common.{
  ◌<◌, ◌+◌, ◌≡◌, ◌⊎◌, none, some, ℕ, true, false, arith, get_elem?, inl, inr, Option-cases,
  get_elem?-none, get_elem?-some,
}
use araquanid.Common.Int.{pos, max_int}
use araquanid.Common.Result.{ok}
use araquanid.Common.Method.{◌>>=◌, on_error}
use araquanid.Domain.Fault.{account_is_locked}
use araquanid.Domain.Kinds.{account_locked, locked_permanent, locked_temporary, IpAddr, unlocked}
use araquanid.Common.Method.{fails, returns}

-- The credential once an elapsed temporary lock is lifted; one without a lock stays as it is.
abbrev pub lifted : Credential → Credential
lifted c = elim c.locked_until [ none ↦ c | some until ↦ unlock "" until c ]

-- `IsLocked` and `EnsureVerifiable` agree on a well-formed credential, and neither panics: while it is
-- locked, verification is refused and nothing changes; otherwise verification is open, and a temporary
-- lock that has elapsed is lifted, as of the instant at which it ran out.
pub ensure_verifiable-is_locked :
    (now : Time) (c : Credential)
    → IsValid c
    → ((is_locked now c ≡ returns true c) × (ensure_verifiable now c ≡ fails account_is_locked c))
      ⊎ ((is_locked now c ≡ returns false c) × (ensure_verifiable now c ≡ returns tt (lifted c)))
unfolding is_locked ensure_verifiable
ensure_verifiable-is_locked now c v = ground arith

-- What `lock` makes of a credential whose count of locks is not negative and can go up: the n-th lock
-- is temporary with the n-th duration of the policy, and permanent once the durations are used up. It
-- counts the lock, and records it.
pub lock_lem :
    (policy : LockoutPolicy) (ip : IpAddr) (now : Time) (n : ℕ) (c : Credential)
    → c.lockout_history_count ≡ pos n
    → n < max_int
    → lock policy ip now c ≡ (
        let c' = record c { lockout_history_count = pos (n + 1); locked_at = some now } in
        elim (get_elem? policy.temporary_durations n) [
          | some d ↦ returns tt (set_lock locked_temporary (some (add now d)) ip now c')
          | none ↦ returns tt (set_lock locked_permanent none ip now c')
        ])
unfolding lock
lock_lem policy ip now n c e h =
    let ds = policy.temporary_durations in
    elim (Option-cases (get_elem? ds n)) [
      | inl out ↦ rw out (ground (arith, get_elem?-none ds n out))
      | inr (d, found) ↦ rw found (ground (arith, get_elem?-some ds n found))
    ]

-- A failed attempt while the credential is locked records LoginFailed with the reason ACCOUNT_LOCKED,
-- changes nothing else, the counter included, and is refused.
pub record_failed_attempt_locked :
    (attempt : AttemptContext) (policy : LockoutPolicy) (now : Time) (c : Credential)
    → validate_lockout_policy policy ≡ ok tt
    → IsValid c
    → is_locked now c ≡ returns true c
    → record_failed_attempt attempt policy now c
      ≡ fails account_is_locked (record_login_failed attempt account_locked now c)
unfolding record_failed_attempt
record_failed_attempt_locked attempt policy now c p v h =
    elim (ensure_verifiable-is_locked now c v) [
      | inl (_, refused) ↦ rw (p, record_failed_attempt) (rw (refused, ◌>>=◌, on_error))
      | inr (open_now, _) ↦ cc
    ]

-- A failed attempt while it is not: an elapsed lock is lifted, the failure is counted and recorded,
-- and at the threshold the credential is locked.
pub record_failed_attempt_open :
    (attempt : AttemptContext) (policy : LockoutPolicy) (now : Time) (c : Credential)
    → validate_lockout_policy policy ≡ ok tt
    → IsValid c
    → is_locked now c ≡ returns false c
    → record_failed_attempt attempt policy now c
      ≡ lock_at_threshold policy attempt.ip now (count_failure attempt policy now (lifted c))
unfolding record_failed_attempt
record_failed_attempt_open attempt policy now c p v h = elim (ensure_verifiable-is_locked now c v) [
  | inl (locked_now, _) ↦ cc
  | inr (_, lifts) ↦ rw (p, record_failed_attempt) (rw (lifts, ◌>>=◌, on_error))
]

pub ensure_verifiable_unlocked :
    (now : Time) (c : Credential)
    → c.lockout_status ≡ unlocked
    → ensure_verifiable now c ≡ returns tt c
unfolding ensure_verifiable
ensure_verifiable_unlocked now c u = ground arith
