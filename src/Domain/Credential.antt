-- ===== src/Domain/Credential.antt =====
-- Credential of internal/domain/credential.go: its state, the queries on it, and the methods that
-- verify, lock and unlock it. Methods take the receiver last; following a `nil` and indexing out of
-- range are the `panics` of an `Outcome`.
pub mod Creation
pub mod Change
pub mod Validity
pub mod Soundness
pub mod History
pub mod Outcomes
pub mod Replacement
pub mod Recent
pub mod Reuse
pub mod RoundTrip
pub mod Lockout
pub mod Threshold
pub mod Lifecycle
pub mod Permanent
pub mod Tests
use araquanid.Domain.Policy.{AttemptContext, LockoutPolicy, validate_lockout_policy}
use araquanid.Common.Time.{Time, before, sub, add}
use araquanid.Domain.Password.{PasswordHash}
use araquanid.Common.{
  if◌then◌else◌, ◌++◌, ◌∷◌, ◌||◌, none, some, [], String, List, Option, Bool, true, false, length,
  not,
}
use araquanid.Common.Int.{pos, increment, leb_ℤ, ℤ, index, ltb_ℤ, decrement}
use araquanid.Domain.Event.{account_was_locked, account_was_unlocked, login_failed, DomainEvent}
use araquanid.Common.Method.{fails, returns, panics, Outcome, ◌>>◌, lift, modify, on_error}
use araquanid.Domain.Fault.{account_is_locked, account_not_locked, DomainError}
use araquanid.Domain.Kinds.{
  invalid_credentials, locked_temporary, locked_permanent, unlocked, account_locked, IpAddr,
  LockoutStatus, LoginFailureReason,
}

pub record PasswordHistoryEntry : Type 0 where
  pub hash : PasswordHash
  pub created_at : Time

pub record Credential : Type 0 where
  pub id : String
  pub identity : String
  pub password : PasswordHash
  pub password_created_at : Time
  pub password_expires_at : Option Time
  pub force_password_change : Bool
  pub failed_attempt_count : ℤ
  pub last_failed_at : Option Time
  pub lockout_status : LockoutStatus
  pub locked_at : Option Time
  pub locked_until : Option Time
  pub lockout_history_count : ℤ
  pub history : List PasswordHistoryEntry  -- newest first
  pub events : List DomainEvent

abbrev pub CredentialMethod : Type 0 → Type 0
CredentialMethod A = Credential → Outcome Credential DomainError A

abbrev pub record_event : DomainEvent → Credential → Credential
record_event e c = record c { events = c.events ++ e ∷ [] }

-- `IsLocked`
unfoldable pub is_locked : Time → CredentialMethod Bool
is_locked now c = elim c.lockout_status [
  | locked_permanent ↦ returns true c
  | locked_temporary ↦ elim c.locked_until [
    | none ↦ panics
    | some until ↦ returns (before now until) c
  ]
  | _ ↦ returns false c
]

-- `IsPasswordExpired`
unfoldable pub is_password_expired : Time → Credential → Bool
is_password_expired now c = elim c.password_expires_at [
  | none ↦ false
  | some expiry ↦ not (before now expiry)
]

-- `RequiresPasswordChange`
unfoldable pub requires_password_change : Time → Credential → Bool
unfolding is_password_expired
requires_password_change now c = c.force_password_change || is_password_expired now c

-- The event that `unlock` records.
abbrev pub unlock_event : String → Time → Credential → DomainEvent
unlock_event by at c = account_was_unlocked (record {
  credential_id = c.id;
  identity_id = c.identity;
  unlocked_by = by;
  previous_lockout_type = c.lockout_status;
  at = at;
})

-- `unlock`
unfoldable pub unlock : String → Time → Credential → Credential
unlock by at c = record_event (unlock_event by at c) (record c {
  lockout_status = unlocked;
  locked_at = none;
  locked_until = none;
  failed_attempt_count = pos 0;
  last_failed_at = none;
})

-- `EnsureVerifiable`
unfoldable pub ensure_verifiable : Time → CredentialMethod (Unit {0})
unfolding unlock
ensure_verifiable now c = elim c.lockout_status [
  | unlocked ↦ returns tt c
  | locked_permanent ↦ fails account_is_locked c
  | _ ↦ elim c.locked_until [
    | none ↦ panics
    | some until ↦
        if before now until then fails account_is_locked c else returns tt (unlock "" until c)
  ]
]

-- `recordLoginFailed`
unfoldable pub record_login_failed :
    AttemptContext → LoginFailureReason → Time → Credential → Credential
record_login_failed attempt reason now c =
    record_event
      (login_failed (record {
        credential_id = c.id;
        identity_id = c.identity;
        company_code = attempt.company_code;
        reason = reason;
        failed_attempt_count = c.failed_attempt_count;
        ip_address = attempt.ip;
        user_agent = attempt.user_agent;
        device_fingerprint = attempt.device_fingerprint;
        at = now;
      }))
      c

-- The event that `lock` records, from the locked credential.
abbrev pub lock_event : IpAddr → Time → Credential → DomainEvent
lock_event trigger_ip now c = account_was_locked (record {
  credential_id = c.id;
  identity_id = c.identity;
  lockout_type = c.lockout_status;
  locked_until = c.locked_until;
  trigger_ip = trigger_ip;
  failed_attempt_count = c.failed_attempt_count;
  at = now;
})

abbrev pub set_lock : LockoutStatus → Option Time → IpAddr → Time → Credential → Credential
set_lock status until trigger_ip now c =
    let c' = record c { lockout_status = status; locked_until = until } in
    record_event (lock_event trigger_ip now c') c'

-- `lock`
unfoldable pub lock : LockoutPolicy → IpAddr → Time → CredentialMethod (Unit {0})
lock policy trigger_ip now c =
    let n = increment c.lockout_history_count in
    let c' = record c { lockout_history_count = n; locked_at = some now } in
    if leb_ℤ n (pos (length policy.temporary_durations))
    then elim (index policy.temporary_durations (decrement n)) [
      | none ↦ panics
      | some d ↦ returns tt (set_lock locked_temporary (some (add now d)) trigger_ip now c')
    ]
    else returns tt (set_lock locked_permanent none trigger_ip now c')

-- The failures before this one are no longer consecutive with it.
unfoldable pub is_stale : LockoutPolicy → Time → Credential → Bool
is_stale policy now c = elim c.last_failed_at [
  | none ↦ false
  | some last ↦ ltb_ℤ policy.window (sub now last)
]

-- The part of `RecordFailedAttempt` that counts the failure.
unfoldable pub count_failure : AttemptContext → LockoutPolicy → Time → Credential → Credential
unfolding is_stale record_login_failed
count_failure attempt policy now c =
    let before_it = if is_stale policy now c then pos 0 else c.failed_attempt_count in
    record_login_failed attempt invalid_credentials now
      (record c { failed_attempt_count = increment before_it; last_failed_at = some now })

-- The end of `RecordFailedAttempt`.
unfoldable pub lock_at_threshold : LockoutPolicy → IpAddr → Time → CredentialMethod (Unit {0})
unfolding lock
lock_at_threshold policy ip now c =
    if leb_ℤ policy.threshold c.failed_attempt_count then lock policy ip now c else returns tt c

-- `RecordFailedAttempt`
unfoldable pub record_failed_attempt :
    AttemptContext → LockoutPolicy → Time → CredentialMethod (Unit {0})
record_failed_attempt attempt policy now = do
  lift (validate_lockout_policy policy)
  on_error (record_login_failed attempt account_locked now) (ensure_verifiable now)
  modify (count_failure attempt policy now)
  lock_at_threshold policy attempt.ip now

-- `RecordSuccessfulVerification`
unfoldable pub record_successful_verification : Time → CredentialMethod (Unit {0})
unfolding ensure_verifiable
record_successful_verification now = do
  ensure_verifiable now
  modify λ c. record c { failed_attempt_count = pos 0; last_failed_at = none }

-- `Unlock`
unfoldable pub admin_unlock : String → Time → CredentialMethod (Unit {0})
unfolding unlock
admin_unlock by now c = elim c.lockout_status [
  | unlocked ↦ fails account_not_locked c
  | _ ↦ returns tt (unlock by now c)
]

-- `PullEvents`
unfoldable pub pull_events : Credential → List DomainEvent × Credential
pull_events c = (c.events, record c { events = [] })
