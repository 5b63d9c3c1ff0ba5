-- ===== src/Domain/Credential/Creation.antt =====
-- NewCredential of internal/domain/credential.go, and the persistence shape of a credential:
-- CredentialSnapshot, Snapshot and RehydrateCredential. The `switch`es and the loop are functions.
use araquanid.Common.Time.{Time, is_zero}
use araquanid.Domain.Password.{PasswordHash, is_zero_hash}
use araquanid.Domain.Credential.{Credential, PasswordHistoryEntry}
use araquanid.Domain.Policy.{expiry_from, validate_credential_policy, CredentialPolicy}
use araquanid.Common.{
  ◌||◌, ◌∷◌, none, [], String, List, Option, Bool, not, is_none, is_empty, length,
}
use araquanid.Domain.Kinds.{
  locked_temporary, unlocked, locked_permanent, LockoutStatus, is_valid_lockout,
}
use araquanid.Domain.Fault.{
  temporary_lock_incomplete, empty_history_entry, unlocked_carries_timestamps, negative_counters,
  permanent_lock_malformed, invalid_credential, password_required, unknown_lockout_status,
  history_too_deep, DomainError, CredentialFault,
}
use araquanid.Common.Int.{pos, ℤ, ltb_ℤ}
use araquanid.Common.Result.{ok, Result, reject_if, ◌>>◌}

pub record NewCredentialParams : Type 0 where
  pub id : String
  pub identity : String
  pub password : PasswordHash
  pub policy : CredentialPolicy
  pub force_change : Bool
  pub now : Time

-- The `switch` of `NewCredential`.
unfoldable pub check_credential_params : NewCredentialParams → Result DomainError (Unit {0})
check_credential_params p = do
  reject_if (is_empty p.id) (invalid_credential CredentialFault.id_required)
  reject_if (is_empty p.identity) (invalid_credential CredentialFault.identity_required)
  reject_if (is_zero_hash p.password) (invalid_credential password_required)
  reject_if (is_zero p.now) (invalid_credential CredentialFault.creation_time_required)

-- The credential that `NewCredential` builds once its parameters have passed.
unfoldable pub initial_credential : NewCredentialParams → Credential
unfolding expiry_from
initial_credential p = record {
  id = p.id;
  identity = p.identity;
  password = p.password;
  password_created_at = p.now;
  password_expires_at = expiry_from p.policy p.now;
  force_password_change = p.force_change;
  failed_attempt_count = pos 0;
  last_failed_at = none;
  lockout_status = unlocked;
  locked_at = none;
  locked_until = none;
  lockout_history_count = pos 0;
  history = [];
  events = [];
}

-- `NewCredential`
unfoldable pub new_credential : NewCredentialParams → Result DomainError Credential
unfolding check_credential_params validate_credential_policy initial_credential
new_credential p = do
  check_credential_params p
  validate_credential_policy p.policy
  ok (initial_credential p)

pub record CredentialSnapshot : Type 0 where
  pub id : String
  pub identity_id : String
  pub password : PasswordHash
  pub password_created_at : Time
  pub password_expires_at : Option Time
  pub force_password_change : Bool
  pub failed_attempt_count : ℤ
  pub last_failed_at : Option Time
  pub lockout_status : LockoutStatus
  pub locked_at : Option Time
  pub locked_until : Option Time
  pub lockout_history_count : ℤ
  pub history : List PasswordHistoryEntry

-- `Snapshot`
unfoldable pub snapshot : Credential → CredentialSnapshot
snapshot c = record {
  id = c.id;
  identity_id = c.identity;
  password = c.password;
  password_created_at = c.password_created_at;
  password_expires_at = c.password_expires_at;
  force_password_change = c.force_password_change;
  failed_attempt_count = c.failed_attempt_count;
  last_failed_at = c.last_failed_at;
  lockout_status = c.lockout_status;
  locked_at = c.locked_at;
  locked_until = c.locked_until;
  lockout_history_count = c.lockout_history_count;
  history = c.history;
}

-- The first `switch` of `RehydrateCredential`.
unfoldable pub check_credential_fields :
    CredentialPolicy → CredentialSnapshot → Result DomainError (Unit {0})
check_credential_fields policy n = do
  reject_if (is_empty n.id || is_empty n.identity_id)
      (invalid_credential CredentialFault.ids_required)
  reject_if (is_zero_hash n.password) (invalid_credential password_required)
  reject_if (is_zero n.password_created_at)
      (invalid_credential CredentialFault.creation_time_required)
  reject_if (not (is_valid_lockout n.lockout_status)) (invalid_credential unknown_lockout_status)
  reject_if (ltb_ℤ n.failed_attempt_count (pos 0) || ltb_ℤ n.lockout_history_count (pos 0))
      (invalid_credential negative_counters)
  reject_if (ltb_ℤ policy.history_depth (pos (length n.history)))
      (invalid_credential history_too_deep)

-- The second: the lockout status against the timestamps and the count of the locks.
unfoldable pub check_lock :
    LockoutStatus → Option Time → Option Time → ℤ → Result DomainError (Unit {0})
check_lock unlocked at until n =
    reject_if (not (is_none at) || not (is_none until))
      (invalid_credential unlocked_carries_timestamps)
check_lock locked_temporary at until n =
    reject_if (is_none at || is_none until || ltb_ℤ n (pos 1))
      (invalid_credential temporary_lock_incomplete)
check_lock locked_permanent at until n =
    reject_if (is_none at || not (is_none until) || ltb_ℤ n (pos 1))
      (invalid_credential permanent_lock_malformed)
check_lock _ at until n = ok tt

-- The loop over the password history.
unfoldable pub check_history : List PasswordHistoryEntry → Result DomainError (Unit {0})
check_history [] = ok tt
check_history (e ∷ es) =
    reject_if (is_zero_hash e.hash) (invalid_credential empty_history_entry) >> check_history es

-- The credential that `RehydrateCredential` builds once the snapshot has passed.
abbrev pub restored_credential : CredentialSnapshot → Credential
restored_credential n = record {
  id = n.id;
  identity = n.identity_id;
  password = n.password;
  password_created_at = n.password_created_at;
  password_expires_at = n.password_expires_at;
  force_password_change = n.force_password_change;
  failed_attempt_count = n.failed_attempt_count;
  last_failed_at = n.last_failed_at;
  lockout_status = n.lockout_status;
  locked_at = n.locked_at;
  locked_until = n.locked_until;
  lockout_history_count = n.lockout_history_count;
  history = n.history;
  events = [];
}

-- `RehydrateCredential`
unfoldable pub rehydrate_credential :
    CredentialSnapshot → CredentialPolicy → Result DomainError Credential
unfolding validate_credential_policy check_credential_fields check_lock check_history
rehydrate_credential n policy = do
  validate_credential_policy policy
  check_credential_fields policy n
  check_lock n.lockout_status n.locked_at n.locked_until n.lockout_history_count
  check_history n.history
  ok (restored_credential n)
