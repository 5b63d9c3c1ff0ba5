-- ===== src/Domain/Fault.antt =====
-- The sentinel errors of internal/domain. Where the source wraps a sentinel in a message, the
-- constructor says which message it is; the values that the message prints are left out.
pub data SessionFault : Type 0 where
  id_required identity_required unknown_aal client_ip_required creation_time_required : SessionFault
  ids_required unknown_status invalid_timeouts activity_before_creation : SessionFault
  active_carries_revocation revoked_needs_manual_reason expired_needs_expiry_reason : SessionFault

pub data FactorFault : Type 0 where
  aal1_carries_factors aal2_needs_factor aal3_needs_fido2 : FactorFault

pub data HashFault : Type 0 where
  hash_required salt_required unknown_algorithm version_too_low new_password_required : HashFault

pub data CredentialFault : Type 0 where
  id_required identity_required password_required creation_time_required : CredentialFault
  initiator_required matcher_required ids_required unknown_lockout_status : CredentialFault
  negative_counters history_too_deep unlocked_carries_timestamps : CredentialFault
  temporary_lock_incomplete permanent_lock_malformed empty_history_entry : CredentialFault

pub data LockoutPolicyFault : Type 0 where
  threshold_or_window temporary_duration : LockoutPolicyFault

pub data DomainError : Type 0 where
  credential_not_found account_is_locked account_not_locked password_reused : DomainError
  invalid_credential_policy invalid_session_policy : DomainError
  session_not_found session_is_expired session_is_revoked invalid_revoke_reason : DomainError
  invalid_session : SessionFault → DomainError
  aal_factor_mismatch : FactorFault → DomainError
  invalid_credential : CredentialFault → DomainError
  invalid_password_hash : HashFault → DomainError
  invalid_lockout_policy : LockoutPolicyFault → DomainError
