-- ===== src/Domain/Event.antt =====
-- The domain events of credential.go and authentication_session.go. `DomainEvent`, an interface in
-- the source, is the sum of the event types that implement it.
use araquanid.Common.{String, Option}
use araquanid.Common.Int.{ℤ}
use araquanid.Common.Time.{Time, Duration}
use araquanid.Domain.Kinds.{
  IpAddr, Aal, RevokeReason, LockoutStatus, LoginFailureReason, PasswordChangeType,
}

pub record SessionCreated : Type 0 where
  pub session_id : String
  pub identity_id : String
  pub device_id : String
  pub aal : Aal
  pub ip_address : IpAddr
  pub idle_timeout : Duration
  pub absolute_expires_at : Time
  pub at : Time

pub record SessionRevoked : Type 0 where
  pub session_id : String
  pub identity_id : String
  pub reason : RevokeReason
  pub revoked_by : String
  pub at : Time

pub record LoginFailed : Type 0 where
  pub credential_id : String
  pub identity_id : String
  pub company_code : String
  pub reason : LoginFailureReason
  pub failed_attempt_count : ℤ
  pub ip_address : IpAddr
  pub user_agent : String
  pub device_fingerprint : String
  pub at : Time

pub record AccountLocked : Type 0 where
  pub credential_id : String
  pub identity_id : String
  pub lockout_type : LockoutStatus
  pub locked_until : Option Time
  pub trigger_ip : IpAddr
  pub failed_attempt_count : ℤ
  pub at : Time

pub record AccountUnlocked : Type 0 where
  pub credential_id : String
  pub identity_id : String
  pub unlocked_by : String
  pub previous_lockout_type : LockoutStatus
  pub at : Time

pub record PasswordChanged : Type 0 where
  pub credential_id : String
  pub identity_id : String
  pub changed_by : String
  pub change_type : PasswordChangeType
  pub at : Time

pub record PasswordResetCompleted : Type 0 where
  pub credential_id : String
  pub identity_id : String
  pub at : Time

pub record AdminInitiatedPasswordReset : Type 0 where
  pub credential_id : String
  pub identity_id : String
  pub initiated_by : String
  pub at : Time

pub data DomainEvent : Type 0 where
  session_created : SessionCreated → DomainEvent
  session_ended : SessionRevoked → DomainEvent
  login_failed : LoginFailed → DomainEvent
  account_was_locked : AccountLocked → DomainEvent
  account_was_unlocked : AccountUnlocked → DomainEvent
  password_changed : PasswordChanged → DomainEvent
  password_reset_completed : PasswordResetCompleted → DomainEvent
  admin_initiated_password_reset : AdminInitiatedPasswordReset → DomainEvent

-- The `EventType` methods.
unfoldable pub event_type : DomainEvent → String
event_type (session_created e) = "auth.SessionCreated"
event_type (session_ended e) = "auth.SessionRevoked"
event_type (login_failed e) = "auth.LoginFailed"
event_type (account_was_locked e) = "auth.AccountLocked"
event_type (account_was_unlocked e) = "auth.AccountUnlocked"
event_type (password_changed e) = "auth.PasswordChanged"
event_type (password_reset_completed e) = "auth.PasswordResetCompleted"
event_type (admin_initiated_password_reset e) = "auth.AdminInitiatedPasswordReset"

-- The `AggregateType` methods.
unfoldable pub aggregate_type : DomainEvent → String
aggregate_type (session_created e) = "AuthenticationSession"
aggregate_type (session_ended e) = "AuthenticationSession"
aggregate_type _ = "CredentialAggregate"

-- The `AggregateID` methods.
unfoldable pub aggregate_id : DomainEvent → String
aggregate_id (session_created e) = e.session_id
aggregate_id (session_ended e) = e.session_id
aggregate_id (login_failed e) = e.credential_id
aggregate_id (account_was_locked e) = e.credential_id
aggregate_id (account_was_unlocked e) = e.credential_id
aggregate_id (password_changed e) = e.credential_id
aggregate_id (password_reset_completed e) = e.credential_id
aggregate_id (admin_initiated_password_reset e) = e.credential_id

-- The `OccurredAt` methods.
unfoldable pub occurred_at : DomainEvent → Time
occurred_at (session_created e) = e.at
occurred_at (session_ended e) = e.at
occurred_at (login_failed e) = e.at
occurred_at (account_was_locked e) = e.at
occurred_at (account_was_unlocked e) = e.at
occurred_at (password_changed e) = e.at
occurred_at (password_reset_completed e) = e.at
occurred_at (admin_initiated_password_reset e) = e.at
