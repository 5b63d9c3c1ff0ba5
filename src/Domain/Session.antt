-- ===== src/Domain/Session.antt =====
-- AuthenticationSession of internal/domain/authentication_session.go: its policy, its state and its
-- methods. Methods take the receiver last. `slices.Clone` is no operation on a list, and an `error`
-- of a method is the `fails` of an `Outcome`.
pub mod Creation
pub mod Snapshot
pub mod Validity
pub mod Lifecycle
pub mod Expiry
pub mod Published
pub mod RoundTrip
pub mod Tests
use araquanid.Common.{
  String, Bool, true, false, not, ◌&&◌, Option, none, some, List, [], ◌∷◌, ◌++◌, is_none,
  if◌then◌else◌,
}
use araquanid.Common.Time.{Time, Duration, before, after, add, minutes, hours}
use araquanid.Common.Method.{Outcome, returns, fails, ◌>>◌, modify, throw_if}
use araquanid.Domain.Kinds.{
  IpAddr, Aal, FactorType, SessionStatus, expired, revoked, is_active_status, RevokeReason,
  expired_idle, expired_absolute, is_manual,
}
use araquanid.Domain.Fault.{
  DomainError, session_is_expired, session_is_revoked, invalid_revoke_reason,
}
use araquanid.Domain.Event.{DomainEvent, session_ended}

pub record SessionPolicy : Type 0 where
  pub idle_timeout : Duration
  pub absolute_lifetime : Duration

-- `DefaultSessionPolicy`
abbrev pub default_session_policy : SessionPolicy
default_session_policy = record { idle_timeout = minutes 15; absolute_lifetime = hours 8 }

pub record ClientInfo : Type 0 where
  pub ip : IpAddr
  pub user_agent : String

pub record Session : Type 0 where
  pub id : String
  pub identity : String
  pub device : String
  pub aal : Aal
  pub factors_used : List FactorType
  pub status : SessionStatus
  pub created_at : Time
  pub last_activity_at : Time
  pub idle_timeout : Duration
  pub absolute_expires_at : Time
  pub revoked_at : Option Time
  pub revoke_reason : RevokeReason
  pub client : ClientInfo
  pub events : List DomainEvent

abbrev pub record_event : DomainEvent → Session → Session
record_event e s = record s { events = s.events ++ e ∷ [] }

-- `IdleExpiresAt`
abbrev pub idle_expires_at : Session → Time
idle_expires_at s = add s.last_activity_at s.idle_timeout

-- `expiryAt`; `none` where the source returns `false`.
unfoldable pub expiry_at : Time → Session → Option (RevokeReason × Time)
expiry_at now s =
    if not (before now s.absolute_expires_at)
    then some (expired_absolute, s.absolute_expires_at)
    else if not (before now (idle_expires_at s))
    then some (expired_idle, idle_expires_at s)
    else none

-- `IsActive`
unfoldable pub is_active : Time → Session → Bool
unfolding expiry_at
is_active now s = is_active_status s.status && is_none (expiry_at now s)

-- The event that `terminate` records.
abbrev pub revocation_event : RevokeReason → String → Time → Session → DomainEvent
revocation_event reason by at s = session_ended (record {
  session_id = s.id;
  identity_id = s.identity;
  reason = reason;
  revoked_by = by;
  at = at;
})

-- `terminate`
unfoldable pub terminate : SessionStatus → RevokeReason → String → Time → Session → Session
terminate status reason by at s =
    record_event (revocation_event reason by at s)
      (record s { status = status; revoked_at = some at; revoke_reason = reason })

-- `EnforceExpiry`, with whether a transition happened.
unfoldable pub enforce_expiry : Time → Session → Bool × Session
unfolding expiry_at terminate
enforce_expiry now s =
    if not (is_active_status s.status) then (false, s) else elim (expiry_at now s) [
      | none ↦ (false, s)
      | some (reason, at) ↦ (true, terminate expired reason "" at s)
    ]

abbrev pub SessionMethod : Type 0 → Type 0
SessionMethod A = Session → Outcome Session DomainError A

-- `ensureActive`
unfoldable pub ensure_active : Time → SessionMethod (Unit {0})
unfolding enforce_expiry
ensure_active now s = elim s.status [
  | revoked ↦ fails session_is_revoked s
  | expired ↦ fails session_is_expired s
  | _ ↦
      let (transition, s') = enforce_expiry now s in
      if transition then fails session_is_expired s' else returns tt s'
]

-- `Touch`; the idle timer never moves backwards.
unfoldable pub touch : Time → SessionMethod (Unit {0})
unfolding ensure_active
touch now = do
  ensure_active now
  modify λ s. if after now s.last_activity_at then record s { last_activity_at = now } else s

-- `Revoke`
unfoldable pub revoke : RevokeReason → String → Time → SessionMethod (Unit {0})
unfolding ensure_active terminate
revoke reason by now = do
  throw_if (not (is_manual reason)) invalid_revoke_reason
  ensure_active now
  modify (terminate revoked reason by now)

-- `PullEvents`
unfoldable pub pull_events : Session → List DomainEvent × Session
pull_events s = (s.events, record s { events = [] })
