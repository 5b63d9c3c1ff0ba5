-- ===== src/Domain/Session/Snapshot.antt =====
-- The persistence shape of a session: SessionSnapshot, Snapshot and RehydrateSession of
-- internal/domain/authentication_session.go. The two `switch`es of RehydrateSession are functions.
use araquanid.Common.{String, Option, List, [], not, ◌||◌, is_empty, is_none}
use araquanid.Common.Int.{pos, leb_ℤ}
use araquanid.Common.Time.{Time, Duration, before, after}
use araquanid.Common.Result.{Result, ok, reject_if, ◌>>◌}
use araquanid.Domain.Kinds.{
  Aal, is_valid_aal, FactorType, SessionStatus, active, expired, revoked, is_valid_status,
  RevokeReason, is_no_reason, is_manual, is_expiry,
}
use araquanid.Domain.Fault.{
  DomainError, invalid_session, ids_required, unknown_status, unknown_aal, invalid_timeouts,
  activity_before_creation, active_carries_revocation, revoked_needs_manual_reason,
  expired_needs_expiry_reason,
}
use araquanid.Domain.Session.{Session, ClientInfo}
use araquanid.Domain.Session.Creation.{validate_aal_factors}

pub record SessionSnapshot : Type 0 where
  pub id : String
  pub identity_id : String
  pub device_id : String
  pub status : SessionStatus
  pub aal : Aal
  pub factors_used : List FactorType
  pub created_at : Time
  pub last_activity_at : Time
  pub idle_timeout : Duration
  pub absolute_expires_at : Time
  pub revoked_at : Option Time
  pub revoke_reason : RevokeReason
  pub client : ClientInfo

-- `Snapshot`
unfoldable pub snapshot : Session → SessionSnapshot
snapshot s = record {
  id = s.id;
  identity_id = s.identity;
  device_id = s.device;
  status = s.status;
  aal = s.aal;
  factors_used = s.factors_used;
  created_at = s.created_at;
  last_activity_at = s.last_activity_at;
  idle_timeout = s.idle_timeout;
  absolute_expires_at = s.absolute_expires_at;
  revoked_at = s.revoked_at;
  revoke_reason = s.revoke_reason;
  client = s.client;
}

-- The first `switch` of `RehydrateSession`.
unfoldable pub check_session_fields : SessionSnapshot → Result DomainError (Unit {0})
check_session_fields n = do
  reject_if (is_empty n.id || is_empty n.identity_id) (invalid_session ids_required)
  reject_if (not (is_valid_status n.status)) (invalid_session unknown_status)
  reject_if (not (is_valid_aal n.aal)) (invalid_session unknown_aal)
  reject_if (leb_ℤ n.idle_timeout (pos 0) || not (after n.absolute_expires_at n.created_at))
      (invalid_session invalid_timeouts)
  reject_if (before n.last_activity_at n.created_at) (invalid_session activity_before_creation)

-- The second: the status against the time and the reason of the revocation.
unfoldable pub check_revocation :
    SessionStatus → Option Time → RevokeReason → Result DomainError (Unit {0})
check_revocation active at reason =
    reject_if (not (is_none at) || not (is_no_reason reason))
      (invalid_session active_carries_revocation)
check_revocation revoked at reason =
    reject_if (is_none at || not (is_manual reason)) (invalid_session revoked_needs_manual_reason)
check_revocation expired at reason =
    reject_if (is_none at || not (is_expiry reason)) (invalid_session expired_needs_expiry_reason)
check_revocation _ at reason = ok tt

-- The session that `RehydrateSession` builds once the snapshot has passed.
abbrev pub restored_session : SessionSnapshot → Session
restored_session n = record {
  id = n.id;
  identity = n.identity_id;
  device = n.device_id;
  aal = n.aal;
  factors_used = n.factors_used;
  status = n.status;
  created_at = n.created_at;
  last_activity_at = n.last_activity_at;
  idle_timeout = n.idle_timeout;
  absolute_expires_at = n.absolute_expires_at;
  revoked_at = n.revoked_at;
  revoke_reason = n.revoke_reason;
  client = n.client;
  events = [];
}

-- `RehydrateSession`
unfoldable pub rehydrate_session : SessionSnapshot → Result DomainError Session
unfolding check_session_fields check_revocation validate_aal_factors
rehydrate_session n = do
  check_session_fields n
  check_revocation n.status n.revoked_at n.revoke_reason
  validate_aal_factors n.aal n.factors_used
  ok (restored_session n)
