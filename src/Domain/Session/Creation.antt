-- ===== src/Domain/Session/Creation.antt =====
-- NewAuthenticationSession of internal/domain/authentication_session.go and the checks that it makes.
use araquanid.Common.{String, not, ◌||◌, none, List, [], ◌∷◌, is_empty, contains}
use araquanid.Common.Int.{pos, leb_ℤ, ltb_ℤ}
use araquanid.Common.Time.{Time, is_zero, add}
use araquanid.Common.Result.{Result, ok, err, reject_if, ◌>>◌}
use araquanid.Domain.Kinds.{
  is_valid_addr, Aal, aal1, aal2, aal3, is_valid_aal, FactorType, is_fido2, active, no_reason,
}
use araquanid.Domain.Fault.{
  DomainError, id_required, identity_required, unknown_aal, client_ip_required,
  creation_time_required, invalid_session, invalid_session_policy, aal_factor_mismatch,
  aal1_carries_factors, aal2_needs_factor, aal3_needs_fido2,
}
use araquanid.Domain.Event.{DomainEvent, session_created}
use araquanid.Domain.Session.{Session, SessionPolicy, ClientInfo, record_event}

-- `SessionPolicy.Validate`
unfoldable pub validate_session_policy : SessionPolicy → Result DomainError (Unit {0})
validate_session_policy p =
    reject_if
      (leb_ℤ p.idle_timeout (pos 0)
        || leb_ℤ p.absolute_lifetime (pos 0)
        || ltb_ℤ p.absolute_lifetime p.idle_timeout)
      invalid_session_policy

pub record NewSessionParams : Type 0 where
  pub id : String
  pub identity : String
  pub device : String
  pub aal : Aal
  pub factors_used : List FactorType
  pub client : ClientInfo
  pub policy : SessionPolicy
  pub now : Time

-- `validateAALFactors`
unfoldable pub validate_aal_factors : Aal → List FactorType → Result DomainError (Unit {0})
validate_aal_factors aal1 [] = ok tt
validate_aal_factors aal1 (f ∷ fs) = err (aal_factor_mismatch aal1_carries_factors)
validate_aal_factors aal2 [] = err (aal_factor_mismatch aal2_needs_factor)
validate_aal_factors aal2 (f ∷ fs) = ok tt
validate_aal_factors aal3 fs =
    reject_if (not (contains is_fido2 fs)) (aal_factor_mismatch aal3_needs_fido2)
validate_aal_factors _ fs = ok tt

-- The event that `NewAuthenticationSession` records.
abbrev pub creation_event : Session → DomainEvent
creation_event s = session_created (record {
  session_id = s.id;
  identity_id = s.identity;
  device_id = s.device;
  aal = s.aal;
  ip_address = s.client.ip;
  idle_timeout = s.idle_timeout;
  absolute_expires_at = s.absolute_expires_at;
  at = s.created_at;
})

-- The session that `NewAuthenticationSession` builds once its parameters have passed.
abbrev pub initial_session : NewSessionParams → Session
initial_session p = record {
  id = p.id;
  identity = p.identity;
  device = p.device;
  aal = p.aal;
  factors_used = p.factors_used;
  status = active;
  created_at = p.now;
  last_activity_at = p.now;
  idle_timeout = p.policy.idle_timeout;
  absolute_expires_at = add p.now p.policy.absolute_lifetime;
  revoked_at = none;
  revoke_reason = no_reason;
  client = p.client;
  events = [];
}

-- The `switch` of `NewAuthenticationSession`.
unfoldable pub check_session_params : NewSessionParams → Result DomainError (Unit {0})
check_session_params p = do
  reject_if (is_empty p.id) (invalid_session id_required)
  reject_if (is_empty p.identity) (invalid_session identity_required)
  reject_if (not (is_valid_aal p.aal)) (invalid_session unknown_aal)
  reject_if (not (is_valid_addr p.client.ip)) (invalid_session client_ip_required)
  reject_if (is_zero p.now) (invalid_session creation_time_required)

-- `NewAuthenticationSession`
unfoldable pub new_session : NewSessionParams → Result DomainError Session
unfolding check_session_params validate_session_policy validate_aal_factors
new_session p = do
  check_session_params p
  validate_session_policy p.policy
  validate_aal_factors p.aal p.factors_used
  let s = initial_session p
  ok (record_event (creation_event s) s)
