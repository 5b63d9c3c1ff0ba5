-- ===== src/Domain/Session/Validity.antt =====
-- The well-formedness of a session: the invariants that authentication_session.go lists, in terms of
-- its fields, and that creation, restoring and every method keep them.
use mathlib.Core.Path.{subst}
use araquanid.Common.{
  String, refl, ◌≤◌, ◌<◌, ◌≡◌, ◌≢◌, true, false, Option, none, List, [], arith, is_empty, is_none,
  contains, Bool-cases, inl, inr,
}
use araquanid.Common.Int.{pos, ◌<ℤ◌}
use araquanid.Common.Time.{Time}
use araquanid.Common.Result.{ok, >>-eq-ok, ok-injective}
use araquanid.Common.Method.{state_after}
use araquanid.Domain.Kinds.{
  is_valid_aal, Aal, aal1, aal2, aal3, other_aal, FactorType, is_fido2, SessionStatus, active,
  expired, revoked, other_status, RevokeReason, is_no_reason, is_manual, is_expiry,
}
use araquanid.Domain.Session.{
  Session, record_event, SessionPolicy, enforce_expiry, ensure_active, touch, revoke,
}
use araquanid.Domain.Session.Creation.{
  initial_session, creation_event, check_session_params, validate_session_policy, NewSessionParams,
  new_session, validate_aal_factors,
}

-- The assurance level matches the verified factors.
abbrev pub MatchesFactors : Aal → List FactorType → Type 0
MatchesFactors aal1 fs = fs ≡ []
MatchesFactors aal2 fs = fs ≢ []
MatchesFactors aal3 fs = contains is_fido2 fs ≡ true
MatchesFactors (other_aal s) fs = ⊥

-- A session has ended exactly if it carries the time and a reason that fits its status.
abbrev pub IsEndedBy : SessionStatus → Option Time → RevokeReason → Type 0
IsEndedBy active at reason = (at ≡ none) × (is_no_reason reason ≡ true)
IsEndedBy expired at reason = (is_none at ≡ false) × (is_expiry reason ≡ true)
IsEndedBy revoked at reason = (is_none at ≡ false) × (is_manual reason ≡ true)
IsEndedBy (other_status s) at reason = ⊥

pub record IsValid (s : Session) : Type 0 where
  pub named : is_empty s.id ≡ false
  pub owned : is_empty s.identity ≡ false
  pub assured : MatchesFactors s.aal s.factors_used
  pub idle : pos 0 <ℤ s.idle_timeout
  pub lasting : s.created_at < s.absolute_expires_at
  pub ordered : s.created_at ≤ s.last_activity_at
  pub ended : IsEndedBy s.status s.revoked_at s.revoke_reason

pub validate_aal_factors-MatchesFactors :
    (a : Aal) (fs : List FactorType)
    → is_valid_aal a ≡ true
    → validate_aal_factors a fs ≡ ok tt
    → MatchesFactors a fs
unfolding validate_aal_factors
validate_aal_factors-MatchesFactors a fs v h = ground arith

check_session_params-eq-ok :
    (p : NewSessionParams)
    → check_session_params p ≡ ok tt
    → (is_empty p.id ≡ false) × (is_empty p.identity ≡ false) × (is_valid_aal p.aal ≡ true)
unfolding check_session_params
check_session_params-eq-ok p h = ground arith

validate_session_policy-eq-ok :
    (p : SessionPolicy)
    → validate_session_policy p ≡ ok tt
    → (pos 0 <ℤ p.idle_timeout) × (pos 0 <ℤ p.absolute_lifetime)
unfolding validate_session_policy
validate_session_policy-eq-ok p h = ground arith

-- What a successful creation has checked, and the session that it returns.
pub new_session-eq-ok :
    (p : NewSessionParams) (s : Session)
    → new_session p ≡ ok s
    → (check_session_params p ≡ ok tt)
      × (validate_session_policy p.policy ≡ ok tt)
      × (validate_aal_factors p.aal p.factors_used ≡ ok tt)
      × (record_event (creation_event (initial_session p)) (initial_session p) ≡ s)
unfolding new_session
new_session-eq-ok p s h =
    let (params, rest) = >>-eq-ok (check_session_params p) h in
    let (policy, rest') = >>-eq-ok (validate_session_policy p.policy) rest in
    let (factors, built) = >>-eq-ok (validate_aal_factors p.aal p.factors_used) rest' in
    (params, policy, factors, ok-injective built)

initial_session-IsValid :
    (p : NewSessionParams)
    → check_session_params p ≡ ok tt
    → validate_session_policy p.policy ≡ ok tt
    → validate_aal_factors p.aal p.factors_used ≡ ok tt
    → IsValid (record_event (creation_event (initial_session p)) (initial_session p))
initial_session-IsValid p params policy factors =
    let (named, owned, level) = check_session_params-eq-ok p params in
    let (idle, lifetime) = validate_session_policy-eq-ok p.policy policy in
    record {
      named = named;
      owned = owned;
      assured = validate_aal_factors-MatchesFactors p.aal p.factors_used level factors;
      idle = idle;
      lasting = omega arith;
      ordered = omega arith;
      ended = (refl, refl);
    }

-- A session that `NewAuthenticationSession` returns is well formed.
new_session-IsValid : (p : NewSessionParams) (s : Session) → new_session p ≡ ok s → IsValid s
new_session-IsValid p s h =
    let (params, policy, factors, built) = new_session-eq-ok p s h in
    subst IsValid built (initial_session-IsValid p params policy factors)

pub enforce_expiry-IsValid :
    (now : Time) (s : Session) → IsValid s → IsValid (enforce_expiry now s).1
unfolding enforce_expiry
enforce_expiry-IsValid now s v = ground arith

pub ensure_active-IsValid :
    (now : Time) (s : Session) → IsValid s → IsValid (state_after s (ensure_active now s))
unfolding ensure_active
ensure_active-IsValid now s v = ground arith

pub touch-IsValid : (now : Time) (s : Session) → IsValid s → IsValid (state_after s (touch now s))
unfolding touch
touch-IsValid now s v = ground arith

pub revoke-IsValid :
    (reason : RevokeReason) (by : String) (now : Time) (s : Session)
    → IsValid s
    → IsValid (state_after s (revoke reason by now s))
unfolding revoke
revoke-IsValid reason by now s v = elim (Bool-cases (is_manual reason)) [
  | inl manual ↦ rw (manual, revoke) (ground arith)
  | inr automatic ↦ rw (automatic, revoke) v
]
