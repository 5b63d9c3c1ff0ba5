-- ===== src/Domain/Session/RoundTrip.antt =====
-- Snapshot and RehydrateSession are inverse on the well-formed sessions, and RehydrateSession accepts
-- no others.
use mathlib.Core.Path.{subst}
use araquanid.Common.Time.{Time}
use araquanid.Domain.Session.Validity.{IsValid, IsEndedBy, validate_aal_factors-MatchesFactors}
use araquanid.Domain.Kinds.{SessionStatus, is_valid_status, RevokeReason, is_valid_aal}
use araquanid.Domain.Session.{Session}
use araquanid.Domain.Session.Creation.{validate_aal_factors}
use araquanid.Domain.Session.Snapshot.{
  check_session_fields, check_revocation, rehydrate_session, snapshot, SessionSnapshot,
  restored_session,
}
use araquanid.Common.{◌≡◌, ◌∙◌, ◌<◌, ◌≤◌, [], is_empty, Option, arith, false, true, refl}
use araquanid.Common.Result.{ok, >>-ok, >>-eq-ok, ok-injective}
use araquanid.Common.Int.{pos, ◌<ℤ◌}

check_session_fields-ok : (s : Session) → IsValid s → check_session_fields (snapshot s) ≡ ok tt
unfolding check_session_fields snapshot
check_session_fields-ok s v = ground arith

check_revocation-ok :
    (s : Session) → IsValid s → check_revocation s.status s.revoked_at s.revoke_reason ≡ ok tt
unfolding check_revocation
check_revocation-ok s v = ground arith

validate_aal_factors-ok :
    (s : Session) → IsValid s → validate_aal_factors s.aal s.factors_used ≡ ok tt
unfolding validate_aal_factors
validate_aal_factors-ok s v = ground arith

-- A well-formed session that is stored and restored comes back as it was, without pending events.
pub rehydrate_session-snapshot :
    (s : Session) → IsValid s → rehydrate_session (snapshot s) ≡ ok (record s { events = [] })
unfolding rehydrate_session snapshot
rehydrate_session-snapshot s v =
    >>-ok _ (check_session_fields-ok s v)
    ∙ >>-ok _ (check_revocation-ok s v)
    ∙ >>-ok _ (validate_aal_factors-ok s v)

check_session_fields-eq-ok :
    (n : SessionSnapshot)
    → check_session_fields n ≡ ok tt
    → (is_empty n.id ≡ false)
      × (is_empty n.identity_id ≡ false)
      × (is_valid_status n.status ≡ true)
      × (is_valid_aal n.aal ≡ true)
      × (pos 0 <ℤ n.idle_timeout)
      × (n.created_at < n.absolute_expires_at)
      × (n.created_at ≤ n.last_activity_at)
unfolding check_session_fields
check_session_fields-eq-ok n h = ground arith

check_revocation-IsEndedBy :
    (status : SessionStatus) (at : Option Time) (reason : RevokeReason)
    → is_valid_status status ≡ true
    → check_revocation status at reason ≡ ok tt
    → IsEndedBy status at reason
unfolding check_revocation
check_revocation-IsEndedBy status at reason v h = ground arith

restored_session-IsValid :
    (n : SessionSnapshot)
    → check_session_fields n ≡ ok tt
    → check_revocation n.status n.revoked_at n.revoke_reason ≡ ok tt
    → validate_aal_factors n.aal n.factors_used ≡ ok tt
    → IsValid (restored_session n)
restored_session-IsValid n fields revocation factors =
    let (named, owned, status, level, idle, lasting, ordered) =
      check_session_fields-eq-ok n fields in
    record {
      named = named;
      owned = owned;
      assured = validate_aal_factors-MatchesFactors n.aal n.factors_used level factors;
      idle = idle;
      lasting = lasting;
      ordered = ordered;
      ended = check_revocation-IsEndedBy n.status n.revoked_at n.revoke_reason status revocation;
    }

snapshot-restored_session : (n : SessionSnapshot) → snapshot (restored_session n) ≡ n
unfolding snapshot
snapshot-restored_session n = refl

-- Whatever RehydrateSession accepts is a well-formed session with no pending events, and storing it
-- gives the snapshot back: nothing malformed gets in from storage, and nothing is lost.
pub snapshot-rehydrate_session :
    (n : SessionSnapshot) (s : Session)
    → rehydrate_session n ≡ ok s
    → IsValid s × (snapshot s ≡ n) × (s.events ≡ [])
unfolding rehydrate_session
snapshot-rehydrate_session n s h =
    let (fields, rest) = >>-eq-ok (check_session_fields n) h in
    let (revocation, rest') =
      >>-eq-ok (check_revocation n.status n.revoked_at n.revoke_reason) rest in
    let (factors, built) = >>-eq-ok (validate_aal_factors n.aal n.factors_used) rest' in
    subst (λ t. IsValid t × (snapshot t ≡ n) × (t.events ≡ [])) (ok-injective built)
      (restored_session-IsValid n fields revocation factors, snapshot-restored_session n, refl)
