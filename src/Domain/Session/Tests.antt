-- ===== src/Domain/Session/Tests.antt =====
-- Concrete sessions of internal/domain/authentication_session.go: runs of the methods, and the
-- theorems of the sibling files on inputs that meet their conditions.
use araquanid.Domain.Session.RoundTrip.{rehydrate_session-snapshot, snapshot-rehydrate_session}
use araquanid.Domain.Session.Snapshot.{
  rehydrate_session, SessionSnapshot, snapshot, restored_session,
}
use araquanid.Domain.Session.Published.{run_life, all_endings, ending_count, run_life_announces_end}
use araquanid.Domain.Session.Expiry.{enforce_expiry_late_detection, run_stays_inactive}
use araquanid.Domain.Session.Validity.{IsValid}
use araquanid.Domain.Session.Creation.{
  NewSessionParams, new_session, creation_event, initial_session,
}
use araquanid.Domain.Session.{
  ClientInfo, Session, is_active, enforce_expiry, default_session_policy, record_event, terminate,
}
use araquanid.Common.Time.{Time, minutes}
use araquanid.Common.{◌≡◌, ◌+◌, ◌*◌, ◌∷◌, refl, some, [], ℕ, List, arith, false, true}
use araquanid.Domain.Fault.{aal_factor_mismatch, aal1_carries_factors}
use araquanid.Common.Result.{err, ok}
use araquanid.Domain.Session.Lifecycle.{
  pulls, revokes, touches, enforces, run, SameTerms, SameButEvents, Call, run-IsValid,
  run-SameTerms, run_terminal,
}
use araquanid.Domain.Kinds.{
  revoked, expired_absolute, aal2, totp, expired_idle, ip4, expired, user_logout, aal1,
}

abbrev minute : ℕ
minute = 60_000_000_000

abbrev noon : Time
noon = 10_000_000_000_000_000_000_000_000_000

abbrev client : ClientInfo
client = record { ip = ip4 10 0 0 1; user_agent = "curl/8.0" }

abbrev params : NewSessionParams
params = record {
  id = "s-1";
  identity = "u-1";
  device = "d-1";
  aal = aal1;
  factors_used = [];
  client = client;
  policy = default_session_policy;
  now = noon;
}

abbrev session : Session
session = record_event (creation_event (initial_session params)) (initial_session params)

-- Ended by its user five minutes after noon.
abbrev ended_session : Session
ended_session = terminate revoked user_logout "u-1" (noon + 5 * minute) session

-- Activity after ten minutes, a sweep after twenty, a late logout, and a sweep at the end of the day.
abbrev day : List Call
day =
    touches (noon + 10 * minute)
    ∷ enforces (noon + 20 * minute)
    ∷ pulls
    ∷ revokes user_logout "u-1" (noon + 40 * minute)
    ∷ enforces (noon + 600 * minute)
    ∷ []

session_is_created : new_session params ≡ ok session
unfolding new_session
session_is_created = refl

-- The idle expiry, 25 minutes past noon, is detected by the logout at 40 minutes.
day_ends_idle :
    ((run day session).status ≡ expired)
    × ((run day session).revoke_reason ≡ expired_idle)
    × ((run day session).revoked_at ≡ some (noon + 25 * minute))
unfolding run
day_ends_idle = (refl, refl, refl)

aal1_with_a_factor_is_refused :
    new_session (record params { factors_used = totp ∷ [] })
    ≡ err (aal_factor_mismatch aal1_carries_factors)
unfolding new_session
aal1_with_a_factor_is_refused = refl

session-IsValid : IsValid session
session-IsValid = record {
  named = refl;
  owned = refl;
  assured = refl;
  idle = omega arith;
  lasting = omega arith;
  ordered = omega arith;
  ended = (refl, refl);
}

session_is_inactive_late : is_active (noon + 15 * minute) session ≡ false
unfolding is_active
session_is_inactive_late = refl

session_is_active_after_touch :
    is_active (noon + 20 * minute) (run (touches (noon + 10 * minute) ∷ []) session) ≡ true
unfolding is_active run
session_is_active_after_touch = refl

run-IsValid_example : IsValid (run day session)
run-IsValid_example = run-IsValid day session session-IsValid

run-SameTerms_example : SameTerms session (run day session)
run-SameTerms_example = run-SameTerms day session

run_terminal_example : SameButEvents ended_session (run day ended_session)
unfolding terminate
run_terminal_example = run_terminal day ended_session tt

enforce_expiry_late_detection_example :
    ((enforce_expiry (noon + 20 * minute) session).1.revoke_reason ≡ expired_idle)
    × ((enforce_expiry (noon + 20 * minute) session).1.revoked_at ≡ some (noon + 15 * minute))
    × ((enforce_expiry (noon + 600 * minute) session).1.revoke_reason ≡ expired_absolute)
    × ((enforce_expiry (noon + 600 * minute) session).1.revoked_at ≡ some (noon + 480 * minute))
enforce_expiry_late_detection_example =
    enforce_expiry_late_detection (noon + 20 * minute) (noon + 600 * minute) session refl
      (omega arith) (omega arith) (omega arith)

run_stays_inactive_example :
    is_active (noon + 30 * minute) (run (touches (noon + 16 * minute) ∷ []) session) ≡ false
run_stays_inactive_example =
    run_stays_inactive (noon + 15 * minute) (noon + 30 * minute) (touches (noon + 16 * minute) ∷ [])
      session (omega arith, tt) session_is_inactive_late (omega arith)

run_life_announces_end_example :
    let l = run_life day (record { session = session; published = [] }) in
    all_endings l ≡ ending_count l.session.status
run_life_announces_end_example = run_life_announces_end params session day session_is_created

rehydrate_session-snapshot_example :
    rehydrate_session (snapshot session) ≡ ok (record session { events = [] })
rehydrate_session-snapshot_example = rehydrate_session-snapshot session session-IsValid

abbrev stored : SessionSnapshot
stored = record {
  id = "s-1";
  identity_id = "u-1";
  device_id = "d-1";
  status = revoked;
  aal = aal2;
  factors_used = totp ∷ [];
  created_at = noon;
  last_activity_at = noon + minute;
  idle_timeout = minutes 15;
  absolute_expires_at = noon + 480 * minute;
  revoked_at = some (noon + 2 * minute);
  revoke_reason = user_logout;
  client = client;
}

stored_is_accepted : rehydrate_session stored ≡ ok (restored_session stored)
unfolding rehydrate_session
stored_is_accepted = refl

snapshot-rehydrate_session_example :
    IsValid (restored_session stored)
    × (snapshot (restored_session stored) ≡ stored)
    × ((restored_session stored).events ≡ [])
snapshot-rehydrate_session_example =
    snapshot-rehydrate_session stored (restored_session stored) stored_is_accepted
