-- ===== src/Domain/Session/Expiry.antt =====
-- The two timeouts of a session (expiryAt, IsActive, EnforceExpiry, Touch).
use Prim.Native.Nat.{max}
use araquanid.Domain.Fault.{
  session_is_revoked, session_is_expired, invalid_revoke_reason, DomainError,
}
use araquanid.Domain.Session.Lifecycle.{
  revokes, touches, pulls, enforces, Call, step, run, run-SameTerms,
}
use araquanid.Common.Time.{Time, before}
use araquanid.Domain.Session.{
  is_active, enforce_expiry, ensure_active, terminate, Session, idle_expires_at, touch, revoke,
}
use araquanid.Common.{
  ◌≤◌, ◌≡◌, ◌↔◌, if◌then◌else◌, ◌<◌, some, true, false, arith, ◌∷◌, inl, inr, [], List, All, String,
  not, Bool-cases,
}
use araquanid.Domain.Kinds.{
  active, expired_idle, expired_absolute, expired, is_valid_status, revoked, SessionStatus,
  RevokeReason, is_manual,
}
use araquanid.Common.Method.{returns, fails, state_after}

-- A session is active at an instant exactly if its status is ACTIVE and neither its absolute expiry
-- nor its idle expiry has been reached.
pub is_active_iff :
    (now : Time) (s : Session)
    → (is_active now s ≡ true)
      ↔ ((s.status ≡ active) × (now < s.absolute_expires_at) × (now < idle_expires_at s))
unfolding is_active
is_active_iff now s = (λ h. ground arith, λ h. ground arith)

-- What `EnforceExpiry` does to a session with status ACTIVE: nothing while it is active; past the
-- absolute expiry it ends there with the absolute reason; past the idle expiry only, it ends there
-- with the idle reason. The transition is reported exactly if one happens.
enforce_expiry_lem :
    (now : Time) (s : Session)
    → s.status ≡ active
    → enforce_expiry now s ≡ (
        if is_active now s
        then (false, s)
        else if before now s.absolute_expires_at
        then (true, terminate expired expired_idle "" (idle_expires_at s) s)
        else (true, terminate expired expired_absolute "" s.absolute_expires_at s))
unfolding enforce_expiry is_active terminate
enforce_expiry_lem now s h = ground arith

-- The two detections of one expiry need not agree: a session whose idle expiry lies before its
-- absolute one ends as SESSION_EXPIRED_IDLE, at the idle expiry, if the sweep comes between the two,
-- and as SESSION_EXPIRED_ABSOLUTE, at the absolute one, if it comes later.
pub enforce_expiry_late_detection :
    (early late : Time) (s : Session)
    → s.status ≡ active
    → idle_expires_at s ≤ early
    → early < s.absolute_expires_at
    → s.absolute_expires_at ≤ late
    → ((enforce_expiry early s).1.revoke_reason ≡ expired_idle)
      × ((enforce_expiry early s).1.revoked_at ≡ some (idle_expires_at s))
      × ((enforce_expiry late s).1.revoke_reason ≡ expired_absolute)
      × ((enforce_expiry late s).1.revoked_at ≡ some s.absolute_expires_at)
unfolding enforce_expiry
enforce_expiry_late_detection early late s a i e l = ground arith

-- `Touch` and `Revoke` with a manual reason get past their guard exactly if the session is active.
pub ensure_active_lem :
    (now : Time) (s : Session)
    → is_valid_status s.status ≡ true
    → (is_active now s ≡ true) ↔ (ensure_active now s ≡ returns tt s)
unfolding ensure_active is_active
ensure_active_lem now s v = (λ h. ground arith, λ h. ground arith)

-- The error that a call on a session gets which is not active.
abbrev pub refusal : SessionStatus → DomainError
refusal revoked = session_is_revoked
refusal _ = session_is_expired

-- `Touch` on every branch: an active session gets the later of its last activity and the given time;
-- a session that is not active is refused, by the error of its status, and is left as `EnforceExpiry`
-- makes it, EXPIRED if a timeout has just been reached and unchanged otherwise.
pub touch_lem :
    (now : Time) (s : Session)
    → is_valid_status s.status ≡ true
    → touch now s ≡ (
        if is_active now s
        then returns tt (record s { last_activity_at = max s.last_activity_at now })
        else fails (refusal s.status) (enforce_expiry now s).1)
unfolding touch is_active
touch_lem now s v = ground arith

-- `Revoke` on every branch: a reason that is not manual is refused before anything else, and leaves
-- the session alone; an active session ends as REVOKED at the given time, with the reason and the
-- revoker recorded; any other is refused as `Touch` refuses it.
pub revoke_lem :
    (reason : RevokeReason) (by : String) (now : Time) (s : Session)
    → is_valid_status s.status ≡ true
    → revoke reason by now s ≡ (
        if not (is_manual reason)
        then fails invalid_revoke_reason s
        else if is_active now s
        then returns tt (terminate revoked reason by now s)
        else fails (refusal s.status) (enforce_expiry now s).1)
unfolding revoke is_active
revoke_lem reason by now s v = elim (Bool-cases (is_manual reason)) [
  | inl manual ↦ rw (manual, revoke) (ground arith)
  | inr automatic ↦ rw (automatic, revoke)
]

-- The instant of a call; PullEvents has none.
abbrev pub IsNotBefore : Time → Call → Type 0
IsNotBefore now (enforces t) = now ≤ t
IsNotBefore now (touches t) = now ≤ t
IsNotBefore now (revokes reason by t) = now ≤ t
IsNotBefore now pulls = Unit

is_active_mono :
    (now later : Time) (s : Session)
    → now ≤ later
    → is_active now s ≡ false
    → is_active later s ≡ false
unfolding is_active
is_active_mono now later s le h = ground arith

enforce_expiry_inactive :
    (now t : Time) (s : Session)
    → is_active now s ≡ false
    → is_active now (enforce_expiry t s).1 ≡ false
unfolding enforce_expiry is_active
enforce_expiry_inactive now t s h = ground arith

touch_inactive :
    (now t : Time) (s : Session)
    → now ≤ t
    → is_active now s ≡ false
    → is_active now (state_after s (touch t s)) ≡ false
unfolding touch is_active
touch_inactive now t s le h = ground arith

revoke_inactive :
    (now t : Time) (reason : RevokeReason) (by : String) (s : Session)
    → is_active now s ≡ false
    → is_active now (state_after s (revoke reason by t s)) ≡ false
unfolding revoke is_active
revoke_inactive now t reason by s h = elim (Bool-cases (is_manual reason)) [
  | inl manual ↦ rw (manual, revoke) (ground arith)
  | inr automatic ↦ rw (automatic, revoke) h
]

step_inactive :
    (now : Time) (c : Call) (s : Session)
    → IsNotBefore now c
    → is_active now s ≡ false
    → is_active now (step c s) ≡ false
unfolding step is_active
step_inactive now (enforces t) s le h = enforce_expiry_inactive now t s h
step_inactive now (touches t) s le h = touch_inactive now t s le h
step_inactive now (revokes reason by t) s le h = revoke_inactive now t reason by s h
step_inactive now pulls s le h = h

run_inactive :
    (now : Time) (cs : List Call) (s : Session)
    → All (IsNotBefore now) cs
    → is_active now s ≡ false
    → is_active now (run cs s) ≡ false
unfolding run
run_inactive now [] s le h = h
run_inactive now (c ∷ cs) s le h =
    run_inactive now cs (step c s) le.1 (step_inactive now c s le.0 h)

-- A session that is not active at some instant is not active later either, whatever calls are made
-- from that instant on: no activity brings an expired session back.
pub run_stays_inactive :
    (now later : Time) (cs : List Call) (s : Session)
    → All (IsNotBefore now) cs
    → is_active now s ≡ false
    → now ≤ later
    → is_active later (run cs s) ≡ false
run_stays_inactive now later cs s le h k =
    is_active_mono now later (run cs s) k (run_inactive now cs s le h)

-- However often a session is touched, it is never active at or after its absolute expiry.
pub run_bounded :
    (now : Time) (cs : List Call) (s : Session)
    → is_active now (run cs s) ≡ true
    → now < s.absolute_expires_at
run_bounded now cs s h =
    let same = (run-SameTerms cs s).absolute_expires_at in
    let (_, below, _) = (is_active_iff now (run cs s)).0 h in omega arith
