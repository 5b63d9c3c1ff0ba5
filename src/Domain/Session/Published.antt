-- ===== src/Domain/Session/Published.antt =====
-- The events of a session over its whole life: those that PullEvents has handed over and those that
-- are still recorded on it (record, PullEvents and terminate of authentication_session.go).
use mathlib.Core.Path.{subst}
use araquanid.Domain.Session.Validity.{new_session-eq-ok}
use araquanid.Domain.Session.Creation.{NewSessionParams, new_session}
use araquanid.Common.Result.{ok}
use araquanid.Domain.Session.Expiry.{touch_lem, revoke_lem, is_active_iff}
use araquanid.Common.Method.{state_after}
use araquanid.Common.Time.{Time}
use araquanid.Domain.Session.{
  Session, pull_events, enforce_expiry, touch, revoke, terminate, idle_expires_at, revocation_event,
}
use araquanid.Common.{◌∷◌, ◌+◌, ◌++◌, ◌≡◌, [], List, ℕ, true, suc, arith, String, refl}
use araquanid.Domain.Event.{session_ended, DomainEvent}
use araquanid.Domain.Session.Lifecycle.{pulls, Call, step, IsTerminal, touches, revokes, enforces}
use araquanid.Domain.Kinds.{
  active, SessionStatus, is_valid_status, RevokeReason, expired, expired_absolute, expired_idle,
  revoked,
}

-- A session with the events that were pulled from it, oldest first.
pub record Life : Type 0 where
  pub session : Session
  pub published : List DomainEvent

abbrev pub publish : List DomainEvent × Session → List DomainEvent → Life
publish (es, s) before_it = record { session = s; published = before_it ++ es }

unfoldable pub step_life : Call → Life → Life
step_life pulls l = publish (pull_events l.session) l.published
step_life c l = record l { session = step c l.session }

unfoldable pub run_life : List Call → Life → Life
unfolding step_life
run_life [] l = l
run_life (c ∷ cs) l = run_life cs (step_life c l)

-- How many of the events say that a session ended.
abbrev pub count_endings : List DomainEvent → ℕ
count_endings [] = 0
count_endings (session_ended e ∷ es) = suc (count_endings es)
count_endings (_ ∷ es) = count_endings es

abbrev pub all_endings : Life → ℕ
all_endings l = count_endings l.published + count_endings l.session.events

abbrev pub ending_count : SessionStatus → ℕ
ending_count active = 0
ending_count _ = 1

count_endings-append :
    (xs ys : List DomainEvent) → count_endings (xs ++ ys) ≡ count_endings xs + count_endings ys
count_endings-append [] ys = omega arith
count_endings-append (x ∷ xs) ys = ground (arith, count_endings-append xs ys)

-- One SessionRevoked event for each transition out of ACTIVE.
abbrev pub IsAnnounced : Life → Type 0
IsAnnounced l =
    (all_endings l ≡ ending_count l.session.status) × (is_valid_status l.session.status ≡ true)

abbrev life_of : List DomainEvent → Session → Life
life_of published s = record { session = s; published = published }

terminate-IsAnnounced :
    (es : List DomainEvent) (status : SessionStatus) (reason : RevokeReason) (by : String)
    (at : Time) (s : Session)
    → IsTerminal status
    → s.status ≡ active
    → IsAnnounced (life_of es s)
    → IsAnnounced (life_of es (terminate status reason by at s))
unfolding terminate
terminate-IsAnnounced es status reason by at s t a h =
    ground (arith, count_endings-append s.events (revocation_event reason by at s ∷ []))

enforce_expiry-IsAnnounced :
    (es : List DomainEvent) (now : Time) (s : Session)
    → IsAnnounced (life_of es s)
    → IsAnnounced (life_of es (enforce_expiry now s).1)
unfolding enforce_expiry
enforce_expiry-IsAnnounced es now s h = ground (
  arith,
  terminate-IsAnnounced es expired expired_idle "" (idle_expires_at s) s tt,
  terminate-IsAnnounced es expired expired_absolute "" s.absolute_expires_at s tt,
)

touch-IsAnnounced :
    (es : List DomainEvent) (now : Time) (s : Session)
    → IsAnnounced (life_of es s)
    → IsAnnounced (life_of es (state_after s (touch now s)))
touch-IsAnnounced es now s h =
    rw (touch_lem now s h.1) (ground (arith, enforce_expiry-IsAnnounced es now s h))

revoke-IsAnnounced :
    (es : List DomainEvent) (reason : RevokeReason) (by : String) (now : Time) (s : Session)
    → IsAnnounced (life_of es s)
    → IsAnnounced (life_of es (state_after s (revoke reason by now s)))
revoke-IsAnnounced es reason by now s h = rw (revoke_lem reason by now s h.1) (
    ground (
      arith,
      (is_active_iff now s).0,
      terminate-IsAnnounced es revoked reason by now s tt,
      enforce_expiry-IsAnnounced es now s h,
    ))

step_life-IsAnnounced : (c : Call) (l : Life) → IsAnnounced l → IsAnnounced (step_life c l)
unfolding step_life step pull_events
step_life-IsAnnounced (enforces now) l h = enforce_expiry-IsAnnounced l.published now l.session h
step_life-IsAnnounced (touches now) l h = touch-IsAnnounced l.published now l.session h
step_life-IsAnnounced (revokes reason by now) l h =
    revoke-IsAnnounced l.published reason by now l.session h
step_life-IsAnnounced pulls l h = ground (arith, count_endings-append l.published l.session.events)

run_life-IsAnnounced : (cs : List Call) (l : Life) → IsAnnounced l → IsAnnounced (run_life cs l)
unfolding run_life
run_life-IsAnnounced [] l h = h
run_life-IsAnnounced (c ∷ cs) l h =
    run_life-IsAnnounced cs (step_life c l) (step_life-IsAnnounced c l h)

-- Over the whole life of a session, from its creation through any calls, the events published and
-- pending hold no SessionRevoked while the session is ACTIVE, and exactly one once it has ended.
pub run_life_announces_end :
    (p : NewSessionParams) (s : Session) (cs : List Call)
    → new_session p ≡ ok s
    → let l = run_life cs (record { session = s; published = [] }) in
      all_endings l ≡ ending_count l.session.status
run_life_announces_end p s cs h =
    let (_, _, _, built) = new_session-eq-ok p s h in
    (run_life-IsAnnounced cs (life_of [] s)
      (subst (λ t. IsAnnounced (life_of [] t)) built (refl, refl))).0
