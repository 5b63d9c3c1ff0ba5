-- ===== src/Domain/Session/Lifecycle.antt =====
-- Whole lives of an AuthenticationSession (internal/domain/authentication_session.go): any sequence of
-- calls of its methods. An error goes to the caller; what counts here is the session that it leaves.
use mathlib.Core.Path.{subst}
use araquanid.Common.Method.{state_after}
use araquanid.Domain.Session.Validity.{
  IsValid, enforce_expiry-IsValid, touch-IsValid, revoke-IsValid,
}
use araquanid.Domain.Kinds.{RevokeReason, is_manual, expired, revoked, SessionStatus}
use araquanid.Domain.Session.{Session, enforce_expiry, touch, revoke, pull_events}
use araquanid.Common.Time.{Time}
use araquanid.Common.{◌∷◌, ◌≡◌, inl, inr, [], List, arith, String, Bool-cases, refl, sym}

-- A call of a method that changes the session.
pub data Call : Type 0 where
  enforces : Time → Call
  touches : Time → Call
  revokes : RevokeReason → String → Time → Call
  pulls : Call

unfoldable pub step : Call → Session → Session
unfolding enforce_expiry touch revoke pull_events
step (enforces now) s = (enforce_expiry now s).1
step (touches now) s = state_after s (touch now s)
step (revokes reason by now) s = state_after s (revoke reason by now s)
step pulls s = (pull_events s).1

unfoldable pub run : List Call → Session → Session
unfolding step
run [] s = s
run (c ∷ cs) s = run cs (step c s)

step-IsValid : (c : Call) (s : Session) → IsValid s → IsValid (step c s)
unfolding step
step-IsValid (enforces now) s v = enforce_expiry-IsValid now s v
step-IsValid (touches now) s v = touch-IsValid now s v
step-IsValid (revokes reason by now) s v = revoke-IsValid reason by now s v
step-IsValid pulls s v = ground arith

-- Every sequence of calls keeps a session well formed: the status, the time and the reason of its end
-- fit together, activity never precedes creation, and the assurance level matches the factors.
pub run-IsValid : (cs : List Call) (s : Session) → IsValid s → IsValid (run cs s)
unfolding run
run-IsValid [] s v = v
run-IsValid (c ∷ cs) s v = run-IsValid cs (step c s) (step-IsValid c s v)

-- What no call changes: who the session belongs to, its level, and both of its limits.
pub record SameTerms (s t : Session) : Type 0 where
  pub id : t.id ≡ s.id
  pub identity : t.identity ≡ s.identity
  pub device : t.device ≡ s.device
  pub aal : t.aal ≡ s.aal
  pub factors_used : t.factors_used ≡ s.factors_used
  pub created_at : t.created_at ≡ s.created_at
  pub idle_timeout : t.idle_timeout ≡ s.idle_timeout
  pub absolute_expires_at : t.absolute_expires_at ≡ s.absolute_expires_at
  pub client : t.client ≡ s.client

SameTerms-refl : (s : Session) → SameTerms s s
SameTerms-refl s = ground arith

SameTerms-trans : (s t u : Session) → SameTerms s t → SameTerms t u → SameTerms s u
SameTerms-trans s t u h k = ground arith

enforce_expiry-SameTerms : (now : Time) (s : Session) → SameTerms s (enforce_expiry now s).1
unfolding enforce_expiry
enforce_expiry-SameTerms now s = ground arith

touch-SameTerms : (now : Time) (s : Session) → SameTerms s (state_after s (touch now s))
unfolding touch
touch-SameTerms now s = ground arith

revoke-SameTerms :
    (reason : RevokeReason) (by : String) (now : Time) (s : Session)
    → SameTerms s (state_after s (revoke reason by now s))
unfolding revoke
revoke-SameTerms reason by now s = elim (Bool-cases (is_manual reason)) [
  | inl manual ↦ rw (manual, revoke) (ground arith)
  | inr automatic ↦ rw (automatic, revoke) (SameTerms-refl s)
]

step-SameTerms : (c : Call) (s : Session) → SameTerms s (step c s)
unfolding step
step-SameTerms (enforces now) s = enforce_expiry-SameTerms now s
step-SameTerms (touches now) s = touch-SameTerms now s
step-SameTerms (revokes reason by now) s = revoke-SameTerms reason by now s
step-SameTerms pulls s = ground arith

-- The owner, the assurance level, the idle timeout and the absolute expiry are immutable after
-- creation, under any sequence of calls.
pub run-SameTerms : (cs : List Call) (s : Session) → SameTerms s (run cs s)
unfolding run
run-SameTerms [] s = SameTerms-refl s
run-SameTerms (c ∷ cs) s =
    SameTerms-trans s (step c s) (run cs (step c s)) (step-SameTerms c s)
      (run-SameTerms cs (step c s))

-- EXPIRED or REVOKED.
abbrev pub IsTerminal : SessionStatus → Type 0
IsTerminal expired = Unit
IsTerminal revoked = Unit
IsTerminal _ = ⊥

enforce_expiry_terminal :
    (now : Time) (s : Session) → IsTerminal s.status → (enforce_expiry now s).1 ≡ s
unfolding enforce_expiry
enforce_expiry_terminal now s t = ground arith

touch_terminal : (now : Time) (s : Session) → IsTerminal s.status → state_after s (touch now s) ≡ s
unfolding touch
touch_terminal now s t = ground arith

revoke_terminal :
    (reason : RevokeReason) (by : String) (now : Time) (s : Session)
    → IsTerminal s.status
    → state_after s (revoke reason by now s) ≡ s
unfolding revoke
revoke_terminal reason by now s t = elim (Bool-cases (is_manual reason)) [
  | inl manual ↦ rw (manual, revoke) (ground arith)
  | inr automatic ↦ rw (automatic, revoke)
]

-- What a call makes of a session that has ended: nothing, but that PullEvents empties its events.
abbrev pub drained : Call → Session → Session
drained pulls s = record s { events = [] }
drained _ s = s

step_terminal : (c : Call) (s : Session) → IsTerminal s.status → step c s ≡ drained c s
unfolding step
step_terminal (enforces now) s t = enforce_expiry_terminal now s t
step_terminal (touches now) s t = touch_terminal now s t
step_terminal (revokes reason by now) s t = revoke_terminal reason by now s t
step_terminal pulls s t = ground arith

-- `t` is `s` up to the recorded events.
abbrev pub SameButEvents : Session → Session → Type 0
SameButEvents s t = t ≡ record s { events = t.events }

-- An EXPIRED or REVOKED session never changes again: whatever calls follow, its status, the time and
-- the reason of its end, its last activity and all else stay, but for the events handed over.
pub run_terminal : (cs : List Call) (s : Session) → IsTerminal s.status → SameButEvents s (run cs s)
unfolding run
run_terminal [] s t = refl
run_terminal (pulls ∷ cs) s t =
    subst (λ u. SameButEvents s (run cs u)) (sym (step_terminal pulls s t))
      (run_terminal cs (record s { events = [] }) t)
run_terminal (enforces now ∷ cs) s t =
    subst (λ u. SameButEvents s (run cs u)) (sym (step_terminal (enforces now) s t))
      (run_terminal cs s t)
run_terminal (touches now ∷ cs) s t =
    subst (λ u. SameButEvents s (run cs u)) (sym (step_terminal (touches now) s t))
      (run_terminal cs s t)
run_terminal (revokes reason by now ∷ cs) s t =
    subst (λ u. SameButEvents s (run cs u)) (sym (step_terminal (revokes reason by now) s t))
      (run_terminal cs s t)
