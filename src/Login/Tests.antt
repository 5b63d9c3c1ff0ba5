-- ===== src/Login/Tests.antt =====
-- A login against ports with fixed answers: runs of the use case, and the theorems of the sibling files
-- on inputs that meet their conditions.
use araquanid.Login.Locked.{HasLockedCredential, IsBeforePassword, login_refuses_locked}
use araquanid.Login.Refusals.{IsBeforeLookup, login-rate_limited}
use araquanid.Login.Eviction.{evictions, limit_policy_lem, single_policy_lem}
use araquanid.Login.Sessions.{apply_concurrent_session_policy}
use araquanid.Login.Decision.{Findings, IsDue, login_decides}
use araquanid.Login.Indistinct.{count_checks, login_rejects_alike}
use araquanid.Login.Handler.{login}
use araquanid.Domain.Session.{is_active}
use araquanid.Domain.Credential.{Credential, requires_password_change, is_locked}
use araquanid.Login.Ports.{Dependencies}
use araquanid.Common.Time.{seconds}
use araquanid.Common.{
  ◌+◌, ◌||◌, ◌≡◌, ◌*◌, ◌∷◌, refl, inl, inr, some, [], false, true, All, is_none, arith,
}
use araquanid.Common.Int.{pos}
use araquanid.Login.Steps.{failed, rate_limited, invalid, locked_error}
use araquanid.Common.Result.{err, ok}
use araquanid.Domain.Kinds.{locked_temporary}
use araquanid.AppError.{rate_limited_code, internal, system_internal}
use araquanid.AppError.Transport.{
  error_reply, intercept, error_reply-intercept, other_detail, error_info, Status, IsReplyTo,
  status,
}
use araquanid.Login.Fixtures.{
  noon, minute, lib, credential, old_session, ports, input, completed, login_is_completed,
  wrong_password, ports-IsStored,
}

login-rate_limited_example :
    ((login (ports "SINGLE" false) (input "tiger")).result
      ≡ err (failed (rate_limited lib (seconds 30))))
    × All IsBeforeLookup (login (ports "SINGLE" false) (input "tiger")).trace
login-rate_limited_example =
    login-rate_limited (ports "SINGLE" false) (input "tiger") (seconds 30) (inl refl)

login_rejects_alike_example :
    ((login (ports "SINGLE" true) (input "lions")).result ≡ err (failed invalid))
    × (count_checks (login (ports "SINGLE" true) (input "lions")).trace ≡ 1)
login_rejects_alike_example =
    login_rejects_alike (ports "SINGLE" true) (input "lions") (seconds 30, seconds 30, refl, refl)
      (inr (wrong_password, ports-IsStored))

login_decides_example :
    (f : Findings (ports "SINGLE" true) (input "tiger")) × IsDue
      (requires_password_change (noon + 20 * minute) f.verified)
      (f.has_factor || is_none f.device)
      completed
      (login (ports "SINGLE" true) (input "tiger")).trace
login_decides_example =
    login_decides (ports "SINGLE" true) (input "tiger") completed login_is_completed

single_policy_lem_example :
    apply_concurrent_session_policy (ports "SINGLE" true) "u-1" "web" (noon + minute)
    ≡ record { trace = evictions (noon + minute) (old_session ∷ []); result = ok tt }
single_policy_lem_example =
    single_policy_lem (ports "SINGLE" true) "u-1" "web" (noon + minute) (old_session ∷ []) refl refl
      (λ t. refl) (refl, tt)

-- Twenty minutes after its last activity the oldest session is not evicted.
limit_policy_lem_example :
    apply_concurrent_session_policy (ports "LIMIT_N" true) "u-1" "web" (noon + 20 * minute)
    ≡ record { trace = []; result = ok tt }
unfolding is_active
limit_policy_lem_example =
    limit_policy_lem (ports "LIMIT_N" true) "u-1" "web" (noon + 20 * minute) (pos 3) old_session
      refl refl refl refl (λ t. refl) refl

-- A status of this service that passed another one first.
abbrev relayed : Status
relayed = record {
  code = internal;
  message = "too many requests";
  details =
      other_detail "retry"
      ∷ error_info (record { reason = system_internal; domain = "other"; metadata = [] })
      ∷ error_info (record {
        reason = rate_limited_code;
        domain = "araquanid";
        metadata = ("retry_after", "30") ∷ [];
      })
      ∷ [];
}

error_reply-intercept_example :
    IsReplyTo true (status relayed) (error_reply (intercept true (status relayed)))
error_reply-intercept_example = error_reply-intercept true (status relayed)

-- Locked for half an hour from noon.
abbrev held_credential : Credential
held_credential = record credential {
  lockout_status = locked_temporary;
  locked_at = some noon;
  locked_until = some (noon + 30 * minute);
  lockout_history_count = pos 1;
}

abbrev held_ports : Dependencies
held_ports = record (ports "SINGLE" true) { find_credential = λ identity. ok held_credential }

has_held_credential : HasLockedCredential held_ports (input "tiger")
unfolding is_locked
has_held_credential = record {
  identity = record { identity_id = "u-1"; status = "ACTIVE"; corporate_id = "ACME" };
  credential = held_credential;
  resolves = refl;
  is_active = refl;
  finds = refl;
  valid = record {
    named = refl;
    owned = refl;
    secured = refl;
    dated = refl;
    counted = omega arith;
    escalated = omega arith;
    locked = (refl, refl, omega arith);
    remembered = tt;
  };
  locked = refl;
}

login_refuses_locked_example :
    ((login held_ports (input "tiger")).result
      ≡ err (failed (locked_error lib has_held_credential.credential)))
    × All IsBeforePassword (login held_ports (input "tiger")).trace
login_refuses_locked_example =
    login_refuses_locked held_ports (input "tiger") (seconds 30, seconds 30, refl, refl)
      has_held_credential
