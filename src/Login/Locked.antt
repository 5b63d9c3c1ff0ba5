-- ===== src/Login/Locked.antt =====
-- Login of internal/features/login/usecase/login.go for a credential that is locked.
use araquanid.Domain.Credential.Lockout.{ensure_verifiable-is_locked}
use araquanid.Login.Fingerprint.{truncate}
use araquanid.Common.Text.{same_text}
use mathlib.Core.Path.{subst}
use araquanid.Login.Indistinct.{ask_identity, login_allowed}
use araquanid.Login.Refusals.{IsAllowed, record_and_throw}
use araquanid.Domain.Credential.{Credential, is_locked, ensure_verifiable}
use araquanid.Login.Handler.{
  authenticate, with_identity, with_credential, check_password, login, request, fingerprint_of,
}
use araquanid.Common.Time.{Time}
use araquanid.AppError.{AppError}
use araquanid.Login.Ports.{
  Dependencies, LoginInput, LoginAttemptRecord, ResolvedIdentity, LoginResult,
}
use araquanid.Common.{◌≡◌, refl, inl, inr, none, some, [], All, sym, String, true, All-append}
use araquanid.Common.Method.{fails, returns}
use araquanid.Common.Result.{err, ok, Result-cases}
use araquanid.Login.Steps.{
  failed, record_best_effort, Step, locked_error, attempt_row, max_password_len,
}
use araquanid.Domain.Fault.{account_is_locked}
use araquanid.Login.Transaction.{
  resolved_identity, logged_failure, read_credential, logged_attempt, asked_limiter, Action,
}
use araquanid.Domain.Credential.Validity.{IsValid}
use araquanid.Login.Traced.{◌>>◌, throw}

-- The calls up to the password check: lookups, and the audit log outside a transaction.
abbrev pub IsBeforePassword : Action → Type 0
IsBeforePassword (asked_limiter key) = Unit
IsBeforePassword (resolved_identity identifier company) = Unit
IsBeforePassword (read_credential identity) = Unit
IsBeforePassword (logged_attempt row) = Unit
IsBeforePassword logged_failure = Unit
IsBeforePassword _ = ⊥

-- An active identity with a well-formed credential that is locked.
pub record HasLockedCredential (deps : Dependencies) (input : LoginInput) : Type 0 where
  pub identity : ResolvedIdentity
  pub credential : Credential
  pub resolves : ask_identity deps input ≡ ok (some identity)
  pub is_active : same_text identity.status "ACTIVE" ≡ true
  pub finds : deps.find_credential identity.identity_id ≡ ok credential
  pub valid : IsValid credential
  pub locked : is_locked deps.clock credential ≡ returns true credential

-- Refused by the given error, with no call past the lookups.
abbrev pub Refuses : AppError → Step LoginResult → Type 0
Refuses e m = (m.result ≡ err (failed e)) × All IsBeforePassword m.trace

record_best_effort-IsBeforePassword :
    (deps : Dependencies) (row : LoginAttemptRecord)
    → All IsBeforePassword (record_best_effort deps row).trace
unfolding record_best_effort
record_best_effort-IsBeforePassword deps row = elim (Result-cases (deps.record_attempt row)) [
  | inl e ↦ rw (e, record_best_effort) (tt, tt)
  | inr (_, e) ↦ rw (e, record_best_effort) (tt, (tt, tt))
]

record_and_throw-Refuses :
    (deps : Dependencies) (row : LoginAttemptRecord) (e : AppError)
    → Refuses e (record_best_effort deps row >> throw (failed e))
record_and_throw-Refuses deps row e =
    subst (Refuses e) (sym (record_and_throw deps row (failed e))) (
      refl,
      All-append IsBeforePassword (record_best_effort deps row).trace []
          (record_best_effort-IsBeforePassword deps row) tt,
    )

refused_when_locked :
    (now : Time) (c : Credential)
    → IsValid c
    → is_locked now c ≡ returns true c
    → ensure_verifiable now c ≡ fails account_is_locked c
refused_when_locked now c v h = elim (ensure_verifiable-is_locked now c v) [
  | inl (_, refused) ↦ refused
  | inr (open_now, _) ↦ cc
]

authenticate_locked :
    (deps : Dependencies) (input : LoginInput) (fingerprint password : String)
    → (h : HasLockedCredential deps input)
    → Refuses
        (locked_error deps.lib h.credential)
        (authenticate deps (request deps fingerprint input) password)
unfolding authenticate with_identity with_credential check_password
authenticate_locked deps input fingerprint password h =
    rw (h.resolves, h.is_active, authenticate)
      (rw (h.finds, with_identity)
        (rw (refused_when_locked deps.clock h.credential h.valid h.locked, check_password)
          (refused.0, (tt, (tt, refused.1)))))
  where
    refused : Refuses (locked_error deps.lib h.credential) (
        record_best_effort deps (
          attempt_row deps.lib
            (request deps fingerprint input)
            "LOCKED"
            (some h.identity.identity_id)
            none)
        >> throw (failed (locked_error deps.lib h.credential)))
    refused =
        record_and_throw-Refuses deps
          (attempt_row deps.lib (request deps fingerprint input) "LOCKED"
            (some h.identity.identity_id) none)
          (locked_error deps.lib h.credential)

-- Within the rate limits, a login to a well-formed credential that is locked is refused with the error
-- of a locked account, which carries the end of a temporary lock. The password is not looked at, no
-- transaction is begun, and nothing is written but the audit row.
pub login_refuses_locked :
    (deps : Dependencies) (input : LoginInput)
    → IsAllowed deps input
    → (h : HasLockedCredential deps input)
    → ((login deps input).result ≡ err (failed (locked_error deps.lib h.credential)))
      × All IsBeforePassword (login deps input).trace
login_refuses_locked deps input allowed h =
    let refused =
      authenticate_locked deps input (fingerprint_of deps input)
        (truncate deps.lib input.password max_password_len) h in
    subst (Refuses (locked_error deps.lib h.credential)) (sym (login_allowed deps input allowed))
      (refused.0, (tt, (tt, refused.1)))
