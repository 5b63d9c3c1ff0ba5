-- ===== src/Login/Steps.antt =====
-- The steps that the outcomes of a login share, of internal/features/login/usecase/login.go: the rate
-- limit, the audit rows, the transaction, and the refusal of invalid credentials.
use araquanid.Login.Fingerprint.{ip_string}
use araquanid.Domain.Credential.{pull_events, Credential}
use araquanid.Common.Text.{concat}
use araquanid.Common.Time.{Time, Duration, whole_seconds}
use araquanid.Login.Ports.{
  LoginInput, StandardLibrary, LoginResult, Dependencies, LoginAttemptRecord,
}
use araquanid.Common.{◌∷◌, if◌then◌else◌, none, some, [], ℕ, String, Option, false, not}
use araquanid.Common.Int.{pos}
use araquanid.Common.Result.{ok, err, Result, map_error}
use araquanid.Login.Transaction.{
  logged_attempt, asked_limiter, recorded_attempt, appended_events, checked_dummy, saved_credential,
  logged_failure, Action, execute, Write,
}
use araquanid.AppError.{
  system_database, rate_limited_code, system_upstream, login_invalid_credentials, port_error,
  login_account_locked, AppError, Code, new, with_detail, wrap,
}
use araquanid.Login.Traced.{◌>>=◌, ◌>>◌, Traced, call, throw, pure}

-- How a login fails: with an error, or by a panic.
pub data Failure : Type 0 where
  failed : AppError → Failure
  panicked : Failure

abbrev pub Step : Type 0 → Type 0
Step A = Traced Action Failure A

-- `apperror.Wrap` on the error of a port.
abbrev pub or_wrap : {A : Type 0} → Code → String → Result String A → Result Failure A
or_wrap code message r = map_error (λ e. failed (wrap code message (port_error e))) r

-- What the request carries once it has been hashed: the input, the instant, and the two hashes.
pub record Request : Type 0 where
  pub input : LoginInput
  pub now : Time
  pub identifier_hash : String
  pub fingerprint_hash : String

abbrev pub max_password_len : ℕ
max_password_len = 128

abbrev pub invalid : AppError
invalid = new login_invalid_credentials "invalid credentials"

-- `apperror.RateLimited`
abbrev pub rate_limited : StandardLibrary → Duration → AppError
rate_limited lib retry_after =
    with_detail "retry_after" (lib.itoa (whole_seconds retry_after))
      (new rate_limited_code "too many requests")

abbrev pub ip_key : String → String
ip_key ip = concat ("ratelimit:login:ip:" ∷ ip ∷ [])

abbrev pub identity_key : String → String → String
identity_key identifier_hash ip =
    concat ("ratelimit:login:identity:" ∷ identifier_hash ∷ ":" ∷ ip ∷ [])

-- `cred.LockedUntil()` in the error of a locked account.
abbrev pub locked_error : StandardLibrary → Credential → AppError
locked_error lib c = elim c.locked_until [
  | none ↦ new login_account_locked "account is locked"
  | some until ↦
      with_detail "locked_until" (lib.rfc3339 until) (new login_account_locked "account is locked")
]

-- A row of login_attempts.
abbrev pub attempt_row :
    StandardLibrary → Request → String → Option String → Option String → LoginAttemptRecord
attempt_row lib r outcome identity session = record {
  identity_id = identity;
  identifier_hash = r.identifier_hash;
  outcome = outcome;
  failure_reason = "";
  ip_address = ip_string lib r.input.ip;
  user_agent = r.input.user_agent;
  device_fingerprint = r.fingerprint_hash;
  session_id = session;
  mfa_factor_type = "";
  attempted_at = r.now;
}

abbrev pub empty_result : LoginResult
empty_result = record {
  authentication_result = "";
  access_token = "";
  token_type = "";
  expires_in = pos 0;
  refresh_token = "";
  session_id = "";
  aal = "";
  force_password_change = false;
  mfa_session_token = "";
  available_factors = [];
  forced_change_session_token = "";
}

module _ (deps : Dependencies) where
  -- `recordAttemptBestEffort`
  unfoldable pub record_best_effort : LoginAttemptRecord → Step (Unit {0})
  record_best_effort row = elim (deps.record_attempt row) [
    | ok _ ↦ call (logged_attempt row) (ok tt)
    | err e ↦ record { trace = logged_attempt row ∷ logged_failure ∷ []; result = ok tt }
  ]

  -- `checkRateLimit`; `some` is the error of a refusal, and `none` lets the request pass.
  unfoldable pub check_rate_limit : String → String → Step (Option AppError)
  check_rate_limit ip identifier_hash = do
    let limits = deps.config.rate_limit
    let key = ip_key ip
    first ← call (asked_limiter key) (
        or_wrap system_upstream "rate limit check"
          (deps.allow key limits.ip_max_attempts limits.ip_window))
    if not first.0 then pure (some (rate_limited deps.lib first.1)) else do
      let key' = identity_key identifier_hash ip
      second ← call (asked_limiter key') (
          or_wrap system_upstream "rate limit check"
            (deps.allow key' limits.identity_max_attempts limits.identity_window))
      if not second.0 then pure (some (rate_limited deps.lib second.1)) else pure none

  -- The writes that every outcome after the password check ends with.
  unfoldable pub persist_attempt : Credential → LoginAttemptRecord → Traced Write String (Unit {0})
  persist_attempt c row =
      let (events, c') = pull_events c in
      call (saved_credential c') (deps.save_credential c')
      >> call (appended_events events) (deps.append_events events)
      >> call (recorded_attempt row) (deps.record_attempt_tx row)

  -- A transaction, with its error wrapped.
  unfoldable pub in_transaction : String → Traced Write String (Unit {0}) → Step (Unit {0})
  unfolding execute
  in_transaction message tx =
      let done = execute deps tx in
      record { trace = done.trace; result = or_wrap system_database message done.result }

  -- `invalidCredentials`
  unfoldable pub invalid_credentials : Request → Option String → Step LoginResult
  unfolding record_best_effort
  invalid_credentials r identity =
      call checked_dummy (ok tt)
      >> record_best_effort (attempt_row deps.lib r "FAILED_CREDENTIALS" identity none)
      >> throw (failed invalid)
