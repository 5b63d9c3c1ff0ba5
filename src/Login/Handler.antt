-- ===== src/Login/Handler.antt =====
-- Login of internal/features/login/usecase/login.go, from the rate limit to the outcome. The source's
-- one function is cut into a chain at the calls that it waits for.
use araquanid.Domain.Policy.{AttemptContext}
use araquanid.Common.Text.{same_text}
use araquanid.Login.Outcomes.{
  complete_forced_change, complete_mfa_required, complete_session, fail_credential,
}
use araquanid.Login.Fingerprint.{
  compute_fingerprint, normalize, ip_string, truncate, verify_password,
}
use araquanid.Login.Ports.{
  Dependencies, LoginInput, ResolvedIdentity, LoginResult, RegisteredDevice,
}
use araquanid.Common.{◌||◌, if◌then◌else◌, none, some, String, Bool, Option, true, false, is_none}
use araquanid.Domain.Fault.{credential_not_found, DomainError}
use araquanid.Common.Result.{err, ok, Result}
use araquanid.Login.Steps.{
  invalid_credentials, panicked, failed, Request, check_rate_limit, Step, record_best_effort,
  attempt_row, or_wrap, locked_error, max_password_len,
}
use araquanid.Login.Transaction.{
  read_credential, resolved_identity, checked_password, read_device, read_factors,
}
use araquanid.AppError.{
  system_upstream, system_internal, domain_error, system_database, Cause, wrap, AppError,
}
use araquanid.Common.Method.{fails, panics, returns, Outcome}
use araquanid.Login.Traced.{◌>>=◌, ◌>>◌, call, throw}
use araquanid.Domain.Credential.{
  Credential, record_successful_verification, ensure_verifiable, is_password_expired,
}

module _ (deps : Dependencies) where
  -- The end of `Login`, once the password has been verified.
  unfoldable pub decide :
      Request → ResolvedIdentity → Option RegisteredDevice → Bool → Credential → Step LoginResult
  decide r resolved device has_factor c =
      if c.force_password_change || is_password_expired r.now c
      then complete_forced_change deps r resolved.identity_id c
      else if has_factor || is_none device
      then complete_mfa_required deps r resolved.identity_id c
      else complete_session deps r resolved device c

  -- `Login` once the failures have been reset.
  unfoldable pub after_verification :
      Request → ResolvedIdentity → Outcome Credential DomainError (Unit {0}) → Step LoginResult
  after_verification r resolved (fails e c) =
      throw (failed (wrap system_internal "record successful verification" (domain_error e)))
  after_verification r resolved panics = throw panicked
  after_verification r resolved (returns _ c) = do
    let identity = resolved.identity_id
    device ←
        call (read_device identity r.fingerprint_hash)
          (or_wrap system_database "find device" (deps.find_device identity r.fingerprint_hash))
    has_factor ←
        call (read_factors identity)
          (or_wrap system_database "check active mfa factor" (deps.has_active_factor identity))
    decide r resolved device has_factor c

  -- `Login` once the lockout has been looked at: the password.
  unfoldable pub check_password :
      Request
      → String
      → String
      → ResolvedIdentity
      → Outcome Credential DomainError (Unit {0})
      → Step LoginResult
  check_password r company password resolved (fails e c) =
      record_best_effort deps (attempt_row deps.lib r "LOCKED" (some resolved.identity_id) none)
      >> throw (failed (locked_error deps.lib c))
  check_password r company password resolved panics = throw panicked
  check_password r company password resolved (returns _ c) =
      let attempt : AttemptContext = record {
        company_code = company;
        ip = r.input.ip;
        user_agent = r.input.user_agent;
        device_fingerprint = r.fingerprint_hash;
      } in
      call checked_password (ok tt)
      >> (if verify_password deps.lib password c.password deps.config.argon2id
          then after_verification r resolved (record_successful_verification r.now c)
          else fail_credential deps r resolved.identity_id attempt c)

  abbrev pub is_not_found : Cause → Bool
  is_not_found (domain_error credential_not_found) = true
  is_not_found _ = false

  -- `Login` with an active identity, once its credential has been looked up.
  unfoldable pub with_credential :
      Request → String → String → ResolvedIdentity → Result Cause Credential → Step LoginResult
  with_credential r company password resolved (ok c) =
      check_password r company password resolved (ensure_verifiable r.now c)
  with_credential r company password resolved (err e) =
      if is_not_found e
      then invalid_credentials deps r (some resolved.identity_id)
      else throw (failed (wrap system_database "load credential" e))

  -- `Login` once the identity has been resolved.
  unfoldable pub with_identity :
      Request → String → String → Option ResolvedIdentity → Step LoginResult
  with_identity r company password none = invalid_credentials deps r none
  with_identity r company password (some resolved) =
      if same_text resolved.status "ACTIVE"
      then (call (read_credential resolved.identity_id) (ok tt)
          >> with_credential r company password resolved
              (deps.find_credential resolved.identity_id))
      else invalid_credentials deps r none

  -- `Login` past the rate limit.
  unfoldable pub authenticate : Request → String → Step LoginResult
  authenticate r password =
      let identifier = normalize deps.lib r.input.identifier in
      let company = deps.lib.to_upper (deps.lib.trim_space r.input.company_code) in
      call (resolved_identity identifier company)
        (or_wrap system_upstream "resolve identity" (deps.resolve_identity identifier company))
      >>= with_identity r company password

  -- The request as it is before and after the fingerprint is computed.
  abbrev pub request : String → LoginInput → Request
  request fingerprint input = record {
    input = input;
    now = deps.clock;
    identifier_hash = deps.lib.sha256_hex input.identifier;
    fingerprint_hash = fingerprint;
  }

  abbrev pub fingerprint_of : LoginInput → String
  fingerprint_of input =
      compute_fingerprint deps.lib input.user_agent input.accept_language input.device_fingerprint
        input.ip

  -- `Login` once the rate limit is known.
  unfoldable pub after_limit : LoginInput → Option AppError → Step LoginResult
  unfolding record_best_effort
  after_limit input (some e) =
      record_best_effort deps (attempt_row deps.lib (request "" input) "RATE_LIMITED" none none)
      >> throw (failed e)
  after_limit input none =
      authenticate (request (fingerprint_of input) input)
        (truncate deps.lib input.password max_password_len)

  -- `Login`
  unfoldable pub login : LoginInput → Step LoginResult
  unfolding check_rate_limit
  login input =
      check_rate_limit deps (ip_string deps.lib input.ip) (deps.lib.sha256_hex input.identifier)
      >>= after_limit input
