-- ===== src/Login/Outcomes.antt =====
-- The outcomes of a login past the password check: failCredential, completeForcedChange,
-- completeMFARequired and completeSession of internal/features/login/usecase/login.go.
use araquanid.Common.Result.{map_error}
use araquanid.Common.Time.{whole_seconds, add}
use araquanid.Domain.Session.{pull_events as session_pull_events, Session}
use araquanid.Domain.Credential.{pull_events, Credential, record_failed_attempt}
use araquanid.Domain.Policy.{AttemptContext}
use araquanid.Domain.Session.Creation.{NewSessionParams, new_session}
use araquanid.Login.Fingerprint.{ip_string, infer_device_name}
use araquanid.Login.Sessions.{apply_concurrent_session_policy}
use araquanid.Login.Ports.{
  Dependencies, ResolvedIdentity, RegisteredDevice, LoginResult, MfaSessionState, AccessTokenClaims,
  RefreshTokenRecord,
}
use araquanid.Common.{◌++◌, ◌∷◌, none, some, [], String, Option, true}
use araquanid.Domain.Kinds.{aal1}
use araquanid.Common.Int.{pos}
use araquanid.AppError.{system_internal, domain_error, system_upstream, system_database, wrap}
use araquanid.Login.Transaction.{
  created_mfa_session, appended_events, created_token, registered_device, recorded_attempt,
  created_session, created_family, signed_token, touched_device, saved_credential, read_factors,
  Write,
}
use araquanid.Login.Steps.{
  failed, Request, in_transaction, persist_attempt, Step, or_wrap, attempt_row, invalid,
  empty_result,
}
use araquanid.Common.Method.{state_after}
use araquanid.Login.Traced.{◌>>=◌, ◌>>◌, call, Traced, answer, throw, pure}

-- The parameters of the session that a completed login creates; the source sets no device.
unfoldable pub session_params : Dependencies → Request → ResolvedIdentity → NewSessionParams
session_params deps r resolved = record {
  id = deps.new_id 0;
  identity = resolved.identity_id;
  device = "";
  aal = aal1;
  factors_used = [];
  client = record { ip = r.input.ip; user_agent = r.input.user_agent };
  policy = deps.config.session_policy;
  now = r.now;
}

module _ (deps : Dependencies) where
  -- `failCredential`
  unfoldable pub fail_credential : Request → String → AttemptContext → Credential → Step LoginResult
  unfolding in_transaction persist_attempt
  fail_credential r identity attempt c =
      let c' = state_after c (record_failed_attempt attempt deps.config.lockout r.now c) in
      in_transaction deps "persist failed login attempt"
        (persist_attempt deps c' (attempt_row deps.lib r "FAILED_CREDENTIALS" (some identity) none))
      >> throw (failed invalid)

  -- `completeForcedChange`
  unfoldable pub complete_forced_change : Request → String → Credential → Step LoginResult
  unfolding in_transaction persist_attempt
  complete_forced_change r identity c = do
    token ← call (signed_token identity) (
        or_wrap system_internal "sign restricted token"
          (deps.sign_restricted_token identity "password_change" deps.config.forced_change_window))
    in_transaction deps "persist password-change-required outcome" (
        persist_attempt deps c
          (attempt_row deps.lib r "PASSWORD_CHANGE_REQUIRED" (some identity) none))
    pure (record empty_result {
      authentication_result = "PASSWORD_CHANGE_REQUIRED";
      force_password_change = true;
      forced_change_session_token = token;
    })

  -- `completeMFARequired`
  unfoldable pub complete_mfa_required : Request → String → Credential → Step LoginResult
  unfolding in_transaction persist_attempt
  complete_mfa_required r identity c = do
    factors ←
        call (read_factors identity) (
          or_wrap system_database "list active mfa factors"
            (deps.list_active_factor_types identity))
    token ← answer (or_wrap system_internal "generate mfa session token" deps.random_token)
    in_transaction deps "persist mfa-required outcome"
        (persist_attempt deps c (attempt_row deps.lib r "MFA_REQUIRED" (some identity) none))
    let state : MfaSessionState = record {
      identity_id = identity;
      credential_verified_at = r.now;
      available_factors = factors;
      failed_mfa_attempts = pos 0;
      client_id = r.input.client_id;
      device_fingerprint = r.fingerprint_hash;
    }
    call (created_mfa_session token state) (
        or_wrap system_upstream "create mfa session"
          (deps.create_mfa_session token state deps.config.mfa_session_window))
    pure (record empty_result {
      authentication_result = "MFA_REQUIRED";
      mfa_session_token = token;
      available_factors = factors;
    })

  -- The device of a completed login is touched, or registered if there is none.
  unfoldable pub write_device :
      Request → String → Option RegisteredDevice → Traced Write String (Unit {0})
  write_device r identity (some d) = call (touched_device d.id r.now) (deps.touch_device d.id r.now)
  write_device r identity none = do
    id ← call (registered_device identity r.fingerprint_hash) (
        deps.register_device identity r.fingerprint_hash deps.config.fingerprint_version
          (infer_device_name deps.lib r.input.user_agent) (ip_string deps.lib r.input.ip) r.now)
    pure tt

  -- The transaction of `completeSession`, up to the audit row.
  unfoldable pub session_rows :
      Request
      → ResolvedIdentity
      → Option RegisteredDevice
      → Credential
      → Session
      → String
      → Traced Write String (Unit {0})
  unfolding apply_concurrent_session_policy write_device
  session_rows r resolved device c s token = do
    let (events, c') = pull_events c
    let (session_events, s') = session_pull_events s
    let identity = resolved.identity_id
    let family = deps.new_id 1
    let row : RefreshTokenRecord = record {
      family_id = family;
      token_hash = deps.lib.sha256_hex token;
      client_id = r.input.client_id;
      issuer_ip = ip_string deps.lib r.input.ip;
      issued_at = r.now;
      expires_at = add r.now deps.config.refresh_token_ttl;
    }
    apply_concurrent_session_policy deps identity r.input.client_id r.now
    write_device r identity device
    call (saved_credential c') (deps.save_credential c')
    call (created_session s r.input.client_id) (deps.create_session s r.input.client_id)
    call (created_family family (deps.new_id 0) identity)
        (deps.create_family family (deps.new_id 0) identity)
    call (created_token row) (deps.create_token row)
    call (appended_events (events ++ session_events))
        (deps.append_events (events ++ session_events))

  -- The transaction of `completeSession`.
  unfoldable pub session_writes :
      Request
      → ResolvedIdentity
      → Option RegisteredDevice
      → Credential
      → Session
      → String
      → Traced Write String (Unit {0})
  unfolding session_rows
  session_writes r resolved device c s token =
      let attempt =
        attempt_row deps.lib r "SUCCEEDED" (some resolved.identity_id) (some (deps.new_id 0)) in
      session_rows r resolved device c s token
      >> call (recorded_attempt attempt) (deps.record_attempt_tx attempt)

  -- `completeSession`
  unfoldable pub complete_session :
      Request → ResolvedIdentity → Option RegisteredDevice → Credential → Step LoginResult
  unfolding in_transaction session_writes session_params
  complete_session r resolved device c = do
    let params = session_params deps r resolved
    s ← answer (
        map_error (λ e. failed (wrap system_internal "create session" (domain_error e)))
          (new_session params))
    token ← answer (or_wrap system_internal "generate refresh token" deps.random_token)
    let claims : AccessTokenClaims = record {
      subject = resolved.identity_id;
      audience = r.input.client_id ∷ [];
      session_id = params.id;
      aal = "AAL1";
      device_id = "";
      corporate_id = resolved.corporate_id;
      scope = "";
    }
    access ← call (signed_token resolved.identity_id) (
        or_wrap system_internal "sign access token"
          (deps.sign_access_token claims deps.config.access_token_ttl))
    in_transaction deps "persist completed login" (session_writes r resolved device c s token)
    pure (record empty_result {
      authentication_result = "COMPLETED";
      access_token = access;
      token_type = "Bearer";
      expires_in = whole_seconds deps.config.access_token_ttl;
      refresh_token = token;
      session_id = params.id;
      aal = "AAL1";
    })
