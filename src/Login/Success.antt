-- ===== src/Login/Success.antt =====
-- What a login that succeeds has found and stored: the outcomes completeForcedChange,
-- completeMFARequired and completeSession of internal/features/login/usecase/login.go.
use araquanid.Common.Time.{whole_seconds}
use araquanid.Domain.Session.Creation.{new_session}
use araquanid.Domain.Session.{Session}
use araquanid.Domain.Kinds.{FactorType}
use araquanid.Common.Int.{pos}
use araquanid.Login.Verified.{part}
use araquanid.Login.Outcomes.{
  complete_forced_change, complete_mfa_required, session_writes, complete_session, session_rows,
  session_params,
}
use araquanid.AppError.{system_internal, system_database, system_upstream, domain_error, wrap}
use mathlib.Core.Path.{subst}
use araquanid.Login.Ports.{
  Dependencies, LoginAttemptRecord, LoginResult, MfaSessionState, ResolvedIdentity,
  RegisteredDevice, AccessTokenClaims,
}
use araquanid.Login.Steps.{
  in_transaction, persist_attempt, Step, Request, attempt_row, or_wrap, empty_result, failed,
}
use araquanid.Common.{
  ◌≡◌, ◌∷◌, refl, inl, [], String, arith, Any, sym, none, some, true, ap, Any-append-left, List,
  Option,
}
use araquanid.Login.Transaction.{
  committed, recorded_attempt, appended_events, saved_credential, execute, Write, Action,
  signed_token, created_mfa_session, read_factors,
}
use araquanid.Common.Result.{ok, ok-injective, map_error}
use araquanid.Domain.Credential.{pull_events, Credential}
use araquanid.Login.Traced.{◌>>◌, Traced, >>=-Any, call, pure, >>=-eq-ok, answer, ◌>>=◌}

in_transaction-eq-ok :
    (deps : Dependencies) (message : String) (tx : Traced Write String (Unit {0})) (u : Unit {0})
    → (in_transaction deps message tx).result ≡ ok u
    → (tx.result ≡ ok tt) × ((in_transaction deps message tx).trace ≡ committed tx.trace ∷ [])
unfolding in_transaction execute
in_transaction-eq-ok deps message tx u h = ground (arith, h)

-- The audit row of an outcome.
abbrev pub IsRow : String → Write → Type 0
IsRow outcome (recorded_attempt row) = row.outcome ≡ outcome
IsRow outcome _ = ⊥

-- A committed transaction that writes it.
abbrev pub IsAudited : String → Action → Type 0
IsAudited outcome (committed ws) = Any (IsRow outcome) ws
IsAudited outcome _ = ⊥

-- A transaction that succeeds and ends with the audit row has committed it.
in_transaction-IsAudited :
    (deps : Dependencies) (message : String) (tx : Traced Write String (Unit {0})) (u : Unit {0})
    (outcome : String)
    → (in_transaction deps message tx).result ≡ ok u
    → (tx.result ≡ ok tt → Any (IsRow outcome) tx.trace)
    → Any (IsAudited outcome) (in_transaction deps message tx).trace
in_transaction-IsAudited deps message tx u outcome h k =
    let (e, trace) = in_transaction-eq-ok deps message tx u h in
    subst (Any (IsAudited outcome)) (sym trace) (inl (k e))

persist_attempt-IsRow :
    (deps : Dependencies) (c : Credential) (row : LoginAttemptRecord)
    → (persist_attempt deps c row).result ≡ ok tt
    → Any (IsRow row.outcome) (persist_attempt deps c row).trace
unfolding persist_attempt
persist_attempt-IsRow deps c row h =
    let (events, c') = pull_events c in
    >>=-Any (IsRow row.outcome)
      (call (saved_credential c') (deps.save_credential c')
        >> call (appended_events events) (deps.append_events events))
      (λ _. call (recorded_attempt row) (deps.record_attempt_tx row)) tt h (λ _ _. inl refl)

-- The result says what the committed audit row says.
abbrev pub IsReportedAs : String → LoginResult → Step LoginResult → Type 0
IsReportedAs outcome res m = (res.authentication_result ≡ outcome) × Any (IsAudited outcome) m.trace

store-eq-ok :
    (deps : Dependencies) (message : String) (tx : Traced Write String (Unit {0}))
    (outcome : String) (k : Step LoginResult) (res : LoginResult)
    → (tx.result ≡ ok tt → Any (IsRow outcome) tx.trace)
    → (in_transaction deps message tx >> k).result ≡ ok res
    → (k.result ≡ ok res) × Any (IsAudited outcome) (in_transaction deps message tx >> k).trace
store-eq-ok deps message tx outcome k res row h =
    let store = in_transaction deps message tx in
    let (u, stored, given, trace) = >>=-eq-ok store (λ _. k) res h in
    (
      given,
      subst (Any (IsAudited outcome)) (sym trace) (
          Any-append-left (IsAudited outcome) store.trace k.trace
            (in_transaction-IsAudited deps message tx u outcome stored row)),
    )

pub complete_forced_change-IsReported :
    (deps : Dependencies) (r : Request) (identity : String) (c : Credential) (res : LoginResult)
    → (complete_forced_change deps r identity c).result ≡ ok res
    → IsReportedAs "PASSWORD_CHANGE_REQUIRED" res (complete_forced_change deps r identity c)
unfolding complete_forced_change
complete_forced_change-IsReported deps r identity c res h =
    let outcome : String = "PASSWORD_CHANGE_REQUIRED" in
    let message : String = "persist password-change-required outcome" in
    let tx = persist_attempt deps c (attempt_row deps.lib r outcome (some identity) none) in
    let sign = call (signed_token identity) (
      or_wrap system_internal "sign restricted token"
        (deps.sign_restricted_token identity "password_change" deps.config.forced_change_window)) in
    let give : String → Step LoginResult = λ token. pure (record empty_result {
      authentication_result = outcome;
      force_password_change = true;
      forced_change_session_token = token;
    }) in
    let (token, _, rest, p) = part sign (λ t. in_transaction deps message tx >> give t) res h in
    let (given, audited) =
      store-eq-ok deps message tx outcome (give token) res
        (persist_attempt-IsRow deps c (attempt_row deps.lib r outcome (some identity) none)) rest in
    (ap (λ x. x.authentication_result) (sym (ok-injective given)), p (IsAudited outcome) audited)

pub complete_mfa_required-IsReported :
    (deps : Dependencies) (r : Request) (identity : String) (c : Credential) (res : LoginResult)
    → (complete_mfa_required deps r identity c).result ≡ ok res
    → IsReportedAs "MFA_REQUIRED" res (complete_mfa_required deps r identity c)
unfolding complete_mfa_required
complete_mfa_required-IsReported deps r identity c res h =
    let outcome : String = "MFA_REQUIRED" in
    let message : String = "persist mfa-required outcome" in
    let row = attempt_row deps.lib r outcome (some identity) none in
    let tx = persist_attempt deps c row in
    let list = call (read_factors identity) (
      or_wrap system_database "list active mfa factors" (deps.list_active_factor_types identity)) in
    let draw = answer (or_wrap system_internal "generate mfa session token" deps.random_token) in
    let state : List FactorType → MfaSessionState = λ factors. record {
      identity_id = identity;
      credential_verified_at = r.now;
      available_factors = factors;
      failed_mfa_attempts = pos 0;
      client_id = r.input.client_id;
      device_fingerprint = r.fingerprint_hash;
    } in
    let make : List FactorType → String → Step (Unit {0}) = λ factors token.
      call (created_mfa_session token (state factors)) (
        or_wrap system_upstream "create mfa session"
          (deps.create_mfa_session token (state factors) deps.config.mfa_session_window)) in
    let give : List FactorType → String → Step LoginResult = λ factors token.
      pure (record empty_result {
        authentication_result = outcome;
        mfa_session_token = token;
        available_factors = factors;
      }) in
    let (factors, _, rest, p) =
      part list (λ fs. draw >>= λ t. in_transaction deps message tx >> (make fs t >> give fs t)) res
        h in
    let (token, _, rest', p') =
      part draw (λ t. in_transaction deps message tx >> (make factors t >> give factors t)) res
        rest in
    let (made, audited) =
      store-eq-ok deps message tx outcome (make factors token >> give factors token) res
        (persist_attempt-IsRow deps c row) rest' in
    let (_, _, given, _) = >>=-eq-ok (make factors token) (λ _. give factors token) res made in
    (
      ap (λ x. x.authentication_result) (sym (ok-injective given)),
      p (IsAudited outcome) (p' (IsAudited outcome) audited),
    )

session_writes-IsRow :
    (deps : Dependencies) (r : Request) (i : ResolvedIdentity) (device : Option RegisteredDevice)
    (c : Credential) (s : Session) (token : String)
    → (session_writes deps r i device c s token).result ≡ ok tt
    → Any (IsRow "SUCCEEDED") (session_writes deps r i device c s token).trace
unfolding session_writes
session_writes-IsRow deps r i device c s token h =
    let row = attempt_row deps.lib r "SUCCEEDED" (some i.identity_id) (some (deps.new_id 0)) in
    >>=-Any (IsRow "SUCCEEDED") (session_rows deps r i device c s token)
      (λ _. call (recorded_attempt row) (deps.record_attempt_tx row)) tt h (λ _ _. inl refl)

pub complete_session-IsReported :
    (deps : Dependencies) (r : Request) (i : ResolvedIdentity) (device : Option RegisteredDevice)
    (c : Credential) (res : LoginResult)
    → (complete_session deps r i device c).result ≡ ok res
    → (res.authentication_result ≡ "COMPLETED")
      × Any (IsAudited "SUCCEEDED") (complete_session deps r i device c).trace
unfolding complete_session
complete_session-IsReported deps r i device c res h =
    let message : String = "persist completed login" in
    let id = deps.new_id 0 in
    let create = answer (
      map_error (λ e. failed (wrap system_internal "create session" (domain_error e)))
        (new_session (session_params deps r i))) in
    let draw = answer (or_wrap system_internal "generate refresh token" deps.random_token) in
    let claims : AccessTokenClaims = record {
      subject = i.identity_id;
      audience = r.input.client_id ∷ [];
      session_id = id;
      aal = "AAL1";
      device_id = "";
      corporate_id = i.corporate_id;
      scope = "";
    } in
    let sign = call (signed_token i.identity_id) (
      or_wrap system_internal "sign access token"
        (deps.sign_access_token claims deps.config.access_token_ttl)) in
    let give : String → String → Step LoginResult = λ token access. pure (record empty_result {
      authentication_result = "COMPLETED";
      access_token = access;
      token_type = "Bearer";
      expires_in = whole_seconds deps.config.access_token_ttl;
      refresh_token = token;
      session_id = id;
      aal = "AAL1";
    }) in
    let store : Session → String → Step (Unit {0}) =
      λ s token. in_transaction deps message (session_writes deps r i device c s token) in
    let (s, _, h₁, p) =
      part create (λ s. draw >>= λ t. sign >>= λ a. store s t >> give t a) res h in
    let (token, _, h₂, p₁) = part draw (λ t. sign >>= λ a. store s t >> give t a) res h₁ in
    let (access, _, h₃, p₂) = part sign (λ a. store s token >> give token a) res h₂ in
    let (given, audited) =
      store-eq-ok deps message (session_writes deps r i device c s token) "SUCCEEDED"
        (give token access) res (session_writes-IsRow deps r i device c s token) h₃ in
    (
      ap (λ x. x.authentication_result) (sym (ok-injective given)),
      p (IsAudited "SUCCEEDED") (p₁ (IsAudited "SUCCEEDED") (p₂ (IsAudited "SUCCEEDED") audited)),
    )
