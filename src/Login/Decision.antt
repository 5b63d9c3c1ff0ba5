-- ===== src/Login/Decision.antt =====
-- The decision of Login (internal/features/login/usecase/login.go), as a whole.
use mathlib.Core.Path.{subst}
use araquanid.Common.Text.{same_text}
use araquanid.Login.Fingerprint.{ip_string, truncate, verify_password}
use araquanid.Login.Success.{
  IsAudited, complete_forced_change-IsReported, complete_mfa_required-IsReported,
  complete_session-IsReported,
}
use araquanid.Login.Outcomes.{complete_forced_change, complete_mfa_required, complete_session}
use araquanid.Login.Indistinct.{ask_identity}
use araquanid.AppError.{AppError}
use araquanid.Login.Verified.{IsPartOf, part}
use araquanid.Login.Inversion.{throws, authenticate-eq-ok}
use araquanid.Login.Transaction.{Action}
use araquanid.Domain.Credential.{
  requires_password_change, Credential, ensure_verifiable, record_successful_verification,
  is_password_expired,
}
use araquanid.Login.Handler.{decide, after_limit, login, authenticate, request, fingerprint_of}
use araquanid.Login.Ports.{
  Dependencies, LoginInput, LoginResult, ResolvedIdentity, RegisteredDevice,
}
use araquanid.Common.{
  false, true, ◌≡◌, if◌then◌else◌, ◌||◌, refl, none, some, Bool, List, Option, is_none, Any, sym,
}
use araquanid.Login.Steps.{
  failed, Request, Step, check_rate_limit, max_password_len, record_best_effort, attempt_row,
}
use araquanid.Common.Method.{returns}
use araquanid.Common.Result.{ok}

-- What a login that succeeds has found, from the identity to the registered factors.
pub record Findings (deps : Dependencies) (input : LoginInput) : Type 0 where
  pub identity : ResolvedIdentity
  pub stored : Credential
  pub opened : Credential
  pub verified : Credential
  pub device : Option RegisteredDevice
  pub has_factor : Bool
  pub resolves : ask_identity deps input ≡ ok (some identity)
  pub is_active : same_text identity.status "ACTIVE" ≡ true
  pub finds : deps.find_credential identity.identity_id ≡ ok stored
  pub verifiable : ensure_verifiable deps.clock stored ≡ returns tt opened
  pub matches :
      verify_password deps.lib
        (truncate deps.lib input.password max_password_len)
        opened.password
        deps.config.argon2id
      ≡ true
  pub resets : record_successful_verification deps.clock opened ≡ returns tt verified
  pub recognises : deps.find_device identity.identity_id (fingerprint_of deps input) ≡ ok device
  pub factors : deps.has_active_factor identity.identity_id ≡ ok has_factor

-- The outcome that is due by a demand for a new password and a demand for a second factor, with the
-- outcome in the audit row, which is committed.
abbrev pub IsDue : Bool → Bool → LoginResult → List Action → Type 0
IsDue true second res trace =
    (res.authentication_result ≡ "PASSWORD_CHANGE_REQUIRED")
    × Any (IsAudited "PASSWORD_CHANGE_REQUIRED") trace
IsDue false true res trace =
    (res.authentication_result ≡ "MFA_REQUIRED") × Any (IsAudited "MFA_REQUIRED") trace
IsDue false false res trace =
    (res.authentication_result ≡ "COMPLETED") × Any (IsAudited "SUCCEEDED") trace

decide-IsDue :
    (deps : Dependencies) (r : Request) (i : ResolvedIdentity) (device : Option RegisteredDevice)
    (has_factor : Bool) (c : Credential) (res : LoginResult)
    → (decide deps r i device has_factor c).result ≡ ok res
    → IsDue
        (requires_password_change r.now c)
        (has_factor || is_none device)
        res
        (decide deps r i device has_factor c).trace
unfolding decide requires_password_change
decide-IsDue deps r i device has_factor c res h =
    by_demands (c.force_password_change || is_password_expired r.now c)
      (has_factor || is_none device) h
  where
    by_demands :
        (new_password second : Bool)
        → (if new_password
            then complete_forced_change deps r i.identity_id c
            else if second
            then complete_mfa_required deps r i.identity_id c
            else complete_session deps r i device c).result
          ≡ ok res
        → IsDue new_password second res
            (if new_password
              then complete_forced_change deps r i.identity_id c
              else if second
              then complete_mfa_required deps r i.identity_id c
              else complete_session deps r i device c).trace
    by_demands true second q = complete_forced_change-IsReported deps r i.identity_id c res q
    by_demands false true q = complete_mfa_required-IsReported deps r i.identity_id c res q
    by_demands false false q = complete_session-IsReported deps r i device c res q

IsDue-mono :
    (new_password second : Bool) (res : LoginResult) (m n : Step LoginResult)
    → IsPartOf m n
    → IsDue new_password second res m.trace
    → IsDue new_password second res n.trace
IsDue-mono true second res m n p (e, k) = (e, p (IsAudited "PASSWORD_CHANGE_REQUIRED") k)
IsDue-mono false true res m n p (e, k) = (e, p (IsAudited "MFA_REQUIRED") k)
IsDue-mono false false res m n p (e, k) = (e, p (IsAudited "SUCCEEDED") k)

after_limit-eq-ok :
    (deps : Dependencies) (input : LoginInput) (refused : Option AppError) (res : LoginResult)
    → (after_limit deps input refused).result ≡ ok res
    → (after_limit deps input refused
        ≡ authenticate deps
            (request deps (fingerprint_of deps input) input)
            (truncate deps.lib input.password max_password_len))
unfolding after_limit
after_limit-eq-ok deps input none res h = refl
after_limit-eq-ok deps input (some e) res h = absurd (
    throws
      (record_best_effort deps
        (attempt_row deps.lib (request deps "" input) "RATE_LIMITED" none none))
      (failed e) res h)

-- A login that succeeds has found an active identity, a credential that is not locked, and a password
-- that matches it. The outcome is the one that is due: a change of the password if that is demanded or
-- the password has expired, which comes before all else; a second factor if the identity has one or the
-- device is not known; the completed login otherwise. And a transaction has been committed that holds
-- the audit row with this outcome: none is reported that has not been stored.
pub login_decides :
    (deps : Dependencies) (input : LoginInput) (res : LoginResult)
    → (login deps input).result ≡ ok res
    → (f : Findings deps input) × IsDue
        (requires_password_change deps.clock f.verified)
        (f.has_factor || is_none f.device)
        res
        (login deps input).trace
unfolding login
login_decides deps input res h =
    let limit =
      check_rate_limit deps (ip_string deps.lib input.ip) (deps.lib.sha256_hex input.identifier) in
    let r = request deps (fingerprint_of deps input) input in
    let password = truncate deps.lib input.password max_password_len in
    let (refused, _, rest, p) = part limit (after_limit deps input) res h in
    let same = after_limit-eq-ok deps input refused res rest in
    let d = authenticate-eq-ok deps r password res (subst (λ m. m.result ≡ ok res) same rest) in
    let v = d.verifies in
    let due = decide-IsDue deps r d.identity v.device v.has_factor v.verified res v.decides in
    (
      record {
        identity = d.identity;
        stored = d.stored;
        opened = d.opened;
        verified = v.verified;
        device = v.device;
        has_factor = v.has_factor;
        resolves = d.resolves;
        is_active = d.is_active;
        finds = d.finds;
        verifiable = d.verifiable;
        matches = d.matches;
        resets = v.resets;
        recognises = v.recognises;
        factors = v.factors;
      },
      IsDue-mono (requires_password_change deps.clock v.verified) (v.has_factor || is_none v.device)
          res (decide deps r d.identity v.device v.has_factor v.verified) (login deps input)
          (λ P k. p P (subst (λ m. Any P m.trace) (sym same) (v.includes P k))) due,
    )
