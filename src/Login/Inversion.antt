-- ===== src/Login/Inversion.antt =====
-- Login of internal/features/login/usecase/login.go read backwards from its result: the way that a
-- login has taken which succeeds.
use araquanid.Login.Verified.{part, IsPartOf, Verifies, after_verification-eq-ok}
use araquanid.Login.Fingerprint.{verify_password, normalize}
use araquanid.Domain.Policy.{AttemptContext}
use araquanid.Common.Text.{same_text}
use araquanid.Login.Outcomes.{fail_credential}
use araquanid.Login.Indistinct.{ask_identity}
use araquanid.AppError.{system_database, port_error, wrap, system_upstream, Cause}
use mathlib.Core.Path.{subst}
use araquanid.Domain.Fault.{DomainError}
use araquanid.Domain.Credential.{
  Credential, ensure_verifiable, record_successful_verification, record_failed_attempt,
}
use araquanid.Login.Traced.{>>=-eq-ok, call, ◌>>◌, throw}
use araquanid.Login.Handler.{
  request, fingerprint_of, after_verification, check_password, with_credential, with_identity,
  authenticate, is_not_found,
}
use araquanid.Login.Steps.{
  in_transaction, Request, Step, failed, or_wrap, invalid_credentials, Failure, attempt_row,
  record_best_effort, persist_attempt, invalid, locked_error,
}
use araquanid.Login.Ports.{Dependencies, LoginInput, LoginResult, ResolvedIdentity}
use araquanid.Common.{
  false, ◌≡◌, String, Option, Bool, refl, arith, sym, ◌≢◌, some, true, none, ◌∙◌, if◌then◌else◌, ap,
}
use araquanid.Login.Transaction.{
  checked_dummy, resolved_identity, checked_password, read_credential,
}
use araquanid.Common.Method.{returns, panics, fails, Outcome, state_after}
use araquanid.Common.Result.{ok, Result, err, map_error-eq-ok}

abbrev pub request_of : Dependencies → LoginInput → Request
request_of deps input = request deps (fingerprint_of deps input) input

-- The way of a login from the request to its decision.
pub record Decides (deps : Dependencies) (r : Request) (password : String) (res : LoginResult)
    (m : Step LoginResult) : Type 1 where
  pub identity : ResolvedIdentity
  pub stored : Credential
  pub opened : Credential
  pub resolves : ask_identity deps r.input ≡ ok (some identity)
  pub is_active : same_text identity.status "ACTIVE" ≡ true
  pub finds : deps.find_credential identity.identity_id ≡ ok stored
  pub verifiable : ensure_verifiable r.now stored ≡ returns tt opened
  pub matches : verify_password deps.lib password opened.password deps.config.argon2id ≡ true
  pub verifies : Verifies deps r identity (record_successful_verification r.now opened) res m

raise :
    {deps : Dependencies} {r : Request} {i : ResolvedIdentity}
    {o : Outcome Credential DomainError (Unit {0})} {res : LoginResult} (m n : Step LoginResult)
    → IsPartOf m n
    → Verifies deps r i o res m
    → Verifies deps r i o res n
raise m n p v = record {
  verified = v.verified;
  device = v.device;
  has_factor = v.has_factor;
  resets = v.resets;
  recognises = v.recognises;
  factors = v.factors;
  decides = v.decides;
  includes = λ P k. p P (v.includes P k);
}

pub throws :
    (m : Step (Unit {0})) (x : Failure) (res : LoginResult)
    → (m >> throw {A = LoginResult} x).result ≢ ok res
throws m x res h = let (_, _, e, _) = >>=-eq-ok m (λ _. throw x) res h in cc

chooses :
    (b : Bool) (m n : Step LoginResult) (res : LoginResult)
    → n.result ≢ ok res
    → (if b then m else n).result ≡ ok res
    → (b ≡ true) × ((if b then m else n) ≡ m)
chooses true m n res never h = (refl, refl)
chooses false m n res never h = absurd (never h)

fail_credential_fails :
    (deps : Dependencies) (r : Request) (identity : String) (attempt : AttemptContext)
    (c : Credential) (res : LoginResult)
    → (fail_credential deps r identity attempt c).result ≢ ok res
unfolding fail_credential
fail_credential_fails deps r identity attempt c res h =
    let c' = state_after c (record_failed_attempt attempt deps.config.lockout r.now c) in
    let row = attempt_row deps.lib r "FAILED_CREDENTIALS" (some identity) none in
    throws (in_transaction deps "persist failed login attempt" (persist_attempt deps c' row))
      (failed invalid) res h

invalid_credentials_fails :
    (deps : Dependencies) (r : Request) (identity : Option String) (res : LoginResult)
    → (invalid_credentials deps r identity).result ≢ ok res
unfolding invalid_credentials
invalid_credentials_fails deps r identity res h =
    let row = attempt_row deps.lib r "FAILED_CREDENTIALS" identity none in
    throws (call checked_dummy (ok tt) >> record_best_effort deps row) (failed invalid) res h

check_password-eq-ok :
    (deps : Dependencies) (r : Request) (company password : String) (i : ResolvedIdentity)
    (o : Outcome Credential DomainError (Unit {0})) (res : LoginResult)
    → (check_password deps r company password i o).result ≡ ok res
    → (opened : Credential) × (o ≡ returns tt opened)
      × (verify_password deps.lib password opened.password deps.config.argon2id ≡ true)
      × Verifies deps r i
          (record_successful_verification r.now opened)
          res
          (check_password deps r company password i o)
unfolding check_password
check_password-eq-ok deps r company password i (fails e c) res h =
    let row = attempt_row deps.lib r "LOCKED" (some i.identity_id) none in
    absurd (throws (record_best_effort deps row) (failed (locked_error deps.lib c)) res h)
check_password-eq-ok deps r company password i panics res h = absurd (ground (arith, h))
check_password-eq-ok deps r company password i (returns _ c) res h =
    let matches = verify_password deps.lib password c.password deps.config.argon2id in
    let attempt : AttemptContext = record {
      company_code = company;
      ip = r.input.ip;
      user_agent = r.input.user_agent;
      device_fingerprint = r.fingerprint_hash;
    } in
    let go_on = after_verification deps r i (record_successful_verification r.now c) in
    let stop = fail_credential deps r i.identity_id attempt c in
    let (_, _, rest, p) =
      part (call checked_password (ok tt)) (λ _. if matches then go_on else stop) res h in
    let (e, same) =
      chooses matches go_on stop res (fail_credential_fails deps r i.identity_id attempt c res)
        rest in
    let v =
      after_verification-eq-ok deps r i (record_successful_verification r.now c) res
        (subst (λ m. m.result ≡ ok res) same rest) in
    (
      c,
      refl,
      e,
      raise go_on (check_password deps r company password i (returns tt c))
          (subst (λ m. IsPartOf m (check_password deps r company password i (returns tt c))) same p)
          v,
    )

with_credential-eq-ok :
    (deps : Dependencies) (r : Request) (company password : String) (i : ResolvedIdentity)
    (found : Result Cause Credential) (res : LoginResult)
    → (with_credential deps r company password i found).result ≡ ok res
    → (stored : Credential) × (found ≡ ok stored)
      × ((check_password deps r company password i (ensure_verifiable r.now stored)).result
          ≡ ok res)
      × IsPartOf
          (check_password deps r company password i (ensure_verifiable r.now stored))
          (with_credential deps r company password i found)
unfolding with_credential
with_credential-eq-ok deps r company password i (ok c) res h = (c, refl, h, λ P k. k)
with_credential-eq-ok deps r company password i (err e) res h =
    let x = failed (wrap system_database "load credential" e) in
    let (_, same) =
      chooses (is_not_found deps e) (invalid_credentials deps r (some i.identity_id)) (throw x) res
        (λ q. ground (arith, q)) h in
    absurd (
      invalid_credentials_fails deps r (some i.identity_id) res
        (subst (λ m. m.result ≡ ok res) same h))

with_identity-eq-ok :
    (deps : Dependencies) (r : Request) (company password : String)
    (answered : Option ResolvedIdentity) (res : LoginResult)
    → (with_identity deps r company password answered).result ≡ ok res
    → (i : ResolvedIdentity) × (answered ≡ some i)
      × (same_text i.status "ACTIVE" ≡ true)
      × ((with_credential deps r company password i (deps.find_credential i.identity_id)).result
          ≡ ok res)
      × IsPartOf
          (with_credential deps r company password i (deps.find_credential i.identity_id))
          (with_identity deps r company password answered)
unfolding with_identity
with_identity-eq-ok deps r company password none res h =
    absurd (invalid_credentials_fails deps r none res h)
with_identity-eq-ok deps r company password (some i) res h =
    let rest = with_credential deps r company password i (deps.find_credential i.identity_id) in
    let read = call (read_credential i.identity_id) (ok tt) in
    let (e, same) =
      chooses (same_text i.status "ACTIVE") (read >> rest) (invalid_credentials deps r none) res
        (invalid_credentials_fails deps r none res) h in
    let (_, _, h', p) = part read (λ _. rest) res (subst (λ m. m.result ≡ ok res) same h) in
    (i, refl, e, h', subst (λ m. IsPartOf rest m) (sym same) p)

pub authenticate-eq-ok :
    (deps : Dependencies) (r : Request) (password : String) (res : LoginResult)
    → (authenticate deps r password).result ≡ ok res
    → Decides deps r password res (authenticate deps r password)
unfolding authenticate
authenticate-eq-ok deps r password res h =
    let company = deps.lib.to_upper (deps.lib.trim_space r.input.company_code) in
    let identifier = normalize deps.lib r.input.identifier in
    let ask =
      call (resolved_identity identifier company)
        (or_wrap system_upstream "resolve identity" (deps.resolve_identity identifier company)) in
    let (answered, e, h₁, p) = part ask (with_identity deps r company password) res h in
    let (i, e', is_active, h₂, p₁) = with_identity-eq-ok deps r company password answered res h₁ in
    let (stored, finds, h₃, p₂) =
      with_credential-eq-ok deps r company password i (deps.find_credential i.identity_id) res h₂ in
    let (opened, verifiable, matches, v) =
      check_password-eq-ok deps r company password i (ensure_verifiable r.now stored) res h₃ in
    record {
      identity = i;
      stored = stored;
      opened = opened;
      resolves =
          map_error-eq-ok (λ x. failed (wrap system_upstream "resolve identity" (port_error x)))
            (deps.resolve_identity identifier company) answered e
          ∙ ap ok e';
      is_active = is_active;
      finds = finds;
      verifiable = verifiable;
      matches = matches;
      verifies =
          raise (check_password deps r company password i (ensure_verifiable r.now stored))
            (authenticate deps r password) (λ P k. p P (p₁ P (p₂ P k))) v;
    }
