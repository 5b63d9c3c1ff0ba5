-- ===== src/Login/Indistinct.antt =====
-- The four ways to fail Login by the credentials (internal/features/login/usecase/login.go): no such
-- identity, an identity that is not active, no credential, and a wrong password.
use araquanid.Domain.Policy.{AttemptContext}
use araquanid.Domain.Event.{DomainEvent}
use araquanid.Login.Outcomes.{fail_credential}
use araquanid.Domain.Credential.{Credential, ensure_verifiable, record_failed_attempt}
use araquanid.Common.Method.{returns, state_after}
use araquanid.Login.Refusals.{record_best_effort_result, IsAllowed, first_key, second_key}
use mathlib.Core.Path.{subst}
use araquanid.Common.Text.{same_text}
use araquanid.Login.Fingerprint.{normalize, truncate, verify_password}
use araquanid.Domain.Credential.{pull_events}
use araquanid.Login.Traced.{◌>>◌, Traced, call, >>=-ok, throw}
use araquanid.Login.Handler.{
  authenticate, with_identity, request, login, after_limit, fingerprint_of, with_credential,
  check_password,
}
use araquanid.Login.Ports.{
  Dependencies, LoginInput, LoginAttemptRecord, ResolvedIdentity, LoginResult,
}
use araquanid.Common.{
  ◌+◌, ◌≡◌, ◌⊎◌, ◌++◌, ◌∷◌, suc, refl, inl, inr, none, some, [], List, ℕ, arith, Option, String,
  false, true, ◌∙◌, sym, ap,
}
use araquanid.AppError.{domain_error}
use araquanid.Login.Transaction.{
  checked_password, checked_dummy, Action, committed, Write, execute, asked_limiter,
}
use araquanid.Domain.Fault.{credential_not_found}
use araquanid.Login.Steps.{
  invalid_credentials, failed, record_best_effort, Request, Failure, attempt_row, invalid,
  in_transaction, persist_attempt, max_password_len, check_rate_limit,
}
use araquanid.Common.Result.{err, ok, Result, Result-cases}

-- How many password checks are made, real ones and dummies.
abbrev pub count_checks : List Action → ℕ
count_checks [] = 0
count_checks (checked_password ∷ xs) = suc (count_checks xs)
count_checks (checked_dummy ∷ xs) = suc (count_checks xs)
count_checks (_ ∷ xs) = count_checks xs

count_checks-append :
    (xs ys : List Action) → count_checks (xs ++ ys) ≡ count_checks xs + count_checks ys
count_checks-append [] ys = omega arith
count_checks-append (a ∷ xs) ys = ground (arith, count_checks-append xs ys)

-- Refused for invalid credentials, with the given number of password checks made.
abbrev pub Rejects : ℕ → Traced Action Failure LoginResult → Type 0
Rejects n m = (m.result ≡ err (failed invalid)) × (count_checks m.trace ≡ n)

-- What the ports answer about the identity of a request.
abbrev pub ask_identity : Dependencies → LoginInput → Result String (Option ResolvedIdentity)
ask_identity deps input =
    deps.resolve_identity (normalize deps.lib input.identifier)
      (deps.lib.to_upper (deps.lib.trim_space input.company_code))

-- There is no active identity, or it has no credential.
abbrev pub IsUnknown : Dependencies → LoginInput → Type 0
IsUnknown deps input =
    (ask_identity deps input ≡ ok none)
    ⊎ ((i : ResolvedIdentity) × (ask_identity deps input ≡ ok (some i))
        × (same_text i.status "ACTIVE" ≡ false))
    ⊎ ((i : ResolvedIdentity) × (ask_identity deps input ≡ ok (some i))
        × (same_text i.status "ACTIVE" ≡ true)
        × (deps.find_credential i.identity_id ≡ err (domain_error credential_not_found)))

record_best_effort_checks :
    (deps : Dependencies) (row : LoginAttemptRecord)
    → count_checks (record_best_effort deps row).trace ≡ 0
unfolding record_best_effort
record_best_effort_checks deps row = elim (Result-cases (deps.record_attempt row)) [
  | inl e ↦ rw (e, record_best_effort)
  | inr (_, e) ↦ rw (e, record_best_effort)
]

invalid_credentials-Rejects :
    (deps : Dependencies) (r : Request) (identity : Option String)
    → Rejects 1 (invalid_credentials deps r identity)
unfolding invalid_credentials
invalid_credentials-Rejects deps r identity =
    let row = attempt_row deps.lib r "FAILED_CREDENTIALS" identity none in
    let steps = call checked_dummy (ok tt) >> record_best_effort deps row in
    subst (Rejects 1)
      (sym (>>=-ok steps (λ _. throw (failed invalid)) tt (record_best_effort_result deps row)))
      (
        refl,
        ap suc (
            count_checks-append (record_best_effort deps row).trace []
            ∙ ground (arith, record_best_effort_checks deps row)),
      )

module _ (deps : Dependencies) (input : LoginInput) (fingerprint password : String) where
  authenticate_unknown :
      IsUnknown deps input → Rejects 1 (authenticate deps (request deps fingerprint input) password)
  unfolding authenticate with_identity with_credential
  authenticate_unknown (inl e) =
      rw (e, authenticate) (invalid_credentials-Rejects deps (request deps fingerprint input) none)
  authenticate_unknown (inr (inl (i, e, inactive))) =
      rw (e, inactive, authenticate)
        (invalid_credentials-Rejects deps (request deps fingerprint input) none)
  authenticate_unknown (inr (inr (i, e, is_active, missing))) =
      rw (e, is_active, authenticate)
        (rw (missing, with_identity)
          (invalid_credentials-Rejects deps (request deps fingerprint input) (some i.identity_id)))

-- The transaction that stores a failed attempt goes through.
pub record IsStored (deps : Dependencies) : Type 0 where
  pub begins : deps.begin ≡ ok tt
  pub commits : deps.commit ≡ ok tt
  pub saves : (c : Credential) → deps.save_credential c ≡ ok tt
  pub appends : (es : List DomainEvent) → deps.append_events es ≡ ok tt
  pub records : (row : LoginAttemptRecord) → deps.record_attempt_tx row ≡ ok tt

-- An active identity with a credential that is not locked, and a password that does not match.
pub record HasWrongPassword (deps : Dependencies) (input : LoginInput) : Type 0 where
  pub identity : ResolvedIdentity
  pub before_it : Credential
  pub credential : Credential
  pub resolves : ask_identity deps input ≡ ok (some identity)
  pub is_active : same_text identity.status "ACTIVE" ≡ true
  pub finds : deps.find_credential identity.identity_id ≡ ok before_it
  pub verifiable : ensure_verifiable deps.clock before_it ≡ returns tt credential
  pub mismatch :
      verify_password deps.lib
        (truncate deps.lib input.password max_password_len)
        credential.password
        deps.config.argon2id
      ≡ false

in_transaction_stored :
    (deps : Dependencies) (message : String) (tx : Traced Write String (Unit {0}))
    → IsStored deps
    → tx.result ≡ ok tt
    → in_transaction deps message tx ≡ record { trace = committed tx.trace ∷ []; result = ok tt }
unfolding in_transaction
in_transaction_stored deps message tx s e =
    rw (s.begins, in_transaction) (rw (e, execute) (rw s.commits))

persist_attempt_stored :
    (deps : Dependencies) (c : Credential) (row : LoginAttemptRecord)
    → IsStored deps
    → (persist_attempt deps c row).result ≡ ok tt
unfolding persist_attempt
persist_attempt_stored deps c row s =
    rw (s.saves (pull_events c).1, persist_attempt)
      (rw (s.appends (pull_events c).0) (rw (s.records row)))

fail_credential-Rejects :
    (deps : Dependencies) (r : Request) (identity : String) (attempt : AttemptContext)
    (c : Credential)
    → IsStored deps
    → Rejects 0 (fail_credential deps r identity attempt c)
unfolding fail_credential
fail_credential-Rejects deps r identity attempt c s =
    let row = attempt_row deps.lib r "FAILED_CREDENTIALS" (some identity) none in
    let c' = state_after c (record_failed_attempt attempt deps.config.lockout r.now c) in
    let stored =
      in_transaction_stored deps "persist failed login attempt" (persist_attempt deps c' row) s
        (persist_attempt_stored deps c' row s) in
    subst (λ m. Rejects 0 (m >> throw (failed invalid))) (sym stored) (refl, refl)

authenticate_wrong :
    (deps : Dependencies) (input : LoginInput) (fingerprint : String)
    → HasWrongPassword deps input
    → IsStored deps
    → Rejects 1 (
        authenticate deps
          (request deps fingerprint input)
          (truncate deps.lib input.password max_password_len))
unfolding authenticate with_identity with_credential check_password
authenticate_wrong deps input fingerprint w s =
    rw (w.resolves, w.is_active, authenticate)
      (rw (w.finds, with_identity)
        (rw (w.verifiable, check_password) (rw w.mismatch (rejected.0, ap suc rejected.1))))
  where
    company : String
    company = deps.lib.to_upper (deps.lib.trim_space input.company_code)

    attempt : AttemptContext
    attempt = record {
      company_code = company;
      ip = input.ip;
      user_agent = input.user_agent;
      device_fingerprint = fingerprint;
    }

    rejected : Rejects 0 (
        fail_credential deps
          (request deps fingerprint input)
          w.identity.identity_id
          attempt
          w.credential)
    rejected =
        fail_credential-Rejects deps (request deps fingerprint input) w.identity.identity_id attempt
          w.credential s

-- A request within both limits goes on to the lookup, after two calls of the limiter.
pub login_allowed :
    (deps : Dependencies) (input : LoginInput)
    → IsAllowed deps input
    → let m =
        authenticate deps
          (request deps (fingerprint_of deps input) input)
          (truncate deps.lib input.password max_password_len) in
      login deps input ≡ record {
        trace =
            asked_limiter (first_key deps input) ∷ asked_limiter (second_key deps input) ∷ m.trace;
        result = m.result;
      }
unfolding login after_limit check_rate_limit
login_allowed deps input (d, e, first, second) = rw (first, second, login) refl

-- The ways to fail by the credentials get one answer. Within the rate limits, an identifier that
-- is unknown, an identity that is not active, one without a credential, and a wrong password for a
-- credential that is not locked, whose failed attempt can be stored, all get the same error, and in
-- each case exactly one password check is made, a dummy if there is nothing to compare with.
pub login_rejects_alike :
    (deps : Dependencies) (input : LoginInput)
    → IsAllowed deps input
    → IsUnknown deps input ⊎ (HasWrongPassword deps input × IsStored deps)
    → ((login deps input).result ≡ err (failed invalid))
      × (count_checks (login deps input).trace ≡ 1)
login_rejects_alike deps input allowed (inl unknown) =
    subst (Rejects 1) (sym (login_allowed deps input allowed)) (
      authenticate_unknown deps input (fingerprint_of deps input)
        (truncate deps.lib input.password max_password_len) unknown)
login_rejects_alike deps input allowed (inr (wrong, stored)) =
    subst (Rejects 1) (sym (login_allowed deps input allowed))
      (authenticate_wrong deps input (fingerprint_of deps input) wrong stored)
