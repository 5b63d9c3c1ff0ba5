-- ===== src/Login/Refusals.antt =====
-- The refusals of Login (internal/features/login/usecase/login.go): the rate limit, which comes before
-- all else, and the paths that answer with invalid credentials.
use mathlib.Core.Path.{subst}
use araquanid.Login.Traced.{◌>>◌, throw, >>=-ok}
use araquanid.Login.Handler.{login, after_limit, request}
use araquanid.Login.Fingerprint.{ip_string}
use araquanid.Common.Time.{Duration}
use araquanid.Login.Steps.{
  check_rate_limit, ip_key, identity_key, rate_limited, failed, record_best_effort, Failure,
  attempt_row,
}
use araquanid.Login.Ports.{Dependencies, LoginInput, LoginAttemptRecord, LoginResult}
use araquanid.Common.{
  ◌≡◌, ◌⊎◌, refl, inl, inr, some, String, Bool, false, true, All, ◌++◌, none, [], sym, All-append,
}
use araquanid.Common.Result.{ok, Result, err, Result-cases}
use araquanid.Login.Transaction.{logged_attempt, asked_limiter, logged_failure, Action}

-- The key of the rate limit for the address, and the one for the identifier at the address.
abbrev pub first_key : Dependencies → LoginInput → String
first_key deps input = ip_key (ip_string deps.lib input.ip)

abbrev pub second_key : Dependencies → LoginInput → String
second_key deps input =
    identity_key (deps.lib.sha256_hex input.identifier) (ip_string deps.lib input.ip)

abbrev pub ask_first : Dependencies → LoginInput → Result String (Bool × Duration)
ask_first deps input =
    let limits = deps.config.rate_limit in
    deps.allow (first_key deps input) limits.ip_max_attempts limits.ip_window

abbrev pub ask_second : Dependencies → LoginInput → Result String (Bool × Duration)
ask_second deps input =
    let limits = deps.config.rate_limit in
    deps.allow (second_key deps input) limits.identity_max_attempts limits.identity_window

-- One of the two limits refuses the request.
abbrev pub IsLimited : Dependencies → LoginInput → Duration → Type 0
IsLimited deps input retry =
    (ask_first deps input ≡ ok (false, retry))
    ⊎ ((d : Duration) × (ask_first deps input ≡ ok (true, d))
        × (ask_second deps input ≡ ok (false, retry)))

-- Both let it pass.
abbrev pub IsAllowed : Dependencies → LoginInput → Type 0
IsAllowed deps input =
    (d : Duration) × (e : Duration) × (ask_first deps input ≡ ok (true, d))
    × (ask_second deps input ≡ ok (true, e))

-- A call of the limiter, or of the audit log outside a transaction.
abbrev pub IsBeforeLookup : Action → Type 0
IsBeforeLookup (asked_limiter key) = Unit
IsBeforeLookup (logged_attempt row) = Unit
IsBeforeLookup logged_failure = Unit
IsBeforeLookup _ = ⊥

check_rate_limit_refused :
    (deps : Dependencies) (input : LoginInput) (retry : Duration)
    → IsLimited deps input retry
    → ((check_rate_limit deps
          (ip_string deps.lib input.ip)
          (deps.lib.sha256_hex input.identifier)).result
        ≡ ok (some (rate_limited deps.lib retry)))
      × All IsBeforeLookup
          (check_rate_limit deps
            (ip_string deps.lib input.ip)
            (deps.lib.sha256_hex input.identifier)).trace
unfolding check_rate_limit
check_rate_limit_refused deps input retry (inl e) = rw (e, check_rate_limit) (refl, (tt, tt))
check_rate_limit_refused deps input retry (inr (d, e, e')) =
    rw (e, e', check_rate_limit) (refl, (tt, (tt, tt)))

pub record_best_effort_result :
    (deps : Dependencies) (row : LoginAttemptRecord) → (record_best_effort deps row).result ≡ ok tt
unfolding record_best_effort
record_best_effort_result deps row = elim (Result-cases (deps.record_attempt row)) [
  | inl e ↦ rw (e, record_best_effort)
  | inr (_, e) ↦ rw (e, record_best_effort)
]

record_best_effort-IsBeforeLookup :
    (deps : Dependencies) (row : LoginAttemptRecord)
    → All IsBeforeLookup (record_best_effort deps row).trace
unfolding record_best_effort
record_best_effort-IsBeforeLookup deps row = elim (Result-cases (deps.record_attempt row)) [
  | inl e ↦ rw (e, record_best_effort) (tt, tt)
  | inr (_, e) ↦ rw (e, record_best_effort) (tt, (tt, tt))
]

-- An audit row, and then an error.
pub record_and_throw :
    (deps : Dependencies) (row : LoginAttemptRecord) (x : Failure)
    → (record_best_effort deps row >> throw {A = LoginResult} x)
      ≡ record { trace = (record_best_effort deps row).trace ++ []; result = err x }
record_and_throw deps row x =
    >>=-ok (record_best_effort deps row) (λ _. throw x) tt (record_best_effort_result deps row)

-- A request over one of the two rate limits, by the address or by the identifier at the address, is
-- refused with the time to wait, and nothing but the limiter and the audit log has been called: no
-- identity is resolved, no credential is read, no password is checked. It is refused whether or not
-- the audit row can be written.
pub login-rate_limited :
    (deps : Dependencies) (input : LoginInput) (retry : Duration)
    → IsLimited deps input retry
    → ((login deps input).result ≡ err (failed (rate_limited deps.lib retry)))
      × All IsBeforeLookup (login deps input).trace
unfolding login after_limit
login-rate_limited deps input retry h =
    let (e, before_it) = check_rate_limit_refused deps input retry h in
    let limit =
      check_rate_limit deps (ip_string deps.lib input.ip) (deps.lib.sha256_hex input.identifier) in
    let row = attempt_row deps.lib (request deps "" input) "RATE_LIMITED" none none in
    let x = failed (rate_limited deps.lib retry) in
    let whole = >>=-ok limit (after_limit deps input) (some (rate_limited deps.lib retry)) e in
    subst (λ m. (m.result ≡ err x) × All IsBeforeLookup m.trace) (sym whole)
      (subst (λ m. (m.result ≡ err x) × All IsBeforeLookup (limit.trace ++ m.trace))
        (sym (record_and_throw deps row x))
        (
          refl,
          All-append IsBeforeLookup limit.trace _ before_it (
              All-append IsBeforeLookup (record_best_effort deps row).trace []
                (record_best_effort-IsBeforeLookup deps row) tt),
        ))
