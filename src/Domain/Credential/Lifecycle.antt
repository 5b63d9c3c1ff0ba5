-- ===== src/Domain/Credential/Lifecycle.antt =====
-- Whole lives of a credential (internal/domain/credential.go): any sequence of calls of its methods. An
-- error goes to the caller and the next call finds the credential that it left; a panic ends the life.
use mathlib.Core.Path.{subst}
use araquanid.Domain.Credential.RoundTrip.{new_credential-eq-ok}
use araquanid.Domain.Credential.Soundness.{
  weaken, record_failed_attempt-IsValid, record_successful_verification-IsValid,
  admin_unlock-IsValid, change_password-IsValid, reset_password-IsValid,
  mark_force_password_change-IsValid,
}
use araquanid.Domain.Credential.Change.{
  PasswordMatcher, change_password, reset_password, mark_force_password_change,
}
use araquanid.Common.Int.{max_int}
use araquanid.Domain.Password.{PasswordHash}
use araquanid.Domain.Credential.Validity.{
  IsValidWithRoom, ensure_verifiable-IsValidWithRoom, IsValid, HasRoom, initial_credential-IsValid,
}
use araquanid.Domain.Fault.{DomainError}
use araquanid.Domain.Policy.{AttemptContext, LockoutPolicy, CredentialPolicy}
use araquanid.Domain.Credential.Creation.{NewCredentialParams, new_credential, initial_credential}
use araquanid.Domain.Credential.{
  CredentialMethod, pull_events, ensure_verifiable, Credential, record_failed_attempt,
  record_successful_verification, admin_unlock,
}
use araquanid.Common.Time.{Time, is_zero}
use araquanid.Common.{
  ◌≤◌, ◌∷◌, ◌≡◌, suc, refl, none, some, [], List, ℕ, false, Option, All, String, length, arith,
}
use araquanid.Common.Result.{ok}
use araquanid.Common.Method.{fails, panics, returns, Outcome, Leaves}

-- A call of a method that may change the credential.
pub data Call : Type 0 where
  verifies : Time → Call
  fails_attempt : AttemptContext → LockoutPolicy → Time → Call
  succeeds : Time → Call
  unlocks : String → Time → Call
  changes : PasswordHash → PasswordMatcher → String → CredentialPolicy → Time → Call
  resets : PasswordHash → PasswordMatcher → CredentialPolicy → Time → Call
  marks : String → Time → Call
  pulls : Call

unfoldable pub call : Call → CredentialMethod (Unit {0})
call (verifies now) c = ensure_verifiable now c
call (fails_attempt attempt policy now) c = record_failed_attempt attempt policy now c
call (succeeds now) c = record_successful_verification now c
call (unlocks by now) c = admin_unlock by now c
call (changes new_hash is_reuse by policy now) c = change_password new_hash is_reuse by policy now c
call (resets new_hash is_reuse policy now) c = reset_password new_hash is_reuse policy now c
call (marks by now) c = mark_force_password_change by now c
call pulls c = returns tt (pull_events c).1

-- `none` is a panic.
abbrev pub survivor : {A : Type 0} → Outcome Credential DomainError A → Option Credential
survivor (returns a c) = some c
survivor (fails e c) = some c
survivor panics = none

unfoldable pub run : List Call → Credential → Option Credential
run [] c = some c
run (x ∷ xs) c = let rest = run xs in elim (survivor (call x c)) [ none ↦ none | some d ↦ rest d ]

-- The clock of a call that sets a password does not show the zero time.
abbrev pub IsDated : Call → Type 0
IsDated (changes new_hash is_reuse by policy now) = is_zero now ≡ false
IsDated (resets new_hash is_reuse policy now) = is_zero now ≡ false
IsDated _ = Unit

call-IsValid :
    (x : Call) (k j : ℕ) (c : Credential)
    → IsDated x
    → IsValidWithRoom (suc k) (suc j) c
    → Leaves (IsValidWithRoom k j) (call x c)
unfolding call pull_events
call-IsValid (verifies now) k j c h v = ensure_verifiable-IsValidWithRoom now k j c (weaken k j c v)
call-IsValid (fails_attempt attempt policy now) k j c h v =
    record_failed_attempt-IsValid attempt policy now k j c v
call-IsValid (succeeds now) k j c h v =
    record_successful_verification-IsValid now k j c (weaken k j c v)
call-IsValid (unlocks by now) k j c h v = admin_unlock-IsValid by now k j c (weaken k j c v)
call-IsValid (changes new_hash is_reuse by policy now) k j c h v =
    change_password-IsValid new_hash is_reuse by policy now k j c h (weaken k j c v)
call-IsValid (resets new_hash is_reuse policy now) k j c h v =
    reset_password-IsValid new_hash is_reuse policy now k j c h (weaken k j c v)
call-IsValid (marks by now) k j c h v =
    mark_force_password_change-IsValid by now k j c (weaken k j c v)
call-IsValid pulls k j c h (v, r) = ground arith

survivor-IsValid :
    (k j : ℕ) (o : Outcome Credential DomainError (Unit {0}))
    → Leaves (IsValidWithRoom k j) o
    → (d : Credential) × (survivor o ≡ some d) × IsValidWithRoom k j d
survivor-IsValid k j (returns a c) h = (c, refl, h)
survivor-IsValid k j (fails e c) h = (c, refl, h)
survivor-IsValid k j panics h = absurd h

pub run_from-IsValid :
    (xs : List Call) (c : Credential)
    → All IsDated xs
    → IsValidWithRoom (length xs) (length xs) c
    → (d : Credential) × (run xs c ≡ some d) × IsValid d
unfolding run
run_from-IsValid [] c h v = (c, refl, v.0)
run_from-IsValid (x ∷ xs) c h v =
    let (d, e, w) =
      survivor-IsValid (length xs) (length xs) (call x c)
        (call-IsValid x (length xs) (length xs) c h.0 v) in
    let (d', e', w') = run_from-IsValid xs d h.1 w in (d', rw (e, run) e', w')

initial_credential-HasRoom :
    (p : NewCredentialParams) (n : ℕ) → n ≤ max_int → HasRoom n n (initial_credential p)
unfolding initial_credential
initial_credential-HasRoom p n h = record { failures = omega arith; locks = omega arith }

-- A new credential survives any sequence of calls that is not longer than the largest `int`, with any
-- arguments but a zero clock for a new password: no call panics, and the credential is well formed.
pub run_survives :
    (p : NewCredentialParams) (c : Credential) (xs : List Call)
    → new_credential p ≡ ok c
    → All IsDated xs
    → length xs ≤ max_int
    → (d : Credential) × (run xs c ≡ some d) × IsValid d
run_survives p c xs h dated short =
    let (params, built) = new_credential-eq-ok p c h in
    run_from-IsValid xs c dated (
      subst (IsValidWithRoom (length xs) (length xs)) built
        (initial_credential-IsValid p params, initial_credential-HasRoom p (length xs) short))
