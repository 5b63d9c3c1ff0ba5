-- ===== src/Domain/Credential/Soundness.antt =====
-- Every method of a credential (internal/domain/credential.go) keeps it well formed and does not panic:
-- the pointers that it follows are set, and the list of durations and the history are cut in range.
-- The two counters go up by one at most.
use araquanid.Common.Result.{Result-cases}
use araquanid.Domain.Credential.History.{
  replaced, validate_credential_policy-eq-ok, entry_for, replace_password_lem,
}
use araquanid.Domain.Credential.Validity.{
  IsValidWithRoom, ensure_verifiable-IsValidWithRoom, IsRemembered, lock_at_threshold-IsValid,
  count_failure-IsValid,
}
use araquanid.Common.Time.{Time, is_zero}
use araquanid.Domain.Policy.{
  AttemptContext, CredentialPolicy, LockoutPolicy, validate_credential_policy,
  validate_lockout_policy,
}
use araquanid.Domain.Event.{DomainEvent}
use araquanid.Domain.Password.{PasswordHash, is_zero_hash}
use araquanid.Domain.Credential.Change.{
  mark_force_password_change, set_password, change_password, reset_password, PasswordMatcher,
  replace_password, is_reused, is_permanent,
}
use araquanid.Domain.Credential.{
  record_login_failed, record_failed_attempt, record_successful_verification, admin_unlock,
  Credential, record_event, ensure_verifiable, count_failure,
}
use araquanid.Common.{
  if◌then◌else◌, ◌≡◌, ◌∷◌, suc, inl, inr, none, some, ℕ, String, arith, false, All-take, Bool-cases,
}
use araquanid.Domain.Kinds.{account_locked, LoginFailureReason}
use araquanid.Common.Method.{
  returns, fails, Leaves, >>=-Ensures, lift, Ensures-mono, lift-Ensures, on_error, on_error-Ensures,
}
use araquanid.Common.Int.{pos, ◌≤ℤ◌, pos_part}
use araquanid.Domain.Fault.{matcher_required, password_reused, invalid_credential, DomainError}

record_event-IsValid :
    (k j : ℕ) (e : DomainEvent) (c : Credential)
    → IsValidWithRoom k j c
    → IsValidWithRoom k j (record_event e c)
record_event-IsValid k j e c (v, r) = ground arith

login_failed-IsValid :
    (attempt : AttemptContext) (reason : LoginFailureReason) (now : Time) (k j : ℕ) (c : Credential)
    → IsValidWithRoom (suc k) (suc j) c
    → IsValidWithRoom k j (record_login_failed attempt reason now c)
unfolding record_login_failed
login_failed-IsValid attempt reason now k j c (v, r) = ground arith

pub weaken : (k j : ℕ) (c : Credential) → IsValidWithRoom (suc k) (suc j) c → IsValidWithRoom k j c
weaken k j c (v, r) =
    (v, record { failures = omega (arith, r.failures); locks = omega (arith, r.locks) })

-- A failed attempt on a well-formed credential, under any policy and at any time, does not panic and
-- leaves the credential well formed, while its two counters are below the largest `int`; each of them
-- goes up by one at most.
pub record_failed_attempt-IsValid :
    (attempt : AttemptContext) (policy : LockoutPolicy) (now : Time) (k j : ℕ) (c : Credential)
    → IsValidWithRoom (suc k) (suc j) c
    → Leaves (IsValidWithRoom k j) (record_failed_attempt attempt policy now c)
unfolding record_failed_attempt
record_failed_attempt-IsValid attempt policy now k j c v =
    let P = IsValidWithRoom (suc k) (suc j) in
    let Q = IsValidWithRoom k j in
    >>=-Ensures P Q Q (lift (validate_lockout_policy policy)) _ c
      (Ensures-mono P P P Q (lift (validate_lockout_policy policy) c) (λ s h. h) (weaken k j)
        (lift-Ensures P (validate_lockout_policy policy) c v))
      λ _ t w.
        >>=-Ensures P Q Q
          (on_error (record_login_failed attempt account_locked now) (ensure_verifiable now)) _ t
          (on_error-Ensures P P Q (record_login_failed attempt account_locked now)
            (ensure_verifiable now) t (login_failed-IsValid attempt account_locked now k j)
            (ensure_verifiable-IsValidWithRoom now (suc k) (suc j) t w))
          λ _ u x.
            lock_at_threshold-IsValid policy attempt.ip now k j (count_failure attempt policy now u)
              (count_failure-IsValid attempt policy now k (suc j) u x)

pub record_successful_verification-IsValid :
    (now : Time) (k j : ℕ) (c : Credential)
    → IsValidWithRoom k j c
    → Leaves (IsValidWithRoom k j) (record_successful_verification now c)
unfolding record_successful_verification
record_successful_verification-IsValid now k j c v =
    >>=-Ensures (IsValidWithRoom k j) (IsValidWithRoom k j) (IsValidWithRoom k j)
      (ensure_verifiable now) _ c (ensure_verifiable-IsValidWithRoom now k j c v)
      λ _ t (w, r). ground arith

pub admin_unlock-IsValid :
    (by : String) (now : Time) (k j : ℕ) (c : Credential)
    → IsValidWithRoom k j c
    → Leaves (IsValidWithRoom k j) (admin_unlock by now c)
unfolding admin_unlock
admin_unlock-IsValid by now k j c (v, r) = ground arith

pub mark_force_password_change-IsValid :
    (by : String) (now : Time) (k j : ℕ) (c : Credential)
    → IsValidWithRoom k j c
    → Leaves (IsValidWithRoom k j) (mark_force_password_change by now c)
unfolding mark_force_password_change
mark_force_password_change-IsValid by now k j c (v, r) = ground arith

set_password-IsValid :
    (new_hash : PasswordHash) (policy : CredentialPolicy) (now : Time) (k j : ℕ) (c : Credential)
    → is_zero_hash new_hash ≡ false
    → is_zero now ≡ false
    → IsValidWithRoom k j c
    → IsValidWithRoom k j (replaced new_hash policy now c)
unfolding set_password
set_password-IsValid new_hash policy now k j c h n (v, r) = (
  record {
    named = v.named;
    owned = v.owned;
    secured = h;
    dated = n;
    counted = v.counted;
    escalated = v.escalated;
    locked = v.locked;
    remembered =
        All-take IsRemembered (pos_part policy.history_depth) (entry_for now c ∷ c.history)
          (v.secured, v.remembered);
  },
  record { failures = r.failures; locks = r.locks },
)

replace_password-IsValid :
    (new_hash : PasswordHash) (is_reuse : PasswordMatcher) (policy : CredentialPolicy) (now : Time)
    (k j : ℕ) (c : Credential)
    → pos 0 ≤ℤ policy.history_depth
    → is_zero now ≡ false
    → IsValidWithRoom k j c
    → Leaves (IsValidWithRoom k j) (replace_password new_hash is_reuse policy now c)
replace_password-IsValid new_hash is_reuse policy now k j c depth n v =
    rw (replace_password_lem new_hash is_reuse policy now c depth)
      (elim (Bool-cases (is_zero_hash new_hash)) [
        | inl zero_hash ↦ rw zero_hash v
        | inr given ↦
            rw given (matched is_reuse (set_password-IsValid new_hash policy now k j c given n v))
      ])
  where
    matched :
        (m : PasswordMatcher)
        → IsValidWithRoom k j (replaced new_hash policy now c)
        → Leaves {E = DomainError} {A = Unit {0}} (IsValidWithRoom k j) (elim m [
          | none ↦ fails (invalid_credential matcher_required) c
          | some matches ↦
              if is_reused matches c
              then fails password_reused c
              else returns tt (replaced new_hash policy now c)
        ])
    matched none w = v
    matched (some matches) w = elim (Bool-cases (is_reused matches c)) [
      | inl reused ↦ rw reused v
      | inr fresh ↦ rw fresh w
    ]

-- A change of the password on a well-formed credential, with any new hash, matcher and policy, does
-- not panic and leaves the credential well formed, at any time but the zero one; the counters do not
-- go up.
pub change_password-IsValid :
    (new_hash : PasswordHash) (is_reuse : PasswordMatcher) (by : String) (policy : CredentialPolicy)
    (now : Time) (k j : ℕ) (c : Credential)
    → is_zero now ≡ false
    → IsValidWithRoom k j c
    → Leaves (IsValidWithRoom k j) (change_password new_hash is_reuse by policy now c)
unfolding change_password
change_password-IsValid new_hash is_reuse by policy now k j c n v =
    let P = IsValidWithRoom k j in
    elim (Result-cases (validate_credential_policy policy)) [
      | inr (e, refused) ↦ rw (refused, change_password) v
      | inl passed ↦
          let (depth, _) = validate_credential_policy-eq-ok policy passed in
          rw (passed, change_password)
            (>>=-Ensures P P P (ensure_verifiable now) _ c
              (ensure_verifiable-IsValidWithRoom now k j c v)
              λ _ t w.
                >>=-Ensures P P P (replace_password new_hash is_reuse policy now) _ t
                  (replace_password-IsValid new_hash is_reuse policy now k j t depth n w)
                  λ _ u x. record_event-IsValid k j _ u x)
    ]

-- A reset of the password on a well-formed credential, with any new hash, matcher and policy, does
-- not panic and leaves the credential well formed, at any time but the zero one; the counters do not
-- go up.
pub reset_password-IsValid :
    (new_hash : PasswordHash) (is_reuse : PasswordMatcher) (policy : CredentialPolicy) (now : Time)
    (k j : ℕ) (c : Credential)
    → is_zero now ≡ false
    → IsValidWithRoom k j c
    → Leaves (IsValidWithRoom k j) (reset_password new_hash is_reuse policy now c)
unfolding reset_password
reset_password-IsValid new_hash is_reuse policy now k j c n v =
    let P = IsValidWithRoom k j in
    elim (Result-cases (validate_credential_policy policy)) [
      | inr (e, refused) ↦ rw (refused, reset_password) v
      | inl passed ↦
          let (depth, _) = validate_credential_policy-eq-ok policy passed in
          elim (Bool-cases (is_permanent c.lockout_status)) [
            | inl permanent ↦ rw (passed, permanent, reset_password) v
            | inr other ↦
                rw (passed, other, reset_password)
                  (>>=-Ensures P P P (replace_password new_hash is_reuse policy now) _ c
                    (replace_password-IsValid new_hash is_reuse policy now k j c depth n v)
                    λ _ u x. record_event-IsValid k j _ u x)
          ]
    ]
