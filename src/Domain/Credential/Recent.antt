-- ===== src/Domain/Credential/Recent.antt =====
-- Which methods of internal/domain/credential.go keep a password among the last ones in use.
use araquanid.Domain.Credential.Change.{
  PasswordMatcher, change_password, reset_password, replace_password, is_reused, is_permanent,
}
use araquanid.Domain.Credential.History.{replaced, replaced_history, replace_password_lem}
use araquanid.Domain.Credential.{
  Credential, PasswordHistoryEntry, CredentialMethod, ensure_verifiable, record_failed_attempt,
  record_login_failed, lock_at_threshold, lock, count_failure, unlock,
}
use araquanid.Domain.Password.{PasswordHash, is_zero_hash}
use araquanid.Domain.Policy.{
  AttemptContext, LockoutPolicy, CredentialPolicy, validate_lockout_policy,
  validate_credential_policy,
}
use araquanid.Domain.Fault.{DomainError, password_reused, matcher_required, invalid_credential}
use araquanid.Domain.Kinds.{account_locked, IpAddr}
use araquanid.Common.{
  ℕ, suc, zero, ◌≤◌, ◌<◌, some, get_elem?, inl, inr, ◌⊎◌, ◌≡◌, arith, Bool-cases, if◌then◌else◌,
  ◌∙◌, none, ap, ltb, String, true,
}
use araquanid.Common.Int.{ℤ, pos, ◌≤ℤ◌, leb_ℤ, pos_part}
use araquanid.Common.Time.{Time}
use araquanid.Common.Method.{Outcome, returns, fails, panics, ◌>>=◌, on_error}
use araquanid.Common.Result.{Result-cases}

-- The password is in use, or one of the first `k` of the history.
abbrev pub IsRecent : PasswordHash → ℕ → Credential → Type 0
IsRecent h k c =
    (c.password ≡ h)
    ⊎ ((i : ℕ) × (e : PasswordHistoryEntry) × (i < k)
        × (get_elem? c.history i ≡ some e)
        × (e.hash ≡ h))

-- The credential that the call leaves has the property, if it does not panic.
abbrev pub Allows : (Credential → Type 0) → Outcome Credential DomainError (Unit {0}) → Type 0
Allows Q (returns a d) = Q d
Allows Q (fails e d) = Q d
Allows Q panics = Unit

outcome-Allows :
    (P Q : Credential → Type 0) (o : Outcome Credential DomainError (Unit {0}))
    (f : Unit {0} → CredentialMethod (Unit {0}))
    → Allows P o
    → ((d : Credential) → P d → Q d)
    → ((a : Unit {0}) (d : Credential) → P d → Allows Q (f a d))
    → Allows Q (elim o [ returns a s ↦ f a s | fails e s ↦ fails e s | panics ↦ panics ])
outcome-Allows P Q (returns a d) f h k l = l a d h
outcome-Allows P Q (fails e d) f h k l = k d h
outcome-Allows P Q panics f h k l = tt

pub >>=-Allows :
    (P Q : Credential → Type 0) (m : CredentialMethod (Unit {0}))
    (f : Unit {0} → CredentialMethod (Unit {0})) (c : Credential)
    → Allows P (m c)
    → ((d : Credential) → P d → Q d)
    → ((a : Unit {0}) (d : Credential) → P d → Allows Q (f a d))
    → Allows Q ((m >>= f) c)
>>=-Allows P Q m f c h k l = outcome-Allows P Q (m c) f h k l

on_error-Allows :
    (Q : Credential → Type 0) (f : Credential → Credential)
    (o : Outcome Credential DomainError (Unit {0}))
    → ((d : Credential) → Q d → Q (f d))
    → Allows Q o
    → Allows Q (elim o [ returns a s ↦ returns a s | fails e s ↦ fails e (f s) | panics ↦ panics ])
on_error-Allows Q f (returns a d) k h = h
on_error-Allows Q f (fails e d) k h = k d h
on_error-Allows Q f panics k h = tt

ensure_verifiable_same :
    (now : Time) (c : Credential)
    → Allows (λ d. (d.password ≡ c.password) × (d.history ≡ c.history)) (ensure_verifiable now c)
unfolding ensure_verifiable unlock
ensure_verifiable_same now c = ground arith

history-IsRecent :
    (h : PasswordHash) (k : ℕ) (c d : Credential)
    → d.password ≡ c.password
    → d.history ≡ c.history
    → IsRecent h k c
    → IsRecent h k d
history-IsRecent h k c d e f (inl x) = inl (e ∙ x)
history-IsRecent h k c d e f (inr (i, x, below, there, y)) =
    inr (i, x, below, ap (λ l. get_elem? l i) f ∙ there, y)

pub same-IsRecent :
    (h : PasswordHash) (k : ℕ) (c : Credential) (o : Outcome Credential DomainError (Unit {0}))
    → IsRecent h k c
    → Allows (λ d. (d.password ≡ c.password) × (d.history ≡ c.history)) o
    → Allows (IsRecent h k) o
same-IsRecent h k c (returns a d) r (e, f) = history-IsRecent h k c d e f r
same-IsRecent h k c (fails a d) r (e, f) = history-IsRecent h k c d e f r
same-IsRecent h k c panics r w = tt

pub ensure_verifiable-IsRecent :
    (h : PasswordHash) (k : ℕ) (now : Time) (c : Credential)
    → IsRecent h k c
    → Allows (IsRecent h k) (ensure_verifiable now c)
ensure_verifiable-IsRecent h k now c r =
    same-IsRecent h k c (ensure_verifiable now c) r (ensure_verifiable_same now c)

lock-IsRecent :
    (h : PasswordHash) (k : ℕ) (policy : LockoutPolicy) (ip : IpAddr) (now : Time) (c : Credential)
    → IsRecent h k c
    → Allows (IsRecent h k) (lock policy ip now c)
unfolding lock
lock-IsRecent h k policy ip now c r = ground arith

pub attempt-IsRecent :
    (h : PasswordHash) (k : ℕ) (attempt : AttemptContext) (policy : LockoutPolicy) (now : Time)
    (c : Credential)
    → IsRecent h k c
    → Allows (IsRecent h k) (record_failed_attempt attempt policy now c)
unfolding record_failed_attempt record_login_failed count_failure lock_at_threshold
attempt-IsRecent h k attempt policy now c r =
    let Q = IsRecent h k in
    elim (Result-cases (validate_lockout_policy policy)) [
      | inr (e, refused) ↦ rw (refused, record_failed_attempt) r
      | inl passed ↦
          rw (passed, record_failed_attempt)
            (>>=-Allows Q Q
              (on_error (record_login_failed attempt account_locked now) (ensure_verifiable now)) _
              c
              (on_error-Allows Q (record_login_failed attempt account_locked now)
                (ensure_verifiable now c) (λ d q. q) (ensure_verifiable-IsRecent h k now c r))
              (λ d q. q)
              (λ _ d q.
                elim (Bool-cases (
                  leb_ℤ policy.threshold
                    (count_failure attempt policy now d).failed_attempt_count)) [
                      | inl reached ↦
                          rw (reached, lock_at_threshold)
                            (lock-IsRecent h k policy attempt.ip now
                              (count_failure attempt policy now d) q)
                      | inr below ↦ rw (below, lock_at_threshold) q
                    ]))
    ]

pub pos_mono : (a b : ℕ) (z : ℤ) → a ≤ b → pos b ≤ℤ z → pos a ≤ℤ z
pos_mono a b z h k = omega (arith, h, k)

replaced-IsRecent :
    (h new_hash : PasswordHash) (k : ℕ) (policy : CredentialPolicy) (now : Time) (c : Credential)
    → pos (suc k) ≤ℤ policy.history_depth
    → IsRecent h k c
    → IsRecent h (suc k) (replaced new_hash policy now c)
replaced-IsRecent h new_hash k policy now c depth (inl e) = inr (
  zero,
  record { hash = c.password; created_at = now },
  omega arith,
  replaced_history new_hash policy now c 0 ∙ ground (arith, depth),
  e,
)
replaced-IsRecent h new_hash k policy now c depth (inr (i, x, below, there, e)) =
    let inside : ltb (suc i) (pos_part policy.history_depth) ≡ true =
      ground (arith, depth, below) in
    inr (suc i, x, omega arith, replaced_history new_hash policy now c (suc i) ∙ rw inside there, e)

pub older-IsRecent :
    (h : PasswordHash) (k : ℕ) (c : Credential) → IsRecent h k c → IsRecent h (suc k) c
older-IsRecent h k c (inl e) = inl e
older-IsRecent h k c (inr (i, x, below, there, e)) = inr (i, x, omega arith, there, e)

replace_password-IsRecent :
    (h new_hash : PasswordHash) (is_reuse : PasswordMatcher) (k : ℕ) (policy : CredentialPolicy)
    (now : Time) (c : Credential)
    → pos (suc k) ≤ℤ policy.history_depth
    → IsRecent h k c
    → Allows (IsRecent h (suc k)) (replace_password new_hash is_reuse policy now c)
replace_password-IsRecent h new_hash is_reuse k policy now c depth r =
    rw
      (replace_password_lem new_hash is_reuse policy now c
        (pos_mono 0 (suc k) _ (omega arith) depth))
      (elim (Bool-cases (is_zero_hash new_hash)) [
        | inl zero_hash ↦ rw zero_hash (older-IsRecent h k c r)
        | inr given ↦ rw given (
            matched is_reuse (older-IsRecent h k c r)
              (replaced-IsRecent h new_hash k policy now c depth r))
      ])
  where
    matched :
        (m : PasswordMatcher)
        → IsRecent h (suc k) c
        → IsRecent h (suc k) (replaced new_hash policy now c)
        → Allows (IsRecent h (suc k)) (elim m [
          | none ↦ fails (invalid_credential matcher_required) c
          | some matches ↦
              if is_reused matches c
              then fails password_reused c
              else returns tt (replaced new_hash policy now c)
        ])
    matched none w x = w
    matched (some matches) w x = elim (Bool-cases (is_reused matches c)) [
      | inl reused ↦ rw reused w
      | inr fresh ↦ rw fresh x
    ]

pub change_password-IsRecent :
    (h new_hash : PasswordHash) (is_reuse : PasswordMatcher) (by : String) (k : ℕ)
    (policy : CredentialPolicy) (now : Time) (c : Credential)
    → pos (suc k) ≤ℤ policy.history_depth
    → IsRecent h k c
    → Allows (IsRecent h (suc k)) (change_password new_hash is_reuse by policy now c)
unfolding change_password
change_password-IsRecent h new_hash is_reuse by k policy now c depth r =
    elim (Result-cases (validate_credential_policy policy)) [
      | inr (e, refused) ↦ rw (refused, change_password) (older-IsRecent h k c r)
      | inl passed ↦
          rw (passed, change_password)
            (>>=-Allows (IsRecent h k) (IsRecent h (suc k)) (ensure_verifiable now) _ c
              (ensure_verifiable-IsRecent h k now c r) (older-IsRecent h k)
              (λ _ t w.
                >>=-Allows (IsRecent h (suc k)) (IsRecent h (suc k))
                  (replace_password new_hash is_reuse policy now) _ t
                  (replace_password-IsRecent h new_hash is_reuse k policy now t depth w) (λ d q. q)
                  (λ _ d q. q)))
    ]

pub reset_password-IsRecent :
    (h new_hash : PasswordHash) (is_reuse : PasswordMatcher) (k : ℕ) (policy : CredentialPolicy)
    (now : Time) (c : Credential)
    → pos (suc k) ≤ℤ policy.history_depth
    → IsRecent h k c
    → Allows (IsRecent h (suc k)) (reset_password new_hash is_reuse policy now c)
unfolding reset_password
reset_password-IsRecent h new_hash is_reuse k policy now c depth r =
    elim (Result-cases (validate_credential_policy policy)) [
      | inr (e, refused) ↦ rw (refused, reset_password) (older-IsRecent h k c r)
      | inl passed ↦ elim (Bool-cases (is_permanent c.lockout_status)) [
        | inl permanent ↦ rw (passed, permanent, reset_password) (older-IsRecent h k c r)
        | inr other ↦
            rw (passed, other, reset_password)
              (>>=-Allows (IsRecent h (suc k)) (IsRecent h (suc k))
                (replace_password new_hash is_reuse policy now) _ c
                (replace_password-IsRecent h new_hash is_reuse k policy now c depth r) (λ d q. q)
                (λ _ d q. q))
      ]
    ]
