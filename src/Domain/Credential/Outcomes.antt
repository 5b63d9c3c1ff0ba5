-- ===== src/Domain/Credential/Outcomes.antt =====
-- What ChangePassword of internal/domain/credential.go can come to, said without its helpers.
use araquanid.Domain.Credential.Lockout.{lifted}
use araquanid.Domain.Credential.Change.{PasswordMatcher}
use araquanid.Domain.Credential.{Credential, PasswordHistoryEntry, is_locked}
use araquanid.Domain.Kinds.{PasswordChangeType, forced, user_initiated}
use araquanid.Domain.Event.{password_changed}
use araquanid.Domain.Password.{PasswordHash, is_zero_hash}
use araquanid.Domain.Policy.{CredentialPolicy}
use araquanid.Domain.Fault.{
  DomainError, account_is_locked, invalid_credential, invalid_password_hash, matcher_required,
  new_password_required, password_reused,
}
use araquanid.Common.{
  String, ℕ, Bool, true, false, none, some, [], ◌∷◌, ◌++◌, All, Mem, get_elem?, ltb, if◌then◌else◌,
  ◌⊎◌, ◌≡◌, ◌≤◌,
}
use araquanid.Common.Int.{pos, pos_part}
use araquanid.Common.Time.{Time, add}
use araquanid.Common.Method.{Outcome, fails, returns}

-- The matcher knows the password in use or one of the history,
abbrev pub IsKnown : (PasswordHash → Bool) → Credential → Type 0
IsKnown matches c =
    (matches c.password ≡ true)
    ⊎ ((e : PasswordHistoryEntry) × Mem e c.history × (matches e.hash ≡ true))

-- or none of them.
abbrev pub IsFresh : (PasswordHash → Bool) → Credential → Type 0
IsFresh matches c = (matches c.password ≡ false) × All (λ e. matches e.hash ≡ false) c.history

-- A change of the password is demanded, or the password has expired.
abbrev pub IsDueForChange : Time → Credential → Type 0
IsDueForChange now c =
    (c.force_password_change ≡ true)
    ⊎ ((expiry : Time) × (c.password_expires_at ≡ some expiry) × (expiry ≤ now))

abbrev pub IsTypeOf : Time → Credential → PasswordChangeType → Type 0
IsTypeOf now c change =
    (IsDueForChange now c × (change ≡ forced))
    ⊎ ((¬ IsDueForChange now c) × (change ≡ user_initiated))

-- The second credential is the first with another password: it is set at the time, expires after the
-- age of the policy or, at age 0, never, and no change is demanded; the history starts with the
-- former password and goes on with the former history, as far as the depth of the policy.
pub record IsReplaced (new_hash : PasswordHash) (policy : CredentialPolicy) (now : Time)
    (c d : Credential) : Type 0 where
  pub password : d.password ≡ new_hash
  pub created : d.password_created_at ≡ now
  pub expires :
      ((policy.max_age ≡ pos 0) × (d.password_expires_at ≡ none))
      ⊎ ((¬ (policy.max_age ≡ pos 0)) × (d.password_expires_at ≡ some (add now policy.max_age)))
  pub demand : d.force_password_change ≡ false
  pub history :
      (i : ℕ)
      → get_elem? d.history i ≡ (
          if ltb i (pos_part policy.history_depth)
          then get_elem? (record { hash = c.password; created_at = now } ∷ c.history) i
          else none)
  pub id : d.id ≡ c.id
  pub identity : d.identity ≡ c.identity
  pub failed_attempt_count : d.failed_attempt_count ≡ c.failed_attempt_count
  pub last_failed_at : d.last_failed_at ≡ c.last_failed_at
  pub lockout_status : d.lockout_status ≡ c.lockout_status
  pub locked_at : d.locked_at ≡ c.locked_at
  pub locked_until : d.locked_until ≡ c.locked_until
  pub lockout_history_count : d.lockout_history_count ≡ c.lockout_history_count

-- What a change can come to: the reason, and the outcome.
pub data IsChange (new_hash : PasswordHash) (is_reuse : PasswordMatcher) (by : String)
    (policy : CredentialPolicy) (now : Time) (c : Credential)
    (o : Outcome Credential DomainError (Unit {0})) : Type 0 where
  refused_locked :
      is_locked now c ≡ returns true c
      → o ≡ fails account_is_locked c
      → IsChange new_hash is_reuse by policy now c o
  refused_empty :
      is_locked now c ≡ returns false c
      → is_zero_hash new_hash ≡ true
      → o ≡ fails (invalid_password_hash new_password_required) (lifted c)
      → IsChange new_hash is_reuse by policy now c o
  refused_unmatched :
      is_locked now c ≡ returns false c
      → is_zero_hash new_hash ≡ false
      → is_reuse ≡ none
      → o ≡ fails (invalid_credential matcher_required) (lifted c)
      → IsChange new_hash is_reuse by policy now c o
  refused_known :
      (matches : PasswordHash → Bool)
      → is_locked now c ≡ returns false c
      → is_zero_hash new_hash ≡ false
      → is_reuse ≡ some matches
      → IsKnown matches c
      → o ≡ fails password_reused (lifted c)
      → IsChange new_hash is_reuse by policy now c o
  changed :
      (matches : PasswordHash → Bool) (change : PasswordChangeType) (d : Credential)
      → is_locked now c ≡ returns false c
      → is_zero_hash new_hash ≡ false
      → is_reuse ≡ some matches
      → IsFresh matches c
      → IsTypeOf now c change
      → IsReplaced new_hash policy now (lifted c) d
      → d.events
        ≡ (lifted c).events
          ++ password_changed (record {
            credential_id = c.id;
            identity_id = c.identity;
            changed_by = by;
            change_type = change;
            at = now;
          })
            ∷ []
      → o ≡ returns tt d
      → IsChange new_hash is_reuse by policy now c o
