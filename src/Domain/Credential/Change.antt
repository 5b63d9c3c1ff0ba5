-- ===== src/Domain/Credential/Change.antt =====
-- The methods of internal/domain/credential.go that replace the password or ask for it.
use araquanid.Domain.Credential.{
  ensure_verifiable, Credential, CredentialMethod, requires_password_change, PasswordHistoryEntry,
  record_event,
}
use araquanid.Common.Time.{Time}
use araquanid.Domain.Password.{PasswordHash, is_zero_hash}
use araquanid.Domain.Policy.{CredentialPolicy, expiry_from, validate_credential_policy}
use araquanid.Common.{
  ◌||◌, ◌∷◌, if◌then◌else◌, none, some, Option, String, Bool, List, contains, true, is_empty, false,
  length,
}
use araquanid.Common.Int.{pos, ltb_ℤ, slice_to}
use araquanid.Domain.Kinds.{
  forced, locked_permanent, user_initiated, LockoutStatus, PasswordChangeType,
}
use araquanid.Common.Method.{fails, panics, returns, ◌>>◌, ◌>>=◌, lift, gets, modify, throw_if}
use araquanid.Domain.Event.{
  password_reset_completed, password_changed, admin_initiated_password_reset,
}
use araquanid.Domain.Fault.{
  account_is_locked, invalid_credential, new_password_required, password_reused,
  invalid_password_hash, matcher_required, initiator_required,
}

-- `PasswordMatcher`; `none` is a `nil` function.
abbrev pub PasswordMatcher : Type 0
PasswordMatcher = Option (PasswordHash → Bool)

-- The new history of `replacePassword`; `none` is a panic of the slice expression.
unfoldable pub remember : CredentialPolicy → Time → Credential → Option (List PasswordHistoryEntry)
remember policy now c =
    let entries = record { hash = c.password; created_at = now } ∷ c.history in
    if ltb_ℤ policy.history_depth (pos (length entries))
    then slice_to entries policy.history_depth
    else some entries

-- Whether the matcher knows the current password or one of the history.
unfoldable pub is_reused : (PasswordHash → Bool) → Credential → Bool
is_reused is_reuse c = is_reuse c.password || contains (λ e. is_reuse e.hash) c.history

-- The assignments of `replacePassword`.
unfoldable pub set_password :
    PasswordHash → CredentialPolicy → Time → List PasswordHistoryEntry → Credential → Credential
unfolding expiry_from
set_password new_hash policy now entries c = record c {
  history = entries;
  password = new_hash;
  password_created_at = now;
  password_expires_at = expiry_from policy now;
  force_password_change = false;
}

-- `replacePassword`
unfoldable pub replace_password :
    PasswordHash → PasswordMatcher → CredentialPolicy → Time → CredentialMethod (Unit {0})
replace_password new_hash is_reuse policy now c =
    if is_zero_hash new_hash
    then fails (invalid_password_hash new_password_required) c
    else elim is_reuse [
      | none ↦ fails (invalid_credential matcher_required) c
      | some matches ↦
          if is_reused matches c then fails password_reused c else elim (remember policy now c) [
            | none ↦ panics
            | some entries ↦ returns tt (set_password new_hash policy now entries c)
          ]
    ]

abbrev pub change_type : Time → Credential → PasswordChangeType
change_type now c = if requires_password_change now c then forced else user_initiated

-- `ChangePassword`
unfoldable pub change_password :
    PasswordHash → PasswordMatcher → String → CredentialPolicy → Time → CredentialMethod (Unit {0})
change_password new_hash is_reuse by policy now = do
  lift (validate_credential_policy policy)
  ensure_verifiable now
  change ← gets (change_type now)
  replace_password new_hash is_reuse policy now
  modify λ c.
      record_event
        (password_changed (record {
          credential_id = c.id;
          identity_id = c.identity;
          changed_by = by;
          change_type = change;
          at = now;
        }))
        c

abbrev pub is_permanent : LockoutStatus → Bool
is_permanent locked_permanent = true
is_permanent _ = false

-- `ResetPassword`
unfoldable pub reset_password :
    PasswordHash → PasswordMatcher → CredentialPolicy → Time → CredentialMethod (Unit {0})
reset_password new_hash is_reuse policy now = do
  lift (validate_credential_policy policy)
  permanent ← gets (λ c. is_permanent c.lockout_status)
  throw_if permanent account_is_locked
  replace_password new_hash is_reuse policy now
  modify λ c.
      record_event
        (password_reset_completed
          (record { credential_id = c.id; identity_id = c.identity; at = now }))
        c

-- `MarkForcePasswordChange`
unfoldable pub mark_force_password_change : String → Time → CredentialMethod (Unit {0})
mark_force_password_change by now c =
    if is_empty by
    then fails (invalid_credential initiator_required) c
    else if c.force_password_change
    then returns tt c
    else returns tt (
        record_event
          (admin_initiated_password_reset (record {
            credential_id = c.id;
            identity_id = c.identity;
            initiated_by = by;
            at = now;
          }))
          (record c { force_password_change = true }))
