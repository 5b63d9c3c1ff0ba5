-- ===== src/Domain/Credential/History.antt =====
-- The password history of a credential: replacePassword, ChangePassword and ResetPassword of
-- internal/domain/credential.go.
use araquanid.Domain.Credential.Lockout.{lifted, ensure_verifiable-is_locked}
use araquanid.Domain.Credential.Validity.{IsValid}
use araquanid.Domain.Kinds.{PasswordChangeType}
use araquanid.Domain.Event.{password_changed, DomainEvent}
use araquanid.Domain.Credential.{Credential, PasswordHistoryEntry, is_locked, record_event}
use araquanid.Domain.Password.{PasswordHash, is_zero_hash}
use araquanid.Domain.Policy.{validate_credential_policy, CredentialPolicy}
use araquanid.Domain.Credential.Change.{
  remember, replace_password, PasswordMatcher, set_password, is_reused, change_password,
  change_type,
}
use araquanid.Common.Time.{Time}
use araquanid.Common.{
  ◌∷◌, if◌then◌else◌, ◌≡◌, refl, none, some, take, arith, take_all, ◌⊎◌, inl, inr, ℕ, String,
  get_elem?, ltb, get_elem?-take, true, false, Bool-cases,
}
use araquanid.Common.Int.{pos, ◌≤ℤ◌, pos_part}
use araquanid.Common.Method.{returns, fails, ◌>>=◌, ◌>>◌, modify, Outcome}
use araquanid.Common.Result.{ok}
use araquanid.Domain.Fault.{
  invalid_credential, invalid_password_hash, new_password_required, matcher_required,
  password_reused, account_is_locked, DomainError,
}

abbrev pub entry_for : Time → Credential → PasswordHistoryEntry
entry_for now c = record { hash = c.password; created_at = now }

-- Under a valid policy the slice expression of `replacePassword` is in range, and cuts the history
-- with the current password in front down to the depth of the policy.
pub remember_lem :
    (policy : CredentialPolicy) (now : Time) (c : Credential)
    → pos 0 ≤ℤ policy.history_depth
    → remember policy now c
      ≡ some (take (pos_part policy.history_depth) (entry_for now c ∷ c.history))
unfolding remember
remember_lem policy now c h =
    let entries = entry_for now c ∷ c.history in
    ground (arith, take_all (pos_part policy.history_depth) entries)

pub validate_credential_policy-eq-ok :
    (p : CredentialPolicy)
    → validate_credential_policy p ≡ ok tt
    → (pos 0 ≤ℤ p.history_depth) × (pos 0 ≤ℤ p.max_age)
unfolding validate_credential_policy
validate_credential_policy-eq-ok p h = ground arith

-- The credential after a successful replacement.
abbrev pub replaced : PasswordHash → CredentialPolicy → Time → Credential → Credential
replaced new_hash policy now c =
    set_password new_hash policy now
      (take (pos_part policy.history_depth) (entry_for now c ∷ c.history)) c

-- `replacePassword` under a valid policy, which does not panic, by the steps of the method.
pub replace_password_lem :
    (new_hash : PasswordHash) (is_reuse : PasswordMatcher) (policy : CredentialPolicy) (now : Time)
    (c : Credential)
    → pos 0 ≤ℤ policy.history_depth
    → replace_password new_hash is_reuse policy now c ≡ (
        if is_zero_hash new_hash
        then fails (invalid_password_hash new_password_required) c
        else elim is_reuse [
          | none ↦ fails (invalid_credential matcher_required) c
          | some matches ↦
              if is_reused matches c
              then fails password_reused c
              else returns tt (replaced new_hash policy now c)
        ])
unfolding replace_password
replace_password_lem new_hash none policy now c h = refl
replace_password_lem new_hash (some matches) policy now c h =
    rw (remember_lem policy now c h, replace_password)

-- The same, with an assignment after it.
replace_then :
    (new_hash : PasswordHash) (is_reuse : PasswordMatcher) (policy : CredentialPolicy) (now : Time)
    (f : Credential → Credential) (c : Credential)
    → pos 0 ≤ℤ policy.history_depth
    → (replace_password new_hash is_reuse policy now >> modify f) c ≡ (
        if is_zero_hash new_hash
        then fails (invalid_password_hash new_password_required) c
        else elim is_reuse [
          | none ↦ fails (invalid_credential matcher_required) c
          | some matches ↦
              if is_reused matches c
              then fails password_reused c
              else returns tt (f (replaced new_hash policy now c))
        ])
replace_then new_hash is_reuse policy now f c h =
    rw (replace_password_lem new_hash is_reuse policy now c h, ◌>>=◌, ◌>>◌)
      (elim (Bool-cases (is_zero_hash new_hash)) [
        | inl zero_hash ↦ rw zero_hash
        | inr given ↦ rw given (matched is_reuse)
      ])
  where
    matched :
        (m : PasswordMatcher)
        → ◌≡◌ {A = Outcome Credential DomainError (Unit {0})}
            (((λ _. elim m [
              | none ↦ fails (invalid_credential matcher_required) c
              | some matches ↦
                  if is_reused matches c
                  then fails password_reused c
                  else returns tt (replaced new_hash policy now c)
            ])
                >> modify f)
              c)
            (elim m [
              | none ↦ fails (invalid_credential matcher_required) c
              | some matches ↦
                  if is_reused matches c
                  then fails password_reused c
                  else returns tt (f (replaced new_hash policy now c))
            ])
    matched none = refl
    matched (some matches) = elim (Bool-cases (is_reused matches c)) [
      | inl reused ↦ rw reused
      | inr fresh ↦ rw fresh
    ]

-- The event of a successful change.
abbrev pub change_event : PasswordChangeType → String → Time → Credential → DomainEvent
change_event change by now c = password_changed (record {
  credential_id = c.id;
  identity_id = c.identity;
  changed_by = by;
  change_type = change;
  at = now;
})

-- `ChangePassword` under a valid policy on a well-formed credential, by the steps of the method.
pub change_password_equation :
    (new_hash : PasswordHash) (is_reuse : PasswordMatcher) (by : String) (policy : CredentialPolicy)
    (now : Time) (c : Credential)
    → validate_credential_policy policy ≡ ok tt
    → IsValid c
    → ((is_locked now c ≡ returns true c)
        × (change_password new_hash is_reuse by policy now c ≡ fails account_is_locked c))
      ⊎ ((is_locked now c ≡ returns false c)
          × (change_password new_hash is_reuse by policy now c ≡ (
              let d = lifted c in
              if is_zero_hash new_hash
              then fails (invalid_password_hash new_password_required) d
              else elim is_reuse [
                | none ↦ fails (invalid_credential matcher_required) d
                | some matches ↦
                    if is_reused matches d
                    then fails password_reused d
                    else let d' = replaced new_hash policy now d in
                      returns tt (record_event (change_event (change_type now d) by now d') d')
              ])))
unfolding change_password
change_password_equation new_hash is_reuse by policy now c p v =
    let (depth, _) = validate_credential_policy-eq-ok policy p in
    elim (ensure_verifiable-is_locked now c v) [
      | inl (held, refused) ↦ inl (held, rw (p, change_password) (rw (refused, ◌>>=◌)))
      | inr (free, lifts) ↦ inr (
        free,
        rw (p, change_password)
            (rw (lifts, ◌>>=◌) (replace_then new_hash is_reuse policy now _ (lifted c) depth)),
      )
    ]

-- After a replacement the history holds the password that was in use at index 0, and the former
-- entries one place further on, as far as the depth of the policy; nothing stands beyond it.
pub replaced_history :
    (new_hash : PasswordHash) (policy : CredentialPolicy) (now : Time) (c : Credential) (i : ℕ)
    → get_elem? (replaced new_hash policy now c).history i ≡ (
        if ltb i (pos_part policy.history_depth)
        then get_elem? (entry_for now c ∷ c.history) i
        else none)
unfolding set_password
replaced_history new_hash policy now c i =
    get_elem?-take (pos_part policy.history_depth) (entry_for now c ∷ c.history) i
