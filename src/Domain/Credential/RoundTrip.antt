-- ===== src/Domain/Credential/RoundTrip.antt =====
-- NewCredential, Snapshot and RehydrateCredential of internal/domain/credential.go: what they return
-- is well formed, and a well-formed credential whose history fits the policy survives storage.
use mathlib.Core.Path.{subst}
use araquanid.Domain.Password.{is_zero_hash}
use araquanid.Common.Time.{Time, is_zero}
use araquanid.Domain.Credential.Validity.{IsValid, IsRemembered, FitsLock}
use araquanid.Domain.Kinds.{LockoutStatus, is_valid_lockout}
use araquanid.Domain.Credential.{Credential, PasswordHistoryEntry}
use araquanid.Domain.Policy.{CredentialPolicy, validate_credential_policy}
use araquanid.Domain.Credential.Creation.{
  new_credential, check_credential_fields, check_lock, check_history, rehydrate_credential,
  snapshot, NewCredentialParams, CredentialSnapshot, restored_credential, check_credential_params,
  initial_credential,
}
use araquanid.Common.{
  ◌∙◌, ◌≡◌, ◌∷◌, refl, [], List, is_empty, Option, length, arith, All, false, true,
}
use araquanid.Common.Int.{pos, ◌≤ℤ◌, ℤ}
use araquanid.Common.Result.{
  ok, >>-eq-ok, >>-ok, ok-injective, reject_if-ok, reject_if, reject_if-eq-ok,
}

pub new_credential-eq-ok :
    (p : NewCredentialParams) (c : Credential)
    → new_credential p ≡ ok c
    → (check_credential_params p ≡ ok tt) × (initial_credential p ≡ c)
unfolding new_credential
new_credential-eq-ok p c h =
    let (params, rest) = >>-eq-ok (check_credential_params p) h in
    let (policy, built) = >>-eq-ok (validate_credential_policy p.policy) rest in
    (params, ok-injective built)

check_credential_fields-ok :
    (policy : CredentialPolicy) (c : Credential)
    → IsValid c
    → pos (length c.history) ≤ℤ policy.history_depth
    → check_credential_fields policy (snapshot c) ≡ ok tt
unfolding check_credential_fields snapshot
check_credential_fields-ok policy c v h = ground arith

check_lock-ok :
    (c : Credential)
    → IsValid c
    → check_lock c.lockout_status c.locked_at c.locked_until c.lockout_history_count ≡ ok tt
unfolding check_lock
check_lock-ok c v = ground arith

check_history-ok : (es : List PasswordHistoryEntry) → All IsRemembered es → check_history es ≡ ok tt
unfolding check_history
check_history-ok [] h = refl
check_history-ok (e ∷ es) h = >>-ok _ (reject_if-ok _ h.0) ∙ check_history-ok es h.1

-- A well-formed credential whose history is no longer than the policy allows comes back from storage
-- as it was, without pending events; the policy itself must be valid.
pub rehydrate_credential-snapshot :
    (policy : CredentialPolicy) (c : Credential)
    → validate_credential_policy policy ≡ ok tt
    → IsValid c
    → pos (length c.history) ≤ℤ policy.history_depth
    → rehydrate_credential (snapshot c) policy ≡ ok (record c { events = [] })
unfolding rehydrate_credential snapshot
rehydrate_credential-snapshot policy c p v h =
    >>-ok _ p
    ∙ >>-ok _ (check_credential_fields-ok policy c v h)
    ∙ >>-ok _ (check_lock-ok c v)
    ∙ >>-ok _ (check_history-ok c.history v.remembered)

check_credential_fields-eq-ok :
    (policy : CredentialPolicy) (n : CredentialSnapshot)
    → check_credential_fields policy n ≡ ok tt
    → (is_empty n.id ≡ false)
      × (is_empty n.identity_id ≡ false)
      × (is_zero_hash n.password ≡ false)
      × (is_zero n.password_created_at ≡ false)
      × (is_valid_lockout n.lockout_status ≡ true)
      × (pos 0 ≤ℤ n.failed_attempt_count)
      × (pos 0 ≤ℤ n.lockout_history_count)
      × (pos (length n.history) ≤ℤ policy.history_depth)
unfolding check_credential_fields
check_credential_fields-eq-ok policy n h = ground arith

check_lock-FitsLock :
    (status : LockoutStatus) (at until : Option Time) (n : ℤ)
    → is_valid_lockout status ≡ true
    → check_lock status at until n ≡ ok tt
    → FitsLock status at until n
unfolding check_lock
check_lock-FitsLock status at until n v h = ground arith

check_history-eq-ok :
    (es : List PasswordHistoryEntry) → check_history es ≡ ok tt → All IsRemembered es
unfolding check_history
check_history-eq-ok [] h = tt
check_history-eq-ok (e ∷ es) h =
    let (given, rest) = >>-eq-ok (reject_if (is_zero_hash e.hash) _) h in
    (reject_if-eq-ok (is_zero_hash e.hash) _ given, check_history-eq-ok es rest)

restored_credential-IsValid :
    (policy : CredentialPolicy) (n : CredentialSnapshot)
    → check_credential_fields policy n ≡ ok tt
    → check_lock n.lockout_status n.locked_at n.locked_until n.lockout_history_count ≡ ok tt
    → check_history n.history ≡ ok tt
    → IsValid (restored_credential n) × (pos (length n.history) ≤ℤ policy.history_depth)
restored_credential-IsValid policy n fields lock history =
    let (named, owned, secured, dated, status, counted, escalated, fits) =
      check_credential_fields-eq-ok policy n fields in
    (
      record {
        named = named;
        owned = owned;
        secured = secured;
        dated = dated;
        counted = counted;
        escalated = escalated;
        locked =
            check_lock-FitsLock n.lockout_status n.locked_at n.locked_until n.lockout_history_count
              status lock;
        remembered = check_history-eq-ok n.history history;
      },
      fits,
    )

snapshot-restored_credential : (n : CredentialSnapshot) → snapshot (restored_credential n) ≡ n
unfolding snapshot
snapshot-restored_credential n = refl

-- Whatever RehydrateCredential accepts is a well-formed credential with no pending events and a
-- history within the depth of the policy, and storing it gives the snapshot back.
pub snapshot-rehydrate_credential :
    (policy : CredentialPolicy) (n : CredentialSnapshot) (c : Credential)
    → rehydrate_credential n policy ≡ ok c
    → IsValid c
      × (pos (length c.history) ≤ℤ policy.history_depth)
      × (snapshot c ≡ n)
      × (c.events ≡ [])
unfolding rehydrate_credential
snapshot-rehydrate_credential policy n c h =
    let (_, rest) = >>-eq-ok (validate_credential_policy policy) h in
    let (fields, rest₁) = >>-eq-ok (check_credential_fields policy n) rest in
    let (lock, rest₂) =
      >>-eq-ok (check_lock n.lockout_status n.locked_at n.locked_until n.lockout_history_count)
        rest₁ in
    let (history, built) = >>-eq-ok (check_history n.history) rest₂ in
    let (valid, fits) = restored_credential-IsValid policy n fields lock history in
    subst
      (λ d.
        IsValid d
        × (pos (length d.history) ≤ℤ policy.history_depth)
        × (snapshot d ≡ n)
        × (d.events ≡ []))
      (ok-injective built) (valid, fits, snapshot-restored_credential n, refl)
