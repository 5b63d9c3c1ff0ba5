-- ===== src/Domain/Credential/Replacement.antt =====
-- ChangePassword of internal/domain/credential.go comes to one of the outcomes.
use araquanid.Domain.Credential.Validity.{IsValid}
use araquanid.Common.Result.{ok}
use araquanid.Domain.Credential.History.{
  replaced, replaced_history, change_event, change_password_equation,
}
use araquanid.Domain.Credential.Lockout.{lifted}
use araquanid.Domain.Credential.Change.{
  PasswordMatcher, change_type, is_reused, set_password, change_password,
}
use araquanid.Domain.Credential.{
  Credential, is_locked, record_event, unlock, requires_password_change, is_password_expired,
}
use araquanid.Domain.Event.{DomainEvent}
use araquanid.Domain.Password.{PasswordHash, is_zero_hash}
use araquanid.Domain.Policy.{CredentialPolicy, validate_credential_policy}
use araquanid.Domain.Fault.{invalid_credential, matcher_required, password_reused}
use araquanid.Common.{
  String, Bool, true, false, none, some, List, [], ◌∷◌, ◌++◌, All, contains, contains-Mem,
  if◌then◌else◌, inl, inr, ◌≡◌, refl, arith, Bool-cases, Option-cases, ◌∙◌, ap,
}
use araquanid.Common.Time.{Time}
use araquanid.Common.Method.{fails, returns}
use araquanid.Domain.Credential.Outcomes.{
  IsKnown, IsFresh, IsTypeOf, IsReplaced, IsChange, refused_locked, refused_empty,
  refused_unmatched, refused_known, changed,
}

-- What a lift leaves alone.
pub record IsSamePassword (c d : Credential) : Type 0 where
  pub id : d.id ≡ c.id
  pub identity : d.identity ≡ c.identity
  pub password : d.password ≡ c.password
  pub expiry : d.password_expires_at ≡ c.password_expires_at
  pub demand : d.force_password_change ≡ c.force_password_change
  pub history : d.history ≡ c.history

lifted-IsSamePassword : (c : Credential) → IsSamePassword c (lifted c)
unfolding unlock
lifted-IsSamePassword c = elim (Option-cases c.locked_until) [
  | inl e ↦ rw e (record {
    id = refl;
    identity = refl;
    password = refl;
    expiry = refl;
    demand = refl;
    history = refl;
  })
  | inr (until, e) ↦ rw e (record {
    id = refl;
    identity = refl;
    password = refl;
    expiry = refl;
    demand = refl;
    history = refl;
  })
]

contains-false :
    {A : Type 0} (p : A → Bool) (xs : List A) → contains p xs ≡ false → All (λ x. p x ≡ false) xs
contains-false p [] h = tt
contains-false p (x ∷ xs) h = elim (Bool-cases (p x)) [
  | inl e ↦ absurd (ground (arith, e, h))
  | inr e ↦ (e, contains-false p xs (rw e at h))
]

is_reused-IsKnown :
    (matches : PasswordHash → Bool) (c : Credential)
    → is_reused matches c ≡ true
    → IsKnown matches c
unfolding is_reused
is_reused-IsKnown matches c h = elim (Bool-cases (matches c.password)) [
  | inl e ↦ inl e
  | inr e ↦ inr (contains-Mem (λ x. matches x.hash) c.history (rw e at h))
]

is_reused-IsFresh :
    (matches : PasswordHash → Bool) (c : Credential)
    → is_reused matches c ≡ false
    → IsFresh matches c
unfolding is_reused
is_reused-IsFresh matches c h = elim (Bool-cases (matches c.password)) [
  | inl e ↦ absurd (ground (arith, e, h))
  | inr e ↦ (e, contains-false (λ x. matches x.hash) c.history (rw e at h))
]

change_type-IsTypeOf : (now : Time) (c : Credential) → IsTypeOf now c (change_type now c)
unfolding requires_password_change
change_type-IsTypeOf now c = ground arith

replaced-IsReplaced :
    (new_hash : PasswordHash) (policy : CredentialPolicy) (now : Time) (c : Credential)
    (event : DomainEvent)
    → IsReplaced new_hash policy now c (record_event event (replaced new_hash policy now c))
unfolding set_password
replaced-IsReplaced new_hash policy now c event = record {
  password = refl;
  created = refl;
  expires = ground arith;
  demand = refl;
  history = replaced_history new_hash policy now c;
  id = refl;
  identity = refl;
  failed_attempt_count = refl;
  last_failed_at = refl;
  lockout_status = refl;
  locked_at = refl;
  locked_until = refl;
  lockout_history_count = refl;
}

is_reused-lifted :
    (matches : PasswordHash → Bool) (c : Credential)
    → is_reused matches (lifted c) ≡ is_reused matches c
unfolding is_reused
is_reused-lifted matches c =
    let same = lifted-IsSamePassword c in rw (same.password, same.history) refl

change_type-lifted : (now : Time) (c : Credential) → change_type now (lifted c) ≡ change_type now c
unfolding requires_password_change is_password_expired
change_type-lifted now c =
    let same = lifted-IsSamePassword c in rw (same.demand, same.expiry, is_password_expired) refl

change_event-lifted :
    (new_hash : PasswordHash) (by : String) (policy : CredentialPolicy) (now : Time)
    (c : Credential)
    → change_event (change_type now (lifted c)) by now (replaced new_hash policy now (lifted c))
      ≡ change_event (change_type now c) by now c
unfolding set_password
change_event-lifted new_hash by policy now c =
    let same = lifted-IsSamePassword c in
    let typed : change_type now (lifted c) ≡ change_type now c = change_type-lifted now c in
    rw (same.id, same.identity, typed) refl

changed_events :
    (new_hash : PasswordHash) (by : String) (policy : CredentialPolicy) (now : Time)
    (c : Credential)
    → (let d = replaced new_hash policy now (lifted c) in
        record_event (change_event (change_type now (lifted c)) by now d) d).events
      ≡ (lifted c).events ++ change_event (change_type now c) by now c ∷ []
changed_events new_hash by policy now c =
    ap (λ e. (replaced new_hash policy now (lifted c)).events ++ e ∷ [])
      (change_event-lifted new_hash by policy now c)
    ∙ kept
  where
    kept :
        (replaced new_hash policy now (lifted c)).events
          ++ change_event (change_type now c) by now c ∷ []
        ≡ (lifted c).events ++ change_event (change_type now c) by now c ∷ []
    kept = unfold set_password in refl

-- `ChangePassword` under a valid policy on a well-formed credential. While it is locked the change is
-- refused and nothing changes. Otherwise an elapsed lock is lifted, and the change is refused for an
-- empty hash, for a missing matcher, and where the matcher knows the password in use or one of the
-- history, and nothing else changes; it succeeds only if the matcher knows none of them. Then the
-- password is the new one with its time, its expiry and its place in the history, no change is
-- demanded any more, the rest stays, and one event is added: of a forced change if a change was
-- demanded or the password had expired, and of one by the user's own will otherwise.
pub change_password_lem :
    (new_hash : PasswordHash) (is_reuse : PasswordMatcher) (by : String) (policy : CredentialPolicy)
    (now : Time) (c : Credential)
    → validate_credential_policy policy ≡ ok tt
    → IsValid c
    → IsChange new_hash is_reuse by policy now c (change_password new_hash is_reuse by policy now c)
change_password_lem new_hash is_reuse by policy now c p v =
    elim (change_password_equation new_hash is_reuse by policy now c p v) [
      | inl (held, e) ↦ refused_locked held e
      | inr (free, e) ↦ elim (Bool-cases (is_zero_hash new_hash)) [
        | inl zero_hash ↦ refused_empty free zero_hash (rw zero_hash at e)
        | inr given ↦ matched is_reuse free given (rw given at e)
      ]
    ]
  where
    matched :
        (m : PasswordMatcher)
        → is_locked now c ≡ returns false c
        → is_zero_hash new_hash ≡ false
        → change_password new_hash m by policy now c ≡ (elim m [
          | none ↦ fails (invalid_credential matcher_required) (lifted c)
          | some matches ↦
              if is_reused matches (lifted c)
              then fails password_reused (lifted c)
              else let d = replaced new_hash policy now (lifted c) in
                returns tt (record_event (change_event (change_type now (lifted c)) by now d) d)
        ])
        → IsChange new_hash m by policy now c (change_password new_hash m by policy now c)
    matched none free given e = refused_unmatched free given refl e
    matched (some matches) free given e = elim (Bool-cases (is_reused matches c)) [
      | inl reused ↦
          let k : is_reused matches (lifted c) ≡ true = is_reused-lifted matches c ∙ reused in
          refused_known matches free given refl (is_reused-IsKnown matches c reused) (rw k at e)
      | inr fresh ↦
          let k : is_reused matches (lifted c) ≡ false = is_reused-lifted matches c ∙ fresh in
          let d = replaced new_hash policy now (lifted c) in
          changed matches (change_type now c)
            (record_event (change_event (change_type now (lifted c)) by now d) d) free given refl
            (is_reused-IsFresh matches c fresh) (change_type-IsTypeOf now c)
            (replaced-IsReplaced new_hash policy now (lifted c) _)
            (changed_events new_hash by policy now c) (rw k at e)
    ]
