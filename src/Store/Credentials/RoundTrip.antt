-- ===== src/Store/Credentials/RoundTrip.antt =====
-- A credential that `Save` of internal/features/login/repository/db/credential.go writes, read again.
use araquanid.Domain.Credential.RoundTrip.{rehydrate_credential-snapshot}
use araquanid.Domain.Fault.{DomainError}
use araquanid.Common.Text.{same_text_refl, same_text}
use araquanid.Store.{refused, driver, StoreError, wrapping}
use araquanid.Common.{
  Option, [], ◌≡◌, refl, is_empty, false, true, arith, ◌∷◌, ◌∙◌, inl, inr, String, ap, Bool-cases,
  List, filter, filter-map, map, sym,
}
use araquanid.Common.Int.{pos, ◌≤ℤ◌, ℤ}
use araquanid.Common.Result.{>>=-eq-ok, ◌>>=◌, ok-injective, ok, Result, map_error}
use araquanid.Common.Time.{Time}
use araquanid.Domain.Credential.{Credential}
use araquanid.Domain.Credential.Creation.{snapshot, CredentialSnapshot, rehydrate_credential}
use araquanid.Domain.Credential.Validity.{IsValid, FitsLock}
use araquanid.Domain.Kinds.{LockoutStatus, is_valid_lockout}
use araquanid.Domain.Password.{PasswordHash, new_password_hash, is_valid_algorithm}
use araquanid.Domain.Policy.{default_credential_policy, validate_credential_policy}
use araquanid.Store.Sessions.{stored_option}
use araquanid.Store.Credentials.{
  CredentialRow, scanned, scan_credential_row, saved_row, save_row, save, find_by_identity,
  first_row,
}
use araquanid.Store.Texts.{to_lockout-lockout_text, to_algorithm}

-- A password with all its parts.
pub record IsComplete (p : PasswordHash) : Type 0 where
  pub hashed : is_empty p.hash ≡ false
  pub salted : is_empty p.salt ≡ false
  pub supported : is_valid_algorithm p.algorithm ≡ true
  pub versioned : pos 1 ≤ℤ p.version

-- The instants of a credential are ones that a column keeps.
pub record IsKept (timestamp : Time → Time) (c : Credential) : Type 0 where
  pub created : timestamp c.password_created_at ≡ c.password_created_at
  pub expires : stored_option timestamp c.password_expires_at ≡ c.password_expires_at
  pub failed : stored_option timestamp c.last_failed_at ≡ c.last_failed_at
  pub since : stored_option timestamp c.locked_at ≡ c.locked_at
  pub until : stored_option timestamp c.locked_until ≡ c.locked_until

-- The row is the credential's, and names its algorithm and version, which `Save` does not write.
pub record IsRowOf (row : CredentialRow) (c : Credential) : Type 0 where
  pub same_id : row.id ≡ c.id
  pub same_identity : row.identity_id ≡ c.identity
  pub same_algorithm : to_algorithm row.password_algorithm ≡ c.password.algorithm
  pub same_version : row.password_version ≡ c.password.version

new_password_hash-IsComplete :
    (p : PasswordHash) → IsComplete p → new_password_hash p.hash p.salt p.algorithm p.version ≡ ok p
unfolding new_password_hash
new_password_hash-IsComplete p c = ground (arith, c.hashed, c.salted, c.supported, c.versioned)

FitsLock-is_valid_lockout :
    (s : LockoutStatus) (at until : Option Time) (n : ℤ)
    → FitsLock s at until n
    → is_valid_lockout s ≡ true
FitsLock-is_valid_lockout s at until n h = ground arith

-- A credential as it is read: without history and events.
abbrev pub reloaded : Credential → Credential
reloaded c = record c { history = []; events = [] }

scanned-saved_row :
    (timestamp : Time → Time) (c : Credential) (row : CredentialRow)
    → IsKept timestamp c
    → IsRowOf row c
    → IsValid c
    → scanned (saved_row timestamp (snapshot c) row) c.password ≡ snapshot (reloaded c)
unfolding scanned saved_row snapshot
scanned-saved_row timestamp c row keeps own v =
    rw
      (
        own.same_id,
        own.same_identity,
        keeps.created,
        keeps.expires,
        keeps.failed,
        keeps.since,
        keeps.until,
        to_lockout-lockout_text c.lockout_status (
            FitsLock-is_valid_lockout c.lockout_status c.locked_at c.locked_until
              c.lockout_history_count v.locked),
      )
      refl

reloaded-IsValid : (c : Credential) → IsValid c → IsValid (reloaded c)
reloaded-IsValid c v = record {
  named = v.named;
  owned = v.owned;
  secured = v.secured;
  dated = v.dated;
  counted = v.counted;
  escalated = v.escalated;
  locked = v.locked;
  remembered = tt;
}

default_policy-ok : validate_credential_policy default_credential_policy ≡ ok tt
unfolding validate_credential_policy
default_policy-ok = refl

stored_password :
    (timestamp : Time → Time) (c : Credential) (row : CredentialRow)
    → IsRowOf row c
    → IsComplete c.password
    → let r = saved_row timestamp (snapshot c) row in
      new_password_hash r.password_hash r.password_salt
        (to_algorithm r.password_algorithm)
        r.password_version
      ≡ ok c.password
unfolding saved_row snapshot
stored_password timestamp c row own complete =
    rw (own.same_algorithm, own.same_version) (new_password_hash-IsComplete c.password complete)

wrapping-ok :
    {A B : Type 0} (text : String) (r : Result DomainError A) (a : A) (k : A → Result StoreError B)
    → r ≡ ok a
    → (wrapping text (map_error refused r) >>= k) ≡ k a
wrapping-ok text r a k h = rw h refl

scan_credential_row-saved_row :
    (timestamp : Time → Time) (c : Credential) (row : CredentialRow)
    → IsKept timestamp c
    → IsRowOf row c
    → IsComplete c.password
    → IsValid c
    → scan_credential_row (saved_row timestamp (snapshot c) row) ≡ ok (reloaded c)
unfolding scan_credential_row
scan_credential_row-saved_row timestamp c row keeps own complete v =
    wrapping-ok "login/db: rehydrate password hash: " _ c.password _
      (stored_password timestamp c row own complete)
    ∙ ap (λ n. map_error refused (rehydrate_credential n default_credential_policy))
        (scanned-saved_row timestamp c row keeps own v)
    ∙ ap (map_error refused) (
        rehydrate_credential-snapshot default_credential_policy (reloaded c) default_policy-ok
          (reloaded-IsValid c v) (omega arith))

save_row-identity :
    (timestamp : Time → Time) (n : CredentialSnapshot) (row : CredentialRow)
    → (save_row timestamp n row).identity_id ≡ row.identity_id
unfolding save_row saved_row
save_row-identity timestamp n row = elim (Bool-cases (same_text row.id n.id)) [
  | inl e ↦ rw e refl
  | inr e ↦ rw e refl
]

save_row-IsRowOf :
    (timestamp : Time → Time) (c : Credential) (row : CredentialRow)
    → row.id ≡ c.id
    → save_row timestamp (snapshot c) row ≡ saved_row timestamp (snapshot c) row
unfolding save_row snapshot
save_row-IsRowOf timestamp c row h = rw (h, same_text_refl c.id) refl

-- A well-formed credential that `Save` has written is found again under its identity as it was, but
-- without its history and its pending events; provided that the table has one row for the identity,
-- with the credential's identifier, algorithm and version, that its password is complete, and that its
-- instants are ones a column keeps.
pub find_by_identity-save :
    (timestamp : Time → Time) (answer : Result String (Unit {0})) (c : Credential)
    (row : CredentialRow) (table rows : List CredentialRow)
    → IsKept timestamp c
    → IsRowOf row c
    → IsComplete c.password
    → IsValid c
    → filter (λ r. same_text r.identity_id c.identity) table ≡ row ∷ []
    → save timestamp answer c table ≡ ok rows
    → find_by_identity (ok tt) c.identity rows ≡ ok (record c { history = []; events = [] })
unfolding save find_by_identity first_row
find_by_identity-save timestamp answer c row table rows keeps own complete v only h =
    let (_, _, built) =
      >>=-eq-ok (wrapping "login/db: save credential: " (map_error driver answer)) _ rows h in
    let one =
      filter-map (λ r. same_text r.identity_id c.identity) (save_row timestamp (snapshot c)) table
        (λ r. ap (λ i. same_text i c.identity) (save_row-identity timestamp (snapshot c) r))
      ∙ ap (map (save_row timestamp (snapshot c))) only in
    let found =
      ap (filter (λ r. same_text r.identity_id c.identity)) (sym (ok-injective built)) ∙ one in
    ap first_row found
    ∙ ap scan_credential_row (save_row-IsRowOf timestamp c row own.same_id)
    ∙ scan_credential_row-saved_row timestamp c row keeps own complete v
