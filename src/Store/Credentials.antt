-- ===== src/Store/Credentials.antt =====
-- internal/features/login/repository/db/credential.go: the rows of the table credentials. The password
-- history is in another table, which these functions do not read.
pub mod RoundTrip
use araquanid.Common.{String, Option, List, [], ◌∷◌, map, filter, if◌then◌else◌, Bool}
use araquanid.Common.Int.{ℤ}
use araquanid.Common.Result.{Result, ok, err, ◌>>=◌, map_error}
use araquanid.Common.Text.{same_text}
use araquanid.Common.Time.{Time}
use araquanid.Domain.Credential.{Credential}
use araquanid.Domain.Credential.Creation.{CredentialSnapshot, snapshot, rehydrate_credential}
use araquanid.Domain.Password.{PasswordHash, new_password_hash}
use araquanid.Domain.Policy.{default_credential_policy}
use araquanid.Domain.Fault.{credential_not_found}
use araquanid.Store.{StoreError, driver, refused, wrapping}
use araquanid.Store.Sessions.{stored_option}
use araquanid.Store.Texts.{lockout_text, to_lockout, to_algorithm}

pub record CredentialRow : Type 0 where
  pub id : String
  pub identity_id : String
  pub password_hash : String
  pub password_salt : String
  pub password_algorithm : String
  pub password_version : ℤ
  pub password_created_at : Time
  pub password_expires_at : Option Time
  pub force_password_change : Bool
  pub failed_attempt_count : ℤ
  pub last_failed_at : Option Time
  pub lockout_status : String
  pub locked_at : Option Time
  pub locked_until : Option Time
  pub lockout_history_count : ℤ

-- The snapshot that `findCredentialByIdentity` puts together.
unfoldable pub scanned : CredentialRow → PasswordHash → CredentialSnapshot
scanned row password = record {
  id = row.id;
  identity_id = row.identity_id;
  password = password;
  password_created_at = row.password_created_at;
  password_expires_at = row.password_expires_at;
  force_password_change = row.force_password_change;
  failed_attempt_count = row.failed_attempt_count;
  last_failed_at = row.last_failed_at;
  lockout_status = to_lockout row.lockout_status;
  locked_at = row.locked_at;
  locked_until = row.locked_until;
  lockout_history_count = row.lockout_history_count;
  history = [];
}

unfoldable pub scan_credential_row : CredentialRow → Result StoreError Credential
scan_credential_row row =
    wrapping "login/db: rehydrate password hash: " (
      map_error refused (
        new_password_hash row.password_hash row.password_salt (to_algorithm row.password_algorithm)
          row.password_version))
    >>= λ password.
        map_error refused (rehydrate_credential (scanned row password) default_credential_policy)

-- The first row of an identity, which has one at most.
unfoldable pub first_row : List CredentialRow → Result StoreError Credential
first_row [] = err (refused credential_not_found)
first_row (row ∷ rows) = scan_credential_row row

-- `findCredentialByIdentity`, with the answer to the SELECT where there is a row.
unfoldable pub find_by_identity :
    Result String (Unit {0}) → String → List CredentialRow → Result StoreError Credential
find_by_identity answer identity_id table =
    wrapping "login/db: find credential: " (map_error driver answer) >>= λ _.
    first_row (filter (λ row. same_text row.identity_id identity_id) table)

-- The columns that the UPDATE of `Save` sets; `updated_at` is read by no function of the program.
unfoldable pub saved_row : (Time → Time) → CredentialSnapshot → CredentialRow → CredentialRow
saved_row timestamp n row = record row {
  password_hash = n.password.hash;
  password_salt = n.password.salt;
  password_created_at = timestamp n.password_created_at;
  password_expires_at = stored_option timestamp n.password_expires_at;
  force_password_change = n.force_password_change;
  failed_attempt_count = n.failed_attempt_count;
  last_failed_at = stored_option timestamp n.last_failed_at;
  lockout_status = lockout_text n.lockout_status;
  locked_at = stored_option timestamp n.locked_at;
  locked_until = stored_option timestamp n.locked_until;
  lockout_history_count = n.lockout_history_count;
}

unfoldable pub save_row : (Time → Time) → CredentialSnapshot → CredentialRow → CredentialRow
save_row timestamp n row = if same_text row.id n.id then saved_row timestamp n row else row

-- `Save`
unfoldable pub save :
    (Time → Time)
    → Result String (Unit {0})
    → Credential
    → List CredentialRow
    → Result StoreError (List CredentialRow)
save timestamp answer c table =
    wrapping "login/db: save credential: " (map_error driver answer) >>= λ _.
    ok (map (save_row timestamp (snapshot c)) table)
