-- ===== src/Store/Attempts.antt =====
-- internal/features/login/repository/db/login_attempt.go: the audit rows of login_attempts.
use araquanid.Common.{String, Option, List, ◌∷◌}
use araquanid.Common.Result.{Result, ok, ◌>>=◌, map_error}
use araquanid.Common.Time.{Time}
use araquanid.Login.Ports.{LoginAttemptRecord}
use araquanid.Store.{StoreError, driver, wrapping, null_if_empty}

pub record AttemptRow : Type 0 where
  pub id : String
  pub identity_id : Option String
  pub identifier_hash : String
  pub outcome : String
  pub failure_reason : String
  pub ip_address : String
  pub user_agent : String
  pub device_fingerprint : Option String
  pub attempted_at : Time
  pub session_id : Option String
  pub mfa_factor_type : Option String

-- The row that the INSERT makes, with the identifier that Postgres draws.
abbrev pub attempt_row : String → LoginAttemptRecord → AttemptRow
attempt_row id a = record {
  id = id;
  identity_id = a.identity_id;
  identifier_hash = a.identifier_hash;
  outcome = a.outcome;
  failure_reason = a.failure_reason;
  ip_address = a.ip_address;
  user_agent = a.user_agent;
  device_fingerprint = null_if_empty a.device_fingerprint;
  attempted_at = a.attempted_at;
  session_id = a.session_id;
  mfa_factor_type = null_if_empty a.mfa_factor_type;
}

-- `recordLoginAttempt`, which both `Record` methods call.
unfoldable pub record_login_attempt :
    Result String (Unit {0})
    → String
    → LoginAttemptRecord
    → List AttemptRow
    → Result StoreError (List AttemptRow)
record_login_attempt answer id a table =
    wrapping "login/db: record login attempt: " (map_error driver answer) >>= λ _.
    ok (attempt_row id a ∷ table)
