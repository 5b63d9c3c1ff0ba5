-- ===== src/Login/Transaction.antt =====
-- The calls of the login use case that leave a trace, and `Execute` of
-- internal/features/login/repository/db/db.go: one transaction around a group of writes.
use araquanid.Common.Time.{Time}
use araquanid.Domain.Session.{Session}
use araquanid.Domain.Event.{DomainEvent}
use araquanid.Login.Traced.{Traced, throw, call}
use araquanid.Login.Ports.{Dependencies, LoginAttemptRecord, MfaSessionState, RefreshTokenRecord}
use araquanid.Common.{String, List}
use araquanid.Domain.Credential.{Credential}
use araquanid.Common.Result.{err, ok}

-- The writes of a transaction, the ports `TxRepositories`.
pub data Write : Type 0 where
  saved_credential : Credential → Write
  appended_events : List DomainEvent → Write
  recorded_attempt : LoginAttemptRecord → Write
  created_session : Session → String → Write
  revoked_session : Session → Write
  created_family : String → String → String → Write
  created_token : RefreshTokenRecord → Write
  registered_device : String → String → Write
  touched_device : String → Time → Write

-- The calls outside; a transaction is one of them, with all its writes.
pub data Action : Type 0 where
  asked_limiter : String → Action
  resolved_identity : String → String → Action
  read_credential : String → Action
  checked_password : Action
  checked_dummy : Action
  read_device : String → String → Action
  read_factors : String → Action
  signed_token : String → Action
  logged_attempt : LoginAttemptRecord → Action
  logged_failure : Action
  created_mfa_session : String → MfaSessionState → Action
  committed : List Write → Action
  commit_failed : List Write → Action
  rolled_back : List Write → Action

-- `Execute`
unfoldable pub execute :
    Dependencies → Traced Write String (Unit {0}) → Traced Action String (Unit {0})
execute deps tx = elim deps.begin [
  | err e ↦ throw e
  | ok _ ↦ elim tx.result [
    | err e ↦ call (rolled_back tx.trace) (err e)
    | ok _ ↦ elim deps.commit [
      | err e ↦ call (commit_failed tx.trace) (err e)
      | ok _ ↦ call (committed tx.trace) (ok tt)
    ]
  ]
]
