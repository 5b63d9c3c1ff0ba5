-- ===== src/Store/Sessions.antt =====
-- internal/features/login/repository/db/session.go: the rows of authentication_sessions, as a login
-- writes and reads them.
pub mod RoundTrip
pub mod Queries
pub mod Eviction
pub mod Single
mod Tests
use araquanid.Common.{
  String, Option, none, some, List, [], ◌∷◌, ◌&&◌, map, filter, if◌then◌else◌, length, Bool,
}
use araquanid.Common.Int.{ℤ, pos}
use araquanid.Common.Result.{Result, ok, ◌>>=◌, map_error}
use araquanid.Common.Text.{same_text, concat}
use araquanid.Common.Time.{Time, whole_seconds, times_second}
use araquanid.Domain.Kinds.{IpAddr, FactorType}
use araquanid.Domain.Session.{Session}
use araquanid.Domain.Session.Snapshot.{SessionSnapshot, snapshot, rehydrate_session}
use araquanid.Store.{StoreError, driver, refused, wrapping, null_if_empty, text_or_empty}
use araquanid.Store.Texts.{
  aal_text, to_aal, factor_text, to_factor, status_text, to_status, reason_text, to_reason,
}

pub record SessionRow : Type 0 where
  pub id : String
  pub identity_id : String
  pub device_id : Option String
  pub client_id : String
  pub status : String
  pub aal : String
  pub mfa_factors_used : String
  pub created_at : Time
  pub last_activity_at : Time
  pub idle_timeout_secs : ℤ
  pub absolute_expires_at : Time
  pub creation_ip : String
  pub creation_user_agent : String
  pub revoked_at : Option Time
  pub revoke_reason : Option String

-- What the code uses of encoding/json, net/netip and the columns of Postgres: lists of strings as
-- JSON, and as a JSONB column gives them back, addresses as text, and instants as a TIMESTAMPTZ column
-- keeps them.
pub record Codec : Type 0 where
  pub marshal : List String → Result String String
  pub unmarshal : String → Result String (List String)
  pub jsonb : String → String
  pub addr_string : IpAddr → String
  pub parse_addr : String → Result String IpAddr
  pub timestamp : Time → Time

abbrev pub stored_option : (Time → Time) → Option Time → Option Time
stored_option f none = none
stored_option f (some t) = some (f t)

-- The snapshot that `scanSessionRow` puts together.
unfoldable pub scanned : SessionRow → List FactorType → IpAddr → SessionSnapshot
scanned row factors ip = record {
  id = row.id;
  identity_id = row.identity_id;
  device_id = text_or_empty row.device_id;
  status = to_status row.status;
  aal = to_aal row.aal;
  factors_used = factors;
  created_at = row.created_at;
  last_activity_at = row.last_activity_at;
  idle_timeout = times_second row.idle_timeout_secs;
  absolute_expires_at = row.absolute_expires_at;
  revoked_at = row.revoked_at;
  revoke_reason = to_reason (text_or_empty row.revoke_reason);
  client = record { ip = ip; user_agent = row.creation_user_agent };
}

module _ (codec : Codec) where
  -- `marshalFactors`
  unfoldable pub marshal_factors : List FactorType → Result StoreError String
  marshal_factors factors =
      wrapping "login/db: marshal factors: "
        (map_error driver (codec.marshal (map factor_text factors)))

  -- `unmarshalFactors`
  unfoldable pub unmarshal_factors : String → Result StoreError (List FactorType)
  unmarshal_factors b =
      wrapping "login/db: unmarshal factors: " (map_error driver (codec.unmarshal b)) >>= λ raw.
      ok (map to_factor raw)

  -- The row that the INSERT makes.
  unfoldable pub session_row : SessionSnapshot → String → String → SessionRow
  session_row n client_id factors = record {
    id = n.id;
    identity_id = n.identity_id;
    device_id = null_if_empty n.device_id;
    client_id = client_id;
    status = status_text n.status;
    aal = aal_text n.aal;
    mfa_factors_used = codec.jsonb factors;
    created_at = codec.timestamp n.created_at;
    last_activity_at = codec.timestamp n.last_activity_at;
    idle_timeout_secs = whole_seconds n.idle_timeout;
    absolute_expires_at = codec.timestamp n.absolute_expires_at;
    creation_ip = codec.addr_string n.client.ip;
    creation_user_agent = n.client.user_agent;
    revoked_at = none;
    revoke_reason = none;
  }

  -- `Create`, with the answer to the INSERT.
  unfoldable pub create :
      Result String (Unit {0})
      → Session
      → String
      → List SessionRow
      → Result StoreError (List SessionRow)
  create answer s client_id table = marshal_factors (snapshot s).factors_used >>= λ factors.
      wrapping "login/db: create session: " (map_error driver answer) >>= λ _.
      ok (session_row (snapshot s) client_id factors ∷ table)

  abbrev pub end_row : SessionSnapshot → SessionRow → SessionRow
  end_row n row =
      if same_text row.id n.id
      then record row {
        status = status_text n.status;
        revoked_at = stored_option codec.timestamp n.revoked_at;
        revoke_reason = null_if_empty (reason_text n.revoke_reason);
      }
      else row

  -- `Revoke`
  unfoldable pub revoke :
      Result String (Unit {0}) → Session → List SessionRow → Result StoreError (List SessionRow)
  revoke answer s table = wrapping "login/db: revoke session: " (map_error driver answer) >>= λ _.
      ok (map (end_row (snapshot s)) table)

  -- `scanSessionRow`, with the answer of `Scan`.
  unfoldable pub scan_session_row :
      Result String (Unit {0}) → SessionRow → Result StoreError Session
  scan_session_row answer row = map_error driver answer >>= λ _.
      unmarshal_factors row.mfa_factors_used >>= λ factors.
      wrapping (concat ("parse creation_ip " ∷ row.creation_ip ∷ ": " ∷ []))
        (map_error driver (codec.parse_addr row.creation_ip))
      >>= λ ip. map_error refused (rehydrate_session (scanned row factors ip))

-- `WHERE identity_id = $1 AND client_id = $2 AND status = 'ACTIVE'`
abbrev pub is_active_row : String → String → SessionRow → Bool
is_active_row identity_id client_id row =
    same_text row.identity_id identity_id
    && (same_text row.client_id client_id && same_text row.status "ACTIVE")

-- `CountActive`
unfoldable pub count_active :
    Result String (Unit {0}) → String → String → List SessionRow → Result StoreError ℤ
count_active answer identity_id client_id table =
    wrapping "login/db: count active sessions: " (map_error driver answer) >>= λ _.
    ok (pos (length (filter (is_active_row identity_id client_id) table)))

module _ (codec : Codec) (order : List SessionRow → List SessionRow) where
  -- The loop over the rows; every row is scanned without an error of the driver.
  unfoldable pub scan_rows : List SessionRow → Result StoreError (List Session)
  scan_rows [] = ok []
  scan_rows (row ∷ rows) =
      wrapping "login/db: scan active session: " (scan_session_row codec (ok tt) row) >>= λ s.
      scan_rows rows >>= λ rest. ok (s ∷ rest)

  -- `ListActive`
  unfoldable pub list_active :
      Result String (Unit {0})
      → String
      → String
      → List SessionRow
      → Result StoreError (List Session)
  list_active answer identity_id client_id table =
      wrapping "login/db: list active sessions: " (map_error driver answer) >>= λ _.
      scan_rows (order (filter (is_active_row identity_id client_id) table))

  -- The row of `LIMIT 1`, if there is one.
  unfoldable pub scan_first : List SessionRow → Result StoreError (Option Session)
  scan_first [] = ok none
  scan_first (row ∷ rows) =
      wrapping "login/db: find oldest active session: " (scan_session_row codec (ok tt) row)
      >>= λ s. ok (some s)

  -- `FindOldestActive`
  unfoldable pub find_oldest_active :
      Result String (Unit {0})
      → String
      → String
      → List SessionRow
      → Result StoreError (Option Session)
  find_oldest_active answer identity_id client_id table =
      wrapping "login/db: find oldest active session: " (map_error driver answer) >>= λ _.
      scan_first (order (filter (is_active_row identity_id client_id) table))
