-- ===== src/Store/Devices.antt =====
-- internal/features/login/repository/db/device.go: the rows of registered_devices.
pub mod Recognition
use araquanid.Common.{
  String, Option, none, some, List, [], ◌∷◌, ◌&&◌, not, map, filter, contains, if◌then◌else◌, Bool,
  true, false,
}
use araquanid.Common.Int.{ℤ}
use araquanid.Common.Result.{Result, ok, ◌>>=◌, map_error}
use araquanid.Common.Text.{same_text}
use araquanid.Common.Time.{Time}
use araquanid.Login.Ports.{RegisteredDevice}
use araquanid.Store.{StoreError, driver, wrapping}

pub record DeviceRow : Type 0 where
  pub id : String
  pub identity_id : String
  pub fingerprint_hash : String
  pub fingerprint_version : ℤ
  pub display_name : String
  pub trust_status : String
  pub registration_ip : String
  pub last_seen_at : Time
  pub created_at : Time

abbrev pub has_key : String → String → DeviceRow → Bool
has_key identity_id fingerprint row =
    same_text row.identity_id identity_id && same_text row.fingerprint_hash fingerprint

-- `WHERE identity_id = $1 AND fingerprint_hash = $2 AND trust_status != 'REVOKED'`
abbrev pub is_recognised : String → String → DeviceRow → Bool
is_recognised identity_id fingerprint row =
    has_key identity_id fingerprint row && not (same_text row.trust_status "REVOKED")

abbrev pub first_device : List DeviceRow → Option RegisteredDevice
first_device [] = none
first_device (row ∷ rows) =
    some (record { id = row.id; trust_status = row.trust_status; last_seen_at = row.last_seen_at })

-- `FindByFingerprint`
unfoldable pub find_by_fingerprint :
    Result String (Unit {0})
    → String
    → String
    → List DeviceRow
    → Result StoreError (Option RegisteredDevice)
find_by_fingerprint answer identity_id fingerprint table =
    wrapping "login/db: find device: " (map_error driver answer) >>= λ _.
    ok (first_device (filter (is_recognised identity_id fingerprint) table))

-- What `Register` is told: the arguments, and the identifier that Postgres draws.
pub record Registration : Type 0 where
  pub id : String
  pub identity_id : String
  pub fingerprint_hash : String
  pub fingerprint_version : ℤ
  pub display_name : String
  pub registration_ip : String
  pub now : Time

unfoldable pub registered_row : Registration → DeviceRow
registered_row r = record {
  id = r.id;
  identity_id = r.identity_id;
  fingerprint_hash = r.fingerprint_hash;
  fingerprint_version = r.fingerprint_version;
  display_name = r.display_name;
  trust_status = "REGISTERED";
  registration_ip = r.registration_ip;
  last_seen_at = r.now;
  created_at = r.now;
}

-- `ON CONFLICT (identity_id, fingerprint_hash) DO NOTHING`, which returns no row.
abbrev pub insert_device : Bool → Registration → List DeviceRow → String × List DeviceRow
insert_device true r table = ("", table)
insert_device false r table = (r.id, registered_row r ∷ table)

-- `Register`
unfoldable pub register :
    Result String (Unit {0})
    → Registration
    → List DeviceRow
    → Result StoreError (String × List DeviceRow)
register answer r table = wrapping "login/db: register device: " (map_error driver answer) >>= λ _.
    ok (insert_device (contains (has_key r.identity_id r.fingerprint_hash) table) r table)

abbrev pub seen : String → Time → DeviceRow → DeviceRow
seen id at row = if same_text row.id id then record row { last_seen_at = at } else row

-- `Touch`
unfoldable pub touch :
    Result String (Unit {0}) → String → Time → List DeviceRow → Result StoreError (List DeviceRow)
touch answer id at table = wrapping "login/db: touch device: " (map_error driver answer) >>= λ _.
    ok (map (seen id at) table)
