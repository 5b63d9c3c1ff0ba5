-- ===== src/Store/RefreshTokens.antt =====
-- internal/features/login/repository/db/refresh_token.go: the rows of refresh_token_families and
-- refresh_tokens.
use araquanid.Common.{String, List, ◌∷◌}
use araquanid.Common.Result.{Result, ok, ◌>>=◌, map_error}
use araquanid.Common.Time.{Time}
use araquanid.Login.Ports.{RefreshTokenRecord}
use araquanid.Store.{StoreError, driver, wrapping}

pub record FamilyRow : Type 0 where
  pub id : String
  pub session_id : String
  pub identity_id : String
  pub status : String

pub record TokenRow : Type 0 where
  pub id : String
  pub family_id : String
  pub token_hash : String
  pub status : String
  pub client_id : String
  pub issued_at : Time
  pub expires_at : Time
  pub issuer_ip : String

-- `CreateFamily`
unfoldable pub create_family :
    Result String (Unit {0})
    → String
    → String
    → String
    → List FamilyRow
    → Result StoreError (List FamilyRow)
create_family answer family_id session_id identity_id table =
    wrapping "login/db: create refresh token family: " (map_error driver answer) >>= λ _. ok (
      record {
        id = family_id;
        session_id = session_id;
        identity_id = identity_id;
        status = "ACTIVE";
      }
      ∷ table)

-- `CreateToken`, with the identifier that Postgres draws.
unfoldable pub create_token :
    Result String (Unit {0})
    → String
    → RefreshTokenRecord
    → List TokenRow
    → Result StoreError (List TokenRow)
create_token answer id r table =
    wrapping "login/db: create refresh token: " (map_error driver answer) >>= λ _. ok (
      record {
        id = id;
        family_id = r.family_id;
        token_hash = r.token_hash;
        status = "ACTIVE";
        client_id = r.client_id;
        issued_at = r.issued_at;
        expires_at = r.expires_at;
        issuer_ip = r.issuer_ip;
      }
      ∷ table)
