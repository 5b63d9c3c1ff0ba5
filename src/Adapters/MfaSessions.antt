-- ===== src/Adapters/MfaSessions.antt =====
-- internal/features/login/repository/redis/mfa_session.go: a login that waits for its second factor.
use araquanid.Common.{String, List, [], ◌∷◌, map}
use araquanid.Common.Int.{ℤ}
use araquanid.Common.Result.{Result, ◌>>=◌, map_error}
use araquanid.Common.Text.{concat}
use araquanid.Common.Time.{Duration, Time}
use araquanid.Login.Ports.{MfaSessionState}
use araquanid.Store.Texts.{factor_text}

-- `state`
pub record StoredState : Type 0 where
  pub identity_id : String
  pub credential_verified_at : String
  pub available_factor_ids : List String
  pub failed_mfa_attempts : ℤ
  pub client_id : String
  pub device_fingerprint : String

-- The parts outside: the time format RFC 3339, the JSON encoder, and SET with an expiry.
pub record StateLibrary : Type 0 where
  pub rfc3339 : Time → String
  pub marshal : StoredState → Result String String
  pub set : String → String → Duration → Result String (Unit {0})

abbrev pub key_prefix : String
key_prefix = "mfa_session:"

unfoldable pub stored_state : StateLibrary → MfaSessionState → StoredState
stored_state lib s = record {
  identity_id = s.identity_id;
  credential_verified_at = lib.rfc3339 s.credential_verified_at;
  available_factor_ids = map factor_text s.available_factors;
  failed_mfa_attempts = s.failed_mfa_attempts;
  client_id = s.client_id;
  device_fingerprint = s.device_fingerprint;
}

-- `Create`
unfoldable pub create :
    StateLibrary → String → MfaSessionState → Duration → Result String (Unit {0})
create lib token s ttl =
    map_error (λ e. concat ("login/redis: marshal mfa session state: " ∷ e ∷ []))
      (lib.marshal (stored_state lib s))
    >>= λ payload.
        map_error (λ e. concat ("login/redis: create mfa session: " ∷ e ∷ []))
          (lib.set (concat (key_prefix ∷ token ∷ [])) payload ttl)
