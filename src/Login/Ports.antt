-- ===== src/Login/Ports.antt =====
-- The ports of the login feature, as internal/features/login/repository/repository.go declares them,
-- and the types of internal/features/login/usecase. A port's answers during one request are functions
-- of the arguments: a request asks none twice the same, but for identifiers, which are numbered.
use araquanid.Domain.Event.{DomainEvent}
use araquanid.Domain.Credential.{Credential}
use araquanid.AppError.{Cause}
use araquanid.Domain.Session.{SessionPolicy, Session}
use araquanid.Domain.Kinds.{IpAddr, FactorType}
use araquanid.Common.Result.{Result}
use araquanid.Common.Time.{Time, Duration}
use araquanid.Domain.Policy.{LockoutPolicy, CredentialPolicy}
use araquanid.Common.Int.{ℤ}
use araquanid.Common.{String, Option, ℕ, List, Bool}

pub record ResolvedIdentity : Type 0 where
  pub identity_id : String
  pub status : String
  pub corporate_id : String

pub record RegisteredDevice : Type 0 where
  pub id : String
  pub trust_status : String
  pub last_seen_at : Time

pub record LoginAttemptRecord : Type 0 where
  pub identity_id : Option String
  pub identifier_hash : String
  pub outcome : String
  pub failure_reason : String
  pub ip_address : String
  pub user_agent : String
  pub device_fingerprint : String
  pub session_id : Option String
  pub mfa_factor_type : String
  pub attempted_at : Time

pub record MfaSessionState : Type 0 where
  pub identity_id : String
  pub credential_verified_at : Time
  pub available_factors : List FactorType
  pub failed_mfa_attempts : ℤ
  pub client_id : String
  pub device_fingerprint : String

pub record RefreshTokenRecord : Type 0 where
  pub family_id : String
  pub token_hash : String
  pub client_id : String
  pub issuer_ip : String
  pub issued_at : Time
  pub expires_at : Time

-- `jwtsign.AccessTokenClaims`
pub record AccessTokenClaims : Type 0 where
  pub subject : String
  pub audience : List String
  pub session_id : String
  pub aal : String
  pub device_id : String
  pub corporate_id : String
  pub scope : String

pub record Argon2idParams : Type 0 where
  pub time_cost : ℕ
  pub memory_kb : ℕ
  pub parallelism : ℕ

pub record RateLimitConfig : Type 0 where
  pub ip_max_attempts : ℤ
  pub ip_window : Duration
  pub identity_max_attempts : ℤ
  pub identity_window : Duration

pub record Config : Type 0 where
  pub lockout : LockoutPolicy
  pub credential_policy : CredentialPolicy
  pub session_policy : SessionPolicy
  pub concurrent_policy : String
  pub concurrent_max : ℤ
  pub mfa_session_window : Duration
  pub forced_change_window : Duration
  pub access_token_ttl : Duration
  pub refresh_token_ttl : Duration
  pub argon2id : Argon2idParams
  pub fingerprint_version : ℤ
  pub rate_limit : RateLimitConfig

-- The functions of Go's standard library and of `golang.org/x/crypto` that the code calls. Texts are
-- strings of bytes, which are measured and cut by `len` and `prefix`.
pub record StandardLibrary : Type 0 where
  pub len : String → ℕ
  pub prefix : String → ℕ → String
  pub to_lower : String → String
  pub to_upper : String → String
  pub trim_space : String → String
  pub contains : String → String → Bool
  pub itoa : ℤ → String
  pub sha256_hex : String → String
  pub addr_string : IpAddr → String
  pub rfc3339 : Time → String
  pub decode_base64 : String → Option String
  pub argon2_key : String → String → Argon2idParams → ℕ → String
  pub same_bytes : String → String → Bool
  pub bcrypt_compare : String → String → Bool

-- `Dependencies`, with the ports that a transaction offers (`TxRepositories`), and with the begin and
-- the commit of a transaction. A port error is given by its text.
pub record Dependencies : Type 0 where
  pub resolve_identity : String → String → Result String (Option ResolvedIdentity)
  pub find_credential : String → Result Cause Credential
  pub find_device : String → String → Result String (Option RegisteredDevice)
  pub list_active_factor_types : String → Result String (List FactorType)
  pub has_active_factor : String → Result String Bool
  pub record_attempt : LoginAttemptRecord → Result String (Unit {0})
  pub create_mfa_session : String → MfaSessionState → Duration → Result String (Unit {0})
  pub allow : String → ℤ → Duration → Result String (Bool × Duration)
  pub sign_access_token : AccessTokenClaims → Duration → Result String String
  pub sign_restricted_token : String → String → Duration → Result String String
  pub random_token : Result String String
  pub clock : Time
  pub new_id : ℕ → String
  pub begin : Result String (Unit {0})
  pub commit : Result String (Unit {0})
  pub save_credential : Credential → Result String (Unit {0})
  pub append_events : List DomainEvent → Result String (Unit {0})
  pub record_attempt_tx : LoginAttemptRecord → Result String (Unit {0})
  pub create_session : Session → String → Result String (Unit {0})
  pub revoke_session : Session → Result String (Unit {0})
  pub count_active : String → String → Result String ℤ
  pub find_oldest_active : String → String → Result String (Option Session)
  pub list_active : String → String → Result String (List Session)
  pub create_family : String → String → String → Result String (Unit {0})
  pub create_token : RefreshTokenRecord → Result String (Unit {0})
  pub register_device : String → String → ℤ → String → String → Time → Result String String
  pub touch_device : String → Time → Result String (Unit {0})
  pub lib : StandardLibrary
  pub config : Config

pub record DeviceFingerprintInput : Type 0 where
  pub screen_resolution : String
  pub timezone : String
  pub platform : String
  pub color_depth : ℤ
  pub language : String

pub record LoginInput : Type 0 where
  pub identifier : String
  pub password : String
  pub client_id : String
  pub company_code : String
  pub device_fingerprint : DeviceFingerprintInput
  pub ip : IpAddr
  pub user_agent : String
  pub accept_language : String

pub record LoginResult : Type 0 where
  pub authentication_result : String
  pub access_token : String
  pub token_type : String
  pub expires_in : ℤ
  pub refresh_token : String
  pub session_id : String
  pub aal : String
  pub force_password_change : Bool
  pub mfa_session_token : String
  pub available_factors : List FactorType
  pub forced_change_session_token : String
