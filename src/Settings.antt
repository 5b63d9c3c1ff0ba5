-- ===== src/Settings.antt =====
-- config/config.go: the settings, their loading and the check of what is required. An environment
-- variable overrides a key of the file; the merging is done by a library.
use araquanid.Common.{
  String, List, [], ◌∷◌, Bool, not, ◌||◌, is_empty, ltb, leb, length, ℕ, if◌then◌else◌,
}
use araquanid.Common.Int.{ℤ, pos, ltb_ℤ}
use araquanid.Common.Result.{Result, ok, err, ◌>>=◌, ◌>>◌, map_error}
use araquanid.Common.Text.{concat, join, same_text}
use araquanid.Common.Time.{Duration}

-- The settings by their keys. `sample_ratio` is a float64, given by its text, which nothing here reads.
pub record AppConfig : Type 0 where
  pub name : String
  pub env : String
  pub version : String

pub record OpsServerConfig : Type 0 where
  pub metrics_port : ℤ
  pub shutdown_timeout : Duration

pub record PostgresConfig : Type 0 where
  pub host : String
  pub port : ℤ
  pub user : String
  pub password : String
  pub database : String
  pub ssl_mode : String
  pub max_conns : ℤ
  pub min_conns : ℤ
  pub max_conn_lifetime : Duration

pub record RedisConfig : Type 0 where
  pub addr : String
  pub password : String
  pub db : ℤ
  pub default_ttl : Duration

pub record LogConfig : Type 0 where
  pub level : String
  pub format : String

pub record TelemetryConfig : Type 0 where
  pub enabled : Bool
  pub otlp_endpoint : String
  pub sample_ratio : String

pub record IdentityConfig : Type 0 where
  pub addr : String

pub record KafkaConfig : Type 0 where
  pub brokers : List String
  pub outbox_topic : String
  pub publish_interval : Duration
  pub batch_size : ℤ

pub record SessionConfig : Type 0 where
  pub idle_timeout_web : Duration
  pub idle_timeout_mobile : Duration
  pub absolute_web : Duration
  pub absolute_mobile : Duration
  pub concurrent_policy : String
  pub concurrent_max : ℤ
  pub mfa_session_window : Duration
  pub forced_change_window : Duration

pub record TokenConfig : Type 0 where
  pub access_ttl : Duration
  pub refresh_ttl_web : Duration
  pub refresh_ttl_mobile : Duration
  pub issuer : String
  pub rotation_grace_window : Duration
  pub private_key_pem : String
  pub private_key_path : String
  pub kid : String

pub record LockoutConfig : Type 0 where
  pub threshold : ℤ
  pub window : Duration
  pub tier1_duration : Duration
  pub tier2_duration : Duration

pub record Argon2idConfig : Type 0 where
  pub time_cost : ℕ
  pub memory_kb : ℕ
  pub parallelism : ℕ

pub record LimitConfig : Type 0 where
  pub ip_max_attempts : ℤ
  pub ip_window : Duration
  pub identity_max_attempts : ℤ
  pub identity_window : Duration

pub record MfaConfig : Type 0 where
  pub otp_ttl : Duration
  pub otp_max_attempts : ℤ
  pub otp_resend_rate_limit : ℤ
  pub otp_resend_window : Duration
  pub totp_window : ℤ
  pub enrollment_window : Duration
  pub recovery_code_count : ℤ
  pub recovery_code_low_threshold : ℤ

pub record DeviceConfig : Type 0 where
  pub trust_duration : Duration
  pub fingerprint_version : ℤ

pub record Fido2Config : Type 0 where
  pub rp_id : String
  pub rp_name : String
  pub rp_origin : String
  pub user_verification : String
  pub attestation : String
  pub challenge_ttl : Duration

pub record ServicesConfig : Type 0 where
  pub identity : IdentityConfig

pub record AuthConfig : Type 0 where
  pub session : SessionConfig
  pub token : TokenConfig
  pub rate_limit : LimitConfig
  pub lockout : LockoutConfig
  pub argon2id : Argon2idConfig
  pub mfa : MfaConfig
  pub device : DeviceConfig
  pub fido2 : Fido2Config

pub record Config : Type 0 where
  pub app : AppConfig
  pub ops_server : OpsServerConfig
  pub postgres : PostgresConfig
  pub redis : RedisConfig
  pub log : LogConfig
  pub telemetry : TelemetryConfig
  pub services : ServicesConfig
  pub auth : AuthConfig
  pub kafka : KafkaConfig

-- `IsProduction`
unfoldable pub is_production : AppConfig → Bool
is_production a = same_text a.env "production"

-- `DSN`, with the decimal notation of an `int`.
unfoldable pub dsn : (ℤ → String) → PostgresConfig → String
dsn itoa p = concat (
    "postgres://"
    ∷ p.user
    ∷ ":"
    ∷ p.password
    ∷ "@"
    ∷ p.host
    ∷ ":"
    ∷ itoa p.port
    ∷ "/"
    ∷ p.database
    ∷ "?sslmode="
    ∷ p.ssl_mode
    ∷ [])

-- The required keys, in the order of the calls of `req`, and whether each is set.
abbrev pub requirements : Config → List (String × Bool)
requirements c =
    ("app.name", not (is_empty c.app.name))
    ∷ ("app.env", not (is_empty c.app.env))
    ∷ ("ops_server.metrics_port", ltb_ℤ (pos 0) c.ops_server.metrics_port)
    ∷ ("ops_server.shutdown_timeout", ltb_ℤ (pos 0) c.ops_server.shutdown_timeout)
    ∷ ("postgres.host", not (is_empty c.postgres.host))
    ∷ ("postgres.port", ltb_ℤ (pos 0) c.postgres.port)
    ∷ ("postgres.user", not (is_empty c.postgres.user))
    ∷ ("postgres.database", not (is_empty c.postgres.database))
    ∷ ("postgres.ssl_mode", not (is_empty c.postgres.ssl_mode))
    ∷ ("postgres.max_conns", ltb_ℤ (pos 0) c.postgres.max_conns)
    ∷ ("postgres.max_conn_lifetime", ltb_ℤ (pos 0) c.postgres.max_conn_lifetime)
    ∷ ("redis.addr", not (is_empty c.redis.addr))
    ∷ ("redis.default_ttl", ltb_ℤ (pos 0) c.redis.default_ttl)
    ∷ ("log.level", not (is_empty c.log.level))
    ∷ ("log.format", not (is_empty c.log.format))
    ∷ (
      "telemetry.otlp_endpoint",
      (not c.telemetry.enabled) || (not (is_empty c.telemetry.otlp_endpoint)),
    )
    ∷ ("auth.lockout.threshold", ltb_ℤ (pos 0) c.auth.lockout.threshold)
    ∷ ("auth.lockout.window", ltb_ℤ (pos 0) c.auth.lockout.window)
    ∷ ("auth.lockout.tier1_duration", ltb_ℤ (pos 0) c.auth.lockout.tier1_duration)
    ∷ ("auth.lockout.tier2_duration", ltb_ℤ (pos 0) c.auth.lockout.tier2_duration)
    ∷ ("auth.argon2id.time_cost", ltb 0 c.auth.argon2id.time_cost)
    ∷ ("auth.argon2id.memory_kb", ltb 0 c.auth.argon2id.memory_kb)
    ∷ ("auth.argon2id.parallelism", ltb 0 c.auth.argon2id.parallelism)
    ∷ ("auth.session.idle_timeout_web", ltb_ℤ (pos 0) c.auth.session.idle_timeout_web)
    ∷ ("auth.session.idle_timeout_mobile", ltb_ℤ (pos 0) c.auth.session.idle_timeout_mobile)
    ∷ ("auth.session.absolute_web", ltb_ℤ (pos 0) c.auth.session.absolute_web)
    ∷ ("auth.session.absolute_mobile", ltb_ℤ (pos 0) c.auth.session.absolute_mobile)
    ∷ ("auth.session.concurrent_policy", not (is_empty c.auth.session.concurrent_policy))
    ∷ ("auth.session.concurrent_max", ltb_ℤ (pos 0) c.auth.session.concurrent_max)
    ∷ ("auth.session.mfa_session_window", ltb_ℤ (pos 0) c.auth.session.mfa_session_window)
    ∷ ("auth.session.forced_change_window", ltb_ℤ (pos 0) c.auth.session.forced_change_window)
    ∷ ("auth.token.access_ttl", ltb_ℤ (pos 0) c.auth.token.access_ttl)
    ∷ ("auth.token.refresh_ttl_web", ltb_ℤ (pos 0) c.auth.token.refresh_ttl_web)
    ∷ ("auth.token.refresh_ttl_mobile", ltb_ℤ (pos 0) c.auth.token.refresh_ttl_mobile)
    ∷ ("auth.token.issuer", not (is_empty c.auth.token.issuer))
    ∷ ("auth.token.kid", not (is_empty c.auth.token.kid))
    ∷ (
      "auth.token.private_key_pem or auth.token.private_key_path",
      (not (is_empty c.auth.token.private_key_pem))
          || (not (is_empty c.auth.token.private_key_path)),
    )
    ∷ ("auth.rate_limit.ip_max_attempts", ltb_ℤ (pos 0) c.auth.rate_limit.ip_max_attempts)
    ∷ ("auth.rate_limit.ip_window", ltb_ℤ (pos 0) c.auth.rate_limit.ip_window)
    ∷ (
      "auth.rate_limit.identity_max_attempts",
      ltb_ℤ (pos 0) c.auth.rate_limit.identity_max_attempts,
    )
    ∷ ("auth.rate_limit.identity_window", ltb_ℤ (pos 0) c.auth.rate_limit.identity_window)
    ∷ ("auth.mfa.otp_ttl", ltb_ℤ (pos 0) c.auth.mfa.otp_ttl)
    ∷ ("auth.mfa.otp_max_attempts", ltb_ℤ (pos 0) c.auth.mfa.otp_max_attempts)
    ∷ ("auth.mfa.otp_resend_rate_limit", ltb_ℤ (pos 0) c.auth.mfa.otp_resend_rate_limit)
    ∷ ("auth.mfa.otp_resend_window", ltb_ℤ (pos 0) c.auth.mfa.otp_resend_window)
    ∷ ("auth.mfa.enrollment_window", ltb_ℤ (pos 0) c.auth.mfa.enrollment_window)
    ∷ ("auth.mfa.recovery_code_count", ltb_ℤ (pos 0) c.auth.mfa.recovery_code_count)
    ∷ ("auth.device.trust_duration", ltb_ℤ (pos 0) c.auth.device.trust_duration)
    ∷ ("auth.device.fingerprint_version", ltb_ℤ (pos 0) c.auth.device.fingerprint_version)
    ∷ ("auth.fido2.rp_id", not (is_empty c.auth.fido2.rp_id))
    ∷ ("auth.fido2.rp_name", not (is_empty c.auth.fido2.rp_name))
    ∷ ("auth.fido2.rp_origin", not (is_empty c.auth.fido2.rp_origin))
    ∷ ("auth.fido2.user_verification", not (is_empty c.auth.fido2.user_verification))
    ∷ ("auth.fido2.attestation", not (is_empty c.auth.fido2.attestation))
    ∷ ("auth.fido2.challenge_ttl", ltb_ℤ (pos 0) c.auth.fido2.challenge_ttl)
    ∷ ("kafka.brokers", leb 1 (length c.kafka.brokers))
    ∷ ("kafka.outbox_topic", not (is_empty c.kafka.outbox_topic))
    ∷ ("kafka.publish_interval", ltb_ℤ (pos 0) c.kafka.publish_interval)
    ∷ ("kafka.batch_size", ltb_ℤ (pos 0) c.kafka.batch_size)
    ∷ []

-- The keys that `req` appends to `missing`.
abbrev pub missing : List (String × Bool) → List String
missing [] = []
missing ((key, set) ∷ rs) = let rest = missing rs in if set then rest else key ∷ rest

abbrev pub env_prefix : String
env_prefix = "ARAQUANID_"

-- `if len(missing) > 0`
abbrev pub report : List String → Result String (Unit {0})
report [] = ok tt
report (key ∷ keys) = err (
    concat (
      "config: required keys are unset or zero (set them in the yaml file or via "
      ∷ env_prefix
      ∷ " env vars): "
      ∷ join (key ∷ keys) ", "
      ∷ []))

-- `validate`
unfoldable pub validate : Config → Result String (Unit {0})
validate c = report (missing (requirements c))

-- The key of an environment variable, by functions of `strings`.
pub record KeyFunctions : Type 0 where
  pub trim_prefix : String → String → String
  pub to_lower : String → String
  pub replace_all : String → String → String → String

unfoldable pub env_key : KeyFunctions → String → String
env_key f s = f.replace_all (f.to_lower (f.trim_prefix s env_prefix)) "__" "."

-- What the configuration library answers: the file, the environment under the keys of its variables,
-- and the settings of both.
pub record Sources : Type 0 where
  pub load_file : String → Result String (Unit {0})
  pub keys : KeyFunctions
  pub load_env : (String → String) → Result String (Unit {0})
  pub unmarshal : Result String Config

-- `Load`
unfoldable pub load : Sources → String → Result String Config
load sources path =
    map_error (λ e. concat ("config: load " ∷ path ∷ ": " ∷ e ∷ [])) (sources.load_file path)
    >> map_error (λ e. concat ("config: load env: " ∷ e ∷ []))
        (sources.load_env (env_key sources.keys))
    >> map_error (λ e. concat ("config: unmarshal: " ∷ e ∷ [])) sources.unmarshal
    >>= λ cfg. validate cfg >>= λ _. ok cfg
