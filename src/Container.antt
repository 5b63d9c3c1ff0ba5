-- ===== src/Container.antt =====
-- container/container.go and internal/platform/services/services.go: what Build opens, in which order,
-- what it hands to the login use case, and what Close releases.
pub mod Release
pub mod Policies
mod Tests
use araquanid.Domain.Password.{argon2id}
use araquanid.Common.{String, List, [], ◌∷◌, ◌++◌, Bool, true, false, if◌then◌else◌, is_empty}
use araquanid.Common.Result.{Result, ok, err, map_error}
use araquanid.Common.Text.{concat}
use araquanid.Domain.Policy.{default_credential_policy}
use araquanid.Login.Ports as Ports
use araquanid.Settings.{Config}

-- The part of the configuration that `Build` gives to the use case.
unfoldable pub login_config : Config → Ports.Config
login_config cfg = record {
  lockout = record {
    threshold = cfg.auth.lockout.threshold;
    window = cfg.auth.lockout.window;
    temporary_durations = cfg.auth.lockout.tier1_duration ∷ cfg.auth.lockout.tier2_duration ∷ [];
  };
  credential_policy = default_credential_policy;
  session_policy = record {
    idle_timeout = cfg.auth.session.idle_timeout_web;
    absolute_lifetime = cfg.auth.session.absolute_web;
  };
  concurrent_policy = cfg.auth.session.concurrent_policy;
  concurrent_max = cfg.auth.session.concurrent_max;
  mfa_session_window = cfg.auth.session.mfa_session_window;
  forced_change_window = cfg.auth.session.forced_change_window;
  access_token_ttl = cfg.auth.token.access_ttl;
  refresh_token_ttl = cfg.auth.token.refresh_ttl_web;
  argon2id = record {
    time_cost = cfg.auth.argon2id.time_cost;
    memory_kb = cfg.auth.argon2id.memory_kb;
    parallelism = cfg.auth.argon2id.parallelism;
  };
  fingerprint_version = cfg.auth.device.fingerprint_version;
  rate_limit = record {
    ip_max_attempts = cfg.auth.rate_limit.ip_max_attempts;
    ip_window = cfg.auth.rate_limit.ip_window;
    identity_max_attempts = cfg.auth.rate_limit.identity_max_attempts;
    identity_window = cfg.auth.rate_limit.identity_window;
  };
}

-- What is opened and has to be released: connections, pools, and the goroutine of the relay, which is
-- stopped by its cancellation.
pub data Resource : Type 0 where
  telemetry postgres redis identity_conn loopback_conn relay kafka_writer : Resource

pub data Step : Type 0 where
  opens closes : Resource → Step

-- Which fields of a Container are set; `clients` stands for both connections.
pub record Parts : Type 0 where
  pub has_telemetry : Bool
  pub has_postgres : Bool
  pub has_redis : Bool
  pub has_clients : Bool
  pub has_kafka : Bool
  pub has_relay : Bool

abbrev pub nothing : Parts
nothing = record {
  has_telemetry = false;
  has_postgres = false;
  has_redis = false;
  has_clients = false;
  has_kafka = false;
  has_relay = false;
}

abbrev pub steps_if : Bool → List Step → List Step
steps_if b steps = if b then steps else []

-- `GrpcServices.Close`
abbrev pub close_clients : List Step
close_clients = closes identity_conn ∷ closes loopback_conn ∷ []

-- `Container.Close`; every part is closed, whatever the closing of another answers.
unfoldable pub close : Parts → List Step
close p =
    steps_if p.has_relay (closes relay ∷ [])
    ++ steps_if p.has_clients close_clients
    ++ steps_if p.has_kafka (closes kafka_writer ∷ [])
    ++ steps_if p.has_redis (closes redis ∷ [])
    ++ steps_if p.has_postgres (closes postgres ∷ [])
    ++ steps_if p.has_telemetry (closes telemetry ∷ [])

-- What the constructors answer. One that fails has opened nothing.
pub record Answers : Type 0 where
  pub new_telemetry : Result String (Unit {0})
  pub new_postgres : Result String (Unit {0})
  pub new_redis : Result String (Unit {0})
  pub new_signer : Result String (Unit {0})
  pub identity_dial : Result String (Unit {0})
  pub loopback_client : Result String (Unit {0})
  pub register_rest : Result String (Unit {0})

abbrev pub Built : Type 0
Built = List Step × Result String Parts

-- The deferred `con.Close`, after an error.
unfoldable pub abandon : String → String → Parts → Built
abandon text e p = (close p, err (concat (text ∷ e ∷ [])))

abbrev pub after_steps : List Step → Built → Built
after_steps steps (later, r) = (steps ++ later, r)

-- `Build` from the registration of the REST gateway on.
unfoldable pub finish : Result String (Unit {0}) → Parts → Built
finish (err e) p = abandon "failed init login REST gateway: " e p
finish (ok _) p = ([], ok p)

-- The relay and the Kafka writer, which cannot fail.
unfoldable pub start_relay : Answers → Parts → Built
start_relay a p =
    after_steps (opens relay ∷ opens kafka_writer ∷ [])
      (finish a.register_rest (record p { has_relay = true; has_kafka = true }))

-- `newGrpcConn`
unfoldable pub new_grpc_conn : String → Result String (Unit {0}) → Result String (Unit {0})
new_grpc_conn addr dial =
    if is_empty addr
    then err "address cannot be empty"
    else map_error (λ e. concat ("failed to create gRPC connection: " ∷ e ∷ [])) dial

-- `InitGrpcConns`, which closes the first connection if the second cannot be made.
unfoldable pub connect_loopback : Answers → Result String (Unit {0}) → Parts → Built
connect_loopback a (err e) p =
    after_steps (opens identity_conn ∷ closes identity_conn ∷ [])
      (abandon "failed init grpc services: failed to initialize loopback connection: " e p)
connect_loopback a (ok _) p =
    after_steps (opens identity_conn ∷ opens loopback_conn ∷ [])
      (start_relay a (record p { has_clients = true }))

unfoldable pub connect_identity : Config → Answers → Result String (Unit {0}) → Parts → Built
connect_identity c a (err e) p =
    abandon "failed init grpc services: failed to initialize Identity service connection: " e p
connect_identity c a (ok _) p = connect_loopback a a.loopback_client p

unfoldable pub load_signer : Config → Answers → Result String (Unit {0}) → Parts → Built
load_signer c a (err e) p = abandon "failed init jwt signer: " e p
load_signer c a (ok _) p =
    connect_identity c a (new_grpc_conn c.services.identity.addr a.identity_dial) p

unfoldable pub open_redis : Config → Answers → Result String (Unit {0}) → Parts → Built
open_redis c a (err e) p = abandon "failed init redis: " e p
open_redis c a (ok _) p =
    after_steps (opens redis ∷ []) (load_signer c a a.new_signer (record p { has_redis = true }))

unfoldable pub open_postgres : Config → Answers → Result String (Unit {0}) → Parts → Built
open_postgres c a (err e) p = abandon "failed init postgres: " e p
open_postgres c a (ok _) p =
    after_steps (opens postgres ∷ [])
      (open_redis c a a.new_redis (record p { has_postgres = true }))

unfoldable pub open_telemetry : Config → Answers → Result String (Unit {0}) → Parts → Built
open_telemetry c a (err e) p = abandon "failed init telemetry: " e p
open_telemetry c a (ok _) p =
    after_steps (opens telemetry ∷ [])
      (open_postgres c a a.new_postgres (record p { has_telemetry = true }))

-- `Build`
unfoldable pub build : Config → Answers → Built
build c a = open_telemetry c a a.new_telemetry nothing

-- `Ready`, with the answers of the two pings.
unfoldable pub ready :
    Result String (Unit {0}) → Result String (Unit {0}) → Result String (Unit {0})
ready (err e) redis_ping = err (concat ("postgres: " ∷ e ∷ []))
ready (ok _) (err e) = err (concat ("redis: " ∷ e ∷ []))
ready (ok _) (ok _) = ok tt
