-- ===== src/Container/Tests.antt =====
-- Build and the configuration of container/container.go and config/config.go on concrete settings.
use araquanid.Common.{[], ◌∷◌, ◌≡◌, refl, false}
use araquanid.Common.Int.{pos}
use araquanid.Common.Time.{minutes}
use araquanid.Common.Result.{ok, err}
use araquanid.Settings.{Config, validate}
use araquanid.Container.{
  Answers, build, postgres, open_telemetry, open_postgres, open_redis, load_signer,
  connect_identity, new_grpc_conn, connect_loopback, abandon,
}
use araquanid.Container.Release.{IsAccounted, build-IsAccounted}
use araquanid.Container.Policies.{validate-build, IsError}

abbrev settings : Config
settings = record {
  app = record { name = "x"; env = "x"; version = "x" };
  ops_server = record { metrics_port = pos 1; shutdown_timeout = minutes 1 };
  postgres = record {
    host = "x";
    port = pos 1;
    user = "x";
    password = "x";
    database = "x";
    ssl_mode = "x";
    max_conns = pos 1;
    min_conns = pos 1;
    max_conn_lifetime = minutes 1;
  };
  redis = record { addr = "x"; password = "x"; db = pos 1; default_ttl = minutes 1 };
  log = record { level = "x"; format = "x" };
  telemetry = record { enabled = false; otlp_endpoint = "x"; sample_ratio = "x" };
  services = record { identity = record { addr = "x" } };
  auth = record {
    session = record {
      idle_timeout_web = minutes 1;
      idle_timeout_mobile = minutes 1;
      absolute_web = minutes 1;
      absolute_mobile = minutes 1;
      concurrent_policy = "x";
      concurrent_max = pos 1;
      mfa_session_window = minutes 1;
      forced_change_window = minutes 1;
    };
    token = record {
      access_ttl = minutes 1;
      refresh_ttl_web = minutes 1;
      refresh_ttl_mobile = minutes 1;
      issuer = "x";
      rotation_grace_window = minutes 1;
      private_key_pem = "x";
      private_key_path = "x";
      kid = "x";
    };
    rate_limit = record {
      ip_max_attempts = pos 1;
      ip_window = minutes 1;
      identity_max_attempts = pos 1;
      identity_window = minutes 1;
    };
    lockout = record {
      threshold = pos 1;
      window = minutes 1;
      tier1_duration = minutes 1;
      tier2_duration = minutes 1;
    };
    argon2id = record { time_cost = 1; memory_kb = 1; parallelism = 1 };
    mfa = record {
      otp_ttl = minutes 1;
      otp_max_attempts = pos 1;
      otp_resend_rate_limit = pos 1;
      otp_resend_window = minutes 1;
      totp_window = pos 1;
      enrollment_window = minutes 1;
      recovery_code_count = pos 1;
      recovery_code_low_threshold = pos 1;
    };
    device = record { trust_duration = minutes 1; fingerprint_version = pos 1 };
    fido2 = record {
      rp_id = "x";
      rp_name = "x";
      rp_origin = "x";
      user_verification = "x";
      attestation = "x";
      challenge_ttl = minutes 1;
    };
  };
  kafka = record {
    brokers = "kafka:9092" ∷ [];
    outbox_topic = "x";
    publish_interval = minutes 1;
    batch_size = pos 1;
  };
}

abbrev answers : Answers
answers = record {
  new_telemetry = ok tt;
  new_postgres = ok tt;
  new_redis = ok tt;
  new_signer = ok tt;
  identity_dial = ok tt;
  loopback_client = err "refused";
  register_rest = ok tt;
}

build_fails :
    (build settings answers).1
    ≡ err "failed init grpc services: failed to initialize loopback connection: refused"
unfolding build open_telemetry open_postgres open_redis load_signer connect_identity new_grpc_conn
    connect_loopback abandon
build_fails = refl

build-IsAccounted_example : IsAccounted (build settings answers) postgres
build-IsAccounted_example = build-IsAccounted settings answers postgres

abbrev without_identity : Config
without_identity = record settings { services = record { identity = record { addr = "" } } }

validate-build_example :
    (validate without_identity
      ≡ validate (record without_identity { services = settings.services }))
    × IsError (build without_identity answers).1
validate-build_example = validate-build without_identity answers refl settings.services
