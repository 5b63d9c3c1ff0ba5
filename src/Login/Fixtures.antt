-- ===== src/Login/Fixtures.antt =====
-- Ports with fixed answers, for runs of the use case of internal/features/login.
use araquanid.Domain.Session.Creation.{new_session}
use araquanid.Login.Transaction.{execute}
use araquanid.Login.Outcomes.{
  complete_session, session_writes, session_rows, write_device, session_params,
}
use araquanid.Domain.Policy.{default_lockout_policy, default_credential_policy}
use araquanid.Common.Text.{same_text}
use araquanid.Login.Fingerprint.{verify_password}
use araquanid.Login.Sessions.{apply_concurrent_session_policy}
use araquanid.Login.Indistinct.{IsStored, HasWrongPassword}
use araquanid.Login.Handler.{
  login, after_limit, authenticate, with_identity, with_credential, check_password,
  after_verification, decide,
}
use araquanid.Domain.Session.{revoke, Session, default_session_policy}
use araquanid.Domain.Credential.{
  Credential, ensure_verifiable, record_successful_verification, is_password_expired,
}
use araquanid.Login.Ports.{StandardLibrary, LoginResult, Config, LoginInput, Dependencies}
use araquanid.Common.Time.{Time, minutes, seconds, hours}
use araquanid.Common.{
  if◌then◌else◌, ◌==◌, ◌+◌, ◌≡◌, ◌*◌, ◌∷◌, refl, none, some, [], ℕ, String, false, Bool, true,
}
use araquanid.Common.Int.{pos}
use araquanid.Domain.Password.{argon2id}
use araquanid.Login.Steps.{in_transaction}
use araquanid.Common.Result.{ok}
use araquanid.Domain.Kinds.{active, ip4, unlocked, aal1, no_reason}

abbrev pub noon : Time
noon = 10_000_000_000_000_000_000_000_000_000

abbrev pub minute : ℕ
minute = 60_000_000_000

abbrev pub lib : StandardLibrary
lib = record {
  len = λ s. 5;
  prefix = λ s n. s;
  to_lower = λ s. s;
  to_upper = λ s. s;
  trim_space = λ s. s;
  contains = λ s t. false;
  itoa = λ n. "30";
  sha256_hex = λ s. "abcd";
  addr_string = λ ip. "10.0.0.1";
  rfc3339 = λ t. "2026-01-01T00:00:00Z";
  decode_base64 = λ s. some s;
  argon2_key = λ plaintext salt params n. plaintext;
  same_bytes = λ a b. same_text a b;
  bcrypt_compare = λ a b. same_text a b;
}

abbrev pub policy : String → Config
policy concurrent = record {
  lockout = default_lockout_policy;
  credential_policy = default_credential_policy;
  session_policy = default_session_policy;
  concurrent_policy = concurrent;
  concurrent_max = pos 1;
  mfa_session_window = minutes 5;
  forced_change_window = minutes 10;
  access_token_ttl = minutes 15;
  refresh_token_ttl = hours 8;
  argon2id = record { time_cost = 3; memory_kb = 65_536; parallelism = 4 };
  fingerprint_version = pos 1;
  rate_limit = record {
    ip_max_attempts = pos 20;
    ip_window = minutes 1;
    identity_max_attempts = pos 5;
    identity_window = minutes 15;
  };
}

abbrev pub credential : Credential
credential = record {
  id = "c-1";
  identity = "u-1";
  password = record { hash = "tiger"; salt = "salt"; algorithm = argon2id; version = pos 1 };
  password_created_at = noon;
  password_expires_at = none;
  force_password_change = false;
  failed_attempt_count = pos 2;
  last_failed_at = some noon;
  lockout_status = unlocked;
  locked_at = none;
  locked_until = none;
  lockout_history_count = pos 0;
  history = [];
  events = [];
}

abbrev pub old_session : Session
old_session = record {
  id = "s-0";
  identity = "u-1";
  device = "";
  aal = aal1;
  factors_used = [];
  status = active;
  created_at = noon;
  last_activity_at = noon;
  idle_timeout = minutes 15;
  absolute_expires_at = noon + 480 * minute;
  revoked_at = none;
  revoke_reason = no_reason;
  client = record { ip = ip4 10 0 0 1; user_agent = "curl/8.0" };
  events = [];
}

-- The ports, by the concurrent-session policy and by whether the limiter lets a request pass.
abbrev pub ports : String → Bool → Dependencies
ports concurrent allowed = record {
  resolve_identity = λ identifier company.
      ok (some (record { identity_id = "u-1"; status = "ACTIVE"; corporate_id = "ACME" }));
  find_credential = λ identity. ok credential;
  find_device = λ identity fingerprint.
      ok (some (record { id = "d-1"; trust_status = "TRUSTED"; last_seen_at = noon }));
  list_active_factor_types = λ identity. ok [];
  has_active_factor = λ identity. ok false;
  record_attempt = λ row. ok tt;
  create_mfa_session = λ token state ttl. ok tt;
  allow = λ key max window. ok (allowed, seconds 30);
  sign_access_token = λ claims ttl. ok "access";
  sign_restricted_token = λ subject purpose ttl. ok "restricted";
  random_token = ok "opaque";
  clock = noon + 20 * minute;
  new_id = λ n. if n == 0 then "s-1" else "f-1";
  begin = ok tt;
  commit = ok tt;
  save_credential = λ c. ok tt;
  append_events = λ es. ok tt;
  record_attempt_tx = λ row. ok tt;
  create_session = λ s client. ok tt;
  revoke_session = λ s. ok tt;
  count_active = λ identity client. ok (pos 3);
  find_oldest_active = λ identity client. ok (some old_session);
  list_active = λ identity client. ok (old_session ∷ []);
  create_family = λ family session identity. ok tt;
  create_token = λ row. ok tt;
  register_device = λ identity fingerprint version name ip now. ok "d-2";
  touch_device = λ id now. ok tt;
  lib = lib;
  config = policy concurrent;
}

abbrev pub input : String → LoginInput
input password = record {
  identifier = "ada";
  password = password;
  client_id = "web";
  company_code = "ACME";
  device_fingerprint = record {
    screen_resolution = "1x1";
    timezone = "UTC";
    platform = "linux";
    color_depth = pos 24;
    language = "en";
  };
  ip = ip4 10 0 0 1;
  user_agent = "curl/8.0";
  accept_language = "en";
}

abbrev pub completed : LoginResult
completed = record {
  authentication_result = "COMPLETED";
  access_token = "access";
  token_type = "Bearer";
  expires_in = pos 900;
  refresh_token = "opaque";
  session_id = "s-1";
  aal = "AAL1";
  force_password_change = false;
  mfa_session_token = "";
  available_factors = [];
  forced_change_session_token = "";
}

pub login_is_completed : (login (ports "SINGLE" true) (input "tiger")).result ≡ ok completed
unfolding login after_limit authenticate with_identity with_credential check_password
    after_verification decide complete_session session_writes session_rows in_transaction execute
    ensure_verifiable record_successful_verification verify_password is_password_expired
    apply_concurrent_session_policy write_device new_session session_params revoke
login_is_completed = refl

pub wrong_password : HasWrongPassword (ports "SINGLE" true) (input "lions")
unfolding ensure_verifiable verify_password
wrong_password = record {
  identity = record { identity_id = "u-1"; status = "ACTIVE"; corporate_id = "ACME" };
  before_it = credential;
  credential = credential;
  resolves = refl;
  is_active = refl;
  finds = refl;
  verifiable = refl;
  mismatch = refl;
}

pub ports-IsStored : IsStored (ports "SINGLE" true)
ports-IsStored = record {
  begins = refl;
  commits = refl;
  saves = λ c. refl;
  appends = λ es. refl;
  records = λ row. refl;
}
