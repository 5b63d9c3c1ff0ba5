-- ===== src/Delivery.antt =====
-- The Login RPC around the use case: internal/features/login/delivery/grpc (the handler, its dto and
-- its mapper) and internal/validator. The getters of a generated message give "" and 0 for what is
-- missing, so a request is a record of what they give.
pub mod Composition
mod Tests
use araquanid.Common.{String, Option, none, some, List, [], ◌∷◌, if◌then◌else◌, leb, Bool, ℕ}
use araquanid.Common.Int.{ℤ}
use araquanid.Common.Result.{Result, map_error}
use araquanid.Common.Text.{same_text}
use araquanid.AppError.{AppError, new, request_validation}
use araquanid.Domain.Kinds.{IpAddr, no_addr, FactorType, totp, sms_otp, fido2}
use araquanid.Login.Ports.{
  Dependencies, StandardLibrary, LoginInput, LoginResult, DeviceFingerprintInput,
}
use araquanid.Login.Traced.{Traced, pure, answer, ◌>>=◌}
use araquanid.Login.Transaction.{Action}
use araquanid.Login.Steps.{Failure, failed}
use araquanid.Login.Handler.{login}

-- `authv1.LoginRequest`
pub record LoginRequest : Type 0 where
  pub identifier : String
  pub password : String
  pub client_id : String
  pub company_code : String
  pub device_fingerprint : DeviceFingerprintInput

-- `dto.LoginInput`; its fingerprint has the fields of the use case's.
pub record LoginDto : Type 0 where
  pub identifier : String
  pub password : String
  pub client_id : String
  pub company_code : String
  pub device_fingerprint : DeviceFingerprintInput

-- `authv1.AuthenticationResult`, `authv1.Aal` and `authv1.FactorType`
pub data WireResult : Type 0 where
  wire_completed wire_mfa_required wire_password_change_required unspecified_result : WireResult

pub data WireAal : Type 0 where
  wire_aal1 wire_aal2 wire_aal3 unspecified_aal : WireAal

pub data WireFactor : Type 0 where
  wire_totp wire_sms_otp wire_fido2 : WireFactor

-- `authv1.LoginResponse`
pub record LoginResponse : Type 0 where
  pub authentication_result : WireResult
  pub access_token : String
  pub token_type : String
  pub expires_in : ℤ
  pub refresh_token : String
  pub session_id : String
  pub aal : WireAal
  pub force_password_change : Bool
  pub mfa_session_token : String
  pub available_factors : List WireFactor
  pub forced_change_session_token : String

-- `ToDTO`
unfoldable pub to_dto : LoginRequest → LoginDto
to_dto r = record {
  identifier = r.identifier;
  password = r.password;
  client_id = r.client_id;
  company_code = r.company_code;
  device_fingerprint = r.device_fingerprint;
}

-- `ToUsecaseInput`
unfoldable pub to_usecase_input : LoginDto → IpAddr → String → String → LoginInput
to_usecase_input d ip user_agent accept_language = record {
  identifier = d.identifier;
  password = d.password;
  client_id = d.client_id;
  company_code = d.company_code;
  device_fingerprint = d.device_fingerprint;
  ip = ip;
  user_agent = user_agent;
  accept_language = accept_language;
}

-- `authenticationResult`
unfoldable pub authentication_result : String → WireResult
authentication_result s =
    if same_text s "COMPLETED"
    then wire_completed
    else if same_text s "MFA_REQUIRED"
    then wire_mfa_required
    else if same_text s "PASSWORD_CHANGE_REQUIRED"
    then wire_password_change_required
    else unspecified_result

-- `aal`
unfoldable pub wire_aal : String → WireAal
wire_aal s =
    if same_text s "AAL1"
    then wire_aal1
    else if same_text s "AAL2"
    then wire_aal2
    else if same_text s "AAL3"
    then wire_aal3
    else unspecified_aal

-- `factorType`
abbrev pub factor_type : FactorType → Option WireFactor
factor_type totp = some wire_totp
factor_type sms_otp = some wire_sms_otp
factor_type fido2 = some wire_fido2
factor_type _ = none

abbrev pub with_factor : Option WireFactor → List WireFactor → List WireFactor
with_factor none fs = fs
with_factor (some f) fs = f ∷ fs

-- `factorTypes`
unfoldable pub factor_types : List FactorType → List WireFactor
factor_types [] = []
factor_types (f ∷ fs) = with_factor (factor_type f) (factor_types fs)

-- `ToProtoResponse`
unfoldable pub to_proto_response : LoginResult → LoginResponse
to_proto_response r = record {
  authentication_result = authentication_result r.authentication_result;
  access_token = r.access_token;
  token_type = r.token_type;
  expires_in = r.expires_in;
  refresh_token = r.refresh_token;
  session_id = r.session_id;
  aal = wire_aal r.aal;
  force_password_change = r.force_password_change;
  mfa_session_token = r.mfa_session_token;
  available_factors = factor_types r.available_factors;
  forced_change_session_token = r.forced_change_session_token;
}

-- The parts of Go's library that the handler calls: `strings.Split`, which gives one part at least,
-- `strings.TrimSpace`, `netip.ParseAddr`, and the host of `net.SplitHostPort`.
pub record NetLibrary : Type 0 where
  pub split : String → String → String × List String
  pub trim_space : String → String
  pub parse_addr : String → Option IpAddr
  pub split_host : String → Option String

-- What the context of a call holds: the values of each key of the metadata, and the peer, whose
-- address can be missing.
pub record CallContext : Type 0 where
  pub metadata : Option (String → List String)
  pub peer : Option (Option String)

module _ (net : NetLibrary) where
  -- The first address of X-Forwarded-For.
  abbrev pub first_hop : List String → Option IpAddr
  first_hop [] = none
  first_hop (v ∷ vs) = net.parse_addr (net.trim_space (net.split v ",").0)

  abbrev pub forwarded : Option (String → List String) → Option IpAddr
  forwarded none = none
  forwarded (some get) = first_hop (get "x-forwarded-for")

  abbrev pub host_addr : Option String → Option IpAddr
  host_addr none = none
  host_addr (some host) = net.parse_addr host

  abbrev pub peer_addr : Option (Option String) → Option IpAddr
  peer_addr (some (some addr)) = host_addr (net.split_host addr)
  peer_addr _ = none

  abbrev pub or_peer : Option IpAddr → Option IpAddr → IpAddr
  or_peer (some ip) other = ip
  or_peer none (some ip) = ip
  or_peer none none = no_addr

  -- `clientIP`
  unfoldable pub client_ip : CallContext → IpAddr
  client_ip ctx = or_peer (forwarded ctx.metadata) (peer_addr ctx.peer)

module _ (lib : StandardLibrary) where
  -- `truncateHeader`, whose bound is not negative.
  unfoldable pub truncate_header : String → ℕ → String
  truncate_header s n = if leb (lib.len s) n then s else lib.prefix s n

  abbrev pub first_value : List String → String → String
  first_value [] rest = rest
  first_value (v ∷ vs) rest = truncate_header v 512

  -- The loop of `headerValue`.
  unfoldable pub find_value : (String → List String) → List String → String
  find_value get [] = ""
  find_value get (k ∷ ks) = first_value (get k) (find_value get ks)

  -- `headerValue`
  unfoldable pub header_value : Option (String → List String) → List String → String
  header_value none keys = ""
  header_value (some get) keys = find_value get keys

-- `Validator.check`, with the answer of the validator that reads the tags.
abbrev pub check : (LoginDto → Result String (Unit {0})) → LoginDto → Result AppError (Unit {0})
check validate d = map_error (new request_validation) (validate d)

-- The input that the handler gives to the use case.
unfoldable pub observed_input :
    NetLibrary → StandardLibrary → CallContext → LoginRequest → LoginInput
observed_input net lib ctx r =
    to_usecase_input (to_dto r) (client_ip net ctx)
      (header_value lib ctx.metadata ("grpcgateway-user-agent" ∷ "user-agent" ∷ []))
      (header_value lib ctx.metadata ("grpcgateway-accept-language" ∷ "accept-language" ∷ []))

-- `Handler.Login`
unfoldable pub login_rpc :
    NetLibrary
    → (LoginDto → Result String (Unit {0}))
    → Dependencies
    → CallContext
    → LoginRequest
    → Traced Action Failure LoginResponse
login_rpc net validate deps ctx r = answer (map_error failed (check validate (to_dto r))) >>= λ _.
    login deps (observed_input net deps.lib ctx r) >>= λ res. pure (to_proto_response res)
