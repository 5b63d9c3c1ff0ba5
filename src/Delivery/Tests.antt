-- ===== src/Delivery/Tests.antt =====
-- The Login RPC of internal/features/login/delivery/grpc on concrete requests.
use araquanid.Common.Text.{same_text}
use araquanid.Common.{
  String, some, List, [], ◌∷◌, ◌≡◌, refl, true, inr, ◌||◌, is_none, ◌+◌, if◌then◌else◌, ◌*◌, ap,
}
use araquanid.Common.Time.{seconds}
use araquanid.Common.Result.{Result, ok}
use araquanid.AppError.{login_invalid_credentials}
use araquanid.Domain.Credential.{requires_password_change}
use araquanid.Domain.Kinds.{ip4}
use araquanid.Login.Fixtures.{
  noon, minute, ports, input, wrong_password, ports-IsStored, completed, lib, login_is_completed,
}
use araquanid.Login.Decision.{Findings}
use araquanid.Login.Handler.{login}
use araquanid.Login.Traced.{pure, >>=-ok}
use araquanid.Delivery.{
  NetLibrary, CallContext, LoginRequest, LoginDto, login_rpc, client_ip, observed_input,
  to_proto_response, to_usecase_input, to_dto, header_value, find_value, truncate_header,
}
use araquanid.Delivery.Composition.{http_reply, http_reply-login_rpc, login_rpc_decides, due_result}

abbrev net : NetLibrary
net = record {
  split = λ s sep. (s, []);
  trim_space = λ s. s;
  parse_addr = λ s. some (ip4 10 0 0 1);
  split_host = λ s. some s;
}

abbrev headers : String → List String
headers key =
    if same_text key "accept-language"
    then "en" ∷ []
    else if same_text key "user-agent"
    then "curl/8.0" ∷ []
    else []

abbrev context : CallContext
context = record { metadata = some headers; peer = some (some "10.0.0.1:4711") }

abbrev request : String → LoginRequest
request password = record {
  identifier = "ada";
  password = password;
  client_id = "web";
  company_code = "ACME";
  device_fingerprint = (input password).device_fingerprint;
}

abbrev accept_all : LoginDto → Result String (Unit {0})
accept_all d = ok tt

request_is_observed :
    (password : String) → observed_input net lib context (request password) ≡ input password
unfolding observed_input to_usecase_input to_dto client_ip header_value find_value truncate_header
request_is_observed password = refl

http_reply-login_rpc_example :
    http_reply (login_rpc net accept_all (ports "SINGLE" true) context (request "lions")).result
    ≡ some (record {
      http = 200;
      code = login_invalid_credentials;
      client_code = "02";
      message = "invalid credentials";
      details = [];
    })
unfolding observed_input to_usecase_input to_dto client_ip header_value find_value truncate_header
http_reply-login_rpc_example =
    http_reply-login_rpc net accept_all (ports "SINGLE" true) context (request "lions") refl
      (seconds 30, seconds 30, refl, refl) (inr (wrong_password, ports-IsStored))

completes :
    (login_rpc net accept_all (ports "SINGLE" true) context (request "tiger")).result
    ≡ ok (to_proto_response completed)
unfolding login_rpc observed_input to_usecase_input to_dto client_ip header_value find_value
    truncate_header
completes =
    ap (λ m. m.result)
      (>>=-ok (login (ports "SINGLE" true) (input "tiger")) (λ res. pure (to_proto_response res))
        completed login_is_completed)

login_rpc_decides_example :
    (f : Findings (ports "SINGLE" true) (observed_input net lib context (request "tiger")))
    × ((to_proto_response completed).authentication_result
        ≡ due_result net accept_all
            (ports "SINGLE" true)
            context
            (request "tiger")
            (requires_password_change (noon + 20 * minute) f.verified)
            (f.has_factor || is_none f.device))
login_rpc_decides_example =
    login_rpc_decides net accept_all (ports "SINGLE" true) context (request "tiger")
      (to_proto_response completed) completes
