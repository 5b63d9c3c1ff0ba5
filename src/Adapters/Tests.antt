-- ===== src/Adapters/Tests.antt =====
-- The adapters of the login feature on concrete answers.
use araquanid.Adapters.Identity.{
  resolve_identity, ResolveResponse, active_identity, login-resolve_identity,
}
use araquanid.Login.Fixtures.{ports, input, completed, login_is_completed, lib}
use araquanid.Login.Fingerprint.{normalize}
use araquanid.Common.{String, ◌≡◌, refl, true, some}
use araquanid.Common.Result.{Result, ok}

abbrev found_response : ResolveResponse
found_response = record {
  found = true;
  identity_id = "u-1";
  status = active_identity;
  corporate_id = "ACME";
}

abbrev service : String → String → Result String ResolveResponse
service identifier company = ok found_response

ports_resolve :
    (identifier company : String)
    → (ports "SINGLE" true).resolve_identity identifier company
      ≡ resolve_identity (some service) identifier company
unfolding resolve_identity
ports_resolve identifier company = refl

login-resolve_identity_example :
    (r : ResolveResponse) × (service (normalize lib "ada") "ACME" ≡ ok r)
    × (r.found ≡ true)
    × (r.status ≡ active_identity)
login-resolve_identity_example =
    login-resolve_identity (ports "SINGLE" true) service (input "tiger") completed ports_resolve
      login_is_completed
