-- ===== src/Delivery/Composition.antt =====
-- The whole way of a login: the handler of internal/features/login/delivery/grpc, the use case, the
-- interceptor and the gateway's error handler of internal/middleware.
use araquanid.Domain.Credential.{requires_password_change}
use araquanid.Login.Decision.{IsDue, Findings, login_decides}
use araquanid.Login.Transaction.{Action}
use araquanid.Login.Indistinct.{IsUnknown, HasWrongPassword, IsStored, login_rejects_alike}
use araquanid.Login.Refusals.{IsAllowed}
use araquanid.AppError.{login_invalid_credentials, http_status, code_client}
use araquanid.Common.{
  false, true, String, Option, none, some, ◌≡◌, refl, true, ◌∙◌, if◌then◌else◌, ◌⊎◌, [], Bool, List,
  ap, ◌||◌, is_none, sym,
}
use araquanid.Common.Result.{Result, ok, err, map_error, ok-injective}
use araquanid.AppError.Transport.{ErrorReply, error_reply, intercept, app, error_reply-intercept}
use araquanid.Login.Ports.{Dependencies, LoginInput, LoginResult}
use araquanid.Login.Traced.{>>=-eq-ok, pure, ◌>>=◌, >>=-err, ◌>>=◌, answer}
use araquanid.Login.Steps.{Failure, failed, panicked, invalid}
use araquanid.Login.Handler.{login}
use araquanid.Delivery.{
  NetLibrary, CallContext, LoginRequest, LoginResponse, LoginDto, to_proto_response, to_dto,
  observed_input, login_rpc, wire_password_change_required, wire_completed, wire_mfa_required,
  authentication_result, WireResult, check,
}

-- What an HTTP client gets for an error; a panic is caught outside this repository.
unfoldable pub http_reply : Result Failure LoginResponse → Option ErrorReply
http_reply (ok r) = none
http_reply (err (failed e)) = some (error_reply (intercept true (app e)))
http_reply (err panicked) = none

module _ (net : NetLibrary) (validate : LoginDto → Result String (Unit {0})) (deps : Dependencies)
    (ctx : CallContext) (req : LoginRequest) where
  abbrev input : LoginInput
  input = observed_input net deps.lib ctx req

  validated-login_rpc :
      validate (to_dto req) ≡ ok tt
      → login_rpc net validate deps ctx req
        ≡ (login deps input >>= λ res. pure (to_proto_response res))
  unfolding login_rpc
  validated-login_rpc h = rw h refl

  -- A request that passes the validator and the rate limits gets one reply, whether the identifier is
  -- unknown, the identity not active or without a credential, or the password wrong for a credential
  -- that is not locked, whose failed attempt can be stored: the HTTP reply is 200 with the code
  -- ERR-LOGIN-001, the client code 02, the same message and no details.
  pub http_reply-login_rpc :
      validate (to_dto req) ≡ ok tt
      → IsAllowed deps input
      → IsUnknown deps input ⊎ (HasWrongPassword deps input × IsStored deps)
      → http_reply (login_rpc net validate deps ctx req).result
        ≡ some (record {
          http = 200;
          code = login_invalid_credentials;
          client_code = "02";
          message = "invalid credentials";
          details = [];
        })
  unfolding http_reply error_reply http_status code_client
  http_reply-login_rpc valid allowed rejected =
      let (refused_alike, _) = login_rejects_alike deps input allowed rejected in
      let failed_so =
        >>=-err (login deps input) (λ res. pure (to_proto_response res)) (failed invalid)
          refused_alike in
      ap (λ m. http_reply m.result) (validated-login_rpc valid)
      ∙ ap http_reply failed_so
      ∙ ap some (error_reply-intercept true (app invalid))

  -- The outcome that is due, as the response names it.
  abbrev pub due_result : Bool → Bool → WireResult
  due_result new_password second =
      if new_password
      then wire_password_change_required
      else if second
      then wire_mfa_required
      else wire_completed

  authentication_result-IsDue :
      (new_password second : Bool) (res : LoginResult) (trace : List Action)
      → IsDue new_password second res trace
      → authentication_result res.authentication_result ≡ due_result new_password second
  unfolding authentication_result
  authentication_result-IsDue true second res trace (e, _) = rw e refl
  authentication_result-IsDue false true res trace (e, _) = rw e refl
  authentication_result-IsDue false false res trace (e, _) = rw e refl

  to_proto_response-result :
      (res : LoginResult)
      → (to_proto_response res).authentication_result
        ≡ authentication_result res.authentication_result
  unfolding to_proto_response
  to_proto_response-result res = refl

  -- A response is given only for an active identity, with a credential that is not locked and the
  -- password that matches it, and it names the outcome that is due: the change of a password that is
  -- demanded or has expired, else the second factor of an identity that has one or of a device that is
  -- not known, else completion. It is never UNSPECIFIED.
  pub login_rpc_decides :
      (response : LoginResponse)
      → (login_rpc net validate deps ctx req).result ≡ ok response
      → (f : Findings deps input) × (response.authentication_result
          ≡ due_result
              (requires_password_change deps.clock f.verified)
              (f.has_factor || is_none f.device))
  unfolding login_rpc
  login_rpc_decides response h =
      let (_, _, k, _) =
        >>=-eq-ok (answer (map_error failed (check validate (to_dto req)))) _ response h in
      let (res, done, last, _) = >>=-eq-ok (login deps input) _ response k in
      let (f, due) = login_decides deps input res done in
      let named =
        authentication_result-IsDue (requires_password_change deps.clock f.verified)
          (f.has_factor || is_none f.device) res (login deps input).trace due in
      (
        f,
        ap (λ r. r.authentication_result) (sym (ok-injective last))
            ∙ to_proto_response-result res
            ∙ named,
      )
