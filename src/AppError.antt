-- ===== src/AppError.antt =====
-- The error catalog of internal/apperror/apperror.go, and the two ends of the transport that carry an
-- error: AppError of internal/middleware/apperror.go and recoverCode of internal/middleware/gateway.go.
pub mod Transport
use araquanid.Common.Text.{same_text}
use araquanid.Domain.Fault.{DomainError}
use araquanid.Common.{◌==◌, ◌∷◌, if◌then◌else◌, none, some, [], String, ℕ, List, Option}

-- `Code`; `other_code` is any text but those of the constants.
pub data Code : Type 0 where
  success request_validation login_invalid_credentials login_account_locked : Code
  rate_limited_code system_database system_upstream system_internal : Code
  other_code : String → Code

-- The status codes of gRPC that the catalog uses.
pub data GrpcCode : Type 0 where
  grpc_ok invalid_argument unauthenticated permission_denied : GrpcCode
  resource_exhausted unavailable internal : GrpcCode

-- `entry`; an HTTP status of 0 means 200.
pub record Entry : Type 0 where
  pub code_client : String
  pub http_status : ℕ
  pub grpc_code : GrpcCode

-- `lookup` in `catalog`.
unfoldable pub lookup : Code → Entry
lookup success = record { code_client = "00"; http_status = 0; grpc_code = grpc_ok }
lookup request_validation = record {
  code_client = "01";
  http_status = 0;
  grpc_code = invalid_argument;
}
lookup login_invalid_credentials = record {
  code_client = "02";
  http_status = 0;
  grpc_code = unauthenticated;
}
lookup login_account_locked = record {
  code_client = "03";
  http_status = 0;
  grpc_code = permission_denied;
}
lookup rate_limited_code = record {
  code_client = "04";
  http_status = 429;
  grpc_code = resource_exhausted;
}
lookup system_database = record { code_client = "07"; http_status = 503; grpc_code = unavailable }
lookup system_upstream = record { code_client = "07"; http_status = 502; grpc_code = unavailable }
lookup system_internal = record { code_client = "07"; http_status = 500; grpc_code = internal }
lookup (other_code s) = record { code_client = "07"; http_status = 500; grpc_code = internal }

-- `CodeClient`
unfoldable pub code_client : Code → String
unfolding lookup
code_client c = (lookup c).code_client

-- `HTTPStatus`
unfoldable pub http_status : Code → ℕ
unfolding lookup
http_status c = if (lookup c).http_status == 0 then 200 else (lookup c).http_status

-- `GRPCStatus`
unfoldable pub grpc_status : Code → GrpcCode
unfolding lookup
grpc_status c = (lookup c).grpc_code

-- What an error wraps: an error of a library or an adapter, by its text, or one of internal/domain.
pub data Cause : Type 0 where
  port_error : String → Cause
  domain_error : DomainError → Cause

-- `Error`; the details are pairs, the last set first.
pub record AppError : Type 0 where
  pub code : Code
  pub message : String
  pub details : List (String × String)
  pub cause : Option Cause

-- `New`
abbrev pub new : Code → String → AppError
new code message = record { code = code; message = message; details = []; cause = none }

-- `Wrap`
abbrev pub wrap : Code → String → Cause → AppError
wrap code message cause = record {
  code = code;
  message = message;
  details = [];
  cause = some cause;
}

abbrev without_key : String → List (String × String) → List (String × String)
without_key k [] = []
without_key k ((k', v) ∷ ds) =
    let rest = without_key k ds in if same_text k k' then rest else (k', v) ∷ rest

-- `WithDetail`
abbrev pub with_detail : String → String → AppError → AppError
with_detail k v e = record e { details = (k, v) ∷ without_key k e.details }
