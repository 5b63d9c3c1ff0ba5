-- ===== src/AppError/Transport.antt =====
-- The way of an error from a handler to an HTTP client: the interceptor AppError of
-- internal/middleware/apperror.go, and recoverCode and errorHandler of internal/middleware/gateway.go.
use araquanid.Common.Text.{same_text, same_text_refl, same_text-true}
use araquanid.Common.{
  ◌≤◌, ◌≡◌, ◌∷◌, ◌⊎◌, if◌then◌else◌, refl, [], String, List, ℕ, Bool, true, false, arith, inl, inr,
  All, ◌++◌, ap, sym, ◌∙◌, Bool-cases,
}
use araquanid.AppError.{
  internal, system_internal, Code, GrpcCode, AppError, grpc_status, http_status, code_client,
}

-- `errdetails.ErrorInfo`
pub record ErrorInfo : Type 0 where
  pub reason : Code
  pub domain : String
  pub metadata : List (String × String)

-- A detail of a status: an ErrorInfo, or a message of another type.
pub data Detail : Type 0 where
  error_info : ErrorInfo → Detail
  other_detail : String → Detail

-- `status.Status`
pub record Status : Type 0 where
  pub code : GrpcCode
  pub message : String
  pub details : List Detail

-- `errorInfoDomain`
abbrev pub error_info_domain : String
error_info_domain = "araquanid"

-- An error that a handler returns: an application error, a status, or any other.
pub data HandlerError : Type 0 where
  app : AppError → HandlerError
  status : Status → HandlerError
  plain : String → HandlerError

-- `AppError`, the interceptor, on an error. `attaches` is whether `WithDetails` succeeds.
unfoldable pub intercept : Bool → HandlerError → Status
unfolding grpc_status
intercept attaches (app e) = record {
  code = grpc_status e.code;
  message = e.message;
  details =
      if attaches
      then error_info (record { reason = e.code; domain = error_info_domain; metadata = e.details })
        ∷ []
      else [];
}
intercept attaches (status st) = st
intercept attaches (plain s) = record { code = internal; message = "internal error"; details = [] }

-- The loop of `recoverCode`.
unfoldable pub recover_from : List Detail → Code × List (String × String)
recover_from [] = (system_internal, [])
recover_from (error_info i ∷ ds) =
    let rest = recover_from ds in
    if same_text i.domain error_info_domain then (i.reason, i.metadata) else rest
recover_from (other_detail s ∷ ds) = recover_from ds

-- `recoverCode`
unfoldable pub recover_code : Status → Code × List (String × String)
unfolding recover_from
recover_code st = recover_from st.details

-- `errorBody`, with the HTTP status beside it.
pub record ErrorReply : Type 0 where
  pub http : ℕ
  pub code : Code
  pub client_code : String
  pub message : String
  pub details : List (String × String)

-- `errorHandler`
unfoldable pub error_reply : Status → ErrorReply
unfolding http_status code_client recover_code
error_reply st =
    let (code, details) = recover_code st in
    record {
      http = http_status code;
      code = code;
      client_code = code_client code;
      message = st.message;
      details = details;
    }

-- A detail that recoverCode passes over.
abbrev pub IsForeign : Detail → Type 0
IsForeign (error_info i) = ¬ (i.domain ≡ error_info_domain)
IsForeign (other_detail s) = Unit

-- The first ErrorInfo of this service among the details.
pub record IsFirstInfo (i : ErrorInfo) (ds : List Detail) : Type 0 where
  pub before : List Detail
  pub after : List Detail
  pub splits : ds ≡ before ++ error_info i ∷ after
  pub foreign : All IsForeign before
  pub own : i.domain ≡ error_info_domain

-- The reply of a system error: HTTP 500 with the client code 07, and no details.
abbrev pub system_reply : String → ErrorReply
system_reply message = record {
  http = 500;
  code = system_internal;
  client_code = "07";
  message = message;
  details = [];
}

-- The reply that an HTTP client gets for an error of a handler.
abbrev pub IsReplyTo : Bool → HandlerError → ErrorReply → Type 0
IsReplyTo true (app e) r = r ≡ record {
  http = http_status e.code;
  code = e.code;
  client_code = code_client e.code;
  message = e.message;
  details = e.details;
}
IsReplyTo false (app e) r = r ≡ system_reply e.message
IsReplyTo attaches (plain s) r = r ≡ system_reply "internal error"
IsReplyTo attaches (status st) r =
    (All IsForeign st.details × (r ≡ system_reply st.message))
    ⊎ ((i : ErrorInfo) × IsFirstInfo i st.details
        × (r ≡ record {
          http = http_status i.reason;
          code = i.reason;
          client_code = code_client i.reason;
          message = st.message;
          details = i.metadata;
        }))

pass_over :
    (d : Detail) (ds : List Detail)
    → IsForeign d
    → (All IsForeign ds × (recover_from ds ≡ (system_internal, [])))
      ⊎ ((i : ErrorInfo) × IsFirstInfo i ds × (recover_from ds ≡ (i.reason, i.metadata)))
    → recover_from (d ∷ ds) ≡ recover_from ds
    → (All IsForeign (d ∷ ds) × (recover_from (d ∷ ds) ≡ (system_internal, [])))
      ⊎ ((i : ErrorInfo) × IsFirstInfo i (d ∷ ds)
          × (recover_from (d ∷ ds) ≡ (i.reason, i.metadata)))
pass_over d ds f (inl (fs, e)) same = inl ((f, fs), same ∙ e)
pass_over d ds f (inr (i, first, e)) same = inr (
  i,
  record {
    before = d ∷ first.before;
    after = first.after;
    splits = ap (λ l. d ∷ l) first.splits;
    foreign = (f, first.foreign);
    own = first.own;
  },
  same ∙ e,
)

false-true : false ≡ true → ⊥
false-true e = cc

-- `recoverCode` takes the first ErrorInfo of this service, and the system error where there is none.
recover_from_lem :
    (ds : List Detail)
    → (All IsForeign ds × (recover_from ds ≡ (system_internal, [])))
      ⊎ ((i : ErrorInfo) × IsFirstInfo i ds × (recover_from ds ≡ (i.reason, i.metadata)))
unfolding recover_from
recover_from_lem [] = inl (tt, refl)
recover_from_lem (error_info i ∷ ds) = elim (Bool-cases (same_text i.domain error_info_domain)) [
  | inl own ↦ inr (
    i,
    record {
      before = [];
      after = ds;
      splits = refl;
      foreign = tt;
      own = same_text-true i.domain error_info_domain own;
    },
    rw own refl,
  )
  | inr other ↦
      pass_over (error_info i) ds
        (λ e. false-true (
          sym other ∙ ap (λ d. same_text d error_info_domain) e ∙ same_text_refl error_info_domain))
        (recover_from_lem ds) (rw other refl)
]
recover_from_lem (other_detail s ∷ ds) = pass_over (other_detail s) ds tt (recover_from_lem ds) refl

-- The reply to every error of a handler. An application error reaches the HTTP client as it was
-- raised, with its code, its message and all its details, if they can be attached to the status, and
-- as a system error with its message otherwise. A status passes with its message, and with the code
-- and the details of the first ErrorInfo of this service in it; without one it is a system error. Any
-- other error is a system error with the message "internal error", whatever its text.
pub error_reply-intercept :
    (attaches : Bool) (h : HandlerError) → IsReplyTo attaches h (error_reply (intercept attaches h))
unfolding error_reply intercept recover_code
error_reply-intercept true (app e) = refl
error_reply-intercept false (app e) = refl
error_reply-intercept true (plain s) = refl
error_reply-intercept false (plain s) = refl
error_reply-intercept attaches (status st) = elim (recover_from_lem st.details) [
  | inl (fs, e) ↦ inl (fs, rw e refl)
  | inr (i, first, e) ↦ inr (i, first, rw e refl)
]

-- HTTP 200 goes with the client codes 00 to 03, 429 with 04, and a status of 500 and above with 07:
-- the status tells business outcomes, rate limits and system errors apart.
pub http_status_lem :
    (c : Code)
    → ((http_status c ≡ 200)
        × ((code_client c ≡ "00")
            ⊎ (code_client c ≡ "01")
            ⊎ (code_client c ≡ "02")
            ⊎ (code_client c ≡ "03")))
      ⊎ ((http_status c ≡ 429) × (code_client c ≡ "04"))
      ⊎ ((500 ≤ http_status c) × (code_client c ≡ "07"))
unfolding http_status code_client
http_status_lem c = ground arith
