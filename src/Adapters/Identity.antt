-- ===== src/Adapters/Identity.antt =====
-- internal/features/login/repository/identity/acl.go: the client of the identity service.
use araquanid.Login.Decision.{login_decides}
use araquanid.Login.Fingerprint.{normalize}
use araquanid.Login.Handler.{login}
use araquanid.Common.{
  String, Option, none, some, [], ◌∷◌, Bool, if◌then◌else◌, ◌≡◌, refl, true, false, ◌∙◌, ap, sym,
}
use araquanid.Common.Result.{
  >>=-eq-ok, ok-injective, map_error-eq-ok, Result, ok, err, ◌>>=◌, map_error,
}
use araquanid.Common.Text.{concat, same_text}
use araquanid.Login.Ports.{ResolvedIdentity, Dependencies, LoginInput, LoginResult}

-- `identityv1.IdentityStatus`; other numbers are `unknown_status`.
pub data IdentityStatus : Type 0 where
  active_identity inactive_identity suspended_identity : IdentityStatus
  pending_identity deleted_identity unknown_identity : IdentityStatus

-- `identityv1.ResolveIdentityResponse`
pub record ResolveResponse : Type 0 where
  pub found : Bool
  pub identity_id : String
  pub status : IdentityStatus
  pub corporate_id : String

-- `identityStatusString`
abbrev pub identity_status_string : IdentityStatus → String
identity_status_string active_identity = "ACTIVE"
identity_status_string inactive_identity = "INACTIVE"
identity_status_string suspended_identity = "SUSPENDED"
identity_status_string pending_identity = "PENDING_ACTIVATION"
identity_status_string deleted_identity = "DELETED"
identity_status_string unknown_identity = "UNSPECIFIED"

abbrev pub resolved : ResolveResponse → Option ResolvedIdentity
resolved r =
    if r.found
    then some (record {
      identity_id = r.identity_id;
      status = identity_status_string r.status;
      corporate_id = r.corporate_id;
    })
    else none

-- `ResolveIdentity`; without a client it fails with `ErrUnavailable`.
unfoldable pub resolve_identity :
    Option (String → String → Result String ResolveResponse)
    → String
    → String
    → Result String (Option ResolvedIdentity)
resolve_identity none identifier company = err "login/identity: identity context unavailable"
resolve_identity (some client) identifier company =
    map_error (λ e. concat ("login/identity: resolve identity: " ∷ e ∷ []))
      (client identifier company)
    >>= λ r. ok (resolved r)

identity_status_string-active :
    (s : IdentityStatus)
    → same_text (identity_status_string s) "ACTIVE" ≡ true
    → s ≡ active_identity
identity_status_string-active active_identity h = refl
identity_status_string-active inactive_identity h = cc
identity_status_string-active suspended_identity h = cc
identity_status_string-active pending_identity h = cc
identity_status_string-active deleted_identity h = cc
identity_status_string-active unknown_identity h = cc

resolved_fields :
    (r : ResolveResponse) (found : Bool) (i : ResolvedIdentity)
    → (if found
        then some (record {
          identity_id = r.identity_id;
          status = identity_status_string r.status;
          corporate_id = r.corporate_id;
        })
        else none)
      ≡ some i
    → (found ≡ true) × (identity_status_string r.status ≡ i.status)
resolved_fields r true i h = (refl, ap (λ o. status_of o) h)
  where
    status_of : Option ResolvedIdentity → String
    status_of none = ""
    status_of (some j) = j.status
resolved_fields r false i h = cc

-- With the client as the port of the use case, a login succeeds only for an identity that the service
-- has found for the normalised identifier and company, with the status ACTIVE and no other.
pub login-resolve_identity :
    (deps : Dependencies) (client : String → String → Result String ResolveResponse)
    (input : LoginInput) (res : LoginResult)
    → ((identifier company : String)
        → deps.resolve_identity identifier company
          ≡ resolve_identity (some client) identifier company)
    → (login deps input).result ≡ ok res
    → (r : ResolveResponse) × (client
          (normalize deps.lib input.identifier)
          (deps.lib.to_upper (deps.lib.trim_space input.company_code))
        ≡ ok r)
      × (r.found ≡ true)
      × (r.status ≡ active_identity)
unfolding resolve_identity
login-resolve_identity deps client input res port h =
    let (f, _) = login_decides deps input res h in
    let identifier = normalize deps.lib input.identifier in
    let company = deps.lib.to_upper (deps.lib.trim_space input.company_code) in
    let (r, asked, k) =
      >>=-eq-ok
        (map_error (λ e. concat ("login/identity: resolve identity: " ∷ e ∷ []))
          (client identifier company))
        _ (some f.identity) (sym (port identifier company) ∙ f.resolves) in
    let (found, status) = resolved_fields r r.found f.identity (ok-injective k) in
    (
      r,
      map_error-eq-ok _ (client identifier company) r asked,
      found,
      identity_status_string-active r.status (ap (λ s. same_text s "ACTIVE") status ∙ f.is_active),
    )
