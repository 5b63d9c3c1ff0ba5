-- ===== src/Adapters/Tokens.antt =====
-- internal/platform/jwtsign/jwtsign.go: the key, and the claims of the two kinds of token.
use araquanid.Common.{String, List, [], ◌∷◌, is_empty, if◌then◌else◌, not}
use araquanid.Common.Result.{Result, ok, err, ◌>>=◌, map_error, reject_if}
use araquanid.Common.Text.{concat}
use araquanid.Common.Time.{Time, Duration, add}
use araquanid.Login.Ports.{AccessTokenClaims}

-- `Config`
pub record SignerConfig : Type 0 where
  pub private_key_pem : String
  pub private_key_path : String
  pub kid : String
  pub issuer : String

-- The parts outside this repository: reading a file, parsing a key, and signing, which gets the header
-- and the claims; `Key` is the type of parsed keys.
pub record SignerLibrary (Key Claims : Type 0) : Type 0 where
  pub read_file : String → Result String String
  pub parse_key : String → Result String Key
  pub signed_string : Key → String → Claims → Result String String

-- `jwt.RegisteredClaims`, with the instants that `jwt.NewNumericDate` cuts to seconds.
pub record RegisteredClaims : Type 0 where
  pub issuer : String
  pub subject : String
  pub audience : List String
  pub issued_at : Time
  pub expires_at : Time
  pub id : String

-- `accessTokenClaims`
pub record AccessClaims : Type 0 where
  pub registered_claims : RegisteredClaims
  pub session_id : String
  pub aal : String
  pub device_id : String
  pub corporate_id : String
  pub scope : String

-- An access token's claims, or those of a restricted token with its purpose.
pub data Claims : Type 0 where
  access_claims : AccessClaims → Claims
  restricted_claims : RegisteredClaims → String → Claims

pub record Signer (Key : Type 0) : Type 0 where
  pub key : Key
  pub kid : String
  pub issuer : String

module _ {Key : Type 0} (lib : SignerLibrary Key Claims) where
  -- `resolveKeyPEM`
  unfoldable pub resolve_key_pem : SignerConfig → Result String String
  resolve_key_pem cfg =
      if not (is_empty cfg.private_key_pem)
      then ok cfg.private_key_pem
      else if is_empty cfg.private_key_path
      then err "jwtsign: no private key configured (set PrivateKeyPEM or PrivateKeyPath)"
      else map_error
          (λ e. concat ("jwtsign: read private key file " ∷ cfg.private_key_path ∷ ": " ∷ e ∷ []))
          (lib.read_file cfg.private_key_path)

  -- `NewSigner`
  unfoldable pub new_signer : SignerConfig → Result String (Signer Key)
  new_signer cfg = reject_if (is_empty cfg.kid) "jwtsign: kid is required" >>= λ _.
      resolve_key_pem cfg >>= λ pem.
      map_error (λ e. concat ("jwtsign: parse private key: " ∷ e ∷ [])) (lib.parse_key pem)
      >>= λ key. ok (record { key = key; kid = cfg.kid; issuer = cfg.issuer })

  -- `sign`
  unfoldable pub sign : Signer Key → Claims → Result String String
  sign s claims =
      map_error (λ e. concat ("jwtsign: sign: " ∷ e ∷ [])) (lib.signed_string s.key s.kid claims)

  abbrev pub registered :
      Signer Key → String → List String → Time → Duration → String → RegisteredClaims
  registered s subject audience now ttl id = record {
    issuer = s.issuer;
    subject = subject;
    audience = audience;
    issued_at = now;
    expires_at = add now ttl;
    id = id;
  }

  -- `SignAccessToken`, at an instant and with a fresh identifier.
  unfoldable pub sign_access_token :
      Signer Key → Time → String → AccessTokenClaims → Duration → Result String String
  sign_access_token s now id c ttl = sign s (
      access_claims (record {
        registered_claims = registered s c.subject c.audience now ttl id;
        session_id = c.session_id;
        aal = c.aal;
        device_id = c.device_id;
        corporate_id = c.corporate_id;
        scope = c.scope;
      }))

  -- `SignRestrictedToken`
  unfoldable pub sign_restricted_token :
      Signer Key → Time → String → String → String → Duration → Result String String
  sign_restricted_token s now id subject purpose ttl =
      sign s (restricted_claims (registered s subject [] now ttl id) purpose)
