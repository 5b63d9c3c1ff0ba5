-- ===== src/Login/Fingerprint.antt =====
-- internal/features/login/usecase/fingerprint.go, and the password check of
-- internal/platform/passwordhash/argon2id.go and verifyPassword.
use araquanid.Common.Text.{concat, join}
use araquanid.Login.Ports.{StandardLibrary, DeviceFingerprintInput, Argon2idParams}
use araquanid.Common.{
  ◌%◌, ◌^◌, ◌∷◌, if◌then◌else◌, ◌&&◌, none, some, [], String, ℕ, leb, Bool, false,
}
use araquanid.Domain.Password.{bcrypt, argon2id, PasswordHash}
use araquanid.Domain.Kinds.{ip4, IpAddr, is_valid_addr}
use araquanid.Common.Int.{pos}

module _ (lib : StandardLibrary) where
  -- `normalize`
  abbrev pub normalize : String → String
  normalize s = lib.to_lower (lib.trim_space s)

  -- `truncate`
  abbrev pub truncate : String → ℕ → String
  truncate s n = if leb (lib.len s) n then s else lib.prefix s n

  -- `ipSubnet`
  abbrev pub ip_subnet : IpAddr → String
  ip_subnet (ip4 a b c d) =
      concat (lib.itoa (pos a) ∷ "." ∷ lib.itoa (pos b) ∷ "." ∷ lib.itoa (pos c) ∷ ".0/24" ∷ [])
  ip_subnet _ = ""

  -- `computeFingerprint`
  abbrev pub compute_fingerprint : String → String → DeviceFingerprintInput → IpAddr → String
  compute_fingerprint header_ua header_language body ip = lib.sha256_hex (
      join
        (normalize (truncate header_ua 512)
          ∷ normalize (truncate header_language 64)
          ∷ normalize body.screen_resolution
          ∷ normalize body.timezone
          ∷ normalize body.platform
          ∷ lib.itoa body.color_depth
          ∷ normalize body.language
          ∷ ip_subnet ip
          ∷ [])
        "|")

  -- `osFromUserAgent`
  abbrev pub os_from_user_agent : String → String
  os_from_user_agent ua =
      if lib.contains ua "Windows NT"
      then "Windows"
      else if lib.contains ua "Mac OS X"
      then "macOS"
      else if lib.contains ua "Linux"
      then "Linux"
      else "Unknown"

  -- `inferDeviceName`
  abbrev pub infer_device_name : String → String
  infer_device_name ua =
      if lib.contains ua "Mobile" && lib.contains ua "Safari"
      then "Mobile Safari on iOS"
      else if lib.contains ua "Chrome" && lib.contains ua "Android"
      then "Chrome on Android"
      else if lib.contains ua "Chrome"
      then concat ("Chrome on " ∷ os_from_user_agent ua ∷ [])
      else if lib.contains ua "Firefox"
      then concat ("Firefox on " ∷ os_from_user_agent ua ∷ [])
      else if lib.contains ua "Safari"
      then "Safari on macOS"
      else if lib.contains ua "PostmanRuntime"
      then "Postman API Client"
      else "Unknown Browser"

  -- `ipString`
  abbrev pub ip_string : IpAddr → String
  ip_string ip = if is_valid_addr ip then lib.addr_string ip else ""

  -- `passwordhash.Verify`
  abbrev pub verify_argon2id : String → String → String → Argon2idParams → Bool
  verify_argon2id plaintext hash salt params = elim (lib.decode_base64 salt) [
    | none ↦ false
    | some salt_bytes ↦ elim (lib.decode_base64 hash) [
      | none ↦ false
      | some want ↦
          lib.same_bytes (lib.argon2_key plaintext salt_bytes params (lib.len want % 2 ^ 32)) want
    ]
  ]

  -- `verifyPassword`
  unfoldable pub verify_password : String → PasswordHash → Argon2idParams → Bool
  verify_password password h params = elim h.algorithm [
    | argon2id ↦ verify_argon2id password h.hash h.salt params
    | bcrypt ↦ lib.bcrypt_compare h.hash password
    | _ ↦ false
  ]
