-- ===== src/Domain/Kinds.antt =====
-- The string-valued enumerations of internal/domain and the address type of `net/netip`. Each is a
-- data type with a constructor for every constant of the source, and one that holds any other text,
-- the empty one included, which is the zero value in Go.
use araquanid.Common.{ℕ, Bool, true, false, String, is_empty}

-- `netip.Addr`: the zero value, an IPv4 address by its bytes, or an IPv6 address with its zone.
pub data IpAddr : Type 0 where
  no_addr : IpAddr
  ip4 : ℕ → ℕ → ℕ → ℕ → IpAddr
  ip6 : ℕ → String → IpAddr

-- `Addr.IsValid`
abbrev pub is_valid_addr : IpAddr → Bool
is_valid_addr no_addr = false
is_valid_addr _ = true

pub data Aal : Type 0 where
  aal1 aal2 aal3 : Aal
  other_aal : String → Aal

abbrev pub is_valid_aal : Aal → Bool
is_valid_aal (other_aal s) = false
is_valid_aal _ = true

pub data FactorType : Type 0 where
  totp sms_otp fido2 passkey : FactorType
  other_factor : String → FactorType

abbrev pub is_fido2 : FactorType → Bool
is_fido2 fido2 = true
is_fido2 _ = false

pub data SessionStatus : Type 0 where
  active expired revoked : SessionStatus
  other_status : String → SessionStatus

abbrev pub is_valid_status : SessionStatus → Bool
is_valid_status (other_status s) = false
is_valid_status _ = true

abbrev pub is_active_status : SessionStatus → Bool
is_active_status active = true
is_active_status _ = false

pub data RevokeReason : Type 0 where
  user_logout admin_force_logout password_was_changed password_was_reset : RevokeReason
  device_revoked security_event expired_idle expired_absolute : RevokeReason
  concurrent_session_limit : RevokeReason
  other_reason : String → RevokeReason

-- The reason of a session that has not ended, `""`.
abbrev pub no_reason : RevokeReason
no_reason = other_reason ""

-- `r == ""`
abbrev pub is_no_reason : RevokeReason → Bool
is_no_reason (other_reason s) = is_empty s
is_no_reason _ = false

-- `RevokeReason.IsManual`
abbrev pub is_manual : RevokeReason → Bool
is_manual user_logout = true
is_manual admin_force_logout = true
is_manual password_was_changed = true
is_manual password_was_reset = true
is_manual device_revoked = true
is_manual security_event = true
is_manual concurrent_session_limit = true
is_manual _ = false

-- `RevokeReason.IsExpiry`
abbrev pub is_expiry : RevokeReason → Bool
is_expiry expired_idle = true
is_expiry expired_absolute = true
is_expiry _ = false

pub data LockoutStatus : Type 0 where
  unlocked locked_temporary locked_permanent : LockoutStatus
  other_lockout : String → LockoutStatus

abbrev pub is_valid_lockout : LockoutStatus → Bool
is_valid_lockout (other_lockout s) = false
is_valid_lockout _ = true

pub data LoginFailureReason : Type 0 where
  invalid_credentials account_locked : LoginFailureReason

pub data PasswordChangeType : Type 0 where
  user_initiated forced : PasswordChangeType
