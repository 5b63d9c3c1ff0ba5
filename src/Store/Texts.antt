-- ===== src/Store/Texts.antt =====
-- The texts that stand for the constants of internal/domain in a column, and the constants that a
-- text in a column stands for.
use araquanid.Common.{String, if◌then◌else◌, ◌≡◌, refl, true, ◌||◌}
use araquanid.Common.Text.{same_text}
use araquanid.Domain.Kinds.{
  Aal, aal1, aal2, aal3, other_aal, FactorType, totp, sms_otp, fido2, passkey, other_factor,
  SessionStatus, active, expired, revoked, other_status, RevokeReason, user_logout,
  admin_force_logout, password_was_changed, password_was_reset, device_revoked, security_event,
  expired_idle, expired_absolute, concurrent_session_limit, other_reason, LockoutStatus, unlocked,
  locked_temporary, locked_permanent, other_lockout, is_valid_aal, is_valid_status,
  is_valid_lockout, is_no_reason, is_manual, is_expiry,
}
use araquanid.Domain.Password.{PasswordAlgorithm, argon2id, bcrypt, other_algorithm}

abbrev pub aal_text : Aal → String
aal_text aal1 = "AAL1"
aal_text aal2 = "AAL2"
aal_text aal3 = "AAL3"
aal_text (other_aal s) = s

unfoldable pub to_aal : String → Aal
to_aal s =
    if same_text s "AAL1"
    then aal1
    else if same_text s "AAL2"
    then aal2
    else if same_text s "AAL3"
    then aal3
    else other_aal s

abbrev pub factor_text : FactorType → String
factor_text totp = "TOTP"
factor_text sms_otp = "SMS_OTP"
factor_text fido2 = "FIDO2"
factor_text passkey = "PASSKEY"
factor_text (other_factor s) = s

unfoldable pub to_factor : String → FactorType
to_factor s =
    if same_text s "TOTP"
    then totp
    else if same_text s "SMS_OTP"
    then sms_otp
    else if same_text s "FIDO2"
    then fido2
    else if same_text s "PASSKEY"
    then passkey
    else other_factor s

abbrev pub status_text : SessionStatus → String
status_text active = "ACTIVE"
status_text expired = "EXPIRED"
status_text revoked = "REVOKED"
status_text (other_status s) = s

unfoldable pub to_status : String → SessionStatus
to_status s =
    if same_text s "ACTIVE"
    then active
    else if same_text s "EXPIRED"
    then expired
    else if same_text s "REVOKED"
    then revoked
    else other_status s

abbrev pub reason_text : RevokeReason → String
reason_text user_logout = "USER_LOGOUT"
reason_text admin_force_logout = "ADMIN_FORCE_LOGOUT"
reason_text password_was_changed = "PASSWORD_CHANGED"
reason_text password_was_reset = "PASSWORD_RESET"
reason_text device_revoked = "DEVICE_REVOKED"
reason_text security_event = "SECURITY_EVENT"
reason_text expired_idle = "SESSION_EXPIRED_IDLE"
reason_text expired_absolute = "SESSION_EXPIRED_ABSOLUTE"
reason_text concurrent_session_limit = "CONCURRENT_SESSION_LIMIT"
reason_text (other_reason s) = s

unfoldable pub to_reason : String → RevokeReason
to_reason s =
    if same_text s "USER_LOGOUT"
    then user_logout
    else if same_text s "ADMIN_FORCE_LOGOUT"
    then admin_force_logout
    else if same_text s "PASSWORD_CHANGED"
    then password_was_changed
    else if same_text s "PASSWORD_RESET"
    then password_was_reset
    else if same_text s "DEVICE_REVOKED"
    then device_revoked
    else if same_text s "SECURITY_EVENT"
    then security_event
    else if same_text s "SESSION_EXPIRED_IDLE"
    then expired_idle
    else if same_text s "SESSION_EXPIRED_ABSOLUTE"
    then expired_absolute
    else if same_text s "CONCURRENT_SESSION_LIMIT"
    then concurrent_session_limit
    else other_reason s

abbrev pub lockout_text : LockoutStatus → String
lockout_text unlocked = "UNLOCKED"
lockout_text locked_temporary = "LOCKED_TEMPORARY"
lockout_text locked_permanent = "LOCKED_PERMANENT"
lockout_text (other_lockout s) = s

unfoldable pub to_lockout : String → LockoutStatus
to_lockout s =
    if same_text s "UNLOCKED"
    then unlocked
    else if same_text s "LOCKED_TEMPORARY"
    then locked_temporary
    else if same_text s "LOCKED_PERMANENT"
    then locked_permanent
    else other_lockout s

abbrev pub algorithm_text : PasswordAlgorithm → String
algorithm_text argon2id = "argon2id"
algorithm_text bcrypt = "bcrypt"
algorithm_text (other_algorithm s) = s

unfoldable pub to_algorithm : String → PasswordAlgorithm
to_algorithm s =
    if same_text s "argon2id"
    then argon2id
    else if same_text s "bcrypt"
    then bcrypt
    else other_algorithm s

-- The constants of a valid value are found again.
pub to_aal-aal_text : (a : Aal) → is_valid_aal a ≡ true → to_aal (aal_text a) ≡ a
unfolding to_aal
to_aal-aal_text aal1 h = refl
to_aal-aal_text aal2 h = refl
to_aal-aal_text aal3 h = refl
to_aal-aal_text (other_aal s) h = cc

pub to_status-status_text :
    (s : SessionStatus) → is_valid_status s ≡ true → to_status (status_text s) ≡ s
unfolding to_status
to_status-status_text active h = refl
to_status-status_text expired h = refl
to_status-status_text revoked h = refl
to_status-status_text (other_status s) h = cc

pub to_lockout-lockout_text :
    (s : LockoutStatus) → is_valid_lockout s ≡ true → to_lockout (lockout_text s) ≡ s
unfolding to_lockout
to_lockout-lockout_text unlocked h = refl
to_lockout-lockout_text locked_temporary h = refl
to_lockout-lockout_text locked_permanent h = refl
to_lockout-lockout_text (other_lockout s) h = cc

-- The reason of a session that has ended, and that of one that has not.
pub to_reason-reason_text :
    (r : RevokeReason)
    → (is_no_reason r || is_manual r || is_expiry r) ≡ true
    → to_reason (reason_text r) ≡ r
unfolding to_reason
to_reason-reason_text user_logout h = refl
to_reason-reason_text admin_force_logout h = refl
to_reason-reason_text password_was_changed h = refl
to_reason-reason_text password_was_reset h = refl
to_reason-reason_text device_revoked h = refl
to_reason-reason_text security_event h = refl
to_reason-reason_text expired_idle h = refl
to_reason-reason_text expired_absolute h = refl
to_reason-reason_text concurrent_session_limit h = refl
to_reason-reason_text (other_reason String.[]) h = refl
to_reason-reason_text (other_reason (String.◌∷◌ c s)) h = cc
