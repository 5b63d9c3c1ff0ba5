-- ===== src/Domain/Policy.antt =====
-- The policies of internal/domain/credential.go and the context of a login attempt.
use araquanid.Domain.Password.{is_zero_int}
use araquanid.Domain.Kinds.{IpAddr}
use araquanid.Common.Time.{minutes, hours, Time, Duration, add}
use araquanid.Common.{if◌then◌else◌, ◌||◌, ◌∷◌, ◌*◌, none, some, [], List, String, Option}
use araquanid.Common.Result.{ok, Result, reject_if, ◌>>◌}
use araquanid.Common.Int.{pos, ℤ, leb_ℤ, ltb_ℤ}
use araquanid.Domain.Fault.{
  invalid_credential_policy, temporary_duration, threshold_or_window, invalid_lockout_policy,
  DomainError,
}

pub record LockoutPolicy : Type 0 where
  pub threshold : ℤ
  pub window : Duration
  pub temporary_durations : List Duration

-- `DefaultLockoutPolicy`
abbrev pub default_lockout_policy : LockoutPolicy
default_lockout_policy = record {
  threshold = pos 5;
  window = minutes 15;
  temporary_durations = minutes 30 ∷ hours 2 ∷ [];
}

-- The loop of `LockoutPolicy.Validate`.
unfoldable pub check_durations : List Duration → Result DomainError (Unit {0})
check_durations [] = ok tt
check_durations (d ∷ ds) =
    reject_if (leb_ℤ d (pos 0)) (invalid_lockout_policy temporary_duration) >> check_durations ds

-- `LockoutPolicy.Validate`
unfoldable pub validate_lockout_policy : LockoutPolicy → Result DomainError (Unit {0})
unfolding check_durations
validate_lockout_policy p = do
  reject_if (ltb_ℤ p.threshold (pos 1) || leb_ℤ p.window (pos 0))
      (invalid_lockout_policy threshold_or_window)
  check_durations p.temporary_durations

pub record CredentialPolicy : Type 0 where
  pub history_depth : ℤ
  pub max_age : Duration

-- `DefaultCredentialPolicy`
abbrev pub default_credential_policy : CredentialPolicy
default_credential_policy = record { history_depth = pos 12; max_age = hours (180 * 24) }

-- `CredentialPolicy.Validate`
unfoldable pub validate_credential_policy : CredentialPolicy → Result DomainError (Unit {0})
validate_credential_policy p =
    reject_if (ltb_ℤ p.history_depth (pos 0) || ltb_ℤ p.max_age (pos 0)) invalid_credential_policy

-- `expiryFrom`; a maximal age of 0 means that passwords never expire.
unfoldable pub expiry_from : CredentialPolicy → Time → Option Time
expiry_from p t = if is_zero_int p.max_age then none else some (add t p.max_age)

pub record AttemptContext : Type 0 where
  pub company_code : String
  pub ip : IpAddr
  pub user_agent : String
  pub device_fingerprint : String
