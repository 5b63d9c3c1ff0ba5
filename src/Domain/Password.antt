-- ===== src/Domain/Password.antt =====
-- PasswordHash of internal/domain/credential.go: an immutable, already hashed password.
use araquanid.Common.{String, Bool, true, false, not, ◌&&◌, is_empty, ◌==◌}
use araquanid.Common.Int.{ℤ, pos, negsuc, ltb_ℤ}
use araquanid.Common.Result.{Result, ok, reject_if, ◌>>◌}
use araquanid.Domain.Fault.{
  DomainError, invalid_password_hash, hash_required, salt_required, unknown_algorithm,
  version_too_low,
}

-- `PasswordAlgorithm`; any other text, the empty one included, is `other_algorithm`.
pub data PasswordAlgorithm : Type 0 where
  argon2id bcrypt : PasswordAlgorithm
  other_algorithm : String → PasswordAlgorithm

abbrev pub is_valid_algorithm : PasswordAlgorithm → Bool
is_valid_algorithm (other_algorithm s) = false
is_valid_algorithm _ = true

abbrev pub is_no_algorithm : PasswordAlgorithm → Bool
is_no_algorithm (other_algorithm s) = is_empty s
is_no_algorithm _ = false

pub record PasswordHash : Type 0 where
  pub hash : String
  pub salt : String
  pub algorithm : PasswordAlgorithm
  pub version : ℤ

abbrev pub is_zero_int : ℤ → Bool
is_zero_int (pos n) = n == 0
is_zero_int (negsuc n) = false

-- `NewPasswordHash`
unfoldable pub new_password_hash :
    String → String → PasswordAlgorithm → ℤ → Result DomainError PasswordHash
new_password_hash hash salt alg version = do
  reject_if (is_empty hash) (invalid_password_hash hash_required)
  reject_if (is_empty salt) (invalid_password_hash salt_required)
  reject_if (not (is_valid_algorithm alg)) (invalid_password_hash unknown_algorithm)
  reject_if (ltb_ℤ version (pos 1)) (invalid_password_hash version_too_low)
  ok (record { hash = hash; salt = salt; algorithm = alg; version = version })

-- `PasswordHash.IsZero`
abbrev pub is_zero_hash : PasswordHash → Bool
is_zero_hash h =
    is_empty h.hash && is_empty h.salt && is_no_algorithm h.algorithm && is_zero_int h.version
