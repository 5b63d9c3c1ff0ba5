-- ===== src/Store/Tests.antt =====
-- The adapters of internal/features/login/repository/db on concrete rows.
use araquanid.Store.Devices.{Registration, find_by_fingerprint, register, registered_row}
use araquanid.Store.Devices.Recognition.{IsBarred, IsRegistered, find_by_fingerprint-register}
use araquanid.Store.Texts.{to_algorithm}
use araquanid.Common.{String, none, some, [], ◌∷◌, ◌≡◌, refl, false, arith, ◌⊎◌}
use araquanid.Common.Int.{pos}
use araquanid.Common.Result.{ok}
use araquanid.Common.Time.{Time}
use araquanid.Domain.Credential.{Credential}
use araquanid.Domain.Kinds.{unlocked}
use araquanid.Domain.Password.{PasswordHash, argon2id}
use araquanid.Domain.Credential.Creation as CredentialSnapshots
use araquanid.Domain.Credential.Validity as CredentialValidity
use araquanid.Store.Credentials.{CredentialRow, save, find_by_identity, save_row, saved_row}
use araquanid.Store.Credentials.RoundTrip.{find_by_identity-save}

abbrev noon : Time
noon = 10_000_000_000_000_000_000_000_000_000

abbrev password : PasswordHash
password = record { hash = "h"; salt = "s"; algorithm = argon2id; version = pos 1 }

-- After one failed attempt.
abbrev credential : Credential
credential = record {
  id = "c-1";
  identity = "u-1";
  password = password;
  password_created_at = noon;
  password_expires_at = none;
  force_password_change = false;
  failed_attempt_count = pos 1;
  last_failed_at = some noon;
  lockout_status = unlocked;
  locked_at = none;
  locked_until = none;
  lockout_history_count = pos 0;
  history = [];
  events = [];
}

abbrev stored_row : CredentialRow
stored_row = record {
  id = "c-1";
  identity_id = "u-1";
  password_hash = "h";
  password_salt = "s";
  password_algorithm = "argon2id";
  password_version = pos 1;
  password_created_at = noon;
  password_expires_at = none;
  force_password_change = false;
  failed_attempt_count = pos 0;
  last_failed_at = none;
  lockout_status = "UNLOCKED";
  locked_at = none;
  locked_until = none;
  lockout_history_count = pos 0;
}

abbrev failed_row : CredentialRow
failed_row = record stored_row { failed_attempt_count = pos 1; last_failed_at = some noon }

abbrev whole_time : Time → Time
whole_time t = t

saved : save whole_time (ok tt) credential (stored_row ∷ []) ≡ ok (failed_row ∷ [])
unfolding save save_row saved_row CredentialSnapshots.snapshot
saved = refl

credential-IsValid : CredentialValidity.IsValid credential
credential-IsValid = record {
  named = refl;
  owned = refl;
  secured = refl;
  dated = refl;
  counted = omega arith;
  escalated = omega arith;
  locked = (refl, refl);
  remembered = tt;
}

argon2id_found : to_algorithm "argon2id" ≡ argon2id
unfolding to_algorithm
argon2id_found = refl

find_by_identity-save_example :
    find_by_identity (ok tt) "u-1" (failed_row ∷ [])
    ≡ ok (record credential { history = []; events = [] })
find_by_identity-save_example =
    find_by_identity-save whole_time (ok tt) credential stored_row (stored_row ∷ [])
      (failed_row ∷ [])
      (record { created = refl; expires = refl; failed = refl; since = refl; until = refl })
      (record {
        same_id = refl;
        same_identity = refl;
        same_algorithm = argon2id_found;
        same_version = refl;
      })
      (record { hashed = refl; salted = refl; supported = refl; versioned = omega arith })
      credential-IsValid refl saved

abbrev drawn : String
drawn = "d-1"

abbrev laptop : Registration
laptop = record {
  id = drawn;
  identity_id = "u-1";
  fingerprint_hash = "abcd";
  fingerprint_version = pos 1;
  display_name = "curl";
  registration_ip = "10.0.0.1";
  now = noon;
}

laptop_is_unknown : find_by_fingerprint (ok tt) "u-1" "abcd" [] ≡ ok none
unfolding find_by_fingerprint
laptop_is_unknown = refl

laptop_is_registered : register (ok tt) laptop [] ≡ ok (drawn, registered_row laptop ∷ [])
unfolding register
laptop_is_registered = refl

find_by_fingerprint-register_example :
    IsRegistered laptop [] drawn (registered_row laptop ∷ [])
    ⊎ IsBarred laptop [] drawn (registered_row laptop ∷ [])
find_by_fingerprint-register_example =
    find_by_fingerprint-register (ok tt) laptop [] (registered_row laptop ∷ []) drawn
      laptop_is_unknown laptop_is_registered
