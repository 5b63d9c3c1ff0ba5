-- ===== src/Domain/Credential/Tests.antt =====
-- Concrete credentials of internal/domain/credential.go: runs of the methods, and the theorems of the
-- sibling files on inputs that meet their conditions.
use araquanid.Domain.Credential.Reuse.{run-refuses_reuse}
use araquanid.Common.Text.{same_text}
use araquanid.Domain.Credential.Lockout.{lifted}
use araquanid.Domain.Credential.Replacement.{change_password_lem}
use araquanid.Domain.Credential.Outcomes.{IsChange}
use araquanid.Domain.Credential.Permanent.{IsFrozen, run-IsFrozen}
use araquanid.Domain.Credential.RoundTrip.{
  rehydrate_credential-snapshot, snapshot-rehydrate_credential,
}
use araquanid.Domain.Credential.Validity.{IsValid, HasRoom}
use araquanid.Domain.Credential.Threshold.{
  fail_all, Attempt, IsNewlyLocked, fail_all_locks_at_threshold,
}
use araquanid.Domain.Credential.Change.{PasswordMatcher, change_password}
use araquanid.Domain.Policy.{
  AttemptContext, validate_lockout_policy, validate_credential_policy, default_credential_policy,
  default_lockout_policy,
}
use araquanid.Domain.Credential.{
  Credential, is_locked, record_failed_attempt, count_failure, ensure_verifiable, lock_at_threshold,
}
use araquanid.Domain.Credential.Creation.{
  NewCredentialParams, new_credential, rehydrate_credential, CredentialSnapshot, snapshot,
  restored_credential,
}
use araquanid.Common.Time.{Time}
use araquanid.Common.{
  ◌+◌, ◌≡◌, ◌*◌, ◌++◌, ◌∷◌, ◌⊎◌, refl, none, some, [], ℕ, String, List, false, arith, true, length,
  Bool,
}
use araquanid.Common.Int.{pos, ◌≤ℤ◌}
use araquanid.Domain.Password.{argon2id, PasswordHash}
use araquanid.Domain.Fault.{account_is_locked, password_reused}
use araquanid.Common.Result.{ok}
use araquanid.Common.Method.{fails, returns}
use araquanid.Domain.Credential.Lifecycle.{
  marks, succeeds, fails_attempt, changes, pulls, Call, run, run_survives,
}
use araquanid.Domain.Kinds.{unlocked, locked_permanent, ip4, locked_temporary}

abbrev minute : ℕ
minute = 60_000_000_000

abbrev noon : Time
noon = 10_000_000_000_000_000_000_000_000_000

abbrev password_of : String → PasswordHash
password_of s = record { hash = s; salt = "salt"; algorithm = argon2id; version = pos 1 }

abbrev params : NewCredentialParams
params = record {
  id = "c-1";
  identity = "u-1";
  password = password_of "first";
  policy = default_credential_policy;
  force_change = false;
  now = noon;
}

abbrev credential : Credential
credential = record {
  id = "c-1";
  identity = "u-1";
  password = password_of "first";
  password_created_at = noon;
  password_expires_at = some (noon + 259_200 * minute);
  force_password_change = false;
  failed_attempt_count = pos 0;
  last_failed_at = none;
  lockout_status = unlocked;
  locked_at = none;
  locked_until = none;
  lockout_history_count = pos 0;
  history = [];
  events = [];
}

abbrev attempt : AttemptContext
attempt = record {
  company_code = "ACME";
  ip = ip4 10 0 0 1;
  user_agent = "curl/8.0";
  device_fingerprint = "f";
}

abbrev temporarily_locked : Credential
temporarily_locked = record credential {
  lockout_status = locked_temporary;
  locked_at = some noon;
  locked_until = some (noon + 30 * minute);
  failed_attempt_count = pos 5;
  last_failed_at = some noon;
  lockout_history_count = pos 1;
}

abbrev permanently_locked : Credential
permanently_locked = record credential {
  lockout_status = locked_permanent;
  locked_at = some noon;
  failed_attempt_count = pos 5;
  last_failed_at = some noon;
  lockout_history_count = pos 3;
}

-- Five failures, a minute apart.
abbrev four_failures : List Attempt
four_failures =
    (attempt, noon + minute)
    ∷ (attempt, noon + 2 * minute)
    ∷ (attempt, noon + 3 * minute)
    ∷ (attempt, noon + 4 * minute)
    ∷ []

-- The matchers that know every hash, and none.
abbrev always : PasswordMatcher
always = some (λ h. true)

abbrev never : PasswordMatcher
never = some (λ h. false)

abbrev life : List Call
life =
    fails_attempt attempt default_lockout_policy (noon + minute)
    ∷ succeeds (noon + 2 * minute)
    ∷ marks "admin" (noon + 3 * minute)
    ∷ changes (password_of "second") never "u-1" default_credential_policy (noon + 4 * minute)
    ∷ pulls
    ∷ []

credential_is_created : new_credential params ≡ ok credential
unfolding new_credential
credential_is_created = refl

five_failures_lock :
    (fail_all default_lockout_policy
      (four_failures ++ (attempt, noon + 5 * minute) ∷ [])
      credential).locked_until
    ≡ some (noon + 35 * minute)
unfolding fail_all record_failed_attempt validate_lockout_policy ensure_verifiable count_failure
    lock_at_threshold
five_failures_lock = refl

credential-IsValid : IsValid credential
credential-IsValid = record {
  named = refl;
  owned = refl;
  secured = refl;
  dated = refl;
  counted = omega arith;
  escalated = omega arith;
  locked = (refl, refl);
  remembered = tt;
}

temporarily_locked-IsValid : IsValid temporarily_locked
temporarily_locked-IsValid = record {
  named = refl;
  owned = refl;
  secured = refl;
  dated = refl;
  counted = omega arith;
  escalated = omega arith;
  locked = (refl, refl, omega arith);
  remembered = tt;
}

credential-HasRoom : HasRoom 2 2 credential
credential-HasRoom = record { failures = omega arith; locks = omega arith }

lockout_policy_is_valid : validate_lockout_policy default_lockout_policy ≡ ok tt
unfolding validate_lockout_policy
lockout_policy_is_valid = refl

credential_policy_is_valid : validate_credential_policy default_credential_policy ≡ ok tt
unfolding validate_credential_policy
credential_policy_is_valid = refl

is_locked_at_noon : is_locked noon temporarily_locked ≡ returns true temporarily_locked
unfolding is_locked
is_locked_at_noon = refl

is_open_later : is_locked (noon + 40 * minute) temporarily_locked ≡ returns false temporarily_locked
unfolding is_locked
is_open_later = refl

run_survives_example : (d : Credential) × (run life credential ≡ some d) × IsValid d
run_survives_example =
    run_survives params credential life credential_is_created (tt, (tt, (tt, (refl, (tt, tt)))))
      (omega arith)

fail_all_locks_at_threshold_example :
    ((fail_all default_lockout_policy four_failures credential).lockout_status ≡ unlocked)
    × IsNewlyLocked default_lockout_policy 0 (noon + 5 * minute) (
        fail_all default_lockout_policy
          (four_failures ++ (attempt, noon + 5 * minute) ∷ [])
          credential)
fail_all_locks_at_threshold_example =
    fail_all_locks_at_threshold default_lockout_policy 5 0 0 four_failures attempt
      (noon + 5 * minute) credential lockout_policy_is_valid refl (omega arith) (omega arith)
      (record { open_now = refl; failures = refl; locks = refl }) refl
      (tt, (omega arith, (omega arith, (omega arith, (omega arith, tt)))))

change_password_lem_example :
    IsChange
      (password_of "second")
      never
      "u-1"
      default_credential_policy
      noon
      credential
      (change_password (password_of "second") never "u-1" default_credential_policy noon credential)
change_password_lem_example =
    change_password_lem (password_of "second") never "u-1" default_credential_policy noon credential
      credential_policy_is_valid credential-IsValid

abbrev is_first : PasswordHash → Bool
is_first h = same_text h.hash "first"

long-HasRoom : HasRoom (length life) (length life) credential
long-HasRoom = record { failures = omega arith; locks = omega arith }

run-refuses_reuse_example :
    (d : Credential) × (run life credential ≡ some d)
    × (((is_locked (noon + 5 * minute) d ≡ returns true d)
          × (change_password
                (password_of "first")
                (some is_first)
                "u-1"
                default_credential_policy
                (noon + 5 * minute)
                d
              ≡ fails account_is_locked d))
        ⊎ (change_password
              (password_of "first")
              (some is_first)
              "u-1"
              default_credential_policy
              (noon + 5 * minute)
              d
            ≡ fails password_reused (lifted d)))
run-refuses_reuse_example =
    run-refuses_reuse life credential (password_of "first") is_first "u-1" default_credential_policy
      (noon + 5 * minute) (credential-IsValid, long-HasRoom) (tt, (tt, (tt, (refl, (tt, tt)))))
      (tt, (tt, (tt, (omega arith, (tt, tt))))) credential_policy_is_valid refl refl

rehydrate_credential-snapshot_example :
    rehydrate_credential (snapshot temporarily_locked) default_credential_policy
    ≡ ok (record temporarily_locked { events = [] })
rehydrate_credential-snapshot_example =
    rehydrate_credential-snapshot default_credential_policy temporarily_locked
      credential_policy_is_valid temporarily_locked-IsValid (omega arith)

abbrev stored : CredentialSnapshot
stored = record {
  id = "c-1";
  identity_id = "u-1";
  password = password_of "second";
  password_created_at = noon;
  password_expires_at = none;
  force_password_change = true;
  failed_attempt_count = pos 2;
  last_failed_at = some noon;
  lockout_status = locked_permanent;
  locked_at = some noon;
  locked_until = none;
  lockout_history_count = pos 3;
  history = record { hash = password_of "first"; created_at = noon } ∷ [];
}

stored_is_accepted :
    rehydrate_credential stored default_credential_policy ≡ ok (restored_credential stored)
unfolding rehydrate_credential
stored_is_accepted = refl

snapshot-rehydrate_credential_example :
    IsValid (restored_credential stored)
    × (pos (length (restored_credential stored).history) ≤ℤ default_credential_policy.history_depth)
    × (snapshot (restored_credential stored) ≡ stored)
    × ((restored_credential stored).events ≡ [])
snapshot-rehydrate_credential_example =
    snapshot-rehydrate_credential default_credential_policy stored (restored_credential stored)
      stored_is_accepted

run-IsFrozen_example :
    (d : Credential) × (run life permanently_locked ≡ some d) × IsFrozen permanently_locked d
run-IsFrozen_example = run-IsFrozen life permanently_locked refl (tt, (tt, (tt, (tt, (tt, tt)))))
