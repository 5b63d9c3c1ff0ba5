-- ===== src/Domain/Credential/Validity.antt =====
-- The well-formedness of a credential, in terms of its fields: what RehydrateCredential of
-- internal/domain/credential.go demands of a stored one. Creation gives it, and every method keeps it
-- and does not panic.
use araquanid.Domain.Policy.{LockoutPolicy, AttemptContext}
use araquanid.Common.Method.{Leaves}
use araquanid.Common.Time.{Time, is_zero, Duration, add}
use araquanid.Domain.Password.{is_zero_hash}
use araquanid.Domain.Credential.Creation.{
  check_credential_params, NewCredentialParams, initial_credential,
}
use araquanid.Domain.Credential.{
  PasswordHistoryEntry, Credential, unlock, ensure_verifiable, lock, count_failure,
  lock_at_threshold, set_lock,
}
use araquanid.Common.{
  ◌≡◌, none, Option, is_empty, String, false, arith, is_none, All, some, List, length, suc,
  get_elem?-lt, ◌-◌, zero, inl, inr, Bool-cases, refl, ◌+◌, ◌≤◌, ℕ,
}
use araquanid.Common.Int.{
  pos, ◌≤ℤ◌, max_int, ℤ, negsuc, index, decrement, increment, leb_ℤ, leb_ℤ→≤ℤ, pos_part,
}
use araquanid.Common.Result.{ok}
use araquanid.Domain.Kinds.{
  other_lockout, unlocked, locked_permanent, locked_temporary, LockoutStatus, IpAddr,
}

-- The timestamps and the count of the locks fit the lockout status.
abbrev pub FitsLock : LockoutStatus → Option Time → Option Time → ℤ → Type 0
FitsLock unlocked at until n = (at ≡ none) × (until ≡ none)
FitsLock locked_temporary at until n = (is_none at ≡ false) × (is_none until ≡ false) × (pos 1 ≤ℤ n)
FitsLock locked_permanent at until n = (is_none at ≡ false) × (until ≡ none) × (pos 1 ≤ℤ n)
FitsLock (other_lockout s) at until n = ⊥

abbrev pub IsRemembered : PasswordHistoryEntry → Type 0
IsRemembered e = is_zero_hash e.hash ≡ false

pub record IsValid (c : Credential) : Type 0 where
  pub named : is_empty c.id ≡ false
  pub owned : is_empty c.identity ≡ false
  pub secured : is_zero_hash c.password ≡ false
  pub dated : is_zero c.password_created_at ≡ false
  pub counted : pos 0 ≤ℤ c.failed_attempt_count
  pub escalated : pos 0 ≤ℤ c.lockout_history_count
  pub locked : FitsLock c.lockout_status c.locked_at c.locked_until c.lockout_history_count
  pub remembered : All IsRemembered c.history

-- The failures can go up by `k` and the locks by `j` before the counter, an `int`, wraps round.
pub record HasRoom (k j : ℕ) (c : Credential) : Type 0 where
  pub failures : pos_part c.failed_attempt_count + k ≤ max_int
  pub locks : pos_part c.lockout_history_count + j ≤ max_int

abbrev pub IsValidWithRoom : ℕ → ℕ → Credential → Type 0
IsValidWithRoom k j c = IsValid c × HasRoom k j c

pub check_credential_params-eq-ok :
    (p : NewCredentialParams)
    → check_credential_params p ≡ ok tt
    → (is_empty p.id ≡ false)
      × (is_empty p.identity ≡ false)
      × (is_zero_hash p.password ≡ false)
      × (is_zero p.now ≡ false)
unfolding check_credential_params
check_credential_params-eq-ok p h = ground arith

pub unlock-IsValid :
    (by : String) (at : Time) (c : Credential) → IsValid c → IsValid (unlock by at c)
unfolding unlock
unlock-IsValid by at c v = ground arith

-- `EnsureVerifiable` on a well-formed credential.
pub ensure_verifiable-IsValid :
    (now : Time) (c : Credential) → IsValid c → Leaves IsValid (ensure_verifiable now c)
unfolding ensure_verifiable
ensure_verifiable-IsValid now c v = ground arith

pub ensure_verifiable-IsValidWithRoom :
    (now : Time) (k j : ℕ) (c : Credential)
    → IsValidWithRoom k j c
    → Leaves (IsValidWithRoom k j) (ensure_verifiable now c)
unfolding ensure_verifiable
ensure_verifiable-IsValidWithRoom now k j c v = ground arith

-- Within the list of the temporary durations the escalation finds its entry.
pub escalation_index :
    (ds : List Duration) (n : ℤ)
    → pos 1 ≤ℤ n
    → n ≤ℤ pos (length ds)
    → (d : Duration) × (index ds (decrement n) ≡ some d)
escalation_index ds (pos zero) h k = absurd (omega arith)
escalation_index ds (pos (suc n)) h k =
    let (d, e) = get_elem?-lt ds (suc n - 1) (omega arith) in (d, ground arith)
escalation_index ds (negsuc n) h k = absurd (omega arith)

pub increment_room :
    (n : ℤ) (j : ℕ)
    → pos 0 ≤ℤ n
    → pos_part n + suc j ≤ max_int
    → (pos 1 ≤ℤ increment n) × (pos_part (increment n) + j ≤ max_int)
increment_room n j h k = ground arith

-- The credential as `lock` has counted the new lock.
abbrev counted_lock : Time → Credential → Credential
counted_lock now c = record c {
  lockout_history_count = increment c.lockout_history_count;
  locked_at = some now;
}

set_lock-IsValid :
    (status : LockoutStatus) (until : Option Time) (ip : IpAddr) (now : Time) (c : Credential)
    → IsValid c
    → pos 1 ≤ℤ increment c.lockout_history_count
    → FitsLock status (some now) until (increment c.lockout_history_count)
    → IsValid (set_lock status until ip now (counted_lock now c))
set_lock-IsValid status until ip now c v up fits = record {
  named = v.named;
  owned = v.owned;
  secured = v.secured;
  dated = v.dated;
  counted = v.counted;
  escalated = omega arith;
  locked = fits;
  remembered = v.remembered;
}

lock-IsValid :
    (policy : LockoutPolicy) (ip : IpAddr) (now : Time) (k j : ℕ) (c : Credential)
    → IsValidWithRoom k (suc j) c
    → Leaves (IsValidWithRoom k j) (lock policy ip now c)
unfolding lock
lock-IsValid policy ip now k j c (v, r) =
    let n = increment c.lockout_history_count in
    let ds = policy.temporary_durations in
    let (up, room) = increment_room c.lockout_history_count j v.escalated r.locks in
    elim (Bool-cases (leb_ℤ n (pos (length ds)))) [
      | inl temporary ↦
          let (d, e) = escalation_index ds n up (leb_ℤ→≤ℤ n (pos (length ds)) temporary) in
          let until = some (add now d) in
          rw (temporary, e, lock)
            (
              set_lock-IsValid locked_temporary until ip now c v up (refl, refl, up),
              record { failures = r.failures; locks = room },
            )
      | inr permanent ↦
          rw (permanent, lock)
            (
              set_lock-IsValid locked_permanent none ip now c v up (refl, refl, up),
              record { failures = r.failures; locks = room },
            )
    ]

pub count_failure-IsValid :
    (attempt : AttemptContext) (policy : LockoutPolicy) (now : Time) (k j : ℕ) (c : Credential)
    → IsValidWithRoom (suc k) j c
    → IsValidWithRoom k j (count_failure attempt policy now c)
unfolding count_failure
count_failure-IsValid attempt policy now k j c (v, r) = ground arith

pub HasRoom-weaken :
    (k j : ℕ) (c : Credential) → IsValidWithRoom k (suc j) c → IsValidWithRoom k j c
HasRoom-weaken k j c (v, r) = (v, record { failures = r.failures; locks = omega (arith, r.locks) })

pub lock_at_threshold-IsValid :
    (policy : LockoutPolicy) (ip : IpAddr) (now : Time) (k j : ℕ) (c : Credential)
    → IsValidWithRoom k (suc j) c
    → Leaves (IsValidWithRoom k j) (lock_at_threshold policy ip now c)
unfolding lock_at_threshold
lock_at_threshold-IsValid policy ip now k j c v =
    elim (Bool-cases (leb_ℤ policy.threshold c.failed_attempt_count)) [
      | inl reached ↦ rw (reached, lock_at_threshold) (lock-IsValid policy ip now k j c v)
      | inr below ↦ rw (below, lock_at_threshold) (HasRoom-weaken k j c v)
    ]

pub initial_credential-IsValid :
    (p : NewCredentialParams) → check_credential_params p ≡ ok tt → IsValid (initial_credential p)
unfolding initial_credential
initial_credential-IsValid p h =
    let (named, owned, secured, dated) = check_credential_params-eq-ok p h in
    record {
      named = named;
      owned = owned;
      secured = secured;
      dated = dated;
      counted = omega arith;
      escalated = omega arith;
      locked = (refl, refl);
      remembered = tt;
    }
