-- ===== src/Domain/Credential/Threshold.antt =====
-- Runs of failed attempts (RecordFailedAttempt of internal/domain/credential.go): the threshold, the
-- window, and the escalation of the lock that the last failure sets.
use native.Mathlib.Nat.{add-zero}
use mathlib.Core.Path.{subst}
use araquanid.Domain.Credential.Lockout.{ensure_verifiable_unlocked, lock_lem}
use araquanid.Common.Method.{state_after, ◌>>=◌, on_error, returns}
use araquanid.Common.Time.{Time, sub, add}
use araquanid.Domain.Credential.{
  record_failed_attempt, count_failure, is_stale, Credential, lock_at_threshold, lock,
}
use araquanid.Domain.Policy.{AttemptContext, LockoutPolicy, validate_lockout_policy}
use araquanid.Common.{
  ◌∷◌, if◌then◌else◌, ◌≡◌, ◌<◌, ◌+◌, none, some, [], ℕ, List, Option, false, arith, ◌≤◌, ◌∙◌,
  length, suc, inl, inr, sym, get_elem?, Option-cases, ◌++◌,
}
use araquanid.Domain.Kinds.{unlocked, IpAddr, locked_permanent, locked_temporary, LockoutStatus}
use araquanid.Common.Int.{pos, ◌≤ℤ◌, increment, max_int}
use araquanid.Common.Result.{ok}

abbrev pub Attempt : Type 0
Attempt = AttemptContext × Time

-- The credential after failed attempts in a row; the errors go to the callers.
unfoldable pub fail_all : LockoutPolicy → List Attempt → Credential → Credential
fail_all policy [] c = c
fail_all policy ((attempt, now) ∷ rest) c =
    fail_all policy rest (state_after c (record_failed_attempt attempt policy now c))

abbrev pub IsWithinWindow : LockoutPolicy → Option Time → Time → Type 0
IsWithinWindow policy none now = Unit
IsWithinWindow policy (some last) now = sub now last ≤ℤ policy.window

-- No two failures in a row lie further apart than the window.
abbrev pub AreConsecutive : LockoutPolicy → Option Time → List Attempt → Type 0
AreConsecutive policy last [] = Unit
AreConsecutive policy last ((attempt, now) ∷ rest) =
    IsWithinWindow policy last now × AreConsecutive policy (some now) rest

-- On an unlocked credential the attempt is counted, and the threshold is looked at.
pub record_failed_attempt_unlocked :
    (attempt : AttemptContext) (policy : LockoutPolicy) (now : Time) (c : Credential)
    → validate_lockout_policy policy ≡ ok tt
    → c.lockout_status ≡ unlocked
    → record_failed_attempt attempt policy now c
      ≡ lock_at_threshold policy attempt.ip now (count_failure attempt policy now c)
unfolding record_failed_attempt
record_failed_attempt_unlocked attempt policy now c p u =
    rw (p, record_failed_attempt) (rw (ensure_verifiable_unlocked now c u, ◌>>=◌, on_error))

-- A failure that follows the last one by more than the window starts the count anew; any other, the
-- first one included, adds one to it. The lock is left alone.
pub count_failure_lem :
    (attempt : AttemptContext) (policy : LockoutPolicy) (now : Time) (c : Credential)
    → let c' = count_failure attempt policy now c in
      (c'.failed_attempt_count
        ≡ (if is_stale policy now c then pos 1 else increment c.failed_attempt_count))
      × (c'.last_failed_at ≡ some now)
      × (c'.lockout_status ≡ c.lockout_status)
      × (c'.lockout_history_count ≡ c.lockout_history_count)
unfolding count_failure
count_failure_lem attempt policy now c = ground arith

is_stale_within :
    (policy : LockoutPolicy) (now : Time) (c : Credential)
    → IsWithinWindow policy c.last_failed_at now
    → is_stale policy now c ≡ false
unfolding is_stale
is_stale_within policy now c h = ground arith

-- An unlocked credential with `k` consecutive failures and `n` locks in the past.
pub record IsCounting (k n : ℕ) (c : Credential) : Type 0 where
  pub open_now : c.lockout_status ≡ unlocked
  pub failures : c.failed_attempt_count ≡ pos k
  pub locks : c.lockout_history_count ≡ pos n

count_failure-IsCounting :
    (attempt : AttemptContext) (policy : LockoutPolicy) (now : Time) (k n : ℕ) (c : Credential)
    → IsCounting k n c
    → k < max_int
    → IsWithinWindow policy c.last_failed_at now
    → IsCounting (k + 1) n (count_failure attempt policy now c)
      × ((count_failure attempt policy now c).last_failed_at ≡ some now)
count_failure-IsCounting attempt policy now k n c i h w =
    ground (arith, count_failure_lem attempt policy now c, is_stale_within policy now c w)

-- The lock that comes after `n` locks in the past: its status, and when it ends.
abbrev pub lock_status : LockoutPolicy → ℕ → LockoutStatus
lock_status policy n = elim (get_elem? policy.temporary_durations n) [
  | some d ↦ locked_temporary
  | none ↦ locked_permanent
]

abbrev pub lock_end : LockoutPolicy → ℕ → Time → Option Time
lock_end policy n now = elim (get_elem? policy.temporary_durations n) [
  | some d ↦ some (add now d)
  | none ↦ none
]

-- Locked just now, for the time after the one at index `n` of the past locks.
pub record IsNewlyLocked (policy : LockoutPolicy) (n : ℕ) (now : Time) (c : Credential)
    : Type 0 where
  pub status : c.lockout_status ≡ lock_status policy n
  pub until : c.locked_until ≡ lock_end policy n now
  pub at : c.locked_at ≡ some now
  pub locks : c.lockout_history_count ≡ pos (n + 1)
  pub failures : c.failed_attempt_count ≡ policy.threshold

AreConsecutive-init :
    (policy : LockoutPolicy) (last : Option Time) (attempts more : List Attempt)
    → AreConsecutive policy last (attempts ++ more)
    → AreConsecutive policy last attempts
AreConsecutive-init policy last [] more w = tt
AreConsecutive-init policy last ((attempt, now) ∷ rest) more (near, w) =
    (near, AreConsecutive-init policy (some now) rest more w)

module _ (policy : LockoutPolicy) (m : ℕ) (valid : validate_lockout_policy policy ≡ ok tt)
    (threshold : policy.threshold ≡ pos m) (in_range : m ≤ max_int) where
  lock_at_threshold_below :
      (ip : IpAddr) (now : Time) (k n : ℕ) (c : Credential)
      → IsCounting k n c
      → k < m
      → lock_at_threshold policy ip now c ≡ returns tt c
  unfolding lock_at_threshold
  lock_at_threshold_below ip now k n c i h = ground arith

  lock_at_threshold_reached :
      (ip : IpAddr) (now : Time) (n : ℕ) (c : Credential)
      → IsCounting m n c
      → lock_at_threshold policy ip now c ≡ lock policy ip now c
  unfolding lock_at_threshold
  lock_at_threshold_reached ip now n c i = ground arith

  attempt_below :
      (attempt : AttemptContext) (now : Time) (k n : ℕ) (c : Credential)
      → IsCounting k n c
      → k + 1 < m
      → IsWithinWindow policy c.last_failed_at now
      → record_failed_attempt attempt policy now c ≡ returns tt (count_failure attempt policy now c)
  attempt_below attempt now k n c i h w =
      record_failed_attempt_unlocked attempt policy now c valid i.open_now
      ∙ lock_at_threshold_below attempt.ip now (k + 1) n (count_failure attempt policy now c)
          (count_failure-IsCounting attempt policy now k n c i (omega arith) w).0 h

  attempt_reached :
      (attempt : AttemptContext) (now : Time) (k n : ℕ) (c : Credential)
      → IsCounting k n c
      → k + 1 ≡ m
      → IsWithinWindow policy c.last_failed_at now
      → record_failed_attempt attempt policy now c
        ≡ lock policy attempt.ip now (count_failure attempt policy now c)
  attempt_reached attempt now k n c i h w =
      let j = (count_failure-IsCounting attempt policy now k n c i (omega arith) w).0 in
      record_failed_attempt_unlocked attempt policy now c valid i.open_now
      ∙ lock_at_threshold_reached attempt.ip now n (count_failure attempt policy now c)
          (subst (λ q. IsCounting q n (count_failure attempt policy now c)) h j)

  fail_all-IsCounting :
      (attempts : List Attempt) (k n : ℕ) (c : Credential)
      → IsCounting k n c
      → k + length attempts < m
      → AreConsecutive policy c.last_failed_at attempts
      → IsCounting (k + length attempts) n (fail_all policy attempts c)
  unfolding fail_all
  fail_all-IsCounting [] k n c i h w = subst (λ q. IsCounting q n c) (sym (add-zero k)) i
  fail_all-IsCounting ((attempt, now) ∷ rest) k n c i h (near, w) =
      let c' = count_failure attempt policy now c in
      let (j, last) = count_failure-IsCounting attempt policy now k n c i (omega arith) near in
      let counted =
        fail_all-IsCounting rest (k + 1) n c' j (omega arith)
          (subst (λ l. AreConsecutive policy l rest) (sym last) w) in
      subst (λ o. IsCounting (k + suc (length rest)) n (fail_all policy rest (state_after c o)))
        (sym (attempt_below attempt now k n c i (omega arith) near))
        (subst (λ q. IsCounting q n (fail_all policy rest c')) (omega arith) counted)

  lock-IsNewlyLocked :
      (ip : IpAddr) (now : Time) (n : ℕ) (b c : Credential)
      → IsCounting m n c
      → n < max_int
      → IsNewlyLocked policy n now (state_after b (lock policy ip now c))
  lock-IsNewlyLocked ip now n b c i h =
      rw (lock_lem policy ip now n c i.locks h)
        (elim (Option-cases (get_elem? policy.temporary_durations n)) [
          | inl out ↦ rw out (ground (arith, out))
          | inr (d, found) ↦ rw found (ground (arith, found))
        ])

  fail_all-lock :
      (attempts : List Attempt) (attempt : AttemptContext) (now : Time) (k n : ℕ) (c : Credential)
      → IsCounting k n c
      → k + length attempts + 1 ≡ m
      → n < max_int
      → AreConsecutive policy c.last_failed_at (attempts ++ (attempt, now) ∷ [])
      → IsNewlyLocked policy n now (fail_all policy (attempts ++ (attempt, now) ∷ []) c)
  unfolding fail_all
  fail_all-lock [] attempt now k n c i h r (near, w) =
      let (j, _) = count_failure-IsCounting attempt policy now k n c i (omega arith) near in
      subst (λ o. IsNewlyLocked policy n now (state_after c o))
        (sym (attempt_reached attempt now k n c i (omega arith) near))
        (lock-IsNewlyLocked attempt.ip now n c (count_failure attempt policy now c)
          (subst (λ q. IsCounting q n (count_failure attempt policy now c)) (omega arith) j) r)
  fail_all-lock ((attempt', now') ∷ rest) attempt now k n c i h r (near, w) =
      let c' = count_failure attempt' policy now' c in
      let (j, last) = count_failure-IsCounting attempt' policy now' k n c i (omega arith) near in
      subst
        (λ o.
          IsNewlyLocked policy n now
            (fail_all policy (rest ++ (attempt, now) ∷ []) (state_after c o)))
        (sym (attempt_below attempt' now' k n c i (omega arith) near))
        (fail_all-lock rest attempt now (k + 1) n c' j (omega arith) r
          (subst (λ l. AreConsecutive policy l (rest ++ (attempt, now) ∷ [])) (sym last) w))

-- Failures that follow one another within the window lock the credential at the threshold of the
-- policy and not before: one short of it the credential is unlocked, and the failure that reaches it
-- sets the lock that the policy has for the number of locks in the past, temporary with the duration
-- at that index from the instant of the failure, or permanent if the durations are used up. The
-- threshold and the number of locks are within the range of an `int`.
pub fail_all_locks_at_threshold :
    (policy : LockoutPolicy) (m k n : ℕ) (attempts : List Attempt) (attempt : AttemptContext)
    (now : Time) (c : Credential)
    → validate_lockout_policy policy ≡ ok tt
    → policy.threshold ≡ pos m
    → m ≤ max_int
    → n < max_int
    → IsCounting k n c
    → k + length attempts + 1 ≡ m
    → AreConsecutive policy c.last_failed_at (attempts ++ (attempt, now) ∷ [])
    → ((fail_all policy attempts c).lockout_status ≡ unlocked)
      × IsNewlyLocked policy n now (fail_all policy (attempts ++ (attempt, now) ∷ []) c)
fail_all_locks_at_threshold policy m k n attempts attempt now c p t h r i e w = (
  (fail_all-IsCounting policy m p t h attempts k n c i (omega arith)
      (AreConsecutive-init policy c.last_failed_at attempts ((attempt, now) ∷ []) w)).open_now,
  fail_all-lock policy m p t h attempts attempt now k n c i e r w,
)
