-- ===== src/Domain/Credential/Reuse.antt =====
-- The rule against the reuse of passwords in internal/domain/credential.go, over any calls of a
-- credential.
use araquanid.Domain.Credential.Lockout.{lifted}
use araquanid.Domain.Credential.Validity.{IsValidWithRoom}
use araquanid.Domain.Policy.{CredentialPolicy, validate_credential_policy}
use araquanid.Common.Result.{ok}
use araquanid.Domain.Credential.Recent.{
  IsRecent, Allows, same-IsRecent, ensure_verifiable-IsRecent, attempt-IsRecent, pos_mono,
  change_password-IsRecent, reset_password-IsRecent, >>=-Allows,
}
use araquanid.Domain.Credential.Replacement.{change_password_lem}
use araquanid.Domain.Credential.Outcomes.{
  IsFresh, IsChange, refused_locked, refused_empty, refused_unmatched, refused_known, changed,
}
use araquanid.Domain.Credential.Lifecycle.{
  Call, call, run, survivor, changes, resets, verifies, fails_attempt, succeeds, unlocks, marks,
  pulls, IsDated, run_from-IsValid,
}
use araquanid.Domain.Credential.Change.{mark_force_password_change, change_password}
use araquanid.Domain.Credential.{
  Credential, ensure_verifiable, record_successful_verification, admin_unlock, pull_events, unlock,
  is_locked,
}
use araquanid.Domain.Password.{PasswordHash, is_zero_hash}
use araquanid.Domain.Fault.{DomainError, password_reused, account_is_locked}
use araquanid.Common.{
  ℕ, suc, ◌+◌, ◌≤◌, none, some, Option-cases, List, [], ◌∷◌, All, Bool, true, false, inl, inr, ◌≡◌,
  sym, ap, ◌∙◌, arith, String, ◌⊎◌, zero, refl, Option, get_elem?, length,
}
use araquanid.Common.Int.{pos, ◌≤ℤ◌}
use araquanid.Common.Time.{Time}
use araquanid.Common.Method.{Outcome, returns, fails, panics}
use mathlib.Core.Path.{subst}

-- The calls that may set a password, counted.
abbrev pub count_sets : List Call → ℕ
count_sets [] = 0
count_sets (changes new_hash is_reuse by policy now ∷ xs) = suc (count_sets xs)
count_sets (resets new_hash is_reuse policy now ∷ xs) = suc (count_sets xs)
count_sets (_ ∷ xs) = count_sets xs

-- A call that may set a password does so under a policy that remembers at least `n`.
abbrev pub HasDepth : ℕ → Call → Type 0
HasDepth n (changes new_hash is_reuse by policy now) = pos n ≤ℤ policy.history_depth
HasDepth n (resets new_hash is_reuse policy now) = pos n ≤ℤ policy.history_depth
HasDepth n _ = Unit

verification-IsRecent :
    (h : PasswordHash) (k : ℕ) (now : Time) (c : Credential)
    → IsRecent h k c
    → Allows (IsRecent h k) (record_successful_verification now c)
unfolding record_successful_verification
verification-IsRecent h k now c r =
    >>=-Allows (IsRecent h k) (IsRecent h k) (ensure_verifiable now) _ c
      (ensure_verifiable-IsRecent h k now c r) (λ d q. q) (λ _ d q. q)

admin_unlock_same :
    (by : String) (now : Time) (c : Credential)
    → Allows (λ d. (d.password ≡ c.password) × (d.history ≡ c.history)) (admin_unlock by now c)
unfolding admin_unlock unlock
admin_unlock_same by now c = ground arith

mark_same :
    (by : String) (now : Time) (c : Credential)
    → Allows
        (λ d. (d.password ≡ c.password) × (d.history ≡ c.history))
        (mark_force_password_change by now c)
unfolding mark_force_password_change
mark_same by now c = ground arith

-- One call makes a password older by one place at most.
call-IsRecent :
    (h : PasswordHash) (k n : ℕ) (x : Call) (xs : List Call) (c : Credential)
    → k + count_sets (x ∷ xs) ≤ n
    → HasDepth n x
    → IsRecent h k c
    → (l : ℕ) × (l + count_sets xs ≤ n) × Allows (IsRecent h l) (call x c)
unfolding call pull_events
call-IsRecent h k n (verifies now) xs c b d r = (k, b, ensure_verifiable-IsRecent h k now c r)
call-IsRecent h k n (fails_attempt attempt policy now) xs c b d r =
    (k, b, attempt-IsRecent h k attempt policy now c r)
call-IsRecent h k n (succeeds now) xs c b d r = (k, b, verification-IsRecent h k now c r)
call-IsRecent h k n (unlocks by now) xs c b d r =
    (k, b, same-IsRecent h k c (admin_unlock by now c) r (admin_unlock_same by now c))
call-IsRecent h k n (changes new_hash is_reuse by policy now) xs c b d r = (
  suc k,
  omega (arith, b),
  change_password-IsRecent h new_hash is_reuse by k policy now c
      (pos_mono (suc k) n policy.history_depth (omega (arith, b)) d) r,
)
call-IsRecent h k n (resets new_hash is_reuse policy now) xs c b d r = (
  suc k,
  omega (arith, b),
  reset_password-IsRecent h new_hash is_reuse k policy now c
      (pos_mono (suc k) n policy.history_depth (omega (arith, b)) d) r,
)
call-IsRecent h k n (marks by now) xs c b d r =
    (k, b, same-IsRecent h k c (mark_force_password_change by now c) r (mark_same by now c))
call-IsRecent h k n pulls xs c b d r = (k, b, r)

some-injective : {A : Type 0} {a b : A} → some a ≡ some b → a ≡ b
some-injective {A} {a} e = ap (or_else a) e
  where
    or_else : A → Option A → A
    or_else x none = x
    or_else x (some y) = y

survivor-Allows :
    (Q : Credential → Type 0) (o : Outcome Credential DomainError (Unit {0})) (d : Credential)
    → survivor o ≡ some d
    → Allows Q o
    → Q d
survivor-Allows Q (returns a s) d e q = subst Q (some-injective e) q
survivor-Allows Q (fails a s) d e q = subst Q (some-injective e) q
survivor-Allows Q panics d e q = cc

run-IsRecent :
    (h : PasswordHash) (k n : ℕ) (xs : List Call) (c d : Credential)
    → k + count_sets xs ≤ n
    → All (HasDepth n) xs
    → IsRecent h k c
    → run xs c ≡ some d
    → (l : ℕ) × IsRecent h l d
unfolding run
run-IsRecent h k n [] c d b depth r e = (k, subst (IsRecent h k) (some-injective e) r)
run-IsRecent h k n (x ∷ xs) c d b depth r e =
    let (l, b', after) = call-IsRecent h k n x xs c b depth.0 r in
    elim (Option-cases (survivor (call x c))) [
      | inl gone ↦ absurd (none-some (rw (gone, run) at e))
      | inr (t, goes_on) ↦
          run-IsRecent h l n xs t d b' depth.1
            (survivor-Allows (IsRecent h l) (call x c) t goes_on after) (rw (goes_on, run) at e)
    ]
  where
    none-some : none ≡ some d → ⊥
    none-some e = cc

false-true : false ≡ true → ⊥
false-true e = cc

All-get_elem? :
    {A : Type 0} (P : A → Type 0) (xs : List A) (i : ℕ) (a : A)
    → get_elem? xs i ≡ some a
    → All P xs
    → P a
All-get_elem? P [] i a e h = cc
All-get_elem? P (x ∷ xs) zero a e h = subst P (some-injective e) h.0
All-get_elem? P (x ∷ xs) (suc i) a e h = All-get_elem? P xs i a e h.1

IsRecent-IsFresh :
    (matches : PasswordHash → Bool) (h : PasswordHash) (k : ℕ) (c : Credential)
    → matches h ≡ true
    → IsRecent h k c
    → IsFresh matches c
    → ⊥
IsRecent-IsFresh matches h k c m (inl e) (fresh, _) = false-true (sym fresh ∙ ap matches e ∙ m)
IsRecent-IsFresh matches h k c m (inr (i, x, _, there, e)) (_, fresh) =
    false-true (
      sym (All-get_elem? (λ y. matches y.hash ≡ false) c.history i x there fresh)
      ∙ ap matches e
      ∙ m)

refuses_recent :
    (new_hash : PasswordHash) (matches : PasswordHash → Bool) (by : String)
    (policy : CredentialPolicy) (now : Time) (h : PasswordHash) (k : ℕ) (c : Credential)
    → is_zero_hash new_hash ≡ false
    → matches h ≡ true
    → IsRecent h k c
    → IsChange new_hash
        (some matches)
        by
        policy
        now
        c
        (change_password new_hash (some matches) by policy now c)
    → ((is_locked now c ≡ returns true c)
        × (change_password new_hash (some matches) by policy now c ≡ fails account_is_locked c))
      ⊎ (change_password new_hash (some matches) by policy now c ≡ fails password_reused (lifted c))
refuses_recent new_hash matches by policy now h k c given m r (refused_locked held e) =
    inl (held, e)
refuses_recent new_hash matches by policy now h k c given m r (refused_empty free zero_hash e) =
    absurd (false-true (sym given ∙ zero_hash))
refuses_recent new_hash matches by policy now h k c given m r (refused_unmatched free _ without e) =
    cc
refuses_recent new_hash matches by policy now h k c given m r
      (refused_known f free _ same known e) =
    inr e
refuses_recent new_hash matches by policy now h k c given m r
      (changed f change d free _ same fresh type replaced events e) =
    absurd (
      IsRecent-IsFresh matches h k c m r
        (subst (λ g. IsFresh g c) (sym (some-injective same)) fresh))

-- No password comes back too early. Any calls on a well-formed credential with room for them in its
-- counters, with no zero clock for a new password, go by without a panic. If the policies of the changes
-- and the resets among them each remember at least as many passwords as there are such calls, then a
-- change afterwards, under any valid policy, to a hash that is not empty, with a matcher that takes it for
-- the password in use at the start, is refused as reused, or because the credential is locked; nothing
-- but an elapsed lock changes.
pub run-refuses_reuse :
    (xs : List Call) (c : Credential) (new_hash : PasswordHash) (matches : PasswordHash → Bool)
    (by : String) (policy : CredentialPolicy) (now : Time)
    → IsValidWithRoom (length xs) (length xs) c
    → All IsDated xs
    → All (HasDepth (count_sets xs)) xs
    → validate_credential_policy policy ≡ ok tt
    → is_zero_hash new_hash ≡ false
    → matches c.password ≡ true
    → (d : Credential) × (run xs c ≡ some d)
      × (((is_locked now d ≡ returns true d)
            × (change_password new_hash (some matches) by policy now d ≡ fails account_is_locked d))
          ⊎ (change_password new_hash (some matches) by policy now d
              ≡ fails password_reused (lifted d)))
run-refuses_reuse xs c new_hash matches by policy now v dated depth p given m =
    let (d, e, w) = run_from-IsValid xs c dated v in
    let (l, r) =
      run-IsRecent c.password 0 (count_sets xs) xs c d (omega arith) depth (inl refl) e in
    (
      d,
      e,
      refuses_recent new_hash matches by policy now c.password l d given m r
          (change_password_lem new_hash (some matches) by policy now d p w),
    )
