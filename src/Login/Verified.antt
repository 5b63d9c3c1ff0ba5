-- ===== src/Login/Verified.antt =====
-- A login of internal/features/login/usecase/login.go that succeeds, read backwards to the check of its
-- password.
use araquanid.AppError.{system_database, port_error, wrap}
use mathlib.Core.Path.{subst}
use araquanid.Domain.Fault.{DomainError}
use araquanid.Domain.Credential.{Credential}
use araquanid.Login.Traced.{>>=-eq-ok, ◌>>=◌, call}
use araquanid.Login.Handler.{decide, after_verification}
use araquanid.Login.Steps.{Request, Step, failed, or_wrap}
use araquanid.Login.Ports.{Dependencies, LoginResult, ResolvedIdentity, RegisteredDevice}
use araquanid.Common.{◌≡◌, String, Option, Bool, Any, refl, arith, sym, Any-append}
use araquanid.Login.Transaction.{Action, read_device, read_factors}
use araquanid.Common.Method.{returns, panics, fails, Outcome}
use araquanid.Common.Result.{ok, Result, map_error-eq-ok}

-- The calls of the one are among those of the other.
abbrev pub IsPartOf : Step LoginResult → Step LoginResult → Type 1
IsPartOf m n = (P : Action → Type 0) → Any P m.trace → Any P n.trace

pub part :
    {A : Type 0} (m : Step A) (f : A → Step LoginResult) (r : LoginResult)
    → (m >>= f).result ≡ ok r
    → (a : A) × (m.result ≡ ok a) × ((f a).result ≡ ok r) × IsPartOf (f a) (m >>= f)
part m f r h =
    let (a, e, rest, trace) = >>=-eq-ok m f r h in
    (a, e, rest, λ P k. subst (Any P) (sym trace) (Any-append P m.trace (f a).trace k))

-- The way of a login from the password check to its decision.
pub record Verifies (deps : Dependencies) (r : Request) (i : ResolvedIdentity)
    (o : Outcome Credential DomainError (Unit {0})) (res : LoginResult) (m : Step LoginResult)
    : Type 1 where
  pub verified : Credential
  pub device : Option RegisteredDevice
  pub has_factor : Bool
  pub resets : o ≡ returns tt verified
  pub recognises : deps.find_device i.identity_id r.fingerprint_hash ≡ ok device
  pub factors : deps.has_active_factor i.identity_id ≡ ok has_factor
  pub decides : (decide deps r i device has_factor verified).result ≡ ok res
  pub includes : IsPartOf (decide deps r i device has_factor verified) m

unwrap :
    {A : Type 0} (message : String) (answer : Result String A) (a : A)
    → or_wrap system_database message answer ≡ ok a
    → answer ≡ ok a
unwrap message answer a h =
    map_error-eq-ok (λ e. failed (wrap system_database message (port_error e))) answer a h

pub after_verification-eq-ok :
    (deps : Dependencies) (r : Request) (i : ResolvedIdentity)
    (o : Outcome Credential DomainError (Unit {0})) (res : LoginResult)
    → (after_verification deps r i o).result ≡ ok res
    → Verifies deps r i o res (after_verification deps r i o)
unfolding after_verification
after_verification-eq-ok deps r i (fails e c) res h = absurd (ground (arith, h))
after_verification-eq-ok deps r i panics res h = absurd (ground (arith, h))
after_verification-eq-ok deps r i (returns _ c) res h =
    let read =
      call (read_device i.identity_id r.fingerprint_hash) (
        or_wrap system_database "find device"
          (deps.find_device i.identity_id r.fingerprint_hash)) in
    let ask =
      call (read_factors i.identity_id) (
        or_wrap system_database "check active mfa factor" (deps.has_active_factor i.identity_id)) in
    let (device, e, rest, p) = part read (λ d. ask >>= λ b. decide deps r i d b c) res h in
    let (has_factor, e', rest', p') = part ask (λ b. decide deps r i device b c) res rest in
    record {
      verified = c;
      device = device;
      has_factor = has_factor;
      resets = refl;
      recognises =
          unwrap "find device" (deps.find_device i.identity_id r.fingerprint_hash) device e;
      factors =
          unwrap "check active mfa factor" (deps.has_active_factor i.identity_id) has_factor e';
      decides = rest';
      includes = λ P k. p P (p' P k);
    }
