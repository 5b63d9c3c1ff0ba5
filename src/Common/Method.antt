-- ===== src/Common/Method.antt =====
-- A method on a mutable aggregate. It returns a value or fails with an error, and leaves the
-- aggregate changed in either case, or it panics. What was written before an error stays written.
use araquanid.Common.{Bool, Option, none, some, if◌then◌else◌}
use araquanid.Common.Result.{Result, ok, err}

pub data Outcome (S E A : Type 0) : Type 0 where
  returns : A → S → Outcome S E A
  fails : E → S → Outcome S E A
  panics : Outcome S E A

module _ {S E A : Type 0} where
  abbrev pub pure : A → S → Outcome S E A
  pure a s = returns a s

  abbrev pub throw : E → S → Outcome S E A
  throw e s = fails e s

  abbrev pub gets : (S → A) → S → Outcome S E A
  gets f s = returns (f s) s

  -- A call that touches no state.
  abbrev pub lift : Result E A → S → Outcome S E A
  lift (ok a) s = returns a s
  lift (err e) s = fails e s

abbrev pub modify : {S E : Type 0} → (S → S) → S → Outcome S E (Unit {0})
modify f s = returns tt (f s)

-- `if c { return e }`
abbrev pub throw_if : {S E : Type 0} → Bool → E → S → Outcome S E (Unit {0})
throw_if c e s = if c then fails e s else returns tt s

infixl 5 ◌>>=◌ ◌>>◌
abbrev pub ◌>>=◌ :
    {S E A B : Type 0} → (S → Outcome S E A) → (A → S → Outcome S E B) → S → Outcome S E B
◌>>=◌ m f s = elim (m s) [ returns a s' ↦ f a s' | fails e s' ↦ fails e s' | panics ↦ panics ]

abbrev pub ◌>>◌ :
    {S E B : Type 0} → (S → Outcome S E (Unit {0})) → (S → Outcome S E B) → S → Outcome S E B
m >> k = m >>= λ _. k

-- The aggregate after the call; a panic leaves it as it was.
abbrev pub state_after : {S E A : Type 0} → S → Outcome S E A → S
state_after s (returns a s') = s'
state_after s (fails e s') = s'
state_after s panics = s

-- `if err := m; err != nil { f; return err }`
abbrev pub on_error : {S E A : Type 0} → (S → S) → (S → Outcome S E A) → S → Outcome S E A
on_error f m s = elim (m s) [
  | returns a s' ↦ returns a s'
  | fails e s' ↦ fails e (f s')
  | panics ↦ panics
]

-- A panic where the value is missing: a `nil` that is followed, an index out of range.
abbrev pub or_panic : {S E A : Type 0} → Option A → S → Outcome S E A
or_panic none s = panics
or_panic (some a) s = returns a s

-- The call does not panic; it leaves an aggregate with the one property where it returns, and with
-- the other where it fails.
abbrev pub Ensures : {S E A : Type 0} → (S → Type 0) → (S → Type 0) → Outcome S E A → Type 0
Ensures P Q (returns a s) = P s
Ensures P Q (fails e s) = Q s
Ensures P Q panics = ⊥

-- The same property in both cases.
abbrev pub Leaves : {S E A : Type 0} → (S → Type 0) → Outcome S E A → Type 0
Leaves P o = Ensures P P o

module _ {S E A B : Type 0} (P Q R : S → Type 0) where
  outcome-Ensures :
      (o : Outcome S E A) (f : A → S → Outcome S E B)
      → Ensures P Q o
      → ((a : A) (t : S) → P t → Ensures R Q (f a t))
      → Ensures R Q (elim o [ returns a s' ↦ f a s' | fails e s' ↦ fails e s' | panics ↦ panics ])
  outcome-Ensures (returns a t) f h k = k a t h
  outcome-Ensures (fails e t) f h k = h
  outcome-Ensures panics f h k = h

  -- The rule of a sequence.
  pub >>=-Ensures :
      (m : S → Outcome S E A) (f : A → S → Outcome S E B) (s : S)
      → Ensures P Q (m s)
      → ((a : A) (t : S) → P t → Ensures R Q (f a t))
      → Ensures R Q ((m >>= f) s)
  >>=-Ensures m f s h k = outcome-Ensures (m s) f h k

pub Ensures-mono :
    {S E A : Type 0} (P P' Q Q' : S → Type 0) (o : Outcome S E A)
    → ((s : S) → P s → P' s)
    → ((s : S) → Q s → Q' s)
    → Ensures P Q o
    → Ensures P' Q' o
Ensures-mono P P' Q Q' (returns a s) k l h = k s h
Ensures-mono P P' Q Q' (fails e s) k l h = l s h
Ensures-mono P P' Q Q' panics k l h = h

outcome-on_error-Ensures :
    {S E A : Type 0} (P Q Q' : S → Type 0) (f : S → S) (o : Outcome S E A)
    → ((s : S) → Q s → Q' (f s))
    → Ensures P Q o
    → Ensures P Q'
        (elim o [ returns a s' ↦ returns a s' | fails e s' ↦ fails e (f s') | panics ↦ panics ])
outcome-on_error-Ensures P Q Q' f (returns a s) k h = h
outcome-on_error-Ensures P Q Q' f (fails e s) k h = k s h
outcome-on_error-Ensures P Q Q' f panics k h = h

pub on_error-Ensures :
    {S E A : Type 0} (P Q Q' : S → Type 0) (f : S → S) (m : S → Outcome S E A) (s : S)
    → ((t : S) → Q t → Q' (f t))
    → Ensures P Q (m s)
    → Ensures P Q' (on_error f m s)
on_error-Ensures P Q Q' f m s k h = outcome-on_error-Ensures P Q Q' f (m s) k h

pub lift-Ensures :
    {S E A : Type 0} (P : S → Type 0) (r : Result E A) (s : S) → P s → Ensures P P (lift r s)
lift-Ensures P (ok a) s h = h
lift-Ensures P (err e) s h = h
