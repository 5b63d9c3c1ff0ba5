-- ===== src/Common/Result.antt =====
-- What a Go function that returns `(value, error)` gives back.
use araquanid.Common.{◌⊎◌, inl, inr, ◌≡◌, refl, Bool, true, false, if◌then◌else◌}

pub data Result {ℓ κ} (E : Type ℓ) (A : Type κ) : Type (ℓ ⊔ κ) where
  ok : A → Result E A
  err : E → Result E A

infixl 5 ◌>>=◌ ◌>>◌
abbrev pub ◌>>=◌ {ℓ κ μ} :
    {E : Type ℓ} {A : Type κ} {B : Type μ} → Result E A → (A → Result E B) → Result E B
ok a >>= f = f a
err e >>= f = err e

abbrev pub ◌>>◌ {ℓ κ} : {E : Type ℓ} {B : Type κ} → Result E (Unit {0}) → Result E B → Result E B
m >> k = m >>= λ _. k

-- `if c { return e }`
abbrev pub reject_if {ℓ} : {E : Type ℓ} → Bool → E → Result E (Unit {0})
reject_if c e = if c then err e else ok tt

module _ {ℓ κ} {E : Type ℓ} {A : Type κ} where
  pub ok-injective : {a b : A} → ◌≡◌ {A = Result E A} (ok a) (ok b) → a ≡ b
  ok-injective e = cc e

  -- A sequence that succeeds has succeeded in both parts.
  pub >>-eq-ok :
      (m : Result E (Unit {0})) {k : Result E A} {a : A}
      → (m >> k) ≡ ok a
      → (m ≡ ok tt) × (k ≡ ok a)
  >>-eq-ok (ok tt) h = (refl, h)
  >>-eq-ok (err e) h = cc

  pub >>-ok : {m : Result E (Unit {0})} (k : Result E A) → m ≡ ok tt → (m >> k) ≡ k
  >>-ok k e = rw e

pub reject_if-eq-ok {ℓ} : {E : Type ℓ} (c : Bool) (e : E) → reject_if c e ≡ ok tt → c ≡ false
reject_if-eq-ok true e h = cc
reject_if-eq-ok false e h = refl

pub reject_if-ok {ℓ} : {E : Type ℓ} {c : Bool} (e : E) → c ≡ false → reject_if c e ≡ ok tt
reject_if-ok e h = rw h

-- A check that returns no value has passed, or has failed with an error.
pub Result-cases {ℓ} :
    {E : Type ℓ} (m : Result E (Unit {0})) → (m ≡ ok tt) ⊎ ((e : E) × (m ≡ err e))
Result-cases (ok tt) = inl refl
Result-cases (err e) = inr (e, refl)

abbrev pub map_error : {E F A : Type 0} → (E → F) → Result E A → Result F A
map_error f (ok a) = ok a
map_error f (err e) = err (f e)

pub map_error-eq-ok :
    {E F A : Type 0} (f : E → F) (r : Result E A) (a : A) → map_error f r ≡ ok a → r ≡ ok a
map_error-eq-ok f (ok a) b h = cc
map_error-eq-ok f (err e) b h = cc

-- A chain that succeeds has succeeded in its first part, and goes on with its value.
pub >>=-eq-ok :
    {E A B : Type 0} (m : Result E A) (f : A → Result E B) (b : B)
    → (m >>= f) ≡ ok b
    → (a : A) × (m ≡ ok a) × (f a ≡ ok b)
>>=-eq-ok (ok a) f b h = (a, refl, h)
>>=-eq-ok (err e) f b h = cc
