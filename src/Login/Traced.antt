-- ===== src/Login/Traced.antt =====
-- Code that calls its ports one after the other and stops at the first error. Beside the result stands
-- the trace of the calls that were made, in their order, also of those before an error.
use mathlib.Core.Path.{subst}
use araquanid.Common.{◌∷◌, ◌++◌, [], List, ◌≡◌, refl, Any, sym, Any-append}
use araquanid.Common.Result.{ok, err, Result, ok-injective}

pub record Traced (W E A : Type 0) : Type 0 where
  pub trace : List W
  pub result : Result E A

module _ {W E A : Type 0} where
  abbrev pub pure : A → Traced W E A
  pure a = record { trace = []; result = ok a }

  abbrev pub throw : E → Traced W E A
  throw e = record { trace = []; result = err e }

  -- A call of a port, with the answer that the port gives.
  abbrev pub call : W → Result E A → Traced W E A
  call w r = record { trace = w ∷ []; result = r }

  -- An answer that leaves no trace.
  abbrev pub answer : Result E A → Traced W E A
  answer r = record { trace = []; result = r }

infixl 5 ◌>>=◌ ◌>>◌
abbrev pub ◌>>=◌ : {W E A B : Type 0} → Traced W E A → (A → Traced W E B) → Traced W E B
m >>= f = elim m.result [
  | ok a ↦ record { trace = m.trace ++ (f a).trace; result = (f a).result }
  | err e ↦ record { trace = m.trace; result = err e }
]

abbrev pub ◌>>◌ : {W E B : Type 0} → Traced W E (Unit {0}) → Traced W E B → Traced W E B
m >> k = m >>= λ _. k

bind-eq-ok :
    {W E A B : Type 0} (t : List W) (r : Result E A) (f : A → Traced W E B) (b : B)
    → let m : Traced W E A = record { trace = t; result = r } in
      (m >>= f).result ≡ ok b
      → (a : A) × (r ≡ ok a) × ((f a).result ≡ ok b) × ((m >>= f).trace ≡ t ++ (f a).trace)
bind-eq-ok t (ok a) f b h = (a, refl, h, refl)
bind-eq-ok t (err e) f b h = cc

-- A sequence that succeeds has succeeded in both parts.
pub >>=-eq-ok :
    {W E A B : Type 0} (m : Traced W E A) (f : A → Traced W E B) (b : B)
    → (m >>= f).result ≡ ok b
    → (a : A) × (m.result ≡ ok a)
      × ((f a).result ≡ ok b)
      × ((m >>= f).trace ≡ m.trace ++ (f a).trace)
>>=-eq-ok m f b h = bind-eq-ok m.trace m.result f b h

bind-ok :
    {W E A B : Type 0} (t : List W) (r : Result E A) (f : A → Traced W E B) (a : A)
    → r ≡ ok a
    → let m : Traced W E A = record { trace = t; result = r } in
      (m >>= f) ≡ record { trace = t ++ (f a).trace; result = (f a).result }
bind-ok {W} {E} {A} {B} t (ok a) f b h =
    subst
      (λ c.
        ◌≡◌ {A = Traced W E B} (record { trace = t ++ (f a).trace; result = (f a).result })
          (record { trace = t ++ (f c).trace; result = (f c).result }))
      (ok-injective h) refl
bind-ok t (err e) f b h = cc

-- A sequence goes on with the value of its first part.
pub >>=-ok :
    {W E A B : Type 0} (m : Traced W E A) (f : A → Traced W E B) (a : A)
    → m.result ≡ ok a
    → (m >>= f) ≡ record { trace = m.trace ++ (f a).trace; result = (f a).result }
>>=-ok m f a h = bind-ok m.trace m.result f a h

-- What holds of a call in the second part of a successful sequence holds of one in the whole.
pub >>=-Any :
    {W E A B : Type 0} (P : W → Type 0) (m : Traced W E A) (f : A → Traced W E B) (b : B)
    → (m >>= f).result ≡ ok b
    → ((a : A) → (f a).result ≡ ok b → Any P (f a).trace)
    → Any P (m >>= f).trace
>>=-Any P m f b h k =
    let (a, _, rest, trace) = >>=-eq-ok m f b h in
    subst (Any P) (sym trace) (Any-append P m.trace (f a).trace (k a rest))

-- A sequence fails with the error of its first part.
pub >>=-err :
    {W E A B : Type 0} (m : Traced W E A) (f : A → Traced W E B) (e : E)
    → m.result ≡ err e
    → (m >>= f).result ≡ err e
>>=-err m f e h = rw h refl
