-- ===== src/Common/Lists.antt =====
-- Lists measured and indexed by native numbers, and Go's `slices` over them.
use Prim.Native.Nat.{ℕ, zero, suc, ◌+◌, ◌<◌, ◌≤◌, min}
use mathlib.Core.Path.{◌≡◌, refl, ap, subst, ◌∙◌}
use mathlib.Core.Bool.{Bool, true, false, ◌||◌}
use mathlib.Core.List.{List, [], ◌∷◌, ◌++◌, map}
use mathlib.Core.Option.{Option, none, some}
use mathlib.Core.Logic.{◌⊎◌, inl, inr}
use native.Mathlib.Omega.{arith}
use araquanid.Common.Tests.{Bool-cases, ltb, if◌then◌else◌}

module _ {ℓ} {A : Type ℓ} where
  abbrev pub length : List A → ℕ
  length [] = 0
  length (x ∷ xs) = suc (length xs)

  abbrev pub get_elem? : List A → ℕ → Option A
  get_elem? [] i = none
  get_elem? (x ∷ xs) zero = some x
  get_elem? (x ∷ xs) (suc i) = get_elem? xs i

  abbrev pub take : ℕ → List A → List A
  take zero xs = []
  take (suc n) [] = []
  take (suc n) (x ∷ xs) = x ∷ take n xs

  -- `slices.ContainsFunc`
  abbrev pub contains : (A → Bool) → List A → Bool
  contains p [] = false
  contains p (x ∷ xs) = p x || contains p xs

  abbrev pub All {κ} : (A → Type κ) → List A → Type κ
  All P [] = Unit
  All P (x ∷ xs) = P x × All P xs

  pub length-append : (xs ys : List A) → length (xs ++ ys) ≡ length xs + length ys
  length-append [] ys = omega arith
  length-append (x ∷ xs) ys = omega (arith, length-append xs ys)

  pub length-take : (n : ℕ) (xs : List A) → length (take n xs) ≡ min n (length xs)
  length-take zero xs = omega arith
  length-take (suc n) [] = omega arith
  length-take (suc n) (x ∷ xs) = omega (arith, length-take n xs)

  pub All-take {κ} : (P : A → Type κ) (n : ℕ) (xs : List A) → All P xs → All P (take n xs)
  All-take P zero xs h = tt
  All-take P (suc n) [] h = tt
  All-take P (suc n) (x ∷ xs) h = (h.0, All-take P n xs h.1)

  pub get_elem?-lt : (xs : List A) (i : ℕ) → i < length xs → (a : A) × (get_elem? xs i ≡ some a)
  get_elem?-lt [] i h = elim h [ ]
  get_elem?-lt (x ∷ xs) zero h = (x, refl)
  get_elem?-lt (x ∷ xs) (suc i) h = get_elem?-lt xs i (omega arith)

  pub take_all : (n : ℕ) (xs : List A) → length xs ≤ n → take n xs ≡ xs
  take_all zero [] h = refl
  take_all zero (x ∷ xs) h = absurd (omega arith)
  take_all (suc n) [] h = refl
  take_all (suc n) (x ∷ xs) h = rw (take_all n xs (omega arith))

  pub get_elem?-some : (xs : List A) (i : ℕ) {a : A} → get_elem? xs i ≡ some a → i < length xs
  get_elem?-some [] i h = cc
  get_elem?-some (x ∷ xs) zero h = omega arith
  get_elem?-some (x ∷ xs) (suc i) h = omega (arith, get_elem?-some xs i h)

  pub get_elem?-none : (xs : List A) (i : ℕ) → get_elem? xs i ≡ none → length xs ≤ i
  get_elem?-none [] i h = omega arith
  get_elem?-none (x ∷ xs) zero h = cc
  get_elem?-none (x ∷ xs) (suc i) h = omega (arith, get_elem?-none xs i h)

  pub get_elem?-take :
      (n : ℕ) (xs : List A) (i : ℕ)
      → get_elem? (take n xs) i ≡ (if ltb i n then get_elem? xs i else none)
  get_elem?-take zero xs i = ground arith
  get_elem?-take (suc n) [] i = ground arith
  get_elem?-take (suc n) (x ∷ xs) zero = ground arith
  get_elem?-take (suc n) (x ∷ xs) (suc i) = ground (arith, get_elem?-take n xs i)

  pub All-append {κ} : (P : A → Type κ) (xs ys : List A) → All P xs → All P ys → All P (xs ++ ys)
  All-append P [] ys h k = k
  All-append P (x ∷ xs) ys h k = (h.0, All-append P xs ys h.1 k)

  abbrev pub Any : (A → Type 0) → List A → Type 0
  Any P [] = ⊥
  Any P (x ∷ xs) = P x ⊎ Any P xs

  pub Any-append : (P : A → Type 0) (xs ys : List A) → Any P ys → Any P (xs ++ ys)
  Any-append P [] ys h = h
  Any-append P (x ∷ xs) ys h = inr (Any-append P xs ys h)

  pub Any-append-left : (P : A → Type 0) (xs ys : List A) → Any P xs → Any P (xs ++ ys)
  Any-append-left P [] ys h = elim h [ ]
  Any-append-left P (x ∷ xs) ys (inl h) = inl h
  Any-append-left P (x ∷ xs) ys (inr h) = inr (Any-append-left P xs ys h)

module _ {ℓ} {A : Type ℓ} where
  -- The elements that pass the test.
  abbrev pub filter : (A → Bool) → List A → List A
  filter p [] = []
  filter p (x ∷ xs) = if p x then x ∷ filter p xs else filter p xs

-- One of the elements is the given one; where it stands counts.
abbrev pub Mem : {A : Type 0} → A → List A → Type 0
Mem a xs = Any (λ x. x ≡ a) xs

module _ {A : Type 0} where
  pub All-Mem : (P : A → Type 0) (a : A) (xs : List A) → All P xs → Mem a xs → P a
  All-Mem P a [] h m = elim m [ ]
  All-Mem P a (x ∷ xs) h (inl e) = subst P e h.0
  All-Mem P a (x ∷ xs) h (inr m) = All-Mem P a xs h.1 m

  pub Mem-All : (P : A → Type 0) (xs : List A) → ((a : A) → Mem a xs → P a) → All P xs
  Mem-All P [] h = tt
  Mem-All P (x ∷ xs) h = (h x (inl refl), Mem-All P xs (λ a m. h a (inr m)))

  pub Mem-map : {B : Type 0} (f : A → B) (a : A) (xs : List A) → Mem a xs → Mem (f a) (map f xs)
  Mem-map f a [] m = elim m [ ]
  Mem-map f a (x ∷ xs) (inl e) = inl (ap f e)
  Mem-map f a (x ∷ xs) (inr m) = inr (Mem-map f a xs m)

  pub map-Mem :
      {B : Type 0} (f : A → B) (b : B) (xs : List A)
      → Mem b (map f xs)
      → (a : A) × Mem a xs × (f a ≡ b)
  map-Mem f b [] m = elim m [ ]
  map-Mem f b (x ∷ xs) (inl e) = (x, inl refl, e)
  map-Mem f b (x ∷ xs) (inr m) = let (a, n, e) = map-Mem f b xs m in (a, inr n, e)

  kept-Mem :
      (p : A → Bool) (a x : A) (xs : List A)
      → (Mem a (filter p xs) → Mem a xs × (p a ≡ true))
      → p x ≡ true
      → Mem a (x ∷ filter p xs)
      → Mem a (x ∷ xs) × (p a ≡ true)
  kept-Mem p a x xs k e (inl here) = (inl here, subst (λ y. p y ≡ true) here e)
  kept-Mem p a x xs k e (inr later) = let (n, t) = k later in (inr n, t)

  pub filter-Mem :
      (p : A → Bool) (a : A) (xs : List A) → Mem a (filter p xs) → Mem a xs × (p a ≡ true)
  filter-Mem p a [] m = elim m [ ]
  filter-Mem p a (x ∷ xs) m = elim (Bool-cases (p x)) [
    | inl e ↦ kept-Mem p a x xs (filter-Mem p a xs) e (rw e at m)
    | inr e ↦ let (n, t) = filter-Mem p a xs (rw e at m) in (inr n, t)
  ]

  pub Mem-filter :
      (p : A → Bool) (a : A) (xs : List A) → p a ≡ true → Mem a xs → Mem a (filter p xs)
  Mem-filter p a [] e m = elim m [ ]
  Mem-filter p a (x ∷ xs) e (inl here) =
      let yes_here : p x ≡ true = ap p here ∙ e in rw yes_here (inl here)
  Mem-filter p a (x ∷ xs) e (inr later) = elim (Bool-cases (p x)) [
    | inl keep ↦ rw keep (inr (Mem-filter p a xs e later))
    | inr drop ↦ rw drop (Mem-filter p a xs e later)
  ]

  pub take-Mem : (n : ℕ) (a : A) (xs : List A) → Mem a (take n xs) → Mem a xs
  take-Mem zero a xs m = elim m [ ]
  take-Mem (suc n) a [] m = elim m [ ]
  take-Mem (suc n) a (x ∷ xs) (inl e) = inl e
  take-Mem (suc n) a (x ∷ xs) (inr m) = inr (take-Mem n a xs m)

  pub contains-Mem :
      (p : A → Bool) (xs : List A) → contains p xs ≡ true → (a : A) × Mem a xs × (p a ≡ true)
  contains-Mem p [] h = cc
  contains-Mem p (x ∷ xs) h = elim (Bool-cases (p x)) [
    | inl e ↦ (x, inl refl, e)
    | inr e ↦ let (a, m, t) = contains-Mem p xs (rw e at h) in (a, inr m, t)
  ]

  pub Mem-contains :
      (p : A → Bool) (a : A) (xs : List A) → p a ≡ true → Mem a xs → contains p xs ≡ true
  Mem-contains p a [] e m = elim m [ ]
  Mem-contains p a (x ∷ xs) e (inl here) = let found : p x ≡ true = ap p here ∙ e in rw found refl
  Mem-contains p a (x ∷ xs) e (inr later) = elim (Bool-cases (p x)) [
    | inl found ↦ rw found refl
    | inr other ↦ rw other (Mem-contains p a xs e later)
  ]

  -- An update that takes no element into the test leaves no more of those that pass it,
  pub length-filter-map :
      (p : A → Bool) (f : A → A) (xs : List A)
      → ((a : A) → p a ≡ false → p (f a) ≡ false)
      → length (filter p (map f xs)) ≤ length (filter p xs)
  length-filter-map p f [] h = omega arith
  length-filter-map p f (x ∷ xs) h =
      ground (arith, Bool-cases (p x), Bool-cases (p (f x)), h x, length-filter-map p f xs h)

  -- and fewer if it takes one out.
  pub length-filter-map_lt :
      (p : A → Bool) (f : A → A) (a : A) (xs : List A)
      → ((b : A) → p b ≡ false → p (f b) ≡ false)
      → Mem a xs
      → p a ≡ true
      → p (f a) ≡ false
      → length (filter p (map f xs)) < length (filter p xs)
  length-filter-map_lt p f a [] h m now after = elim m [ ]
  length-filter-map_lt p f a (x ∷ xs) h (inl here) now after =
      let before : p x ≡ true = ap p here ∙ now in
      let gone : p (f x) ≡ false = ap (λ y. p (f y)) here ∙ after in
      rw (before, gone) (omega (arith, length-filter-map p f xs h))
  length-filter-map_lt p f a (x ∷ xs) h (inr later) now after =
      let less = length-filter-map_lt p f a xs h later now after in
      ground (arith, Bool-cases (p x), Bool-cases (p (f x)), h x, less)

  pub length-filter_pos :
      (p : A → Bool) (xs : List A) → 1 ≤ length (filter p xs) → (a : A) × Mem a xs × (p a ≡ true)
  length-filter_pos p [] h = absurd (omega (arith, h))
  length-filter_pos p (x ∷ xs) h = elim (Bool-cases (p x)) [
    | inl e ↦ (x, inl refl, e)
    | inr e ↦ let (a, m, t) = length-filter_pos p xs (rw e at h) in (a, inr m, t)
  ]

  pub take-Mem_pos : (n : ℕ) (a : A) (xs : List A) → 1 ≤ n → Mem a xs → (b : A) × Mem b (take n xs)
  take-Mem_pos n a [] h m = elim m [ ]
  take-Mem_pos zero a (x ∷ xs) h m = absurd (omega (arith, h))
  take-Mem_pos (suc n) a (x ∷ xs) h m = (x, inl refl)

  -- An update that no element's test depends on can be made before the selection or after it.
  pub filter-map :
      (p : A → Bool) (f : A → A) (xs : List A)
      → ((a : A) → p (f a) ≡ p a)
      → filter p (map f xs) ≡ map f (filter p xs)
  filter-map p f [] h = refl
  filter-map p f (x ∷ xs) h = elim (Bool-cases (p x)) [
    | inl e ↦ rw (h x, e, filter-map p f xs h) refl
    | inr e ↦ rw (h x, e, filter-map p f xs h) refl
  ]
