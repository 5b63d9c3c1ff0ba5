-- ===== src/Common/Int.antt =====
-- Go's signed `int`, `int64` and `time.Duration`: an integer is `pos n` or `negsuc n`, which is
-- -(n + 1). The order goes through the two parts of an integer, which are natural numbers.
use araquanid.Common.{
  ◌^◌, arith, ◌≡◌, true, ℕ, suc, ◌+◌, ◌-◌, ◌≤◌, ◌<◌, Bool, List, Option, none, some, get_elem?,
  length, take, ltb, leb, if◌then◌else◌, zero,
}
use Prim.Native.Nat.{min}

pub data ℤ : Type 0 where
  pos : ℕ → ℤ
  negsuc : ℕ → ℤ

abbrev pub pos_part : ℤ → ℕ
pos_part (pos n) = n
pos_part (negsuc n) = 0

abbrev pub neg_part : ℤ → ℕ
neg_part (pos n) = 0
neg_part (negsuc n) = suc n

infix 50 ◌≤ℤ◌ ◌<ℤ◌
abbrev pub ◌≤ℤ◌ : ℤ → ℤ → Type 0
a ≤ℤ b = pos_part a + neg_part b ≤ pos_part b + neg_part a

abbrev pub ◌<ℤ◌ : ℤ → ℤ → Type 0
a <ℤ b = pos_part a + neg_part b < pos_part b + neg_part a

abbrev pub ltb_ℤ : ℤ → ℤ → Bool
ltb_ℤ a b = ltb (pos_part a + neg_part b) (pos_part b + neg_part a)

abbrev pub leb_ℤ : ℤ → ℤ → Bool
leb_ℤ a b = leb (pos_part a + neg_part b) (pos_part b + neg_part a)

-- The largest `int` is 2⁶³ - 1; the smallest, -2⁶³, is `negsuc max_int`.
abbrev pub max_int : ℕ
max_int = 9_223_372_036_854_775_807

-- `n++` on an `int`, which wraps round at the largest.
abbrev pub increment : ℤ → ℤ
increment (pos n) = if leb max_int n then negsuc max_int else pos (n + 1)
increment (negsuc n) = if leb n 0 then pos 0 else negsuc (n - 1)

-- `n - 1` on an `int`, which wraps round at the smallest.
abbrev pub decrement : ℤ → ℤ
decrement (pos n) = if leb n 0 then negsuc 0 else pos (n - 1)
decrement (negsuc n) = if leb max_int n then pos max_int else negsuc (n + 1)

-- a - b, held within the range of an `int64`.
abbrev pub saturating_sub : ℕ → ℕ → ℤ
saturating_sub a b = if leb b a then pos (min (a - b) max_int) else negsuc (min (b - a - 1) max_int)

-- `xs[i]`; `none` is the panic on an index out of range.
abbrev pub index {ℓ} : {A : Type ℓ} → List A → ℤ → Option A
index xs (pos i) = get_elem? xs i
index xs (negsuc i) = none

-- `xs[:n]`; `none` is the panic on a bound out of range.
abbrev pub slice_to {ℓ} : {A : Type ℓ} → List A → ℤ → Option (List A)
slice_to xs (pos n) = if leb n (length xs) then some (take n xs) else none
slice_to xs (negsuc n) = none

pub leb_ℤ→≤ℤ : (a b : ℤ) → leb_ℤ a b ≡ true → a ≤ℤ b
leb_ℤ→≤ℤ a b h = ground arith

-- -n
abbrev pub negate : ℕ → ℤ
negate zero = pos 0
negate (suc n) = negsuc n

-- The `int64` with these 64 bits.
abbrev pub of_word : ℕ → ℤ
of_word m = if leb m max_int then pos m else negsuc (2 ^ 64 - 1 - m)
