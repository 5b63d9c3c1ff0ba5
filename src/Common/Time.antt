-- ===== src/Common/Time.antt =====
-- `time.Time` and `time.Duration` of Go's standard library. An instant is the number of nanoseconds
-- since the earliest one that a `time.Time` can hold, -2⁶³ seconds from its zero value, so every
-- instant is a natural number. The location is left out: `UTC()` changes no instant.
use araquanid.Common.{◌%◌, ◌^◌, ◌/◌, ℕ, ◌+◌, ◌-◌, ◌*◌, Bool, ltb, ◌==◌}
use araquanid.Common.Int.{ℤ, pos, pos_part, neg_part, saturating_sub, negsuc, negate, of_word}

abbrev pub Time : Type 0
Time = ℕ

-- In nanoseconds.
abbrev pub Duration : Type 0
Duration = ℤ

-- `time.Time{}`, the first instant of the year 1.
abbrev pub zero_time : Time
zero_time = 9_223_372_036_854_775_808_000_000_000

abbrev pub is_zero : Time → Bool
is_zero t = t == zero_time

abbrev pub before : Time → Time → Bool
before t u = ltb t u

abbrev pub after : Time → Time → Bool
after t u = ltb u t

-- `t.Add(d)`
abbrev pub add : Time → Duration → Time
add t d = t + pos_part d - neg_part d

-- `t.Sub(u)`, which saturates.
abbrev pub sub : Time → Time → Duration
sub t u = saturating_sub t u

abbrev pub second : ℕ
second = 1_000_000_000

abbrev pub seconds : ℕ → Duration
seconds n = pos (n * second)

abbrev pub minutes : ℕ → Duration
minutes n = seconds (n * 60)

abbrev pub hours : ℕ → Duration
hours n = minutes (n * 60)

-- `int(d.Seconds())`, without the rounding of `float64` beyond 2⁵³ nanoseconds: the whole seconds,
-- towards zero.
abbrev pub whole_seconds : Duration → ℤ
whole_seconds (pos n) = pos (n / second)
whole_seconds (negsuc n) = negate ((n + 1) / second)

-- `time.Duration(n) * time.Second`, which wraps round.
abbrev pub times_second : ℤ → Duration
times_second (pos n) = of_word (n * second % 2 ^ 64)
times_second (negsuc n) = of_word ((2 ^ 64 - (n + 1) * second % 2 ^ 64) % 2 ^ 64)
