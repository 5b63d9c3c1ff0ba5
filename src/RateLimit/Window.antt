-- ===== src/RateLimit/Window.antt =====
-- The limiter of internal/platform/ratelimit/redis.go over one window and after it.
use mathlib.Core.Path.{subst}
use araquanid.RateLimit.Steps.{HasCounted, allow_script-some, allow_script-none}
use araquanid.RateLimit.Server.{IsServer}
use araquanid.Common.{
  ◌/◌, ◌∷◌, [], String, List, Bool, true, false, ◌≡◌, ℕ, ◌+◌, ◌*◌, ◌-◌, ◌<◌, ◌≤◌, ltb, refl, some,
  arith, ◌∙◌, suc, none, length, zero,
}
use araquanid.Common.Int.{ℤ, pos, max_int, ltb_ℤ}
use araquanid.Common.Result.{Result, ok}
use araquanid.Common.Time.{Time, Duration, second, seconds, times_second}
use araquanid.RateLimit.{
  Redis, allow, decide, up, Link, time_left, eval, read_answer, read_reply, allow_script,
}

abbrev Answer : Type 0
Answer = Result String (Bool × Duration)

-- Calls of `Allow` under one key, each at its instant and over its link.
abbrev pub run :
    {Store : Type 0}
    → Redis Store
    → String
    → ℤ
    → Duration
    → List (Time × Link)
    → Store
    → List Answer × Store
run redis key max window [] s = ([], s)
run redis key max window (c ∷ cs) s =
    let (answer, t) = allow redis c.1 c.0 key max window s in
    let (answers, u) = run redis key max window cs t in (answer ∷ answers, u)

abbrev pub over_working_links : List Time → List (Time × Link)
over_working_links [] = []
over_working_links (t ∷ ts) = (t, up) ∷ over_working_links ts

-- The calls come one after the other, from the first instant on and before the second.
abbrev pub IsWithin : Time → Time → List Time → Type 0
IsWithin from until [] = Unit
IsWithin from until (t ∷ ts) = (from ≤ t) × (t < until) × IsWithin t until ts

-- A refused call is told to wait for the end of the window, to within a second.
abbrev pub IsVerdict : Bool → Time → Time → Answer → Type 0
IsVerdict true now end r = r ≡ ok (true, pos 0)
IsVerdict false now end r =
    (n : ℕ) × (r ≡ ok (false, seconds n))
    × (n * second < end - now + second)
    × (end - now < n * second + second)

-- The answers to calls at these instants, after `c` others: a call is allowed while fewer than `m`
-- were made before it.
abbrev pub AreVerdicts : ℕ → Time → ℕ → List Time → List Answer → Type 0
AreVerdicts m end c [] [] = Unit
AreVerdicts m end c (t ∷ ts) (r ∷ rs) =
    IsVerdict (ltb c m) t end r × AreVerdicts m end (suc c) ts rs
AreVerdicts m end c _ _ = ⊥

times_second-small : (n : ℕ) → n * second ≤ max_int → times_second (pos n) ≡ seconds n
times_second-small n h = ground arith

decide-IsVerdict :
    (c m n d : ℕ) (now end : Time) (b : Bool)
    → ltb c m ≡ b
    → n * second < end - now + second
    → end - now < n * second + second
    → n * second ≤ max_int
    → IsVerdict b now end (ok (decide (pos (suc c)) (pos n) (pos m) (pos d)))
unfolding decide time_left
decide-IsVerdict c m n d now end true h below above small = ground arith
decide-IsVerdict c m n d now end false h below above small =
    let over : ltb_ℤ (pos m) (pos (suc c)) ≡ true = ground arith in
    let left : ltb_ℤ (pos n) (pos 0) ≡ false = ground arith in
    (n, rw (over, left, times_second-small n small) refl, below, above)

positive : (n : ℕ) → 1 ≤ n → (k : ℕ) × (suc k ≡ n)
positive zero h = absurd (omega arith)
positive (suc k) h = (k, refl)

module _ {Store : Type 0} (redis : Redis Store) (server : IsServer redis) (key : String) (m d : ℕ)
    (at_least_one : second ≤ d) (fits : d ≤ max_int) where
  open server use {find}

  pub allow-HasCounted :
      (now : Time) (c : ℕ) (end : Time) (s : Store)
      → end ≤ now + d / second * second
      → HasCounted redis server key now
          (suc c)
          end
          (allow_script redis now key (pos (d / second)) s)
      → IsVerdict (ltb c m) now end (allow redis up now key (pos m) (pos d) s).0
        × (find now key (allow redis up now key (pos m) (pos d) s).1
            ≡ some (record { count = suc c; expires = some end }))
  unfolding allow eval read_answer read_reply
  allow-HasCounted now c end s h (n, reply, below, above, there) =
      (rw reply (decide-IsVerdict c m n d now end (ltb c m) refl below above (omega arith)), there)

  still-some :
      (t u c end : ℕ) (s : Store)
      → find t key s ≡ some (record { count = c; expires = some end })
      → t ≤ u
      → u < end
      → find u key s ≡ some (record { count = c; expires = some end })
  still-some t u c end s h k l = server.find-later t u key s k ∙ rw h (ground arith)

  run-counted :
      (now c end : ℕ) (ts : List Time) (s : Store)
      → find now key s ≡ some (record { count = suc c; expires = some end })
      → end ≤ now + d / second * second
      → IsWithin now end ts
      → suc c + length ts ≤ max_int
      → AreVerdicts m end (suc c) ts (run redis key (pos m) (pos d) (over_working_links ts) s).0
  run-counted now c end [] s h e w l = tt
  run-counted now c end (t ∷ ts) s h e (after, before, rest) l =
      let there = still-some now t (suc c) end s h after before in
      let counted =
        allow_script-some redis server key t (pos (d / second)) c end s there (omega arith) in
      let (verdict, next) = allow-HasCounted t (suc c) end s (omega arith) counted in
      (verdict, run-counted t (suc c) end ts _ next (omega arith) rest (omega arith))

  -- Within one window, which starts with the first call under a key that is not there, the first `m`
  -- calls of `Allow` are allowed and every later one is refused, with a retry time that is what is left
  -- of the window, to within a second; where Redis answers every call, the window is a second or more
  -- and the counter does not run over.
  pub run-AreVerdicts :
      (start : Time) (ts : List Time) (s : Store)
      → find start key s ≡ none
      → IsWithin start (start + d / second * second) ts
      → suc (length ts) ≤ max_int
      → AreVerdicts m
          (start + d / second * second)
          0
          (start ∷ ts)
          (run redis key (pos m) (pos d) (over_working_links (start ∷ ts)) s).0
  run-AreVerdicts start ts s h w l =
      let (n, whole) = positive (d / second) (omega arith) in
      let counted = allow_script-none redis server key start n s h in
      let (verdict, next) = allow-HasCounted start 0 (start + d / second * second) s (omega arith) (
        subst
          (λ w.
            HasCounted redis server key start 1 (start + w * second)
              (allow_script redis start key (pos w) s))
          whole counted) in
      (
        verdict,
        run-counted start 0 (start + d / second * second) ts _ next (omega arith) w (omega arith),
      )
