-- ===== src/RateLimit/Steps.antt =====
-- One run of the limiter's script (internal/platform/ratelimit/redis.go) on a live key and on a
-- missing one.
use araquanid.Common.{
  ◌∷◌, [], String, none, some, ◌≡◌, refl, ℕ, suc, ◌+◌, ◌*◌, ◌<◌, ◌-◌, ◌==◌, false, arith,
}
use araquanid.Common.Int.{ℤ, pos, max_int}
use araquanid.Common.Time.{Time, second}
use araquanid.RateLimit.{Redis, allow_script, start_window, array, integer, Reply}
use araquanid.RateLimit.Server.{IsServer, Entry}

module _ {Store : Type 0} (redis : Redis Store) (server : IsServer redis) (key : String) where
  open server use {find}

  -- The reply says that this was the `c`-th call of a window that goes until `end`, with the time left
  -- in whole seconds, and so does the store.
  abbrev pub HasCounted : Time → ℕ → Time → Reply × Store → Type 0
  HasCounted now c end r =
      (n : ℕ) × (r.0 ≡ array (integer (pos c) ∷ integer (pos n) ∷ []))
      × (n * second < end - now + second)
      × (end - now < n * second + second)
      × (find now key r.1 ≡ some (record { count = c; expires = some end }))

  reply-HasCounted :
      (now : Time) (c : ℕ) (end : Time) (s : Store)
      → find now key s ≡ some (record { count = c; expires = some end })
      → HasCounted now c end (array (integer (pos c) ∷ integer (redis.ttl now key s) ∷ []), s)
  reply-HasCounted now c end s h =
      let e : Entry = record { count = c; expires = some end } in
      let (n, t, below, above) = server.ttl-some now key s e end h refl in
      (n, rw t, below, above, h)

  -- The first call of a window of n + 1 seconds sets its end.
  pub allow_script-none :
      (now : Time) (n : ℕ) (s : Store)
      → find now key s ≡ none
      → HasCounted now 1 (now + suc n * second) (allow_script redis now key (pos (suc n)) s)
  unfolding allow_script start_window
  allow_script-none now n s h =
      let (one, there) = server.incr-none now key s h in
      let set = server.expire-suc now key n (redis.incr now key s).1 _ there in
      rw one (reply-HasCounted now 1 (now + suc n * second) _ set)

  -- A further call counts on, and leaves the end where it is.
  pub allow_script-some :
      (now : Time) (arg : ℤ) (c : ℕ) (end : Time) (s : Store)
      → find now key s ≡ some (record { count = suc c; expires = some end })
      → suc c < max_int
      → HasCounted now (suc (suc c)) end (allow_script redis now key arg s)
  unfolding allow_script start_window
  allow_script-some now arg c end s h k =
      let (next, there) = server.incr-some now key s _ h k in
      let further : (suc (suc c) == 1) ≡ false = ground arith in
      rw (next, further) (reply-HasCounted now (suc (suc c)) end _ there)
