-- ===== src/RateLimit/Reopen.antt =====
-- The limiter of internal/platform/ratelimit/redis.go after a window, whatever went wrong in it, and
-- with windows shorter than a second.
use mathlib.Core.Path.{subst}
use araquanid.Common.{
  ◌∷◌, [], String, List, true, Option, none, some, ◌≡◌, refl, ℕ, suc, ◌+◌, ◌*◌, ◌/◌, ◌≤◌, length,
  ◌⊎◌, inl, inr, leb, arith, Bool-cases, ◌∙◌, ◌<◌, Bool, All, ltb, false,
}
use araquanid.Common.Int.{pos, max_int, ltb_ℤ}
use araquanid.Common.Result.{ok, Result}
use araquanid.Common.Time.{Time, second, Duration}
use araquanid.RateLimit.{
  Redis, allow, allow_script, up, lost_before, lost_after, Link, eval, start_window, read_answer,
  read_reply, decide,
}
use araquanid.RateLimit.Server.{IsServer, Entry, alive}
use araquanid.RateLimit.Steps.{allow_script-none, allow_script-some}
use araquanid.RateLimit.Window.{run, allow-HasCounted, over_working_links, IsVerdict}

-- The key is gone, or it ends within a window of `w` seconds and has counted at most `c` calls.
abbrev IsOpen : ℕ → Time → ℕ → Option Entry → Type 0
IsOpen w now c o =
    (o ≡ none)
    ⊎ ((k : ℕ) × (end : Time) × (o ≡ some (record { count = suc k; expires = some end }))
        × (suc k ≤ c)
        × (end ≤ now + w * second))

alive-some-IsOpen :
    (w t u c k end : ℕ)
    → t ≤ u
    → suc k ≤ c
    → end ≤ t + w * second
    → IsOpen w u c (alive u (some (record { count = suc k; expires = some end })))
alive-some-IsOpen w t u c k end h l e = elim (Bool-cases (leb end u)) [
  | inl gone ↦ inl (rw gone refl)
  | inr there ↦ inr (k, end, rw there refl, l, omega arith)
]

alive-IsOpen :
    (w t u b c : ℕ) (o : Option Entry) → t ≤ u → b ≤ c → IsOpen w t b o → IsOpen w u c (alive u o)
alive-IsOpen w t u b c o h l (inl gone) = inl (rw gone refl)
alive-IsOpen w t u b c o h l (inr (k, end, there, few, e)) =
    rw there (alive-some-IsOpen w t u c k end h (omega arith) e)

-- After a window of `w` seconds without a call the key is gone.
IsOpen-alive :
    (w t u c : ℕ) (o : Option Entry) → t + w * second ≤ u → IsOpen w t c o → alive u o ≡ none
IsOpen-alive w t u c o h (inl gone) = rw gone refl
IsOpen-alive w t u c o h (inr (k, end, there, few, e)) = rw there (ground arith)

-- The calls come one after the other, from the first instant on and not after the second.
abbrev pub IsUntil : Time → Time → List (Time × Link) → Type 0
IsUntil from until [] = from ≤ until
IsUntil from until (c ∷ cs) = (from ≤ c.0) × IsUntil c.0 until cs

module _ {Store : Type 0} (redis : Redis Store) (server : IsServer redis) (key : String) (m d n : ℕ)
    (whole : d / second ≡ suc n) (fits : d ≤ max_int) where
  open server use {find}

  allow_script-IsOpen :
      (now : Time) (c : ℕ) (s : Store)
      → IsOpen (suc n) now c (find now key s)
      → suc c ≤ max_int
      → IsOpen (suc n) now (suc c) (find now key (allow_script redis now key (pos (suc n)) s).1)
  allow_script-IsOpen now c s (inl gone) l =
      let (_, _, _, _, there) = allow_script-none redis server key now n s gone in
      inr (0, now + suc n * second, there, omega arith, omega arith)
  allow_script-IsOpen now c s (inr (k, end, there, few, e)) l =
      let (_, _, _, _, next) =
        allow_script-some redis server key now (pos (suc n)) k end s there (omega arith) in
      inr (suc k, end, next, omega arith, e)

  eval-IsOpen :
      (link : Link) (now : Time) (c : ℕ) (s : Store)
      → IsOpen (suc n) now c (find now key s)
      → suc c ≤ max_int
      → IsOpen (suc n) now (suc c) (find now key (eval redis link now key (pos (suc n)) s).1)
  unfolding eval
  eval-IsOpen up now c s h l = allow_script-IsOpen now c s h l
  eval-IsOpen (lost_before e) now c s (inl gone) l = inl gone
  eval-IsOpen (lost_before e) now c s (inr (k, end, there, few, x)) l =
      inr (k, end, there, omega arith, x)
  eval-IsOpen (lost_after e) now c s h l = allow_script-IsOpen now c s h l

  run-IsOpen :
      (from until : Time) (c : ℕ) (calls : List (Time × Link)) (s : Store)
      → IsOpen (suc n) from c (find from key s)
      → IsUntil from until calls
      → c + length calls ≤ max_int
      → IsOpen (suc n) until max_int (find until key (run redis key (pos m) (pos d) calls s).1)
  unfolding allow
  run-IsOpen from until c [] s h w l =
      rw (server.find-later from until key s w)
        (alive-IsOpen (suc n) from until c max_int (find from key s) w (omega arith) h)
  run-IsOpen from until c ((now, link) ∷ calls) s h (after, rest) l =
      let there : IsOpen (suc n) now c (find now key s) =
        rw (server.find-later from now key s after)
          (alive-IsOpen (suc n) from now c c (find from key s) after (omega arith) h) in
      let next = eval-IsOpen link now c s there (omega arith) in
      rw whole (run-IsOpen now until (suc c) calls _ next rest (omega arith))

  -- After any calls of `Allow` under a key that was not there, each at its instant and each over a link
  -- that works or fails before or after the script has run, a call one window or more after the last
  -- of them is allowed; where at least one call a window is, the window is a second or more, and the
  -- counter does not run over.
  pub run-allow :
      (from until now : Time) (calls : List (Time × Link)) (s : Store)
      → find from key s ≡ none
      → IsUntil from until calls
      → length calls ≤ max_int
      → 1 ≤ m
      → until + suc n * second ≤ now
      → (allow redis up now key (pos m) (pos d) (run redis key (pos m) (pos d) calls s).1).0
        ≡ ok (true, pos 0)
  run-allow from until now calls s gone w l one late =
      let (_, after) = (run redis key (pos m) (pos d) calls s) in
      let open_still = run-IsOpen from until 0 calls s (inl gone) w (omega arith) in
      let now_gone =
        server.find-later until now key after (omega arith)
        ∙ IsOpen-alive (suc n) until now max_int (find until key after) late open_still in
      let counted = allow_script-none redis server key now n after now_gone in
      let (verdict, _) =
        allow-HasCounted redis server key m d (omega arith) fits now 0 (now + suc n * second) after
          (omega arith) (rw whole counted) in
      let allowed : ltb 0 m ≡ true = ground (arith, one) in
      subst
        (λ b.
          IsVerdict b now (now + suc n * second) (allow redis up now key (pos m) (pos d) after).0)
        allowed verdict

abbrev pub AllAllowed : List (Result String (Bool × Duration)) → Type 0
AllAllowed rs = All (λ r. r ≡ ok (true, pos 0)) rs

module _ {Store : Type 0} (redis : Redis Store) (server : IsServer redis) (key : String) (m d : ℕ)
    (short : d < second) where
  open server use {find}

  -- EXPIRE with no time deletes the key.
  short-gone :
      (now : Time) (s : Store)
      → find now key s ≡ none
      → (find now key (allow redis up now key (pos m) (pos d) s).1 ≡ none)
  unfolding allow eval allow_script start_window
  short-gone now s gone =
      let (one, there) = server.incr-none now key s gone in
      let nothing : d / second ≡ 0 = omega arith in
      rw (one, nothing) (server.expire-zero now key (redis.incr now key s).1)

  short-allowed :
      (now : Time) (s : Store)
      → find now key s ≡ none
      → 1 ≤ m
      → (allow redis up now key (pos m) (pos d) s).0 ≡ ok (true, pos 0)
  unfolding allow eval allow_script start_window read_answer read_reply decide
  short-allowed now s gone h =
      let (one, there) = server.incr-none now key s gone in
      let under : ltb_ℤ (pos m) (pos 1) ≡ false = ground (arith, h) in rw (one, under) refl

  -- With a window shorter than a second and a maximum of at least one call, no call in a sequence under
  -- a key that is not there at its start is refused, however many they are, if the calls come one after
  -- the other and Redis answers each of them.
  pub run-AllAllowed :
      (from until : Time) (ts : List Time) (s : Store)
      → find from key s ≡ none
      → 1 ≤ m
      → IsUntil from until (over_working_links ts)
      → AllAllowed (run redis key (pos m) (pos d) (over_working_links ts) s).0
  run-AllAllowed from until [] s gone one w = tt
  run-AllAllowed from until (t ∷ ts) s gone one (after, rest) =
      let now_gone : find t key s ≡ none = server.find-later from t key s after ∙ rw gone refl in
      (
        short-allowed t s now_gone one,
        run-AllAllowed t until ts _ (short-gone t s now_gone) one rest,
      )
