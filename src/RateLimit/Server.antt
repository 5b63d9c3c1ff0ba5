-- ===== src/RateLimit/Server.antt =====
-- What Redis documents of the commands that the limiter's script calls, as laws on the keys that are
-- alive at an instant, and a server that keeps one list of keys, for the tests.
use araquanid.Common.{
  ap, sym, ◌∙◌, zero, ◌/◌, String, if◌then◌else◌, Option, none, some, ◌≡◌, leb, ℕ, suc, ◌+◌, ◌*◌,
  ◌<◌, ◌≤◌, ◌-◌, zero, refl, arith, sym, ◌∙◌,
}
use araquanid.Common.Int.{ℤ, pos, negsuc, max_int}
use araquanid.Common.Time.{Time, second}
use araquanid.RateLimit.{Redis}

-- A counter, with the instant at which it goes, if any.
pub record Entry : Type 0 where
  pub count : ℕ
  pub expires : Option Time

abbrev pub still : Time → Entry → Option Time → Option Entry
still now e none = some e
still now e (some end) = if leb end now then none else some e

-- What is left of a key at a later instant.
abbrev pub alive : Time → Option Entry → Option Entry
alive now none = none
alive now (some e) = still now e e.expires

pub record IsServer {Store : Type 0} (redis : Redis Store) : Type 0 where
  pub find : Time → String → Store → Option Entry
  pub find-later :
      (t u : Time) (key : String) (s : Store) → t ≤ u → find u key s ≡ alive u (find t key s)
  -- INCR takes a missing key for 0, and keeps the expiry of one that is there.
  pub incr-none :
      (now : Time) (key : String) (s : Store)
      → find now key s ≡ none
      → ((redis.incr now key s).0 ≡ pos 1)
        × (find now key (redis.incr now key s).1 ≡ some (record { count = 1; expires = none }))
  pub incr-some :
      (now : Time) (key : String) (s : Store) (e : Entry)
      → find now key s ≡ some e
      → e.count < max_int
      → ((redis.incr now key s).0 ≡ pos (suc e.count))
        × (find now key (redis.incr now key s).1
            ≡ some (record { count = suc e.count; expires = e.expires }))
  -- EXPIRE deletes the key where the time is not positive.
  pub expire-suc :
      (now : Time) (key : String) (n : ℕ) (s : Store) (e : Entry)
      → find now key s ≡ some e
      → find now key (redis.expire now key (pos (suc n)) s)
        ≡ some (record { count = e.count; expires = some (now + suc n * second) })
  pub expire-zero :
      (now : Time) (key : String) (s : Store) → find now key (redis.expire now key (pos 0) s) ≡ none
  -- TTL is -2 for a missing key and -1 for one without expiry; else the seconds left, rounded.
  pub ttl-none :
      (now : Time) (key : String) (s : Store)
      → find now key s ≡ none
      → redis.ttl now key s ≡ negsuc 1
  pub ttl-some :
      (now : Time) (key : String) (s : Store) (e : Entry) (end : Time)
      → find now key s ≡ some e
      → e.expires ≡ some end
      → (n : ℕ) × (redis.ttl now key s ≡ pos n)
        × (n * second < end - now + second)
        × (end - now < n * second + second)

-- The commands on a store that holds one key, whatever its name.
abbrev add_one : Time → Option Entry → ℤ × Option Entry
add_one now none = (pos 1, some (record { count = 1; expires = none }))
add_one now (some e) =
    (pos (suc e.count), some (record { count = suc e.count; expires = e.expires }))

abbrev set_end : Time → ℤ → Option Entry → Option Entry
set_end now arg none = none
set_end now (pos (suc n)) (some e) =
    some (record { count = e.count; expires = some (now + suc n * second) })
set_end now (pos zero) (some e) = none
set_end now (negsuc n) (some e) = none

abbrev left : Time → Option Time → ℤ
left now none = negsuc 0
left now (some end) = pos ((end - now) / second)

abbrev time_of : Time → Option Entry → ℤ
time_of now none = negsuc 1
time_of now (some e) = left now e.expires

abbrev pub one_key : Redis (Option Entry)
one_key = record {
  incr = λ now key s. add_one now (alive now s);
  expire = λ now key arg s. set_end now arg (alive now s);
  ttl = λ now key s. time_of now (alive now s);
}

still-still :
    (t u : Time) (e : Entry) (o : Option Time)
    → e.expires ≡ o
    → t ≤ u
    → still u e o ≡ alive u (still t e o)
still-still t u e none h k = ground arith
still-still t u e (some end) h k = ground arith

alive-alive : (t u : Time) (s : Option Entry) → t ≤ u → alive u s ≡ alive u (alive t s)
alive-alive t u none h = refl
alive-alive t u (some e) h = still-still t u e e.expires refl h

-- What is alive stays so with another count.
still-some :
    (now : Time) (e f : Entry) (o : Option Time) → still now e o ≡ some e → still now f o ≡ some f
still-some now e f none h = refl
still-some now e f (some end) h = ground arith

alive-some :
    (now : Time) (s : Option Entry) (e : Entry) → alive now s ≡ some e → alive now (some e) ≡ some e
alive-some now s e h = ap (alive now) (sym h) ∙ sym (alive-alive now now s (omega arith)) ∙ h

set_end-suc :
    (now : Time) (n : ℕ) (s : Option Entry) (e : Entry)
    → s ≡ some e
    → alive now (set_end now (pos (suc n)) s)
      ≡ some (record { count = e.count; expires = some (now + suc n * second) })
set_end-suc now n s e h = rw h (ground arith)

set_end-zero : (now : Time) (s : Option Entry) → alive now (set_end now (pos 0) s) ≡ none
set_end-zero now none = refl
set_end-zero now (some e) = refl

time_of-some :
    (now : Time) (s : Option Entry) (e : Entry) (end : Time)
    → s ≡ some e
    → e.expires ≡ some end
    → time_of now s ≡ pos ((end - now) / second)
time_of-some now s e end h k = rw (h, k) refl

pub one_key_server : IsServer one_key
one_key_server = record {
  find = λ now key s. alive now s;
  find-later = λ t u key s h. alive-alive t u s h;
  incr-none = λ now key s h. rw h (refl, refl);
  incr-some = λ now key s e h k.
      let f : Entry = record { count = suc e.count; expires = e.expires } in
      rw h (refl, still-some now e f e.expires (alive-some now s e h));
  expire-suc = λ now key n s e h. set_end-suc now n (alive now s) e h;
  expire-zero = λ now key s. set_end-zero now (alive now s);
  ttl-none = λ now key s h. rw h refl;
  ttl-some = λ now key s e end h k.
      ((end - now) / second, time_of-some now (alive now s) e end h k, omega arith, omega arith);
}

pub find-none : (now : Time) (key : String) → one_key_server.find now key none ≡ none
unfolding one_key_server
find-none now key = refl
