-- ===== src/RateLimit.antt =====
-- internal/platform/ratelimit/redis.go: the fixed-window limiter, whose counter is kept in Redis by a
-- script of three commands. What the commands do is the server's; they are fields of `Redis`, and
-- RateLimit/Server says what the server's documentation promises of them.
pub mod Server
mod Steps
pub mod Window
pub mod Reopen
mod Tests
use araquanid.Common.{◌∷◌, [], String, List, Bool, true, false, if◌then◌else◌, ◌==◌}
use araquanid.Common.Int.{ℤ, pos, negsuc, ltb_ℤ}
use araquanid.Common.Result.{Result, ok, err}
use araquanid.Common.Text.{concat}
use araquanid.Common.Time.{Time, Duration, times_second, whole_seconds}

-- The commands that the script calls. A command that changes the store gives the new one.
pub record Redis (Store : Type 0) : Type 0 where
  pub incr : Time → String → Store → ℤ × Store
  pub expire : Time → String → ℤ → Store → Store
  pub ttl : Time → String → Store → ℤ

-- What `Eval` can hand back: a value or an array of values. An array within one is a `not_integer`.
pub data Item : Type 0 where
  integer : ℤ → Item
  not_integer : String → Item

pub data Reply : Type 0 where
  scalar : Item → Reply
  array : List Item → Reply

-- Whether the round trip to the server works: an error may come before or after the script has run.
pub data Link : Type 0 where
  up : Link
  lost_before lost_after : String → Link

abbrev pub is_one : ℤ → Bool
is_one (pos n) = n == 1
is_one (negsuc n) = false

module _ {Store : Type 0} (redis : Redis Store) where
  -- `if current == 1 then EXPIRE end`
  unfoldable pub start_window : Time → String → ℤ → ℤ → Store → Store
  start_window now key arg current s = if is_one current then redis.expire now key arg s else s

  -- The script `allowScript`.
  unfoldable pub allow_script : Time → String → ℤ → Store → Reply × Store
  allow_script now key arg s =
      let (current, counted) = redis.incr now key s in
      let started = start_window now key arg current counted in
      (array (integer current ∷ integer (redis.ttl now key started) ∷ []), started)

  -- `l.rdb.Eval(…).Result()`
  unfoldable pub eval : Link → Time → String → ℤ → Store → Result String Reply × Store
  eval up now key arg s = let (reply, t) = allow_script now key arg s in (ok reply, t)
  eval (lost_before e) now key arg s = (err e, s)
  eval (lost_after e) now key arg s = (err e, (allow_script now key arg s).1)

-- `if ttl < 0 { ttl = int64(window.Seconds()) }`
unfoldable pub time_left : ℤ → Duration → ℤ
time_left ttl window = if ltb_ℤ ttl (pos 0) then whole_seconds window else ttl

-- `if current > int64(max)`
unfoldable pub decide : ℤ → ℤ → ℤ → Duration → Bool × Duration
decide current ttl max window =
    if ltb_ℤ max current then (false, times_second (time_left ttl window)) else (true, pos 0)

-- What `Allow` makes of the script's reply. The texts of the errors end with the value found, which
-- `%#v` prints and which is left out.
unfoldable pub read_reply : Reply → ℤ → Duration → Result String (Bool × Duration)
read_reply (array (integer current ∷ integer ttl ∷ [])) max window =
    ok (decide current ttl max window)
read_reply (array (integer current ∷ _ ∷ [])) max window = err "ratelimit: unexpected ttl type "
read_reply (array (_ ∷ _ ∷ [])) max window = err "ratelimit: unexpected count type "
read_reply _ max window = err "ratelimit: unexpected script result "

unfoldable pub read_answer : Result String Reply → ℤ → Duration → Result String (Bool × Duration)
read_answer (err e) max window = err (concat ("ratelimit: eval: " ∷ e ∷ []))
read_answer (ok reply) max window = read_reply reply max window

module _ {Store : Type 0} (redis : Redis Store) where
  -- `Allow`
  unfoldable pub allow :
      Link → Time → String → ℤ → Duration → Store → Result String (Bool × Duration) × Store
  allow link now key max window s =
      let (answer, t) = eval redis link now key (whole_seconds window) s in
      (read_answer answer max window, t)
