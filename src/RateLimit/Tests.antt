-- ===== src/RateLimit/Tests.antt =====
-- The limiter of internal/platform/ratelimit/redis.go on concrete calls, against a server of one key.
use araquanid.Common.{◌∷◌, [], List, Option, none, ℕ, ◌≡◌, refl, true, false, arith, ◌*◌, ◌/◌}
use araquanid.Common.Int.{pos}
use araquanid.Common.Result.{ok}
use araquanid.Common.Time.{Time, second, seconds}
use araquanid.RateLimit.{
  allow, up, lost_after, lost_before, eval, allow_script, start_window, read_answer, read_reply,
  decide, time_left,
}
use araquanid.RateLimit.Server.{one_key, one_key_server, Entry, find-none}
use araquanid.RateLimit.Window.{run, AreVerdicts, run-AreVerdicts, over_working_links}
use araquanid.RateLimit.Reopen.{run-allow, run-AllAllowed, AllAllowed}

abbrev no_key : Option Entry
no_key = none

abbrev minute : ℕ
minute = 60 * second

abbrev later_calls : List Time
later_calls = 3 * second ∷ 20 * second ∷ []

-- Two calls a minute: the third is told to wait for the 40 seconds that are left.
third :
    (run one_key "ip:1" (pos 2) (pos minute) (over_working_links (0 ∷ later_calls)) no_key).0
    ≡ ok (true, pos 0) ∷ ok (true, pos 0) ∷ ok (false, seconds 40) ∷ []
unfolding allow eval allow_script start_window read_answer read_reply decide time_left
third = refl

run-AreVerdicts_example :
    AreVerdicts 2 minute 0
      (0 ∷ later_calls)
      (run one_key "ip:1" (pos 2) (pos minute) (over_working_links (0 ∷ later_calls)) no_key).0
run-AreVerdicts_example =
    run-AreVerdicts one_key one_key_server "ip:1" 2 minute (omega arith) (omega arith) 0 later_calls
      no_key (find-none 0 "ip:1") (omega arith, omega arith, (omega arith, omega arith, tt))
      (omega arith)

run-allow_example :
    (allow one_key up
      (65 * second)
      "ip:1"
      (pos 1)
      (pos minute)
      (run one_key "ip:1"
        (pos 1)
        (pos minute)
        ((0, up) ∷ (second, lost_after "reset") ∷ (5 * second, lost_before "down") ∷ [])
        no_key).1).0
    ≡ ok (true, pos 0)
run-allow_example =
    run-allow one_key one_key_server "ip:1" 1 minute 59 refl (omega arith) 0 (5 * second)
      (65 * second) ((0, up) ∷ (second, lost_after "reset") ∷ (5 * second, lost_before "down") ∷ [])
      no_key (find-none 0 "ip:1") (omega arith, (omega arith, (omega arith, omega arith)))
      (omega arith) (omega arith) (omega arith)

run-AllAllowed_example :
    AllAllowed
      (run one_key "ip:1" (pos 1) (pos (second / 2)) (over_working_links (0 ∷ 1 ∷ 2 ∷ [])) no_key).0
run-AllAllowed_example =
    run-AllAllowed one_key one_key_server "ip:1" 1 (second / 2) (omega arith) 0 5 (0 ∷ 1 ∷ 2 ∷ [])
      no_key (find-none 0 "ip:1") (omega arith)
      (omega arith, (omega arith, (omega arith, omega arith)))
