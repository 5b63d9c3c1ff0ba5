-- ===== src/Login/Sessions.antt =====
-- applyConcurrentSessionPolicy of internal/features/login/usecase/login.go: what a login does to the
-- other sessions of the same identity and client.
use araquanid.Common.Int.{leb_ℤ}
use araquanid.Common.Text.{same_text}
use araquanid.Domain.Session.{Session, revoke}
use araquanid.Common.Time.{Time}
use araquanid.Login.Ports.{Dependencies}
use araquanid.Common.{◌∷◌, if◌then◌else◌, none, some, [], String, List, Option}
use araquanid.Common.Method.{returns}
use araquanid.Login.Transaction.{revoked_session, Write}
use araquanid.Domain.Kinds.{concurrent_session_limit}
use araquanid.Login.Traced.{◌>>=◌, ◌>>◌, Traced, pure, call, answer}

-- One session is revoked and stored; one that has ended already is passed over.
unfoldable pub evict : Dependencies → Time → Session → Traced Write String (Unit {0})
evict deps now s = elim (revoke concurrent_session_limit "" now s) [
  | returns _ s' ↦ call (revoked_session s') (deps.revoke_session s')
  | _ ↦ pure tt
]

-- The loop of "SINGLE".
unfoldable pub evict_all : Dependencies → Time → List Session → Traced Write String (Unit {0})
unfolding evict
evict_all deps now [] = pure tt
evict_all deps now (s ∷ ss) = evict deps now s >> evict_all deps now ss

unfoldable pub evict_oldest : Dependencies → Time → Option Session → Traced Write String (Unit {0})
unfolding evict
evict_oldest deps now none = pure tt
evict_oldest deps now (some s) = evict deps now s

-- `applyConcurrentSessionPolicy`
unfoldable pub apply_concurrent_session_policy :
    Dependencies → String → String → Time → Traced Write String (Unit {0})
unfolding evict_all evict_oldest
apply_concurrent_session_policy deps identity client now =
    if same_text deps.config.concurrent_policy "SINGLE"
    then answer (deps.list_active identity client) >>= evict_all deps now
    else if same_text deps.config.concurrent_policy "LIMIT_N"
    then (answer (deps.count_active identity client) >>= λ count.
        if leb_ℤ deps.config.concurrent_max count
        then answer (deps.find_oldest_active identity client) >>= evict_oldest deps now
        else pure tt)
    else pure tt
