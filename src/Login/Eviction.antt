-- ===== src/Login/Eviction.antt =====
-- What applyConcurrentSessionPolicy of internal/features/login/usecase/login.go does to the sessions
-- that the repository lists as ACTIVE.
use araquanid.Domain.Session.Expiry.{revoke_lem}
use araquanid.Common.Int.{ℤ, leb_ℤ}
use araquanid.Login.Ports.{Dependencies}
use araquanid.Domain.Session.{Session, is_active, terminate}
use araquanid.Login.Sessions.{evict, evict_all, apply_concurrent_session_policy}
use araquanid.Common.Time.{Time}
use araquanid.Common.{
  ◌≡◌, ◌∷◌, if◌then◌else◌, ◌++◌, refl, inl, inr, some, [], List, All, String, true, Bool-cases,
}
use araquanid.Login.Transaction.{revoked_session, Write}
use araquanid.Domain.Kinds.{revoked, concurrent_session_limit, is_valid_status}
use araquanid.Common.Result.{ok}

-- The revocation that the policy stores for a session: none if a timeout of it has passed.
abbrev pub eviction : Time → Session → List Write
eviction now s =
    if is_active now s
    then revoked_session (terminate revoked concurrent_session_limit "" now s) ∷ []
    else []

abbrev pub evictions : Time → List Session → List Write
evictions now [] = []
evictions now (s ∷ ss) = eviction now s ++ evictions now ss

evict_lem :
    (deps : Dependencies) (now : Time) (s : Session)
    → ((t : Session) → deps.revoke_session t ≡ ok tt)
    → is_valid_status s.status ≡ true
    → evict deps now s ≡ record { trace = eviction now s; result = ok tt }
unfolding evict
evict_lem deps now s stores v = elim (Bool-cases (is_active now s)) [
  | inl on ↦
      rw (revoke_lem concurrent_session_limit "" now s v, evict)
        (rw on (rw (stores (terminate revoked concurrent_session_limit "" now s))))
  | inr off ↦ rw (revoke_lem concurrent_session_limit "" now s v, evict) (rw off)
]

evict_all_lem :
    (deps : Dependencies) (now : Time) (ss : List Session)
    → ((t : Session) → deps.revoke_session t ≡ ok tt)
    → All (λ s. is_valid_status s.status ≡ true) ss
    → evict_all deps now ss ≡ record { trace = evictions now ss; result = ok tt }
unfolding evict_all
evict_all_lem deps now [] stores v = refl
evict_all_lem deps now (s ∷ ss) stores v =
    rw (evict_lem deps now s stores v.0, evict_all) (rw (evict_all_lem deps now ss stores v.1))

-- Under SINGLE every listed session that is still active is revoked and stored, in the order of the
-- list, and no other is written: a listed session past one of its timeouts keeps its stored status.
pub single_policy_lem :
    (deps : Dependencies) (identity client : String) (now : Time) (ss : List Session)
    → deps.config.concurrent_policy ≡ "SINGLE"
    → deps.list_active identity client ≡ ok ss
    → ((t : Session) → deps.revoke_session t ≡ ok tt)
    → All (λ s. is_valid_status s.status ≡ true) ss
    → apply_concurrent_session_policy deps identity client now
      ≡ record { trace = evictions now ss; result = ok tt }
unfolding apply_concurrent_session_policy
single_policy_lem deps identity client now ss p listed stores v =
    rw (p, apply_concurrent_session_policy) (rw listed (rw (evict_all_lem deps now ss stores v)))

-- Under LIMIT_N with the limit reached, the oldest listed session is revoked and stored if it is still
-- active. If one of its timeouts has passed, nothing is written at all: no session is evicted, however
-- far above the limit their number is.
pub limit_policy_lem :
    (deps : Dependencies) (identity client : String) (now : Time) (count : ℤ) (oldest : Session)
    → deps.config.concurrent_policy ≡ "LIMIT_N"
    → deps.count_active identity client ≡ ok count
    → leb_ℤ deps.config.concurrent_max count ≡ true
    → deps.find_oldest_active identity client ≡ ok (some oldest)
    → ((t : Session) → deps.revoke_session t ≡ ok tt)
    → is_valid_status oldest.status ≡ true
    → apply_concurrent_session_policy deps identity client now
      ≡ record { trace = eviction now oldest; result = ok tt }
unfolding apply_concurrent_session_policy
limit_policy_lem deps identity client now count oldest p counted reached found stores v =
    rw (p, apply_concurrent_session_policy)
      (rw counted (rw reached (rw found (rw (evict_lem deps now oldest stores v)))))
