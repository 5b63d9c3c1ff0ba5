-- ===== src/Store/Sessions/Tests.antt =====
-- The rows of internal/features/login/repository/db/session.go on concrete tables.
use araquanid.Login.Sessions.{apply_concurrent_session_policy}
use araquanid.Store.Sessions.Eviction.{find_oldest_active-revoke}
use araquanid.Store.Sessions.Single.{revoked_rows, apply_concurrent_session_policy-count_active}
use araquanid.Login.Ports.{Dependencies}
use araquanid.Domain.Session.Snapshot.{rehydrate_session}
use araquanid.Store.Texts.{to_status, to_aal, to_reason}
use araquanid.Common.{String, none, some, List, [], ◌∷◌, ◌≡◌, refl, arith, ◌+◌, ◌<◌, ℕ, true}
use araquanid.Common.Int.{pos, ℤ}
use araquanid.Common.Result.{Result, ok, err, ◌>>=◌}
use araquanid.Common.Time.{Time, minutes}
use araquanid.Domain.Fault.{invalid_session, invalid_timeouts}
use araquanid.Domain.Kinds.{
  ip4, aal1, active, no_reason, revoked, user_logout, concurrent_session_limit,
}
use araquanid.Domain.Session.{Session, terminate, is_active}
use araquanid.Domain.Session.Validity as SessionValidity
use araquanid.Domain.Session.Snapshot as SessionSnapshots
use araquanid.Store.Sessions as SessionStore
use araquanid.Store.{refused}
use araquanid.Store.Sessions.{
  SessionRow, Codec, create, scan_session_row, list_active, count_active, find_oldest_active,
  revoke, marshal_factors, scan_rows, session_row, unmarshal_factors, end_row,
}
use araquanid.Store.Sessions.RoundTrip.{
  IsFaithful, IsStorable, create-scan_session_row, create-scan_session_row_short,
}
use araquanid.Login.Fixtures.{ports}
use araquanid.Store.Sessions.Queries.{list_active-eq-ok}

-- JSON for the empty list, and one address.
abbrev marshal : List String → Result String String
marshal [] = ok "[]"
marshal (s ∷ ss) = err "not needed"

abbrev codec : Codec
codec = record {
  marshal = marshal;
  unmarshal = λ s. ok [];
  jsonb = λ s. s;
  addr_string = λ ip. "10.0.0.1";
  parse_addr = λ s. ok (ip4 10 0 0 1);
  timestamp = λ t. t;
}

marshal-faithful :
    (raw : List String) (text : String) → marshal raw ≡ ok text → codec.unmarshal text ≡ ok raw
marshal-faithful [] text h = refl
marshal-faithful (s ∷ ss) text h = absurd (ground (arith, h))

codec-IsFaithful : IsFaithful codec
codec-IsFaithful = record { json = marshal-faithful }

abbrev noon : Time
noon = 10_000_000_000_000_000_000_000_000_000

abbrev session : Session
session = record {
  id = "s-1";
  identity = "u-1";
  device = "";
  aal = aal1;
  factors_used = [];
  status = active;
  created_at = noon;
  last_activity_at = noon;
  idle_timeout = minutes 15;
  absolute_expires_at = noon + 28_800_000_000_000;
  revoked_at = none;
  revoke_reason = no_reason;
  client = record { ip = ip4 10 0 0 1; user_agent = "curl/8.0" };
  events = [];
}

-- The same for half a second of inactivity.
abbrev brief_session : Session
brief_session = record session { idle_timeout = pos 500_000_000 }

session-IsValid : SessionValidity.IsValid session
session-IsValid = record {
  named = refl;
  owned = refl;
  assured = refl;
  idle = omega arith;
  lasting = omega arith;
  ordered = omega arith;
  ended = (refl, refl);
}

brief_session-IsValid : SessionValidity.IsValid brief_session
brief_session-IsValid = record {
  named = refl;
  owned = refl;
  assured = refl;
  idle = omega arith;
  lasting = omega arith;
  ordered = omega arith;
  ended = (refl, refl);
}

session-IsStorable : IsStorable codec session
session-IsStorable = record {
  created = refl;
  touched = refl;
  ends = refl;
  idle_seconds = 900;
  in_seconds = refl;
  fits = omega arith;
  known = tt;
  address = refl;
  is_active = refl;
  goes_on = refl;
  without_reason = refl;
}

abbrev row_of : ℤ → SessionRow
row_of idle_secs = record {
  id = "s-1";
  identity_id = "u-1";
  device_id = none;
  client_id = "web";
  status = "ACTIVE";
  aal = "AAL1";
  mfa_factors_used = "[]";
  created_at = noon;
  last_activity_at = noon;
  idle_timeout_secs = idle_secs;
  absolute_expires_at = noon + 28_800_000_000_000;
  creation_ip = "10.0.0.1";
  creation_user_agent = "curl/8.0";
  revoked_at = none;
  revoke_reason = none;
}

created : create codec (ok tt) session "web" [] ≡ ok (row_of (pos 900) ∷ [])
unfolding create marshal_factors session_row SessionSnapshots.snapshot
created = refl

created_brief : create codec (ok tt) brief_session "web" [] ≡ ok (row_of (pos 0) ∷ [])
unfolding create marshal_factors session_row SessionSnapshots.snapshot
created_brief = refl

-- A revoked session is no longer counted.
revoked_is_not_counted :
    (revoke codec
        (ok tt)
        (record session { status = revoked; revoked_at = some noon; revoke_reason = user_logout })
        (row_of (pos 900) ∷ [])
      >>= count_active (ok tt) "u-1" "web")
    ≡ ok (pos 0)
unfolding revoke count_active SessionSnapshots.snapshot
revoked_is_not_counted = refl

create-scan_session_row_example :
    (row : SessionRow) × (row_of (pos 900) ∷ [] ≡ row ∷ [])
    × (scan_session_row codec (ok tt) row ≡ ok (record session { events = [] }))
create-scan_session_row_example =
    create-scan_session_row codec (ok tt) session "web" [] (row_of (pos 900) ∷ []) codec-IsFaithful
      session-IsStorable session-IsValid created

create-scan_session_row_short_example :
    (row : SessionRow) × (row_of (pos 0) ∷ [] ≡ row ∷ [])
    × (scan_session_row codec (ok tt) row ≡ err (refused (invalid_session invalid_timeouts)))
create-scan_session_row_short_example =
    create-scan_session_row_short codec (ok tt) brief_session "web" [] (row_of (pos 0) ∷ [])
      500_000_000 codec-IsFaithful tt refl brief_session-IsValid refl refl (omega arith)
      created_brief

abbrev same_order : List SessionRow → List SessionRow
same_order rows = rows

listed :
    list_active codec same_order (ok tt) "u-1" "web" (row_of (pos 900) ∷ []) ≡ ok (session ∷ [])
unfolding list_active scan_rows scan_session_row unmarshal_factors rehydrate_session
    SessionStore.scanned to_status to_aal to_reason
listed = refl

list_active-eq-ok_example :
    (count_active (ok tt) "u-1" "web" (row_of (pos 900) ∷ []) ≡ ok (pos 1))
    × (find_oldest_active codec same_order (ok tt) "u-1" "web" (row_of (pos 900) ∷ [])
        ≡ ok (some session))
list_active-eq-ok_example =
    list_active-eq-ok codec same_order (ok tt) "u-1" "web" (row_of (pos 900) ∷ []) (session ∷ [])
      (λ rows. refl) listed

oldest :
    find_oldest_active codec same_order (ok tt) "u-1" "web" (row_of (pos 900) ∷ [])
    ≡ ok (some session)
oldest =
    (list_active-eq-ok codec same_order (ok tt) "u-1" "web" (row_of (pos 900) ∷ []) (session ∷ [])
      (λ rows. refl) listed).1

abbrev later : Time
later = noon + 60_000_000_000

-- The session as the policy ends it, and the rows after that.
abbrev evicted : Session
evicted = terminate revoked concurrent_session_limit "" later session

abbrev evicted_rows : List SessionRow
evicted_rows = end_row codec (SessionSnapshots.snapshot evicted) (row_of (pos 900)) ∷ []

is_evicted : revoke codec (ok tt) evicted (row_of (pos 900) ∷ []) ≡ ok evicted_rows
unfolding revoke
is_evicted = refl

find_oldest_active-revoke_example :
    (before after : ℕ) × (count_active (ok tt) "u-1" "web" (row_of (pos 900) ∷ [])
      ≡ ok (pos before))
    × (count_active (ok tt) "u-1" "web" evicted_rows ≡ ok (pos after))
    × (after < before)
find_oldest_active-revoke_example =
    find_oldest_active-revoke codec same_order (ok tt) "u-1" "web" later session
      (row_of (pos 900) ∷ []) evicted_rows (λ row taken m. m) oldest is_evicted

abbrev ports_listing : Dependencies
ports_listing = record (ports "SINGLE" true) { list_active = λ identity client. ok (session ∷ []) }

session_goes_on : is_active later session ≡ true
unfolding is_active
session_goes_on = refl

apply_concurrent_session_policy-count_active_example :
    count_active (ok tt) "u-1" "web" (
      revoked_rows codec
        (apply_concurrent_session_policy ports_listing "u-1" "web" later).trace
        (row_of (pos 900) ∷ []))
    ≡ ok (pos 0)
apply_concurrent_session_policy-count_active_example =
    apply_concurrent_session_policy-count_active ports_listing codec same_order "u-1" "web" later
      (session ∷ []) (row_of (pos 900) ∷ []) (λ row taken m. m) refl refl listed (λ t. refl)
      (refl, tt) (session_goes_on, tt)
