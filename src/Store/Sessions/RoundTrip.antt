-- ===== src/Store/Sessions/RoundTrip.antt =====
-- A session that internal/features/login/repository/db/session.go writes, read again.
use araquanid.Domain.Fault.{invalid_session, invalid_timeouts}
use araquanid.Domain.Session.RoundTrip.{rehydrate_session-snapshot}
use araquanid.Store.{text_or_empty-null_if_empty, refused, driver, wrapping}
use araquanid.Common.{
  String, none, List, [], ◌∷◌, map, ◌≡◌, refl, All, ◌≤◌, ◌*◌, ℕ, arith, true, ◌∙◌, ap, ◌<◌, sym,
  is_empty, false,
}
use araquanid.Common.Int.{max_int, pos}
use araquanid.Common.Result.{>>=-eq-ok, ok, map_error-eq-ok, Result, map_error, err, ok-injective}
use araquanid.Common.Time.{seconds, second, times_second, whole_seconds}
use araquanid.Domain.Kinds.{
  FactorType, active, no_reason, aal2, aal1, aal3, other_aal, Aal, is_valid_aal,
}
use araquanid.Domain.Session.{Session}
use araquanid.Domain.Session.Snapshot.{
  snapshot, rehydrate_session, check_session_fields, SessionSnapshot,
}
use araquanid.Domain.Session.Validity.{IsValid, MatchesFactors}
use araquanid.Store.Sessions.{
  Codec, session_row, scanned, marshal_factors, unmarshal_factors, create, scan_session_row,
  SessionRow,
}
use araquanid.Store.Texts.{factor_text, to_factor, to_aal-aal_text, to_status, to_reason}

-- What is documented of JSON: a list of strings is read as it was written.
pub record IsFaithful (codec : Codec) : Type 0 where
  pub json :
      (raw : List String) (text : String)
      → codec.marshal raw ≡ ok text
      → codec.unmarshal (codec.jsonb text) ≡ ok raw

-- A session that no column cuts short: its instants are ones that a column keeps, its idle timeout is
-- in whole seconds, its factors are the known ones, and its address is read as it was written.
pub record IsStorable (codec : Codec) (s : Session) : Type 0 where
  pub created : codec.timestamp s.created_at ≡ s.created_at
  pub touched : codec.timestamp s.last_activity_at ≡ s.last_activity_at
  pub ends : codec.timestamp s.absolute_expires_at ≡ s.absolute_expires_at
  pub idle_seconds : ℕ
  pub in_seconds : s.idle_timeout ≡ seconds idle_seconds
  pub fits : idle_seconds * second ≤ max_int
  pub known : All (λ f. to_factor (factor_text f) ≡ f) s.factors_used
  pub address : codec.parse_addr (codec.addr_string s.client.ip) ≡ ok s.client.ip
  pub is_active : s.status ≡ active
  pub goes_on : s.revoked_at ≡ none
  pub without_reason : s.revoke_reason ≡ no_reason

to_factors :
    (fs : List FactorType)
    → All (λ f. to_factor (factor_text f) ≡ f) fs
    → map to_factor (map factor_text fs) ≡ fs
to_factors [] h = refl
to_factors (f ∷ fs) h = rw (h.0, to_factors fs h.1) refl

marshal_factors-eq-ok :
    (codec : Codec) (fs : List FactorType) (text : String)
    → marshal_factors codec fs ≡ ok text
    → codec.marshal (map factor_text fs) ≡ ok text
unfolding marshal_factors
marshal_factors-eq-ok codec fs text h = map_error-eq-ok _ _ text (map_error-eq-ok _ _ text h)

unmarshal-marshal :
    (codec : Codec) (fs : List FactorType) (text : String)
    → IsFaithful codec
    → All (λ f. to_factor (factor_text f) ≡ f) fs
    → marshal_factors codec fs ≡ ok text
    → unmarshal_factors codec (codec.jsonb text) ≡ ok fs
unfolding unmarshal_factors
unmarshal-marshal codec fs text faithful known h =
    rw
      (
        faithful.json (map factor_text fs) text (marshal_factors-eq-ok codec fs text h),
        to_factors fs known,
      )
      refl

times_second-whole_seconds :
    (n : ℕ) → n * second ≤ max_int → times_second (whole_seconds (seconds n)) ≡ seconds n
times_second-whole_seconds n h = ground arith

MatchesFactors-is_valid_aal :
    (a : Aal) (fs : List FactorType) → MatchesFactors a fs → is_valid_aal a ≡ true
MatchesFactors-is_valid_aal aal1 fs h = refl
MatchesFactors-is_valid_aal aal2 fs h = refl
MatchesFactors-is_valid_aal aal3 fs h = refl
MatchesFactors-is_valid_aal (other_aal s) fs h = elim h [ ]

scanned-session_row :
    (codec : Codec) (s : Session) (client_id text : String)
    → IsStorable codec s
    → IsValid s
    → scanned (session_row codec (snapshot s) client_id text) s.factors_used s.client.ip
      ≡ snapshot s
unfolding scanned session_row snapshot to_status to_reason
scanned-session_row codec s client_id text keeps v =
    rw
      (
        keeps.created,
        keeps.touched,
        keeps.ends,
        keeps.in_seconds,
        times_second-whole_seconds keeps.idle_seconds keeps.fits,
        keeps.is_active,
        keeps.goes_on,
        keeps.without_reason,
        text_or_empty-null_if_empty s.device,
        to_aal-aal_text s.aal (MatchesFactors-is_valid_aal s.aal s.factors_used v.assured),
      )
      refl

create-eq-ok :
    (codec : Codec) (answer : Result String (Unit {0})) (s : Session) (client_id : String)
    (table rows : List SessionRow)
    → create codec answer s client_id table ≡ ok rows
    → (text : String) × (marshal_factors codec s.factors_used ≡ ok text)
      × (rows ≡ session_row codec (snapshot s) client_id text ∷ table)
unfolding create snapshot
create-eq-ok codec answer s client_id table rows h =
    let (text, marshalled, k) = >>=-eq-ok (marshal_factors codec s.factors_used) _ rows h in
    let (_, _, built) =
      >>=-eq-ok (wrapping "login/db: create session: " (map_error driver answer)) _ rows k in
    (text, marshalled, sym (ok-injective built))

-- The row of a session is scanned: its factors, its address and its fields.
scan_session_row-session_row :
    (codec : Codec) (s : Session) (client_id text : String)
    → IsFaithful codec
    → All (λ f. to_factor (factor_text f) ≡ f) s.factors_used
    → codec.parse_addr (codec.addr_string s.client.ip) ≡ ok s.client.ip
    → marshal_factors codec s.factors_used ≡ ok text
    → let row = session_row codec (snapshot s) client_id text in
      scan_session_row codec (ok tt) row
      ≡ map_error refused (rehydrate_session (scanned row s.factors_used s.client.ip))
unfolding scan_session_row session_row snapshot
scan_session_row-session_row codec s client_id text faithful known address h =
    rw (unmarshal-marshal codec s.factors_used text faithful known h, address) refl

-- A well-formed active session that is created is the newest row of the table, and scanning that row
-- gives it back, without pending events; provided that JSON and its address are read as they were
-- written, that its instants are ones a column keeps, that its idle timeout is in whole seconds, and
-- that its factors are known.
pub create-scan_session_row :
    (codec : Codec) (answer : Result String (Unit {0})) (s : Session) (client_id : String)
    (table rows : List SessionRow)
    → IsFaithful codec
    → IsStorable codec s
    → IsValid s
    → create codec answer s client_id table ≡ ok rows
    → (row : SessionRow) × (rows ≡ row ∷ table)
      × (scan_session_row codec (ok tt) row ≡ ok (record s { events = [] }))
create-scan_session_row codec answer s client_id table rows faithful keeps v h =
    let (text, marshalled, built) = create-eq-ok codec answer s client_id table rows h in
    (
      session_row codec (snapshot s) client_id text,
      built,
      scan_session_row-session_row codec s client_id text faithful keeps.known keeps.address
            marshalled
          ∙ ap (λ n. map_error refused (rehydrate_session n))
              (scanned-session_row codec s client_id text keeps v)
          ∙ ap (map_error refused) (rehydrate_session-snapshot s v),
    )

rehydrate_session_timeout :
    (n : SessionSnapshot)
    → is_empty n.id ≡ false
    → is_empty n.identity_id ≡ false
    → n.status ≡ active
    → is_valid_aal n.aal ≡ true
    → n.idle_timeout ≡ pos 0
    → rehydrate_session n ≡ err (invalid_session invalid_timeouts)
unfolding rehydrate_session check_session_fields
rehydrate_session_timeout n named owned status level brief =
    rw (named, owned, status, level, brief) refl

scanned-session_row_timeout :
    (codec : Codec) (s : Session) (client_id text : String) (n : ℕ)
    → IsValid s
    → s.status ≡ active
    → s.idle_timeout ≡ pos n
    → n < second
    → let row = session_row codec (snapshot s) client_id text in
      rehydrate_session (scanned row s.factors_used s.client.ip)
      ≡ err (invalid_session invalid_timeouts)
unfolding scanned session_row snapshot to_status
scanned-session_row_timeout codec s client_id text n v status brief short =
    let level = MatchesFactors-is_valid_aal s.aal s.factors_used v.assured in
    let nothing : times_second (whole_seconds (pos n)) ≡ pos 0 = ground (arith, short) in
    rehydrate_session_timeout _ v.named v.owned (rw status refl)
      (rw (to_aal-aal_text s.aal level) level) (rw brief nothing)

-- An active session with an idle timeout shorter than a second, which the domain accepts, is created
-- without an error, and its row cannot be read again, although its factors and its address are read as they were written: the
-- timeout is stored as 0.
pub create-scan_session_row_short :
    (codec : Codec) (answer : Result String (Unit {0})) (s : Session) (client_id : String)
    (table rows : List SessionRow) (n : ℕ)
    → IsFaithful codec
    → All (λ f. to_factor (factor_text f) ≡ f) s.factors_used
    → codec.parse_addr (codec.addr_string s.client.ip) ≡ ok s.client.ip
    → IsValid s
    → s.status ≡ active
    → s.idle_timeout ≡ pos n
    → n < second
    → create codec answer s client_id table ≡ ok rows
    → (row : SessionRow) × (rows ≡ row ∷ table)
      × (scan_session_row codec (ok tt) row ≡ err (refused (invalid_session invalid_timeouts)))
create-scan_session_row_short codec answer s client_id table rows n faithful known address v status
      brief short h =
    let (text, marshalled, built) = create-eq-ok codec answer s client_id table rows h in
    (
      session_row codec (snapshot s) client_id text,
      built,
      scan_session_row-session_row codec s client_id text faithful known address marshalled
          ∙ ap (map_error refused)
              (scanned-session_row_timeout codec s client_id text n v status brief short),
    )
