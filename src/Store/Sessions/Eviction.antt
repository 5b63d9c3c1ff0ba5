-- ===== src/Store/Sessions/Eviction.antt =====
-- The eviction of a session by a login, on the rows of
-- internal/features/login/repository/db/session.go.
use araquanid.Common.{
  Bool-cases, ◌&&◌, String, some, List, [], ◌∷◌, ◌≡◌, ◌<◌, refl, Mem, filter, length, ◌∙◌, sym, ap,
  inl, inr, true, false, ℕ, Bool, filter-Mem, length-filter-map_lt, none, Option,
}
use araquanid.Common.Int.{pos}
use mathlib.Core.Path.{subst}
use araquanid.Common.Result.{Result, ok, >>=-eq-ok, ok-injective, map_error, map_error-eq-ok}
use araquanid.Common.Text.{same_text, same_text_refl, concat}
use araquanid.Common.Time.{Time}
use araquanid.Domain.Session.{Session, terminate}
use araquanid.Domain.Session.Snapshot.{snapshot, rehydrate_session}
use araquanid.Domain.Session.RoundTrip.{snapshot-rehydrate_session}
use araquanid.Domain.Kinds.{revoked, concurrent_session_limit}
use araquanid.Store.{driver, wrapping}
use araquanid.Store.Sessions.{
  SessionRow, Codec, is_active_row, count_active, find_oldest_active, scan_first, scan_session_row,
  end_row, revoke, scanned, unmarshal_factors,
}

and_false : (x y : Bool) → (x && (y && false)) ≡ false
and_false false y = refl
and_false true false = refl
and_false true true = refl

pub scan_session_row_id :
    (codec : Codec) (row : SessionRow) (s : Session)
    → scan_session_row codec (ok tt) row ≡ ok s
    → row.id ≡ s.id
unfolding scan_session_row scanned snapshot
scan_session_row_id codec row s h =
    let (factors, _, k) = >>=-eq-ok (unmarshal_factors codec row.mfa_factors_used) _ s h in
    let (ip, _, l) =
      >>=-eq-ok
        (wrapping (concat ("parse creation_ip " ∷ row.creation_ip ∷ ": " ∷ []))
          (map_error driver (codec.parse_addr row.creation_ip)))
        _ s k in
    let rehydrated = map_error-eq-ok _ (rehydrate_session (scanned row factors ip)) s l in
    sym (ap (λ n. n.id) (snapshot-rehydrate_session (scanned row factors ip) s rehydrated).1)

abbrev some_or : Session → Option Session → Session
some_or s none = s
some_or s (some t) = t

scan_first-Mem :
    (codec : Codec) (order : List SessionRow → List SessionRow) (rows : List SessionRow)
    (s : Session)
    → scan_first codec order rows ≡ ok (some s)
    → (row : SessionRow) × Mem row rows × (row.id ≡ s.id)
unfolding scan_first
scan_first-Mem codec order [] s h = cc
scan_first-Mem codec order (row ∷ rows) s h =
    let (t, scan, k) =
      >>=-eq-ok
        (wrapping "login/db: find oldest active session: " (scan_session_row codec (ok tt) row)) _
        (some s) h in
    let same : t ≡ s = ap (some_or s) (ok-injective k) in
    (
      row,
      inl refl,
      scan_session_row_id codec row t (map_error-eq-ok _ _ t scan) ∙ ap (λ u. u.id) same,
    )

pub end_row-is_active_row :
    (codec : Codec) (identity_id client_id : String) (now : Time) (s : Session) (row : SessionRow)
    → same_text row.id s.id ≡ true
    → is_active_row identity_id client_id
        (end_row codec (snapshot (terminate revoked concurrent_session_limit "" now s)) row)
      ≡ false
unfolding snapshot terminate
end_row-is_active_row codec identity_id client_id now s row e =
    rw e (and_false (same_text row.identity_id identity_id) (same_text row.client_id client_id))

end_row-inactive :
    (codec : Codec) (identity_id client_id : String) (now : Time) (s : Session) (row : SessionRow)
    → is_active_row identity_id client_id row ≡ false
    → is_active_row identity_id client_id
        (end_row codec (snapshot (terminate revoked concurrent_session_limit "" now s)) row)
      ≡ false
unfolding snapshot terminate
end_row-inactive codec identity_id client_id now s row h =
    elim (Bool-cases (same_text row.id s.id)) [
      | inl e ↦ end_row-is_active_row codec identity_id client_id now s row e
      | inr e ↦ rw e h
    ]

-- The eviction that LIMIT_N makes frees a place: where the oldest active session of an identity and a
-- client is found, terminated and its revocation is stored, CountActive gives less afterwards than
-- before, if ORDER BY gives only rows that it got and the statements are answered.
pub find_oldest_active-revoke :
    (codec : Codec) (order : List SessionRow → List SessionRow) (answer : Result String (Unit {0}))
    (identity_id client_id : String) (now : Time) (s : Session) (table rows : List SessionRow)
    → ((row : SessionRow) (taken : List SessionRow) → Mem row (order taken) → Mem row taken)
    → find_oldest_active codec order (ok tt) identity_id client_id table ≡ ok (some s)
    → revoke codec answer (terminate revoked concurrent_session_limit "" now s) table ≡ ok rows
    → (before after : ℕ) × (count_active (ok tt) identity_id client_id table ≡ ok (pos before))
      × (count_active (ok tt) identity_id client_id rows ≡ ok (pos after))
      × (after < before)
unfolding find_oldest_active revoke count_active
find_oldest_active-revoke codec order answer identity_id client_id now s table rows given found h =
    let p = is_active_row identity_id client_id in
    let f = end_row codec (snapshot (terminate revoked concurrent_session_limit "" now s)) in
    let (row, m, same) = scan_first-Mem codec order (order (filter p table)) s found in
    let (in_table, on) = filter-Mem p row table (given row (filter p table) m) in
    let (_, _, k) =
      >>=-eq-ok (wrapping "login/db: revoke session: " (map_error driver answer)) _ rows h in
    let same_id : same_text row.id s.id ≡ true =
      ap (λ i. same_text i s.id) same ∙ same_text_refl s.id in
    (
      length (filter p table),
      length (filter p rows),
      refl,
      refl,
      subst (λ r. length (filter p r) < length (filter p table)) (ok-injective k)
          (length-filter-map_lt p f row table (end_row-inactive codec identity_id client_id now s)
            in_table on (end_row-is_active_row codec identity_id client_id now s row same_id)),
    )
