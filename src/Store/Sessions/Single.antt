-- ===== src/Store/Sessions/Single.antt =====
-- The policy SINGLE of internal/features/login/usecase/login.go on the rows of
-- internal/features/login/repository/db/session.go.
use araquanid.Common.{
  String, List, [], ◌∷◌, ◌≡◌, refl, Mem, Mem-All, Mem-filter, All, filter, length, map, ◌∙◌, sym,
  ap, inl, inr, true, false, Bool-cases,
}
use mathlib.Core.Path.{subst}
use araquanid.Common.Int.{pos}
use araquanid.Common.Result.{ok, >>=-eq-ok, ok-injective, map_error-eq-ok}
use araquanid.Common.Text.{same_text, same_text_refl}
use araquanid.Common.Time.{Time}
use araquanid.Domain.Session.{Session, terminate, is_active}
use araquanid.Domain.Session.Snapshot.{snapshot}
use araquanid.Domain.Kinds.{revoked, concurrent_session_limit, is_valid_status}
use araquanid.Login.Eviction.{evictions, single_policy_lem}
use araquanid.Login.Ports.{Dependencies}
use araquanid.Login.Sessions.{apply_concurrent_session_policy}
use araquanid.Login.Transaction.{Write, revoked_session}
use araquanid.Store.{wrapping}
use araquanid.Store.Sessions.{
  SessionRow, Codec, is_active_row, count_active, list_active, scan_rows, scan_session_row, end_row,
}
use araquanid.Store.Sessions.Eviction.{scan_session_row_id, end_row-is_active_row}

-- What `Revoke` makes of the rows for every revocation among the writes, in their order.
abbrev pub revoked_rows : Codec → List Write → List SessionRow → List SessionRow
revoked_rows codec [] table = table
revoked_rows codec (revoked_session s ∷ writes) table =
    revoked_rows codec writes (map (end_row codec (snapshot s)) table)
revoked_rows codec (_ ∷ writes) table = revoked_rows codec writes table

module _ (codec : Codec) (identity_id client_id : String) where
  -- A row that is active is that of one of the sessions.
  abbrev IsCovered : List Session → SessionRow → Type 0
  IsCovered ss row =
      is_active_row identity_id client_id row ≡ true → (s : Session) × Mem s ss × (row.id ≡ s.id)

  scan_rows-Mem :
      (order : List SessionRow → List SessionRow) (rows : List SessionRow) (ss : List Session)
      (row : SessionRow)
      → scan_rows codec order rows ≡ ok ss
      → Mem row rows
      → (s : Session) × Mem s ss × (row.id ≡ s.id)
  unfolding scan_rows
  scan_rows-Mem order [] ss row h m = elim m [ ]
  scan_rows-Mem order (r ∷ rows) ss row h m =
      let (s, scan, k) =
        >>=-eq-ok (wrapping "login/db: scan active session: " (scan_session_row codec (ok tt) r)) _
          ss h in
      let (rest, scans, l) = >>=-eq-ok (scan_rows codec order rows) _ ss k in
      let whole : (s ∷ rest) ≡ ss = ok-injective l in
      elim m [
        | inl here ↦ (
          s,
          subst (Mem s) whole (inl refl),
          ap (λ x. x.id) (sym here) ∙ scan_session_row_id codec r s (map_error-eq-ok _ _ s scan),
        )
        | inr later ↦
            let (t, n, e) = scan_rows-Mem order rows rest row scans later in
            (t, subst (Mem t) whole (inr n), e)
      ]

  end_row-IsCovered :
      (now : Time) (s : Session) (ss : List Session) (row : SessionRow)
      → IsCovered (s ∷ ss) row
      → IsCovered ss
          (end_row codec (snapshot (terminate revoked concurrent_session_limit "" now s)) row)
  unfolding snapshot terminate
  end_row-IsCovered now s ss row c on = elim (Bool-cases (same_text row.id s.id)) [
    | inl e ↦
        absurd
          (is_false-true (sym (end_row-is_active_row codec identity_id client_id now s row e) ∙ on))
    | inr e ↦ rw e (among e (c (rw e at on)))
  ]
    where
      is_false-true : false ≡ true → ⊥
      is_false-true h = cc

      among :
          same_text row.id s.id ≡ false
          → (t : Session) × Mem t (s ∷ ss) × (row.id ≡ t.id)
          → (t : Session) × Mem t ss × (row.id ≡ t.id)
      among e (t, inl here, same) = absurd (
          is_false-true (
            sym e
            ∙ ap (λ i. same_text i s.id) (same ∙ ap (λ u. u.id) (sym here))
            ∙ same_text_refl s.id))
      among e (t, inr later, same) = (t, later, same)

  map-IsCovered :
      (now : Time) (s : Session) (ss : List Session) (table : List SessionRow)
      → All (IsCovered (s ∷ ss)) table
      → All (IsCovered ss) (
          map
            (end_row codec (snapshot (terminate revoked concurrent_session_limit "" now s)))
            table)
  map-IsCovered now s ss [] c = tt
  map-IsCovered now s ss (row ∷ table) c =
      (end_row-IsCovered now s ss row c.0, map-IsCovered now s ss table c.1)

  evictions-IsCovered :
      (now : Time) (ss : List Session) (table : List SessionRow)
      → All (λ s. is_active now s ≡ true) ss
      → All (IsCovered ss) table
      → All (IsCovered []) (revoked_rows codec (evictions now ss) table)
  evictions-IsCovered now [] table on c = c
  evictions-IsCovered now (s ∷ ss) table on c =
      rw on.0 (evictions-IsCovered now ss _ on.1 (map-IsCovered now s ss table c))

  filter-IsCovered :
      (table : List SessionRow)
      → All (IsCovered []) table
      → filter (is_active_row identity_id client_id) table ≡ []
  filter-IsCovered [] c = refl
  filter-IsCovered (row ∷ table) c = elim (Bool-cases (is_active_row identity_id client_id row)) [
    | inl e ↦ let (_, m, _) = c.0 e in elim m [ ]
    | inr e ↦ rw e (filter-IsCovered table c.1)
  ]

-- Under SINGLE, where the port lists what `ListActive` reads from the rows and no timeout of a listed
-- session has passed, the revocations that the policy writes leave no active row of the identity and
-- the client: `CountActive` gives 0 before the new session is created; if ORDER BY keeps every row and
-- the revocations are stored.
pub apply_concurrent_session_policy-count_active :
    (deps : Dependencies) (codec : Codec) (order : List SessionRow → List SessionRow)
    (identity client : String) (now : Time) (ss : List Session) (table : List SessionRow)
    → ((row : SessionRow) (taken : List SessionRow) → Mem row taken → Mem row (order taken))
    → deps.config.concurrent_policy ≡ "SINGLE"
    → deps.list_active identity client ≡ ok ss
    → list_active codec order (ok tt) identity client table ≡ ok ss
    → ((t : Session) → deps.revoke_session t ≡ ok tt)
    → All (λ s. is_valid_status s.status ≡ true) ss
    → All (λ s. is_active now s ≡ true) ss
    → count_active
        (ok tt)
        identity
        client
        (revoked_rows codec (apply_concurrent_session_policy deps identity client now).trace table)
      ≡ ok (pos 0)
unfolding list_active count_active
apply_concurrent_session_policy-count_active deps codec order identity client now ss table kept
      single port listed stores valid on =
    let p = is_active_row identity client in
    let covered : All (IsCovered codec identity client ss) table =
      Mem-All (IsCovered codec identity client ss) table (λ row m e.
        scan_rows-Mem codec identity client order (order (filter p table)) ss row listed
          (kept row (filter p table) (Mem-filter p row table e m))) in
    rw (single_policy_lem deps identity client now ss single port stores valid) (
      ap (λ rows. ok (pos (length rows)))
        (filter-IsCovered codec identity client _
          (evictions-IsCovered codec identity client now ss table on covered)))
