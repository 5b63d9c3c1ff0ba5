-- ===== src/Store/Sessions/Queries.antt =====
-- The three queries on active sessions in internal/features/login/repository/db/session.go agree.
use araquanid.Common.{
  String, Option, none, some, List, [], ◌∷◌, ◌≡◌, length, filter, ◌∙◌, sym, ap, suc,
}
use araquanid.Common.Int.{pos}
use araquanid.Common.Result.{>>=-eq-ok, Result, ok, ok-injective, map_error, map_error-eq-ok}
use araquanid.Domain.Session.{Session}
use araquanid.Store.{driver, wrapping}
use araquanid.Store.Sessions.{
  SessionRow, Codec, is_active_row, count_active, list_active, find_oldest_active, scan_rows,
  scan_first, scan_session_row,
}

abbrev pub head : List Session → Option Session
head [] = none
head (s ∷ ss) = some s

module _ (codec : Codec) (order : List SessionRow → List SessionRow) where
  length-scan_rows :
      (rows : List SessionRow) (ss : List Session)
      → scan_rows codec order rows ≡ ok ss
      → length ss ≡ length rows
  unfolding scan_rows
  length-scan_rows [] ss h = ap length (sym (ok-injective h))
  length-scan_rows (row ∷ rows) ss h =
      let (s, _, g) =
        >>=-eq-ok (wrapping "login/db: scan active session: " (scan_session_row codec (ok tt) row))
          _ ss h in
      let (rest, scanned, k) = >>=-eq-ok (scan_rows codec order rows) _ ss g in
      ap length (sym (ok-injective k)) ∙ ap suc (length-scan_rows rows rest scanned)

  scan_first-scan_rows :
      (rows : List SessionRow) (ss : List Session)
      → scan_rows codec order rows ≡ ok ss
      → scan_first codec order rows ≡ ok (head ss)
  unfolding scan_rows scan_first
  scan_first-scan_rows [] ss h = ap (λ x. ok (head x)) (ok-injective h)
  scan_first-scan_rows (row ∷ rows) ss h =
      let (s, first, g) =
        >>=-eq-ok (wrapping "login/db: scan active session: " (scan_session_row codec (ok tt) row))
          _ ss h in
      let (rest, _, k) = >>=-eq-ok (scan_rows codec order rows) _ ss g in
      rw (map_error-eq-ok _ _ s first) (ap (λ x. ok (head x)) (ok-injective k))

  -- Where the list of the active sessions of an identity and a client can be read, their count is its
  -- length and the oldest one is its head; if ORDER BY gives as many rows as it gets, and the other two
  -- statements are answered.
  pub list_active-eq-ok :
      (answer : Result String (Unit {0})) (identity_id client_id : String) (table : List SessionRow)
      (ss : List Session)
      → ((rows : List SessionRow) → length (order rows) ≡ length rows)
      → list_active codec order answer identity_id client_id table ≡ ok ss
      → (count_active (ok tt) identity_id client_id table ≡ ok (pos (length ss)))
        × (find_oldest_active codec order (ok tt) identity_id client_id table ≡ ok (head ss))
  unfolding list_active count_active find_oldest_active
  list_active-eq-ok answer identity_id client_id table ss whole h =
      let rows = filter (is_active_row identity_id client_id) table in
      let (_, _, k) =
        >>=-eq-ok (wrapping "login/db: list active sessions: " (map_error driver answer)) _ ss h in
      (
        ap (λ n. ok (pos n)) (sym (whole rows) ∙ sym (length-scan_rows (order rows) ss k)),
        scan_first-scan_rows (order rows) ss k,
      )
