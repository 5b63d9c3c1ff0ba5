-- ===== src/Store/Devices/Recognition.antt =====
-- A device that is unknown before Register of internal/features/login/repository/db/device.go, and after.
use araquanid.Common.{
  String, none, some, List, [], ◌∷◌, ◌&&◌, ◌≡◌, ◌⊎◌, inl, inr, refl, filter, contains, Bool, true,
  false, ◌∙◌, sym, ap, All, Mem, Mem-All, Bool-cases, Mem-contains, Mem-filter, contains-Mem,
}
use araquanid.Common.Result.{Result, ok, map_error, >>=-eq-ok, ok-injective}
use araquanid.Common.Text.{same_text, same_text_refl, same_text-true}
use araquanid.Store.{driver, wrapping}
use araquanid.Store.Devices.{
  DeviceRow, Registration, has_key, is_recognised, first_device, find_by_fingerprint,
  registered_row, insert_device, register,
}

found_first :
    (r : Registration) (table : List DeviceRow)
    → first_device
        (filter (is_recognised r.identity_id r.fingerprint_hash) (registered_row r ∷ table))
      ≡ some (record { id = r.id; trust_status = "REGISTERED"; last_seen_at = r.now })
unfolding registered_row
found_first r table = rw (same_text_refl r.identity_id, same_text_refl r.fingerprint_hash) refl

-- The row has the key of the registration.
abbrev pub HasKey : Registration → DeviceRow → Type 0
HasKey r row = (row.identity_id ≡ r.identity_id) × (row.fingerprint_hash ≡ r.fingerprint_hash)

-- The table after a registration whose key no row has, and the device is found.
pub record IsRegistered (r : Registration) (table : List DeviceRow) (id : String)
    (rows : List DeviceRow) : Type 0 where
  pub free : All (λ row. ¬ HasKey r row) table
  pub identifier : id ≡ r.id
  pub stored : rows ≡ registered_row r ∷ table
  pub found :
      find_by_fingerprint (ok tt) r.identity_id r.fingerprint_hash rows
      ≡ ok (some (record { id = r.id; trust_status = "REGISTERED"; last_seen_at = r.now }))

-- The same where a revoked row has the key: the device stays unknown.
pub record IsBarred (r : Registration) (table : List DeviceRow) (id : String)
    (rows : List DeviceRow) : Type 0 where
  pub row : DeviceRow
  pub in_table : Mem row table
  pub has_key : HasKey r row
  pub is_revoked : row.trust_status ≡ "REVOKED"
  pub no_identifier : id ≡ ""
  pub unchanged : rows ≡ table
  pub still_unknown : find_by_fingerprint (ok tt) r.identity_id r.fingerprint_hash rows ≡ ok none

&&-true : (x y : Bool) → (x && y) ≡ true → (x ≡ true) × (y ≡ true)
&&-true true true h = (refl, refl)
&&-true true false h = cc
&&-true false true h = cc
&&-true false false h = cc

has_key-HasKey :
    (r : Registration) (row : DeviceRow)
    → has_key r.identity_id r.fingerprint_hash row ≡ true
    → HasKey r row
has_key-HasKey r row h =
    let (same_identity, same_hash) =
      &&-true (same_text row.identity_id r.identity_id)
        (same_text row.fingerprint_hash r.fingerprint_hash) h in
    (
      same_text-true row.identity_id r.identity_id same_identity,
      same_text-true row.fingerprint_hash r.fingerprint_hash same_hash,
    )

HasKey-has_key :
    (r : Registration) (row : DeviceRow)
    → HasKey r row
    → has_key r.identity_id r.fingerprint_hash row ≡ true
HasKey-has_key r row (e, f) =
    rw
      (
        ap (λ i. same_text i r.identity_id) e ∙ same_text_refl r.identity_id,
        ap (λ i. same_text i r.fingerprint_hash) f ∙ same_text_refl r.fingerprint_hash,
      )
      refl

free_of_key :
    (r : Registration) (table : List DeviceRow)
    → contains (has_key r.identity_id r.fingerprint_hash) table ≡ false
    → All (λ row. ¬ HasKey r row) table
free_of_key r table h =
    Mem-All (λ row. ¬ HasKey r row) table
      (λ row m k. false-true (
        sym h
        ∙ Mem-contains (has_key r.identity_id r.fingerprint_hash) row table (HasKey-has_key r row k)
            m))
  where
    false-true : false ≡ true → ⊥
    false-true e = cc

-- What is not found has no recognised row.
unknown_is_revoked :
    (r : Registration) (table : List DeviceRow) (row : DeviceRow)
    → first_device (filter (is_recognised r.identity_id r.fingerprint_hash) table) ≡ none
    → Mem row table
    → has_key r.identity_id r.fingerprint_hash row ≡ true
    → row.trust_status ≡ "REVOKED"
unknown_is_revoked r table row unknown m k =
    elim (Bool-cases (same_text row.trust_status "REVOKED")) [
      | inl e ↦ same_text-true row.trust_status "REVOKED" e
      | inr e ↦ absurd (
          none-Mem (filter (is_recognised r.identity_id r.fingerprint_hash) table) unknown (
            Mem-filter (is_recognised r.identity_id r.fingerprint_hash) row table (rw (k, e) refl)
              m))
    ]
  where
    none-Mem : (rows : List DeviceRow) → first_device rows ≡ none → Mem row rows → ⊥
    none-Mem [] e n = n
    none-Mem (x ∷ xs) e n = cc

-- A device that was not found for a fingerprint and is registered without an error of the server:
-- either no row has its identity and its fingerprint, and then the identifier that Postgres draws is
-- returned, the new row stands in the table before the others, and the device is found; or a REVOKED
-- row has them, and then no identifier is returned, the table stays as it was, and the device is still
-- not found.
pub find_by_fingerprint-register :
    (answer : Result String (Unit {0})) (r : Registration) (table rows : List DeviceRow)
    (id : String)
    → find_by_fingerprint (ok tt) r.identity_id r.fingerprint_hash table ≡ ok none
    → register answer r table ≡ ok (id, rows)
    → IsRegistered r table id rows ⊎ IsBarred r table id rows
unfolding find_by_fingerprint register
find_by_fingerprint-register answer r table rows id unknown h =
    let (_, _, k) =
      >>=-eq-ok (wrapping "login/db: register device: " (map_error driver answer)) _ (id, rows) h in
    let key = has_key r.identity_id r.fingerprint_hash in
    let inserted = ok-injective k in
    elim (Bool-cases (contains key table)) [
      | inl taken ↦
          let (row, m, e) = contains-Mem key table taken in
          inr (by_conflict row m e (rw taken at inserted))
      | inr free ↦ inl (by_insert (free_of_key r table free) (rw free at inserted))
    ]
  where
    by_conflict :
        (row : DeviceRow)
        → Mem row table
        → has_key r.identity_id r.fingerprint_hash row ≡ true
        → insert_device true r table ≡ (id, rows)
        → IsBarred r table id rows
    by_conflict row m e k = record {
      row = row;
      in_table = m;
      has_key = has_key-HasKey r row e;
      is_revoked = unknown_is_revoked r table row (ok-injective unknown) m e;
      no_identifier = sym (ap (λ p. p.0) k);
      unchanged = sym (ap (λ p. p.1) k);
      still_unknown =
          ap (λ p. find_by_fingerprint (ok tt) r.identity_id r.fingerprint_hash p.1) (sym k)
          ∙ unknown;
    }

    by_insert :
        All (λ row. ¬ HasKey r row) table
        → insert_device false r table ≡ (id, rows)
        → IsRegistered r table id rows
    by_insert free k = record {
      free = free;
      identifier = sym (ap (λ p. p.0) k);
      stored = sym (ap (λ p. p.1) k);
      found =
          ap (λ p. find_by_fingerprint (ok tt) r.identity_id r.fingerprint_hash p.1) (sym k)
          ∙ ap ok (found_first r table);
    }
