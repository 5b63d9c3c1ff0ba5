-- ===== src/Store/Factors.antt =====
-- internal/features/login/repository/db/mfa_factor.go: the second factors of an identity.
use araquanid.Common.{
  String, Option, none, some, List, [], ◌∷◌, ◌&&◌, ◌≡◌, refl, filter, contains, Bool, false, map,
  if◌then◌else◌, inl, inr, Bool-cases, arith,
}
use araquanid.Common.Result.{Result, ok, ◌>>=◌, map_error, >>=-eq-ok, ok-injective}
use araquanid.Common.Text.{same_text}
use araquanid.Domain.Kinds.{FactorType, other_factor}
use araquanid.Store.{StoreError, driver, wrapping}
use araquanid.Store.Texts.{to_factor}

pub record FactorRow : Type 0 where
  pub identity_id : String
  pub factor_type : String
  pub status : String

-- `WHERE identity_id = $1 AND status = 'ACTIVE'`
abbrev pub is_active_factor : String → FactorRow → Bool
is_active_factor identity_id row =
    same_text row.identity_id identity_id && same_text row.status "ACTIVE"

abbrev pub known_factor : FactorType → Option FactorType
known_factor (other_factor s) = none
known_factor f = some f

-- `toDomainFactorType`
unfoldable pub to_domain_factor_type : String → Option FactorType
to_domain_factor_type raw = known_factor (to_factor raw)

abbrev pub with_known : Option FactorType → List FactorType → List FactorType
with_known none fs = fs
with_known (some f) fs = f ∷ fs

-- What the server answers: to the query, to the scan of each row, and at the end of the rows.
pub record ReadAnswers : Type 0 where
  pub queried : Result String (Unit {0})
  pub scanned : String → Result String (Unit {0})
  pub ended : Result String (Unit {0})

-- The loop over the rows.
unfoldable pub known_factors :
    (String → Result String (Unit {0})) → List String → Result StoreError (List FactorType)
known_factors scan [] = ok []
known_factors scan (raw ∷ raws) =
    let rest = known_factors scan raws in
    wrapping "login/db: scan factor type: " (map_error driver (scan raw)) >>= λ _.
    rest >>= λ fs. ok (with_known (to_domain_factor_type raw) fs)

-- `SELECT DISTINCT`, which keeps one of equal values.
abbrev pub distinct : List String → List String
distinct [] = []
distinct (s ∷ ss) = let rest = distinct ss in if contains (same_text s) rest then rest else s ∷ rest

-- `ListActiveFactorTypes`; Postgres gives the distinct values in some order.
unfoldable pub list_active_factor_types :
    (List String → List String)
    → ReadAnswers
    → String
    → List FactorRow
    → Result StoreError (List FactorType)
list_active_factor_types order answers identity_id table =
    wrapping "login/db: list active factor types: " (map_error driver answers.queried) >>= λ _.
    known_factors answers.scanned (
      order (distinct (map (λ row. row.factor_type) (filter (is_active_factor identity_id) table))))
    >>= λ fs.
        wrapping "login/db: list active factor types rows: " (map_error driver answers.ended)
        >>= λ _. ok fs

-- `HasActiveFactor`
unfoldable pub has_active_factor :
    Result String (Unit {0}) → String → List FactorRow → Result StoreError Bool
has_active_factor answer identity_id table =
    wrapping "login/db: has active factor: " (map_error driver answer) >>= λ _.
    ok (contains (is_active_factor identity_id) table)

filter-contains :
    {A : Type 0} (p : A → Bool) (xs : List A) → contains p xs ≡ false → filter p xs ≡ []
filter-contains p [] h = refl
filter-contains p (x ∷ xs) h = elim (Bool-cases (p x)) [
  | inl e ↦ absurd (ground (arith, e, h))
  | inr e ↦ rw e (filter-contains p xs (rw e at h))
]

-- An identity that `HasActiveFactor` says has no factor has none listed, if the server answers the
-- listing without an error and gives no rows for none.
pub list_active_factor_types-has_active_factor :
    (order : List String → List String) (answer : Result String (Unit {0})) (answers : ReadAnswers)
    (identity_id : String) (table : List FactorRow)
    → order [] ≡ []
    → answers.queried ≡ ok tt
    → answers.ended ≡ ok tt
    → has_active_factor answer identity_id table ≡ ok false
    → list_active_factor_types order answers identity_id table ≡ ok []
unfolding list_active_factor_types has_active_factor known_factors
list_active_factor_types-has_active_factor order answer answers identity_id table o q n h =
    let (_, _, k) =
      >>=-eq-ok (wrapping "login/db: has active factor: " (map_error driver answer)) _ false h in
    rw (filter-contains (is_active_factor identity_id) table (ok-injective k), o, q, n) refl
