-- ===== src/Store.antt =====
-- The Postgres adapters of internal/features/login/repository/db: what they have in common. A table is
-- the list of its rows, in no particular order; each statement takes what the server answers to it.
pub mod Texts
pub mod Sessions
pub mod Credentials
pub mod Devices
pub mod Factors
pub mod Attempts
pub mod RefreshTokens
mod Tests
use araquanid.Common.{String, Option, none, some, is_empty, if◌then◌else◌, ◌≡◌, refl}
use araquanid.Common.Result.{Result, map_error}
use araquanid.Domain.Fault.{DomainError}

-- The errors of the adapters: the driver's, a value that the domain refuses, and one of these behind
-- a text that `fmt.Errorf` puts before it.
pub data StoreError : Type 0 where
  driver : String → StoreError
  refused : DomainError → StoreError
  wrapped : String → StoreError → StoreError

abbrev pub wrapping : {A : Type 0} → String → Result StoreError A → Result StoreError A
wrapping text r = map_error (wrapped text) r

-- `nullIfEmpty`
abbrev pub null_if_empty : String → Option String
null_if_empty s = if is_empty s then none else some s

-- `if p != nil { s = *p }`
abbrev pub text_or_empty : Option String → String
text_or_empty none = ""
text_or_empty (some s) = s

pub text_or_empty-null_if_empty : (s : String) → text_or_empty (null_if_empty s) ≡ s
text_or_empty-null_if_empty String.[] = refl
text_or_empty-null_if_empty (String.◌∷◌ c s) = refl
