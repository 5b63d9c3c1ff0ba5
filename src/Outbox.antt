-- ===== src/Outbox.antt =====
-- The table outbox_events (migrations/000014_create_outbox_events.up.sql) and the writes into it:
-- internal/platform/outbox/outbox.go and internal/features/login/repository/db/outbox.go. The relay
-- that empties it is in Outbox/Relay.
pub mod Relay
pub mod Steps
pub mod Safety
pub mod Progress
pub mod Delivery
mod Tests
use araquanid.Common.{◌∷◌, [], String, List, Option, none, ℕ, suc}
use araquanid.Common.Result.{Result, ok, ◌>>=◌, map_error}
use araquanid.Common.Text.{concat}
use araquanid.Common.Time.{Time}
use araquanid.Domain.Event.{DomainEvent, event_type, aggregate_type, aggregate_id, occurred_at}

pub record Event : Type 0 where
  pub id : String
  pub aggregate_type : String
  pub aggregate_id : String
  pub event_type : String
  pub payload : String
  pub occurred_at : Time

-- A row of the table; `published_at` is missing where the column is NULL.
pub record Row : Type 0 where
  pub id : String
  pub aggregate_type : String
  pub aggregate_id : String
  pub event_type : String
  pub payload : String
  pub occurred_at : Time
  pub published_at : Option Time
  pub attempts : ℕ
  pub last_error : Option String
  pub created_at : Time

-- The parts outside this repository that an insertion uses: the JSON encoder, the source of
-- identifiers, what Postgres answers to an INSERT, how it writes out a JSONB column again, and the
-- instant at which the transaction began.
pub record Inserter : Type 0 where
  pub marshal : DomainEvent → Result String String
  pub new_id : ℕ → String
  pub exec : Event → Result String (Unit {0})
  pub jsonb : String → String
  pub now : Time

module _ (i : Inserter) where
  -- The row that the INSERT makes, with the defaults of the other columns.
  unfoldable pub inserted : Event → Row
  inserted e = record {
    id = e.id;
    aggregate_type = e.aggregate_type;
    aggregate_id = e.aggregate_id;
    event_type = e.event_type;
    payload = i.jsonb e.payload;
    occurred_at = e.occurred_at;
    published_at = none;
    attempts = 0;
    last_error = none;
    created_at = i.now;
  }

  -- `InsertEvents`
  unfoldable pub insert_events : List Event → List Row → Result String (List Row)
  insert_events [] table = ok table
  insert_events (e ∷ es) table =
      map_error (λ x. concat ("outbox: insert event " ∷ e.event_type ∷ ": " ∷ x ∷ [])) (i.exec e)
      >>= λ _. insert_events es (inserted e ∷ table)

  unfoldable pub to_event : ℕ → DomainEvent → String → Event
  to_event n e payload = record {
    id = i.new_id n;
    aggregate_type = aggregate_type e;
    aggregate_id = aggregate_id e;
    event_type = event_type e;
    payload = payload;
    occurred_at = occurred_at e;
  }

  -- The loop of `Append`.
  unfoldable pub to_events : ℕ → List DomainEvent → Result String (List Event)
  to_events n [] = ok []
  to_events n (e ∷ es) =
      map_error (λ x. concat ("login/db: marshal event " ∷ event_type e ∷ ": " ∷ x ∷ []))
        (i.marshal e)
      >>= λ payload. to_events (suc n) es >>= λ rest. ok (to_event n e payload ∷ rest)

  -- `Append`
  unfoldable pub append : List DomainEvent → List Row → Result String (List Row)
  append [] table = ok table
  append (e ∷ es) table = to_events 0 (e ∷ es) >>= λ rows. insert_events rows table
