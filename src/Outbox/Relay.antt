-- ===== src/Outbox/Relay.antt =====
-- The relay of internal/platform/outbox/publisher.go: a poll of the outbox table and the loop of polls.
use araquanid.Common.{
  ◌∷◌, ◌++◌, [], String, List, Option, none, some, ℕ, Bool, if◌then◌else◌, ◌+◌, not, ◌&&◌, take,
  contains, map, filter, is_none,
}
use araquanid.Common.Result.{Result, ok, err, ◌>>=◌, map_error}
use araquanid.Common.Int.{ℤ, pos, leb_ℤ, pos_part}
use araquanid.Common.Text.{concat, same_text}
use araquanid.Common.Time.{Time, Duration, seconds}
use araquanid.Outbox.{Row}

pub record RelayConfig : Type 0 where
  pub poll_interval : Duration
  pub batch_size : ℤ

-- `NewRelay`
unfoldable pub new_relay : RelayConfig → RelayConfig
new_relay cfg = record {
  poll_interval = if leb_ℤ cfg.poll_interval (pos 0) then seconds 2 else cfg.poll_interval;
  batch_size = if leb_ℤ cfg.batch_size (pos 0) then pos 100 else cfg.batch_size;
}

-- `kafkago.Message`
pub record Message : Type 0 where
  pub key : String
  pub value : String

-- How a commit ends: a failed one may have taken effect before the connection was lost.
pub data Commit : Type 0 where
  effective : Commit
  ineffective lost : String → Commit

-- What Postgres and Kafka do in one poll: the answers of the calls, the rows that another relay has
-- locked, the order in which rows of the same `created_at` come, and the messages that the broker takes
-- of those it is given, with what `WriteMessages` answers.
pub record Poll : Type 0 where
  pub begin : Result String (Unit {0})
  pub select : Result String (Unit {0})
  pub locked : Row → Bool
  pub order : List Row → List Row
  pub scan : Row → Result String (Unit {0})
  pub rows_err : Result String (Unit {0})
  pub write : List Message → List Message × Result String (Unit {0})
  pub mark : Result String (Unit {0})
  pub record_failure : Result String (Unit {0})
  pub commit : Commit
  pub now : Time

-- The table, and the messages that the topic holds.
pub record World : Type 0 where
  pub table : List Row
  pub topic : List Message

abbrev pub message : Row → Message
message row = record { key = row.aggregate_id; value = row.payload }

-- `WHERE id = ANY($1)`
abbrev pub is_among : List String → Row → Bool
is_among ids row = contains (same_text row.id) ids

abbrev pub ids_of : List Row → List String
ids_of batch = map (λ row. row.id) batch

abbrev pub update : (Row → Row) → List String → Row → Row
update f ids row = if is_among ids row then f row else row

abbrev pub prefixed : {A : Type 0} → String → Result String A → Result String A
prefixed text r = map_error (λ x. concat (text ∷ x ∷ [])) r

unfoldable pub scan_rows : Poll → List Row → Result String (List Row)
scan_rows poll [] = ok []
scan_rows poll (row ∷ rows) = prefixed "outbox: scan: " (poll.scan row) >>= λ _.
    scan_rows poll rows >>= λ rest. ok (row ∷ rest)

-- The rows of the SELECT.
unfoldable pub selected : Poll → ℕ → List Row → List Row
selected poll limit table =
    take limit
      (poll.order (filter (λ row. is_none row.published_at && not (poll.locked row)) table))

unfoldable pub read_batch : Poll → ℕ → List Row → Result String (List Row)
read_batch poll limit table = prefixed "outbox: begin: " poll.begin >>= λ _.
    prefixed "outbox: select unpublished: " poll.select >>= λ _.
    scan_rows poll (selected poll limit table) >>= λ batch.
    prefixed "outbox: rows: " poll.rows_err >>= λ _. ok batch

-- `tx.Commit` after an UPDATE.
unfoldable pub commit_rows : Commit → List Row → World → Result String (Unit {0}) × World
commit_rows effective table w = (ok tt, record w { table = table })
commit_rows (ineffective e) table w = (err e, w)
commit_rows (lost e) table w = (err e, record w { table = table })

abbrev pub mark_row : Time → Row → Row
mark_row now row = record row { published_at = some now }

abbrev pub fail_row : String → Row → Row
fail_row e row = record row { attempts = row.attempts + 1; last_error = some e }

unfoldable pub mark_published :
    Poll → Result String (Unit {0}) → List Row → World → Result String (Unit {0}) × World
mark_published poll (err e) batch w = (err (concat ("outbox: mark published: " ∷ e ∷ [])), w)
mark_published poll (ok _) batch w =
    commit_rows poll.commit (map (update (mark_row poll.now) (ids_of batch)) w.table) w

-- The error that `markFailed` returns after its commit.
unfoldable pub report : String → Result String (Unit {0}) → Result String (Unit {0})
report e (err x) = err (concat ("outbox: commit failure record: " ∷ x ∷ []))
report e (ok _) = err (concat ("outbox: publish batch: " ∷ e ∷ []))

-- `markFailed`
unfoldable pub mark_failed :
    Poll → Result String (Unit {0}) → String → List Row → World → Result String (Unit {0}) × World
mark_failed poll (err x) e batch w =
    (err (concat ("outbox: record publish failure (publish err: " ∷ e ∷ "): " ∷ x ∷ [])), w)
mark_failed poll (ok _) e batch w =
    let (r, after) = commit_rows poll.commit (map (update (fail_row e) (ids_of batch)) w.table) w in
    (report e r, after)

unfoldable pub after_write :
    Poll → Result String (Unit {0}) → List Row → World → Result String (Unit {0}) × World
after_write poll (err e) batch w = mark_failed poll poll.record_failure e batch w
after_write poll (ok _) batch w = mark_published poll poll.mark batch w

unfoldable pub publish_rows :
    Poll → Result String (List Row) → World → Result String (Unit {0}) × World
publish_rows poll (err e) w = (err e, w)
publish_rows poll (ok []) w = (ok tt, w)
publish_rows poll (ok (row ∷ rows)) w =
    let (taken, answer) = poll.write (map message (row ∷ rows)) in
    after_write poll answer (row ∷ rows) (record w { topic = w.topic ++ taken })

-- `publishBatch`
unfoldable pub publish_batch : RelayConfig → Poll → World → Result String (Unit {0}) × World
publish_batch cfg poll w = publish_rows poll (read_batch poll (pos_part cfg.batch_size) w.table) w

-- What `Run` waits for.
pub data Signal : Type 0 where
  cancelled : String → Signal
  ticked : Poll → Signal

-- `err != nil && !errors.Is(err, context.Canceled)`
unfoldable pub logged : (String → Bool) → Result String (Unit {0}) → List String
logged is_canceled (ok _) = []
logged is_canceled (err e) = if is_canceled e then [] else e ∷ []

-- `Run`, with what it returns, if it does, what it logs, and what it leaves.
unfoldable pub run :
    RelayConfig → (String → Bool) → List Signal → World → Option String × List String × World
run cfg is_canceled [] w = (none, [], w)
run cfg is_canceled (cancelled e ∷ signals) w = (some e, [], w)
run cfg is_canceled (ticked poll ∷ signals) w =
    let (r, after) = publish_batch cfg poll w in
    let (returned, log, end) = run cfg is_canceled signals after in
    (returned, logged is_canceled r ++ log, end)
