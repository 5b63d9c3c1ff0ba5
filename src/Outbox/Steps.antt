-- ===== src/Outbox/Steps.antt =====
-- What a poll of internal/platform/outbox/publisher.go can do to the table and the topic, as a step
-- relation, and that `publishBatch` does one of these steps, whatever its calls answer.
use mathlib.Core.Path.{subst}
use araquanid.Common.Int.{pos_part}
use araquanid.Common.{
  ◌∷◌, ◌++◌, [], String, List, ◌≡◌, Mem, map, take-Mem, filter-Mem, ℕ, ◌∙◌, refl, Mem-map, sym, ap,
}
use araquanid.Common.Result.{>>=-eq-ok, Result, ok, err, ok-injective}
use araquanid.Common.Time.{Time}
use araquanid.Outbox.{Row}
use araquanid.Outbox.Relay.{
  World, Message, Poll, message, update, mark_row, fail_row, ids_of, read_batch, selected,
  scan_rows, mark_failed, commit_rows, effective, ineffective, lost, Commit, mark_published,
  after_write, publish_rows, publish_batch, RelayConfig, prefixed,
}

-- What is documented of the calls: ORDER BY gives the rows it was given, in some order, and a write
-- without an error has put every message on the topic.
pub record IsHonest (poll : Poll) : Type 0 where
  pub ordered : (rows : List Row) (row : Row) → Mem row (poll.order rows) → Mem row rows
  pub all_ordered : (rows : List Row) (row : Row) → Mem row rows → Mem row (poll.order rows)
  pub all_written :
      (messages : List Message)
      → (poll.write messages).1 ≡ ok tt
      → (m : Message) → Mem m messages
      → Mem m (poll.write messages).0

abbrev pub send : List Message → World → World
send messages w = record w { topic = w.topic ++ messages }

abbrev pub update_table : (Row → Row) → List Row → World → World
update_table f batch w = record w { table = map (update f (ids_of batch)) w.table }

-- Rows are marked as published only together with their messages on the topic.
pub data Step (w : World) : World → Type 0 where
  idle : Step w w
  sent : (messages : List Message) → Step w (send messages w)
  recorded :
      (messages : List Message) (batch : List Row) (e : String)
      → Step w (update_table (fail_row e) batch (send messages w))
  marked :
      (messages : List Message) (batch : List Row) (now : Time)
      → ((row : Row) → Mem row batch → Mem row w.table)
      → ((row : Row) → Mem row batch → Mem (message row) messages)
      → Step w (update_table (mark_row now) batch (send messages w))

pub scan_rows-eq-ok :
    (poll : Poll) (rows batch : List Row) → scan_rows poll rows ≡ ok batch → batch ≡ rows
unfolding scan_rows
scan_rows-eq-ok poll [] batch h = cc
scan_rows-eq-ok poll (row ∷ rows) batch h =
    let (_, _, g) = >>=-eq-ok (prefixed "outbox: scan: " (poll.scan row)) _ batch h in
    let (rest, scanned, k) = >>=-eq-ok (scan_rows poll rows) _ batch g in
    sym (ok-injective k) ∙ ap (λ others. row ∷ others) (scan_rows-eq-ok poll rows rest scanned)

pub selected-Mem :
    (poll : Poll) (limit : ℕ) (table : List Row) (row : Row)
    → IsHonest poll
    → Mem row (selected poll limit table)
    → Mem row table
unfolding selected
selected-Mem poll limit table row honest m =
    (filter-Mem _ row table (honest.ordered _ row (take-Mem limit row _ m))).0

read_batch-eq-ok :
    (poll : Poll) (limit : ℕ) (table batch : List Row)
    → read_batch poll limit table ≡ ok batch
    → batch ≡ selected poll limit table
unfolding read_batch
read_batch-eq-ok poll limit table batch h =
    let (_, _, g) = >>=-eq-ok (prefixed "outbox: begin: " poll.begin) _ batch h in
    let (_, _, f) = >>=-eq-ok (prefixed "outbox: select unpublished: " poll.select) _ batch g in
    let (rows, scanned, k) = >>=-eq-ok (scan_rows poll (selected poll limit table)) _ batch f in
    let (_, _, last) = >>=-eq-ok (prefixed "outbox: rows: " poll.rows_err) _ batch k in
    sym (ok-injective last) ∙ scan_rows-eq-ok poll (selected poll limit table) rows scanned

commit_rows-Step :
    (c : Commit) (v w : World) (rows : List Row)
    → Step v w
    → Step v (record w { table = rows })
    → Step v (commit_rows c rows w).1
unfolding commit_rows
commit_rows-Step effective v w rows before after = after
commit_rows-Step (ineffective e) v w rows before after = before
commit_rows-Step (lost e) v w rows before after = after

mark_failed-Step :
    (poll : Poll) (r : Result String (Unit {0})) (e : String) (batch : List Row) (w : World)
    (messages : List Message)
    → Step w (mark_failed poll r e batch (send messages w)).1
unfolding mark_failed
mark_failed-Step poll (err x) e batch w messages = sent messages
mark_failed-Step poll (ok _) e batch w messages =
    commit_rows-Step poll.commit w (send messages w) _ (sent messages) (recorded messages batch e)

mark_published-Step :
    (poll : Poll) (r : Result String (Unit {0})) (batch : List Row) (w : World)
    (messages : List Message)
    → ((row : Row) → Mem row batch → Mem row w.table)
    → ((row : Row) → Mem row batch → Mem (message row) messages)
    → Step w (mark_published poll r batch (send messages w)).1
unfolding mark_published
mark_published-Step poll (err e) batch w messages there written = sent messages
mark_published-Step poll (ok _) batch w messages there written =
    commit_rows-Step poll.commit w (send messages w) _ (sent messages)
      (marked messages batch poll.now there written)

after_write-Step :
    (poll : Poll) (answer : Result String (Unit {0})) (batch : List Row) (w : World)
    (messages : List Message)
    → ((row : Row) → Mem row batch → Mem row w.table)
    → (answer ≡ ok tt → (row : Row) → Mem row batch → Mem (message row) messages)
    → Step w (after_write poll answer batch (send messages w)).1
unfolding after_write
after_write-Step poll (err e) batch w messages there written =
    mark_failed-Step poll poll.record_failure e batch w messages
after_write-Step poll (ok tt) batch w messages there written =
    mark_published-Step poll poll.mark batch w messages there (written refl)

publish_rows-Step :
    (poll : Poll) (read : Result String (List Row)) (w : World)
    → IsHonest poll
    → ((batch : List Row) → read ≡ ok batch → (row : Row) → Mem row batch → Mem row w.table)
    → Step w (publish_rows poll read w).1
unfolding publish_rows
publish_rows-Step poll (err e) w honest there = idle
publish_rows-Step poll (ok []) w honest there = idle
publish_rows-Step poll (ok (row ∷ rows)) w honest there =
    after_write-Step poll (poll.write (map message (row ∷ rows))).1 (row ∷ rows) w
      (poll.write (map message (row ∷ rows))).0 (there (row ∷ rows) refl)
      (λ written r m.
        honest.all_written (map message (row ∷ rows)) written (message r)
          (Mem-map message r (row ∷ rows) m))

-- `publishBatch` does one step.
pub publish_batch-Step :
    (cfg : RelayConfig) (poll : Poll) (w : World)
    → IsHonest poll
    → Step w (publish_batch cfg poll w).1
unfolding publish_batch
publish_batch-Step cfg poll w honest =
    publish_rows-Step poll (read_batch poll (pos_part cfg.batch_size) w.table) w honest
      (λ batch read row m.
        selected-Mem poll (pos_part cfg.batch_size) w.table row honest
          (subst (Mem row) (read_batch-eq-ok poll _ w.table batch read) m))
