-- ===== src/Outbox/Delivery.antt =====
-- From `Append` of internal/features/login/repository/db/outbox.go to the topic: what
-- internal/platform/outbox keeps and delivers of each event.
use araquanid.Common.Int.{pos_part, negsuc, pos, ℤ, leb_ℤ}
use araquanid.Outbox.Safety.{
  KeepsMessage, AreHonest, HasKeys, IsSent, update-KeepsMessage, run-IsSent,
}
use araquanid.Outbox.Progress.{
  good, stopped, ended, any, pending, Recovers, is_pending, run-pending,
}
use araquanid.Outbox.Steps.{
  marked, sent, recorded, idle, Step, update_table, send, publish_batch-Step,
}
use mathlib.Core.Path.{subst}
use araquanid.Common.{
  ◌∷◌, [], String, List, ◌≡◌, refl, Mem, inl, inr, none, ℕ, suc, All, ◌⊎◌, sym, ap, ◌≤◌, ◌∙◌, map,
  Bool, length, Mem-map, arith, filter, Mem-filter, map-Mem, if◌then◌else◌,
}
use araquanid.Common.Result.{ok, >>=-eq-ok, map_error, map_error-eq-ok, ok-injective}
use araquanid.Domain.Event.{DomainEvent, aggregate_id}
use araquanid.Outbox.{Row, Event, Inserter, inserted, insert_events, to_event, to_events, append}
use araquanid.Outbox.Relay.{
  new_relay, Message, message, ticked, cancelled, World, run, Signal, RelayConfig, fail_row,
  publish_batch, update, ids_of, mark_row,
}

module _ (i : Inserter) where
  insert_events-eq-ok :
      (es : List Event) (table rows : List Row)
      → insert_events i es table ≡ ok rows
      → ((e : Event) → Mem e es → Mem (inserted i e) rows)
        × ((r : Row) → Mem r table → Mem r rows)
        × ((r : Row) → Mem r rows → Mem r table ⊎ (r.published_at ≡ none))
  unfolding insert_events inserted
  insert_events-eq-ok [] table rows h =
      let same = ok-injective h in
      (λ e m. elim m [ ], λ r m. subst (Mem r) same m, λ r m. inl (subst (Mem r) (sym same) m))
  insert_events-eq-ok (e ∷ es) table rows h =
      let (_, _, k) = >>=-eq-ok (map_error _ (i.exec e)) _ rows h in
      let (added, kept, only) = insert_events-eq-ok es (inserted i e ∷ table) rows k in
      (λ f m. first f m added kept, λ r m. kept r (inr m), λ r m. old r (only r m))
    where
      first :
          (f : Event)
          → Mem f (e ∷ es)
          → ((f : Event) → Mem f es → Mem (inserted i f) rows)
          → ((r : Row) → Mem r (inserted i e ∷ table) → Mem r rows)
          → Mem (inserted i f) rows
      first f (inl here) added kept = kept (inserted i f) (inl (ap (inserted i) here))
      first f (inr later) added kept = added f later

      old :
          (r : Row)
          → Mem r (inserted i e ∷ table) ⊎ (r.published_at ≡ none)
          → Mem r table ⊎ (r.published_at ≡ none)
      old r (inl (inl here)) = inr (ap (λ x. x.published_at) (sym here))
      old r (inl (inr there)) = inl there
      old r (inr new) = inr new

  -- The message that an event becomes.
  abbrev pub IsDelivered : List Message → DomainEvent → Type 0
  IsDelivered topic e =
      (payload : String) × (i.marshal e ≡ ok payload)
      × Mem (record { key = aggregate_id e; value = i.jsonb payload }) topic

  to_events-eq-ok :
      (n : ℕ) (es : List DomainEvent) (rows : List Event) (topic : List Message)
      → to_events i n es ≡ ok rows
      → ((e : Event) → Mem e rows → Mem (message (inserted i e)) topic)
      → All (IsDelivered topic) es
  unfolding to_events to_event inserted
  to_events-eq-ok n [] rows topic h k = tt
  to_events-eq-ok n (e ∷ es) rows topic h k =
      let (payload, marshalled, g) = >>=-eq-ok (map_error _ (i.marshal e)) _ rows h in
      let (rest, others, f) = >>=-eq-ok (to_events i (suc n) es) _ rows g in
      let same = ok-injective f in
      (
        (
          payload,
          map_error-eq-ok _ (i.marshal e) payload marshalled,
          k _ (subst (Mem _) same (inl refl)),
        ),
        to_events-eq-ok (suc n) es rest topic others (λ x m. k x (subst (Mem x) same (inr m))),
      )

  -- An insertion leaves the rows that were there, adds unpublished ones, and has a message for each
  -- event.
  append-eq-ok :
      (es : List DomainEvent) (table rows : List Row)
      → append i es table ≡ ok rows
      → All (IsDelivered (map message rows)) es
        × ((r : Row) → Mem r rows → Mem r table ⊎ (r.published_at ≡ none))
  unfolding append
  append-eq-ok [] table rows h = (tt, λ r m. inl (subst (Mem r) (sym (ok-injective h)) m))
  append-eq-ok (e ∷ es) table rows h =
      let (events, made, k) = >>=-eq-ok (to_events i 0 (e ∷ es)) _ rows h in
      let (added, _, only) = insert_events-eq-ok events table rows k in
      (
        to_events-eq-ok 0 (e ∷ es) events (map message rows) made
            (λ x m. Mem-map message (inserted i x) rows (added x m)),
        only,
      )

map-KeepsMessage :
    (f : Row → Row) (table : List Row)
    → KeepsMessage f
    → map message (map f table) ≡ map message table
map-KeepsMessage f [] k = refl
map-KeepsMessage f (r ∷ table) k = rw ((k r).1, map-KeepsMessage f table k) refl

update_table-messages :
    (f : Row → Row) (batch : List Row) (w : World)
    → KeepsMessage f
    → map message (update_table f batch w).table ≡ map message w.table
update_table-messages f batch w k =
    map-KeepsMessage (update f (ids_of batch)) w.table (update-KeepsMessage f (ids_of batch) k)

Step-messages : (v w : World) → Step v w → map message w.table ≡ map message v.table
Step-messages v w idle = refl
Step-messages v w (sent messages) = refl
Step-messages v w (recorded messages batch e) =
    update_table-messages (fail_row e) batch (send messages v) (λ r. (refl, refl))
Step-messages v w (marked messages batch now there written) =
    update_table-messages (mark_row now) batch (send messages v) (λ r. (refl, refl))

run-messages :
    (cfg : RelayConfig) (is_canceled : String → Bool) (n : ℕ) (signals : List Signal) (w : World)
    → Recovers n signals
    → map message (run cfg is_canceled signals w).2.table ≡ map message w.table
unfolding run
run-messages cfg is_canceled n [] w ended = refl
run-messages cfg is_canceled n (cancelled _ ∷ _) w (stopped e signals) = refl
run-messages cfg is_canceled n (ticked _ ∷ _) w (good k poll signals honest g rest) =
    run-messages cfg is_canceled k signals (publish_batch cfg poll w).1 rest
    ∙ Step-messages w _ (publish_batch-Step cfg poll w honest)
run-messages cfg is_canceled n (ticked _ ∷ _) w (any k poll signals honest rest) =
    run-messages cfg is_canceled k signals (publish_batch cfg poll w).1 rest
    ∙ Step-messages w _ (publish_batch-Step cfg poll w honest)

Recovers-AreHonest : (n : ℕ) (signals : List Signal) → Recovers n signals → AreHonest signals
Recovers-AreHonest n [] ended = tt
Recovers-AreHonest n (cancelled _ ∷ _) (stopped e signals) = tt
Recovers-AreHonest n (ticked _ ∷ _) (good k poll signals honest g rest) =
    (honest, Recovers-AreHonest k signals rest)
Recovers-AreHonest n (ticked _ ∷ _) (any k poll signals honest rest) =
    (honest, Recovers-AreHonest k signals rest)

none-pending :
    (table : List Row) (r : Row) → pending table ≡ 0 → Mem r table → r.published_at ≡ none → ⊥
none-pending table r p m h =
    no_member (filter is_pending table) p (Mem-filter is_pending r table (rw h refl) m)
  where
    no_member : (xs : List Row) → length xs ≡ 0 → Mem r xs → ⊥
    no_member [] e n = n
    no_member (x ∷ xs) e n = absurd (omega (arith, e))

All-IsDelivered :
    (i : Inserter) (es : List DomainEvent) (before after : List Message)
    → ((m : Message) → Mem m before → Mem m after)
    → All (IsDelivered i before) es
    → All (IsDelivered i after) es
All-IsDelivered i [] before after k h = tt
All-IsDelivered i (e ∷ es) before after k ((payload, marshalled, m), rest) =
    ((payload, marshalled, k _ m), All-IsDelivered i es before after k rest)

still_sent :
    (r : Row) (table : List Row) (topic : List Message)
    → (Mem r table → (r.published_at ≡ none) ⊎ Mem (message r) topic)
    → Mem r table ⊎ (r.published_at ≡ none)
    → (r.published_at ≡ none) ⊎ Mem (message r) topic
still_sent r table topic k (inl m) = k m
still_sent r table topic k (inr h) = inl h

settle :
    (w : World) (r : Row)
    → Mem r w.table
    → pending w.table ≡ 0
    → (r.published_at ≡ none) ⊎ Mem (message r) w.topic
    → Mem (message r) w.topic
settle w r m p (inl h) = absurd (none-pending w.table r p m h)
settle w r m p (inr h) = h

-- Whatever batch size is configured, the relay takes at least one row at a time.
new_relay-batch_size : (cfg : RelayConfig) → 1 ≤ pos_part (new_relay cfg).batch_size
unfolding new_relay
new_relay-batch_size cfg = positive cfg.batch_size
  where
    positive : (n : ℤ) → 1 ≤ pos_part (if leb_ℤ n (pos 0) then pos 100 else n)
    positive (pos n) = ground arith
    positive (negsuc n) = ground arith

-- Every event that a transaction appends is on the topic, under its aggregate's identifier and with
-- its payload, once as many good polls have come as rows were waiting: whatever failed in the polls
-- between them; provided that identifiers are unique in the table, that rows published before have
-- their messages on the topic, and that Postgres and Kafka do what is documented.
pub append-run :
    (i : Inserter) (es : List DomainEvent) (table rows : List Row) (topic : List Message)
    (cfg : RelayConfig) (is_canceled : String → Bool) (signals : List Signal)
    → append i es table ≡ ok rows
    → HasKeys rows
    → IsSent (record { table = table; topic = topic })
    → Recovers (pending rows) signals
    → All
        (IsDelivered i
          (run
            (new_relay cfg)
            is_canceled
            signals
            (record { table = rows; topic = topic })).2.topic)
        es
append-run i es table rows topic cfg is_canceled signals appended keys all_sent polls =
    let (delivered, only) = append-eq-ok i es table rows appended in
    let start : World = record { table = rows; topic = topic } in
    let after = (run (new_relay cfg) is_canceled signals start).2 in
    let all_published =
      run-pending (new_relay cfg) is_canceled (pending rows) signals start polls
        (new_relay-batch_size cfg) (omega arith) in
    let honest = Recovers-AreHonest (pending rows) signals polls in
    let rows_sent : IsSent start = λ r m. still_sent r table topic (all_sent r) (only r m) in
    let end_sent = run-IsSent (new_relay cfg) is_canceled signals start honest keys rows_sent in
    let same = run-messages (new_relay cfg) is_canceled (pending rows) signals start polls in
    All-IsDelivered i es (map message rows) after.topic
      (λ m n.
        let (r, there, e) = map-Mem message m after.table (subst (Mem m) (sym same) n) in
        subst (λ x. Mem x after.topic) e (settle after r there all_published (end_sent r there)))
      delivered
