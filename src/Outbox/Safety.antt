-- ===== src/Outbox/Safety.antt =====
-- internal/platform/outbox/publisher.go: what is marked as published has been published.
use mathlib.Core.Path.{subst}
use araquanid.Common.Time.{Time}
use araquanid.Common.{
  ◌++◌, String, List, ◌≡◌, refl, Mem, map, map-Mem, contains-Mem, Any-append-left, ◌⊎◌, inl, inr,
  none, Bool-cases, true, ◌∙◌, sym, ap, ◌∷◌, [], Any-append, Bool,
}
use araquanid.Common.Text.{same_text, same_text-true}
use araquanid.Outbox.{Row}
use araquanid.Outbox.Relay.{
  World, Message, message, update, is_among, ids_of, ticked, cancelled, fail_row, Signal, run,
  mark_row, RelayConfig,
}
use araquanid.Outbox.Steps.{
  Step, sent, recorded, idle, marked, send, update_table, IsHonest, publish_batch-Step,
}

-- The primary key of the table.
abbrev pub HasKeys : List Row → Type 0
HasKeys table = (r s : Row) → Mem r table → Mem s table → r.id ≡ s.id → r ≡ s

-- A row that is marked as published has its message on the topic.
abbrev pub IsSent : World → Type 0
IsSent w = (r : Row) → Mem r w.table → (r.published_at ≡ none) ⊎ Mem (message r) w.topic

-- An update that changes neither the key nor the message of a row.
abbrev pub KeepsMessage : (Row → Row) → Type 0
KeepsMessage f = (r : Row) → (((f r).id ≡ r.id) × (message (f r) ≡ message r))

pub update-KeepsMessage :
    (f : Row → Row) (ids : List String) → KeepsMessage f → KeepsMessage (update f ids)
update-KeepsMessage f ids k r = elim (Bool-cases (is_among ids r)) [
  | inl e ↦ rw e (k r)
  | inr e ↦ rw e (refl, refl)
]

map-HasKeys :
    (f : Row → Row) (table : List Row) → KeepsMessage f → HasKeys table → HasKeys (map f table)
map-HasKeys f table k h r s m n e =
    let (a, ma, fa) = map-Mem f r table m in
    let (b, mb, fb) = map-Mem f s table n in
    let same : a.id ≡ b.id =
      sym (k a).0 ∙ ap (λ x. x.id) fa ∙ e ∙ ap (λ x. x.id) (sym fb) ∙ (k b).0 in
    sym fa ∙ ap f (h a b ma mb same) ∙ fb

is_among-Mem :
    (batch : List Row) (r : Row)
    → is_among (ids_of batch) r ≡ true
    → (s : Row) × Mem s batch × (r.id ≡ s.id)
is_among-Mem batch r h =
    let (id, m, e) = contains-Mem (same_text r.id) (ids_of batch) h in
    let (s, n, f) = map-Mem (λ row. row.id) id batch m in (s, n, same_text-true r.id id e ∙ sym f)

abbrev pub IsSound : World → Type 0
IsSound w = HasKeys w.table × IsSent w

send-IsSound : (v : World) (messages : List Message) → IsSound v → IsSound (send messages v)
send-IsSound v messages (keys, all_sent) = (keys, λ r m. grow r (all_sent r m))
  where
    grow :
        (r : Row)
        → (r.published_at ≡ none) ⊎ Mem (message r) v.topic
        → (r.published_at ≡ none) ⊎ Mem (message r) (v.topic ++ messages)
    grow r (inl h) = inl h
    grow r (inr h) = inr (Any-append-left _ v.topic messages h)

fail_row-IsSent :
    (e : String) (ids : List String) (topic : List Message) (r : Row)
    → (r.published_at ≡ none) ⊎ Mem (message r) topic
    → ((update (fail_row e) ids r).published_at ≡ none)
      ⊎ Mem (message (update (fail_row e) ids r)) topic
fail_row-IsSent e ids topic r h = elim (Bool-cases (is_among ids r)) [
  | inl among ↦ rw among h
  | inr other ↦ rw other h
]

record-IsSound :
    (w : World) (e : String) (batch : List Row)
    → IsSound w
    → IsSound (update_table (fail_row e) batch w)
record-IsSound w e batch (keys, all_sent) = (
  map-HasKeys _ w.table (update-KeepsMessage (fail_row e) (ids_of batch) (λ r. (refl, refl))) keys,
  λ r m.
      let (s, n, f) = map-Mem (update (fail_row e) (ids_of batch)) r w.table m in
      subst (λ x. (x.published_at ≡ none) ⊎ Mem (message x) w.topic) f
        (fail_row-IsSent e (ids_of batch) w.topic s (all_sent s n)),
)

mark-IsSound :
    (w : World) (batch : List Row) (now : Time)
    → ((row : Row) → Mem row batch → Mem row w.table)
    → ((row : Row) → Mem row batch → Mem (message row) w.topic)
    → IsSound w
    → IsSound (update_table (mark_row now) batch w)
mark-IsSound w batch now there written (keys, all_sent) = (
  map-HasKeys _ w.table keeps keys,
  λ r m.
      let (s, n, f) = map-Mem (update (mark_row now) (ids_of batch)) r w.table m in
      subst (λ x. (x.published_at ≡ none) ⊎ Mem (message x) w.topic) f (mark s n),
)
  where
    keeps : KeepsMessage (update (mark_row now) (ids_of batch))
    keeps = update-KeepsMessage (mark_row now) (ids_of batch) (λ r. (refl, refl))

    mark :
        (s : Row)
        → Mem s w.table
        → ((update (mark_row now) (ids_of batch) s).published_at ≡ none)
          ⊎ Mem (message (update (mark_row now) (ids_of batch) s)) w.topic
    mark s n = elim (Bool-cases (is_among (ids_of batch) s)) [
      | inl among ↦
          let (b, m, e) = is_among-Mem batch s among in
          let same : s ≡ b = keys s b n (there b m) e in
          inr (rw among (subst (λ x. Mem (message x) w.topic) (sym same) (written b m)))
      | inr other ↦ rw other (all_sent s n)
    ]

Step-IsSound : (v w : World) → Step v w → IsSound v → IsSound w
Step-IsSound v w idle h = h
Step-IsSound v w (sent messages) h = send-IsSound v messages h
Step-IsSound v w (recorded messages batch e) h =
    record-IsSound (send messages v) e batch (send-IsSound v messages h)
Step-IsSound v w (marked messages batch now there written) h =
    mark-IsSound (send messages v) batch now there
      (λ row m. Any-append _ v.topic messages (written row m)) (send-IsSound v messages h)

-- Postgres and Kafka do what is documented, in every poll.
abbrev pub AreHonest : List Signal → Type 0
AreHonest [] = Unit
AreHonest (cancelled e ∷ signals) = Unit
AreHonest (ticked poll ∷ signals) = IsHonest poll × AreHonest signals

-- However often the relay polls, and whichever of its calls fail, every row that is marked as
-- published has its message on the topic, if that was so before; provided that identifiers are unique
-- in the table, that ORDER BY adds no rows, and that a write without an error has written everything.
pub run-IsSent :
    (cfg : RelayConfig) (is_canceled : String → Bool) (signals : List Signal) (w : World)
    → AreHonest signals
    → HasKeys w.table
    → IsSent w
    → IsSent (run cfg is_canceled signals w).2
unfolding run
run-IsSent cfg is_canceled signals w honest keys all_sent =
    (run-IsSound signals w honest (keys, all_sent)).1
  where
    run-IsSound :
        (signals : List Signal) (w : World)
        → AreHonest signals
        → IsSound w
        → IsSound (run cfg is_canceled signals w).2
    run-IsSound [] w honest h = h
    run-IsSound (cancelled e ∷ signals) w honest h = h
    run-IsSound (ticked poll ∷ signals) w (honest, rest) h =
        run-IsSound signals _ rest (Step-IsSound w _ (publish_batch-Step cfg poll w honest) h)
