-- ===== src/Outbox/Progress.antt =====
-- internal/platform/outbox/publisher.go: every row is published in the end, and so every event that
-- internal/features/login/repository/db/outbox.go appended is on the topic.
use araquanid.Common.Int.{pos_part}
use mathlib.Core.Path.{subst}
use araquanid.Common.{
  ◌∷◌, [], String, List, ◌≡◌, refl, Mem, map, Mem-map, Mem-contains, inl, inr, true, false, length,
  filter, length-filter-map, is_none, ℕ, suc, ◌≤◌, Bool, Bool-cases, arith, ◌<◌, ◌∙◌, ap, sym,
  length-filter-map_lt, ◌&&◌, filter-Mem, length-filter_pos, not, take-Mem, take-Mem_pos,
  Mem-filter,
}
use araquanid.Common.Result.{ok, err, Result}
use native.Mathlib.Decide.{dec_lt}
use araquanid.Common.Text.{same_text, same_text_refl}
use araquanid.Outbox.{Row}
use araquanid.Outbox.Relay.{
  World, Message, Poll, update, is_among, mark_row, fail_row, ids_of, Signal, cancelled, ticked,
  effective, selected, scan_rows, read_batch, publish_rows, after_write, mark_published,
  commit_rows, message, Commit, publish_batch, run, RelayConfig,
}
use araquanid.Outbox.Steps.{Step, idle, sent, recorded, marked, IsHonest, send, publish_batch-Step}

abbrev pub is_pending : Row → Bool
is_pending row = is_none row.published_at

abbrev pub pending : List Row → ℕ
pending table = length (filter is_pending table)

-- A poll in which nothing fails and no row is locked.
pub record IsGood (poll : Poll) : Type 0 where
  pub begins : poll.begin ≡ ok tt
  pub selects : poll.select ≡ ok tt
  pub locks_nothing : (row : Row) → poll.locked row ≡ false
  pub scans : (row : Row) → poll.scan row ≡ ok tt
  pub reads : poll.rows_err ≡ ok tt
  pub writes : (messages : List Message) → (poll.write messages).1 ≡ ok tt
  pub marks : poll.mark ≡ ok tt
  pub commits : poll.commit ≡ effective

-- At least this many good polls come before the relay is stopped, and any others in between.
pub data Recovers : ℕ → List Signal → Type 0 where
  ended : Recovers 0 []
  stopped : (e : String) (signals : List Signal) → Recovers 0 (cancelled e ∷ signals)
  good :
      (n : ℕ) (poll : Poll) (signals : List Signal)
      → IsHonest poll
      → IsGood poll
      → Recovers n signals
      → Recovers (suc n) (ticked poll ∷ signals)
  any :
      (n : ℕ) (poll : Poll) (signals : List Signal)
      → IsHonest poll
      → Recovers n signals
      → Recovers n (ticked poll ∷ signals)

update-is_pending :
    (f : Row → Row) (ids : List String) (r : Row)
    → (is_pending r ≡ false → is_pending (f r) ≡ false)
    → is_pending r ≡ false
    → is_pending (update f ids r) ≡ false
update-is_pending f ids r k h = elim (Bool-cases (is_among ids r)) [
  | inl e ↦ rw e (k h)
  | inr e ↦ rw e h
]

-- No step takes back a publication.
pub Step-pending : (v w : World) → Step v w → pending w.table ≤ pending v.table
Step-pending v w idle = omega arith
Step-pending v w (sent messages) = omega arith
Step-pending v w (recorded messages batch e) =
    length-filter-map is_pending (update (fail_row e) (ids_of batch)) v.table
      (λ r h. update-is_pending (fail_row e) (ids_of batch) r (λ k. k) h)
Step-pending v w (marked messages batch now there written) =
    length-filter-map is_pending (update (mark_row now) (ids_of batch)) v.table
      (λ r h. update-is_pending (mark_row now) (ids_of batch) r (λ k. refl) h)

is_among-ids_of : (batch : List Row) (r : Row) → Mem r batch → is_among (ids_of batch) r ≡ true
is_among-ids_of batch r m =
    Mem-contains (same_text r.id) r.id (ids_of batch) (same_text_refl r.id)
      (Mem-map (λ row. row.id) r batch m)

scan_rows-IsGood : (poll : Poll) (rows : List Row) → IsGood poll → scan_rows poll rows ≡ ok rows
unfolding scan_rows
scan_rows-IsGood poll [] g = refl
scan_rows-IsGood poll (row ∷ rows) g = rw (g.scans row, scan_rows-IsGood poll rows g) refl

read_batch-IsGood :
    (poll : Poll) (limit : ℕ) (table : List Row)
    → IsGood poll
    → read_batch poll limit table ≡ ok (selected poll limit table)
unfolding read_batch scan_rows selected
read_batch-IsGood poll limit table g =
    rw (g.begins, g.selects, scan_rows-IsGood poll (selected poll limit table) g, g.reads) refl

mark_published-IsGood :
    (poll : Poll) (r : Result String (Unit {0})) (c : Commit) (batch : List Row) (w : World)
    → r ≡ ok tt
    → poll.commit ≡ c
    → c ≡ effective
    → (mark_published poll r batch w).1.table
      ≡ map (update (mark_row poll.now) (ids_of batch)) w.table
unfolding mark_published commit_rows
mark_published-IsGood poll (ok tt) c batch w h k e =
    ap (λ x. (commit_rows x (map (update (mark_row poll.now) (ids_of batch)) w.table) w).1.table)
      (k ∙ e)
mark_published-IsGood poll (err x) c batch w h k e = cc

after_write-IsGood :
    (poll : Poll) (r : Result String (Unit {0})) (batch : List Row) (w : World)
    → r ≡ ok tt
    → IsGood poll
    → (after_write poll r batch w).1.table ≡ map (update (mark_row poll.now) (ids_of batch)) w.table
unfolding after_write
after_write-IsGood poll (ok tt) batch w h g =
    mark_published-IsGood poll poll.mark poll.commit batch w g.marks refl g.commits
after_write-IsGood poll (err x) batch w h g = cc

-- A good poll with a row that is pending publishes one at least.
publish_rows-pending :
    (poll : Poll) (rows : List Row) (row : Row) (w : World)
    → IsGood poll
    → Mem row rows
    → ((r : Row) → Mem r rows → Mem r w.table × (is_pending r ≡ true))
    → pending (publish_rows poll (ok rows) w).1.table < pending w.table
unfolding publish_rows
publish_rows-pending poll [] row w g m k = elim m [ ]
publish_rows-pending poll (r ∷ rows) row w g m k =
    let answer = (poll.write (map message (r ∷ rows))) in
    let (there, waits) = k r (inl refl) in
    subst (λ table. pending table < pending w.table)
      (sym (after_write-IsGood poll answer.1 (r ∷ rows) (send answer.0 w) (g.writes _) g))
      (length-filter-map_lt is_pending (update (mark_row poll.now) (ids_of (r ∷ rows))) r w.table
        (λ b h. update-is_pending (mark_row poll.now) (ids_of (r ∷ rows)) b (λ _. refl) h) there
        waits (rw (is_among-ids_of (r ∷ rows) r (inl refl)) refl))

and-true : (a b : Bool) → (a && b) ≡ true → a ≡ true
and-true true b h = refl
and-true false b h = h

selected-IsGood :
    (poll : Poll) (limit : ℕ) (table : List Row) (row : Row)
    → IsHonest poll
    → Mem row (selected poll limit table)
    → Mem row table × (is_pending row ≡ true)
unfolding selected
selected-IsGood poll limit table row honest m =
    let (there, waits) =
      filter-Mem (λ r. is_none r.published_at && not (poll.locked r)) row table
        (honest.ordered _ row (take-Mem limit row _ m)) in
    (there, and-true (is_pending row) (not (poll.locked row)) waits)

-- Where a row is pending, the batch is not empty.
selected-row :
    (poll : Poll) (limit : ℕ) (table : List Row)
    → IsHonest poll
    → IsGood poll
    → 1 ≤ limit
    → 1 ≤ pending table
    → (row : Row) × Mem row (selected poll limit table)
unfolding selected
selected-row poll limit table honest g l p =
    let (row, there, waits) = length-filter_pos is_pending table p in
    let free : (is_none row.published_at && not (poll.locked row)) ≡ true =
      rw (waits, g.locks_nothing row) refl in
    take-Mem_pos limit row _ l (
      honest.all_ordered _ row
        (Mem-filter (λ r. is_none r.published_at && not (poll.locked r)) row table free there))

-- A good poll publishes a row where one is pending.
pub publish_batch-pending :
    (cfg : RelayConfig) (poll : Poll) (w : World)
    → IsHonest poll
    → IsGood poll
    → 1 ≤ pos_part cfg.batch_size
    → 1 ≤ pending w.table
    → pending (publish_batch cfg poll w).1.table < pending w.table
unfolding publish_batch
publish_batch-pending cfg poll w honest g l p =
    let limit = pos_part cfg.batch_size in
    let (row, m) = selected-row poll limit w.table honest g l p in
    subst (λ read. pending (publish_rows poll read w).1.table < pending w.table)
      (sym (read_batch-IsGood poll limit w.table g))
      (publish_rows-pending poll (selected poll limit w.table) row w g m
        (λ r n. selected-IsGood poll limit w.table r honest n))

-- Polls among which as many are good as rows are pending leave none pending.
pub run-pending :
    (cfg : RelayConfig) (is_canceled : String → Bool) (n : ℕ) (signals : List Signal) (w : World)
    → Recovers n signals
    → 1 ≤ pos_part cfg.batch_size
    → pending w.table ≤ n
    → pending (run cfg is_canceled signals w).2.table ≡ 0
unfolding run
run-pending cfg is_canceled n [] w ended l h = omega (arith, h)
run-pending cfg is_canceled n (cancelled _ ∷ _) w (stopped e signals) l h = omega (arith, h)
run-pending cfg is_canceled n (ticked _ ∷ _) w (good k poll signals honest g rest) l h =
    run-pending cfg is_canceled k signals (publish_batch cfg poll w).1 rest l
      (elim (dec_lt 0 (pending w.table)) [
        | yes p ↦ omega (arith, h, publish_batch-pending cfg poll w honest g l p)
        | no p ↦ omega (arith, p, Step-pending w _ (publish_batch-Step cfg poll w honest))
      ])
run-pending cfg is_canceled n (ticked _ ∷ _) w (any k poll signals honest rest) l h =
    run-pending cfg is_canceled k signals (publish_batch cfg poll w).1 rest l
      (omega (arith, h, Step-pending w _ (publish_batch-Step cfg poll w honest)))
