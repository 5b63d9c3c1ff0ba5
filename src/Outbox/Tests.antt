-- ===== src/Outbox/Tests.antt =====
-- The outbox of internal/platform/outbox on concrete rows and polls.
use araquanid.Outbox.Delivery.{IsDelivered, append-run}
use araquanid.Domain.Kinds.{user_logout}
use araquanid.Common.{
  ◌∷◌, [], String, none, some, ◌≡◌, refl, false, arith, inl, inr, Bool, ◌∙◌, sym, ap, All,
}
use araquanid.Common.Int.{pos}
use araquanid.Common.Result.{ok, err}
use araquanid.Domain.Event.{
  aggregate_type, aggregate_id, event_type, occurred_at, DomainEvent, session_ended,
}
use araquanid.Outbox.{Row, Inserter, append, insert_events, inserted, to_events, to_event}
use araquanid.Outbox.Relay.{
  World, Message, Poll, run, cancelled, ticked, RelayConfig, publish_batch, effective, ineffective,
  read_batch, scan_rows, selected, publish_rows, after_write, mark_published, mark_failed,
  commit_rows, report, logged, new_relay,
}
use araquanid.Outbox.Steps.{IsHonest}
use araquanid.Outbox.Safety.{HasKeys, IsSent, run-IsSent}
use araquanid.Outbox.Progress.{IsGood, any, good, ended}

abbrev good_poll : Poll
good_poll = record {
  begin = ok tt;
  select = ok tt;
  locked = λ r. false;
  order = λ rows. rows;
  scan = λ r. ok tt;
  rows_err = ok tt;
  write = λ ms. (ms, ok tt);
  mark = ok tt;
  record_failure = ok tt;
  commit = effective;
  now = 7;
}

-- Kafka takes nothing, and says so.
abbrev refused_poll : Poll
refused_poll = record good_poll { write = λ ms. ([], err "no leader") }

-- The rows are written, and the commit fails: they will be written again.
abbrev uncommitted_poll : Poll
uncommitted_poll = record good_poll { commit = ineffective "gone" }

abbrev waiting : Row
waiting = record {
  id = "e1";
  aggregate_type = "AuthenticationSession";
  aggregate_id = "s1";
  event_type = "auth.SessionCreated";
  payload = "{}";
  occurred_at = 1;
  published_at = none;
  attempts = 0;
  last_error = none;
  created_at = 2;
}

abbrev small_batches : RelayConfig
small_batches = record { poll_interval = pos 1; batch_size = pos 1 }

abbrev never : String → Bool
never e = false

abbrev one_row : World
one_row = record { table = waiting ∷ []; topic = [] }

abbrev sent_once : Message
sent_once = record { key = "s1"; value = "{}" }

failed_then_sent :
    run small_batches never (ticked refused_poll ∷ ticked good_poll ∷ cancelled "stop" ∷ []) one_row
    ≡ (
      some "stop",
      "outbox: publish batch: no leader" ∷ [],
      record {
        table =
            record waiting { published_at = some 7; attempts = 1; last_error = some "no leader" }
            ∷ [];
        topic = sent_once ∷ [];
      },
    )
unfolding run publish_batch read_batch scan_rows selected publish_rows after_write mark_published
    mark_failed report commit_rows logged
failed_then_sent = refl

-- At least once, not exactly once.
sent_again :
    (run small_batches never (ticked uncommitted_poll ∷ ticked good_poll ∷ []) one_row).2.topic
    ≡ sent_once ∷ sent_once ∷ []
unfolding run publish_batch read_batch scan_rows selected publish_rows after_write mark_published
    commit_rows logged
sent_again = refl

good_poll-IsHonest : IsHonest good_poll
good_poll-IsHonest = record {
  ordered = λ rows r m. m;
  all_ordered = λ rows r m. m;
  all_written = λ ms e m n. n;
}

refused_poll-IsHonest : IsHonest refused_poll
refused_poll-IsHonest = record {
  ordered = λ rows r m. m;
  all_ordered = λ rows r m. m;
  all_written = λ ms e m n. absurd (ground (arith, e));
}

good_poll-IsGood : IsGood good_poll
good_poll-IsGood = record {
  begins = refl;
  selects = refl;
  locks_nothing = λ r. refl;
  scans = λ r. refl;
  reads = refl;
  writes = λ ms. refl;
  marks = refl;
  commits = refl;
}

one_row-HasKeys : (r : Row) → HasKeys (r ∷ [])
one_row-HasKeys r a b (inl e) (inl f) h = sym e ∙ f
one_row-HasKeys r a b (inl e) (inr m) h = elim m [ ]
one_row-HasKeys r a b (inr m) n h = elim m [ ]

one_row-IsSent : IsSent one_row
one_row-IsSent r (inl e) = inl (ap (λ x. x.published_at) (sym e))
one_row-IsSent r (inr m) = elim m [ ]

run-IsSent_example :
    IsSent (run small_batches never (ticked refused_poll ∷ ticked good_poll ∷ []) one_row).2
run-IsSent_example =
    run-IsSent small_batches never (ticked refused_poll ∷ ticked good_poll ∷ []) one_row
      (refused_poll-IsHonest, (good_poll-IsHonest, tt)) (one_row-HasKeys waiting) one_row-IsSent

abbrev inserter : Inserter
inserter = record {
  marshal = λ e. ok "{ }";
  new_id = λ n. "e1";
  exec = λ e. ok tt;
  jsonb = λ s. "{}";
  now = 2;
}

abbrev ended_session : DomainEvent
ended_session = session_ended (record {
  session_id = "s1";
  identity_id = "i1";
  reason = user_logout;
  revoked_by = "";
  at = 1;
})

abbrev appended : Row
appended = record {
  id = "e1";
  aggregate_type = "AuthenticationSession";
  aggregate_id = "s1";
  event_type = "auth.SessionRevoked";
  payload = "{}";
  occurred_at = 1;
  published_at = none;
  attempts = 0;
  last_error = none;
  created_at = 2;
}

append_one : append inserter (ended_session ∷ []) [] ≡ ok (appended ∷ [])
unfolding append insert_events inserted to_events to_event aggregate_type aggregate_id event_type
    occurred_at
append_one = refl

append-run_example :
    All
      (IsDelivered inserter
        (run
          (new_relay small_batches)
          never
          (ticked refused_poll ∷ ticked good_poll ∷ [])
          (record { table = appended ∷ []; topic = [] })).2.topic)
      (ended_session ∷ [])
append-run_example =
    append-run inserter (ended_session ∷ []) [] (appended ∷ []) [] small_batches never
      (ticked refused_poll ∷ ticked good_poll ∷ []) append_one (one_row-HasKeys appended)
      (λ r m. elim m [ ])
      (any 1 refused_poll (ticked good_poll ∷ []) refused_poll-IsHonest
        (good 0 good_poll [] good_poll-IsHonest good_poll-IsGood ended))
