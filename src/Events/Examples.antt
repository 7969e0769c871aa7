-- ===== src/Events/Examples.antt =====
-- A table of events in memory, and witnesses on it.
use data_pipeline_async.Base.{
  ℕ, min, count_if, length, ◌&&◌, suc, ◌≤◌, max, ◌≡◌, refl, Bool, true, false, Option, none, some,
  List, [], ◌∷◌, ◌++◌, eqb, arith,
}
use data_pipeline_async.Events.{
  NewEvent, ProcessedEvent, new_event, event_has_id, event_has_key, any_event, find_event,
  replace_event, EventTable, Selection, has_status, pending, completed, mark_event_completed,
  mark_event_dlq, get_dlq_events, get_events_by_status, answer, create_processed_event,
}
use data_pipeline_async.Events.Queries.{dead_letter_stays_listed}
use data_pipeline_async.Events.Once.{
  Operation, creates, starts, completes, buries, run_operations, created_once,
}

-- The ids of the table are below it.
abbrev above : List ProcessedEvent → ℕ
above [] = 1
above (e ∷ events) = max (suc e.id) (above events)

above-free :
    (n : ℕ) (events : List ProcessedEvent)
    → above events ≤ n
    → any_event (event_has_id n) events ≡ false
above-free n [] h = refl
above-free n (e ∷ events) h = ground (arith, h, above-free n events (omega (arith, h)), eqb e.id n)

abbrev insert_if :
    Bool → NewEvent → List ProcessedEvent → List ProcessedEvent × Option ProcessedEvent
insert_if true e events = (events, none)
insert_if false e events =
    (events ++ new_event (above events) e ∷ [], some (new_event (above events) e))

insert_if-rejects :
    (b : Bool) (e : NewEvent) (events : List ProcessedEvent)
    → b ≡ true
    → ((insert_if b e events).1 ≡ none) × ((insert_if b e events).0 ≡ events)
insert_if-rejects true e events h = (refl, refl)
insert_if-rejects false e events h = absurd (ground (arith, h))

insert_if-adds :
    (b : Bool) (e : NewEvent) (events : List ProcessedEvent)
    → b ≡ false
    → ((insert_if b e events).1 ≡ some (new_event (above events) e))
      × ((insert_if b e events).0 ≡ events ++ new_event (above events) e ∷ [])
insert_if-adds true e events h = absurd (ground (arith, h))
insert_if-adds false e events h = (refl, refl)

abbrev table : EventTable
table = record {
  Store = List ProcessedEvent;
  events = λ s. s;
  next_id = above;
  insert = λ e s. insert_if (any_event (event_has_key e.idempotency_key) s) e s;
  update = replace_event;
  fresh = λ s. above-free (above s) s (omega arith);
  insert_rejects = λ e s h. insert_if-rejects _ e s h;
  insert_adds = λ e s h. insert_if-adds _ e s h;
  update_replaces = λ x s. refl;
}

abbrev arrival : ℕ → NewEvent
arrival offset = record {
  kafka_topic = [];
  kafka_partition = 0;
  kafka_offset = offset;
  idempotency_key = b'k' ∷ [];
  event_type = [];
  payload = [];
}

abbrev first : ProcessedEvent
first = new_event 1 (arrival 7)

-- The row is marked and buried, and another event is created, before the key comes again.
abbrev meanwhile : List Operation
meanwhile =
    starts 1
    ∷ creates (record (arrival 9) { idempotency_key = b'j' ∷ [] })
    ∷ buries 1 []
    ∷ completes 2 50
    ∷ []

created_once_example :
    let (s', out) = create_processed_event table (arrival 7) [] in
    let later = run_operations table meanwhile s' in
    let (s'', out') = create_processed_event table (arrival 8) later in
    (out ≡ answer (some first) true)
    × (s' ≡ first ∷ [])
    × ((row : ProcessedEvent) × (find_event (event_has_id 1) later ≡ some row)
        × (row.event ≡ arrival 7)
        × (out' ≡ answer (some row) false))
    × (s'' ≡ later)
created_once_example =
    created_once table (arrival 7) (arrival 8) meanwhile [] (λ id. omega arith) refl refl

-- Rows in the order of their insertion, for either query.
abbrev in_order : Selection
in_order = record {
  unordered = λ es. es;
  by_created_desc = λ es. es;
  unordered_counts = λ es p. refl;
  by_created_counts = λ es p. refl;
}

abbrev stored : List ProcessedEvent
stored = new_event 2 (arrival 5) ∷ []

few :
    count_if
      (λ (x : ProcessedEvent). x.dead_letter_queue)
      (mark_event_completed table 2 60 (mark_event_dlq table 2 [] stored).0).0
    ≤ 10
unfolding mark_event_completed mark_event_dlq
few = omega arith

dead_letter_stays_listed_example :
    let s' = (mark_event_completed table 2 60 (mark_event_dlq table 2 [] stored).0).0 in
    (1
      ≤ count_if
          (λ x. event_has_id 2 x && has_status completed x)
          (get_dlq_events table in_order 10 s'))
    × (length (get_dlq_events table in_order 10 s')
        ≡ min 10 (count_if (λ x. x.dead_letter_queue) s'))
    × (length (get_events_by_status table in_order pending 10 s')
        ≡ min 10 (count_if (has_status pending) s'))
dead_letter_stays_listed_example =
    dead_letter_stays_listed table in_order 10 2 60 [] pending (new_event 2 (arrival 5)) stored refl
      few
