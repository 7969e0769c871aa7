-- ===== src/Events.antt =====
-- ingestor/storage/events.py: the rows of `ProcessedEvent` (ingestor/models.py), created once per
-- idempotency key and marked as the consumer goes on. The database is an interface, as for the
-- records; `updated_at` and `deleted_at`, which no function here reads, are left out.
pub mod Marks
pub mod Rows
pub mod Once
pub mod Queries
mod Examples
use data_pipeline_async.Base.{
  ℕ, suc, ◌+◌, max, ◌≡◌, Bool, true, false, ◌||◌, Option, none, some, List, [], ◌∷◌, ◌++◌, keep,
  take, count_if, eqb, Text, text_key, ◌==◌, if◌then◌else◌,
}

pub data EventStatus : Type 0 where
  pending processing completed failed dead_letter : EventStatus

pub record NewEvent : Type 0 where
  pub kafka_topic : Text
  pub kafka_partition : ℕ
  pub kafka_offset : ℕ
  pub idempotency_key : Text
  pub event_type : Text
  pub payload : Text

pub record ProcessedEvent : Type 0 where
  pub id : ℕ
  pub event : NewEvent
  pub status : EventStatus
  pub processing_attempts : ℕ
  pub error_message : Option Text
  pub error_details : Option Text
  pub dead_letter_queue : Bool
  pub dlq_reason : Option Text
  pub processed_at : Option ℕ

-- A new row, with the defaults of its columns.
abbrev pub new_event : ℕ → NewEvent → ProcessedEvent
new_event id e = record {
  id = id;
  event = e;
  status = pending;
  processing_attempts = 0;
  error_message = none;
  error_details = none;
  dead_letter_queue = false;
  dlq_reason = none;
  processed_at = none;
}

abbrev pub event_has_id : ℕ → ProcessedEvent → Bool
event_has_id id e = eqb e.id id

abbrev pub event_has_key : Text → ProcessedEvent → Bool
event_has_key key e = e.event.idempotency_key == key

abbrev pub find_event : (ProcessedEvent → Bool) → List ProcessedEvent → Option ProcessedEvent
find_event p [] = none
find_event p (e ∷ events) = if p e then some e else find_event p events

abbrev pub any_event : (ProcessedEvent → Bool) → List ProcessedEvent → Bool
any_event p [] = false
any_event p (e ∷ events) = p e || any_event p events

abbrev pub replace_event : ProcessedEvent → List ProcessedEvent → List ProcessedEvent
replace_event x [] = []
replace_event x (e ∷ events) = (if event_has_id x.id e then x else e) ∷ replace_event x events

-- What the code relies on of the table: the unique key, fresh ids, updates by id.
pub record EventTable : Type 1 where
  pub Store : Type 0
  pub events : Store → List ProcessedEvent
  pub next_id : Store → ℕ
  pub insert : NewEvent → Store → Store × Option ProcessedEvent
  pub update : ProcessedEvent → Store → Store
  pub fresh : (s : Store) → any_event (event_has_id (next_id s)) (events s) ≡ false
  pub insert_rejects :
      (e : NewEvent) (s : Store)
      → any_event (event_has_key e.idempotency_key) (events s) ≡ true
      → ((insert e s).1 ≡ none) × (events (insert e s).0 ≡ events s)
  pub insert_adds :
      (e : NewEvent) (s : Store)
      → any_event (event_has_key e.idempotency_key) (events s) ≡ false
      → ((insert e s).1 ≡ some (new_event (next_id s) e))
        × (events (insert e s).0 ≡ events s ++ new_event (next_id s) e ∷ [])
  pub update_replaces :
      (x : ProcessedEvent) (s : Store) → events (update x s) ≡ replace_event x (events s)

-- The answer of `create_processed_event`: the row, if there is one, and whether it is new;
-- or an exception, of `refresh` without a row or of `scalar_one_or_none` with several.
pub data Creation : Type 0 where
  answer : Option ProcessedEvent → Bool → Creation
  refresh_error : Creation
  multiple_rows : Creation

abbrev pub existing_event : List ProcessedEvent → Creation
existing_event [] = answer none false
existing_event (e ∷ []) = answer (some e) false
existing_event (_ ∷ _ ∷ _) = multiple_rows

abbrev pub refreshed : Option ProcessedEvent → Creation
refreshed none = refresh_error
refreshed (some e) = answer (some e) true

abbrev pub to_processing : ProcessedEvent → ProcessedEvent
to_processing e = record e { status = processing; processing_attempts = e.processing_attempts + 1 }

abbrev pub to_completed : ℕ → ProcessedEvent → ProcessedEvent
to_completed now e = record e { status = completed; processed_at = some now }

abbrev pub to_failed : Text → Option Text → ProcessedEvent → ProcessedEvent
to_failed message details e = record e {
  status = failed;
  error_message = some message;
  error_details = details;
}

abbrev pub to_dead_letter : Text → ProcessedEvent → ProcessedEvent
to_dead_letter reason e = record e {
  status = dead_letter;
  dead_letter_queue = true;
  dlq_reason = some reason;
}

module _ (d : EventTable) where
  open d use {Store, events, insert, update}

  abbrev pub settle_creation : NewEvent → Store × Option ProcessedEvent → Store × Creation
  settle_creation e (s, none) =
      (s, existing_event (keep (event_has_key e.idempotency_key) (events s)))
  settle_creation e (s, some x) = (s, refreshed (find_event (event_has_id x.id) (events s)))

  pub create_processed_event : NewEvent → Store → Store × Creation
  create_processed_event e s = settle_creation e (insert e s)

  -- `session.get`, the given change of the row, its commit and `session.refresh`.
  abbrev pub mark_found :
      (ProcessedEvent → ProcessedEvent)
      → Option ProcessedEvent
      → Store
      → Store × Option ProcessedEvent
  mark_found f none s = (s, none)
  mark_found f (some e) s =
      let s' = update (f e) s in (s', find_event (event_has_id (f e).id) (events s'))

  abbrev pub mark : ℕ → (ProcessedEvent → ProcessedEvent) → Store → Store × Option ProcessedEvent
  mark id f s = mark_found f (find_event (event_has_id id) (events s)) s

  pub mark_event_processing : ℕ → Store → Store × Option ProcessedEvent
  mark_event_processing id = mark id to_processing

  pub mark_event_completed : ℕ → ℕ → Store → Store × Option ProcessedEvent
  mark_event_completed id now = mark id (to_completed now)

  pub mark_event_failed : ℕ → Text → Option Text → Store → Store × Option ProcessedEvent
  mark_event_failed id message details = mark id (to_failed message details)

  pub mark_event_dlq : ℕ → Text → Store → Store × Option ProcessedEvent
  mark_event_dlq id reason = mark id (to_dead_letter reason)

-- What the code relies on of a query's order: none, or the newest first by creation; each lists the
-- selected rows.
pub record Selection : Type 0 where
  pub unordered : List ProcessedEvent → List ProcessedEvent
  pub by_created_desc : List ProcessedEvent → List ProcessedEvent
  pub unordered_counts :
      (es : List ProcessedEvent) (p : ProcessedEvent → Bool)
      → count_if p (unordered es) ≡ count_if p es
  pub by_created_counts :
      (es : List ProcessedEvent) (p : ProcessedEvent → Bool)
      → count_if p (by_created_desc es) ≡ count_if p es

abbrev pub status_number : EventStatus → ℕ
status_number pending = 0
status_number processing = 1
status_number completed = 2
status_number failed = 3
status_number dead_letter = 4

abbrev pub has_status : EventStatus → ProcessedEvent → Bool
has_status status e = eqb (status_number e.status) (status_number status)

module _ (d : EventTable) (selection : Selection) where
  pub get_events_by_status : EventStatus → ℕ → d.Store → List ProcessedEvent
  get_events_by_status status limit s =
      take limit (selection.unordered (keep (has_status status) (d.events s)))

  pub get_dlq_events : ℕ → d.Store → List ProcessedEvent
  get_dlq_events limit s =
      take limit (selection.by_created_desc (keep (λ e. e.dead_letter_queue) (d.events s)))
