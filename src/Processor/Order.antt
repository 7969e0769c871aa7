-- ===== src/Processor/Order.antt =====
-- What services/processor/main.py processes of the messages it reads, and in which order.
use data_pipeline_async.Base.{
  ℕ, ◌≡◌, refl, sym, ◌∙◌, Bool, false, Option, none, some, List, [], ◌∷◌, ◌++◌, leb, Text, nat_key,
  pair_key, if-split, append_assoc, append-nil, ◌≢◌, arith,
}
use data_pipeline_async.Processor.{
  Message, Decoded, Processed, done, value_error, attribute_error, process_message, Consumer, Event,
  max_retries, attempt_of, settle_message, handle_value, handle, consume_all, Bytes,
}

module _ (decode : Bytes → Text) (loads : Bytes → Decoded) where
  -- The events that messages hold, in the order of delivery.
  abbrev pub prepend_event : Processed → List Event → List Event
  prepend_event (done e) events = e ∷ events
  prepend_event (value_error _) events = events
  prepend_event attribute_error events = events

  abbrev pub prepend_value : Option Bytes → List Event → List Event
  prepend_value none events = events
  prepend_value (some raw) events = prepend_event (process_message (loads raw)) events

  abbrev pub events_of : List (Message × Bool) → List Event
  events_of [] = []
  events_of ((m, _) ∷ rest) = prepend_value m.value (events_of rest)

  -- A value that does not end the consumer.
  abbrev pub IsHandled : Option Bytes → Type 0
  IsHandled none = ⊥
  IsHandled (some raw) = process_message (loads raw) ≢ attribute_error

  abbrev pub AreObjects : List (Message × Bool) → Type 0
  AreObjects [] = Unit
  AreObjects ((m, _) ∷ rest) = IsHandled m.value × AreObjects rest

  settle-processed :
      (sent : Bool) (m : Message) (raw : Bytes) (attempt : ℕ) (r : Processed) (c : Consumer)
      (events : List Event)
      → r ≢ attribute_error
      → ((settle_message decode sent m raw attempt r c).processed ++ events
          ≡ c.processed ++ prepend_event r events)
        × ((settle_message decode sent m raw attempt r c).stopped ≡ c.stopped)
  unfolding settle_message
  settle-processed sent m raw attempt (done e) c events object =
      (append_assoc c.processed (e ∷ []) events, refl)
  settle-processed sent m raw attempt (value_error reason) c events object =
      if-split {A = Consumer}
        (λ d. (d.processed ++ events ≡ c.processed ++ events) × (d.stopped ≡ c.stopped))
        (leb max_retries attempt) (λ _. (refl, refl)) (λ _. (refl, refl))
  settle-processed sent m raw attempt attribute_error c events object = absurd (object refl)

  handle_value-processed :
      (m : Message) (sent : Bool) (v : Option Bytes) (c : Consumer) (events : List Event)
      → IsHandled v
      → ((handle_value decode loads m sent v c).processed ++ events
          ≡ c.processed ++ prepend_value v events)
        × ((handle_value decode loads m sent v c).stopped ≡ c.stopped)
  handle_value-processed m sent none c events handled = absurd handled
  handle_value-processed m sent (some raw) c events handled =
      settle-processed sent m raw (attempt_of m c.retry_counts) (process_message (loads raw)) c
        events handled

  -- If every message has a value that is no JSON other than an object, a consumer that has not stopped
  -- does not stop, and processes just the well-formed events, each once per delivery, in order: the
  -- bad messages among them are skipped.
  pub events_processed_in_order :
      (messages : List (Message × Bool)) (c : Consumer)
      → c.stopped ≡ false
      → AreObjects messages
      → ((consume_all decode loads messages c).processed ≡ c.processed ++ events_of messages)
        × ((consume_all decode loads messages c).stopped ≡ false)
  unfolding consume_all handle
  events_processed_in_order [] c on objects = (sym (append-nil c.processed), on)
  events_processed_in_order ((m, sent) ∷ rest) c on objects =
      let settled = handle_value-processed m sent m.value c (events_of rest) objects.0 in
      let later =
        events_processed_in_order rest (handle decode loads m sent c) (settled.1 ∙ on) objects.1 in
      if-split {A = Consumer}
        (λ d. (d.processed ≡ c.processed ++ events_of ((m, sent) ∷ rest)) × (d.stopped ≡ false))
        c.stopped (λ off. absurd (ground (arith, on, off))) (λ _. (later.0 ∙ settled.0, later.1))
