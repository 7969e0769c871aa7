-- ===== src/Publish.antt =====
-- ingestor/events.py: publication of events through a Kafka producer behind a circuit breaker of
-- five failures and thirty seconds (`second` ticks make one). The producer's send is a parameter,
-- by how it ends. `start` and `end` are when the guarded call reads the clock.
pub mod Outage
mod Examples
use data_pipeline_async.Base.{
  ℕ, ◌+◌, ◌*◌, Bool, true, false, List, [], ◌∷◌, ◌++◌, Text, if◌then◌else◌,
}
use data_pipeline_async.Circuit.{
  CircuitBreaker, new_breaker, Outcome, returned, raised, CallResult, circuit_open_error, passed_on,
  call,
}

-- The events of libs/contracts/events.py that the ingestor publishes, with their payload.
pub data Message : Type 0 where
  record_created : (record_id : ℕ) → (source : Text) → Message
  doc_scraped : (source : Text) → (count : ℕ) → Message

-- How `send_and_wait` ends: well, by a KafkaError, or by another exception.
pub data SendOutcome : Type 0 where
  delivered kafka_error other_error : SendOutcome

abbrev pub outcome_of : SendOutcome → Outcome
outcome_of delivered = returned
outcome_of kafka_error = raised
outcome_of other_error = raised

-- The module's producer and its breaker, with what the broker took and how often it was called.
pub record Producer : Type 0 where
  pub connected : Bool
  pub breaker : CircuitBreaker
  pub sent : List Message
  pub contacts : ℕ

pub new_producer : ℕ → Producer
new_producer second = record {
  connected = true;
  breaker = new_breaker 5 (30 * second);
  sent = [];
  contacts = 0;
}

-- How `publish_record_created` and `publish_doc_scraped` end.
pub data Publication : Type 0 where
  quiet : Publication
  escaped : Publication  -- an exception that is neither a KafkaError nor a CircuitOpenError

abbrev pub delivery : Message → SendOutcome → List Message
delivery m delivered = m ∷ []
delivery m kafka_error = []
delivery m other_error = []

abbrev pub ended_as : SendOutcome → Publication
ended_as delivered = quiet
ended_as kafka_error = quiet
ended_as other_error = escaped

abbrev pub settle_send :
    Message → SendOutcome → CircuitBreaker × CallResult → Producer → Producer × Publication
settle_send m o (b, circuit_open_error) p = (record p { breaker = b }, quiet)
settle_send m o (b, passed_on _) p =
    (record p { breaker = b; sent = p.sent ++ delivery m o; contacts = p.contacts + 1 }, ended_as o)

unfoldable pub publish : ℕ → ℕ → SendOutcome → Message → Producer → Producer × Publication
publish start end o m p =
    if p.connected then settle_send m o (call start end (outcome_of o) p.breaker) p else (p, quiet)
