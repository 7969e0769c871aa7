-- ===== src/Processor.antt =====
-- The consumer of services/processor/main.py: `consume`, the connection loop before it and the
-- message loop, with `_process_message` and `_send_to_dlq`. `json.loads` is a parameter, as are
-- `bytes.decode(errors="replace")` and how each attempt to connect and each send to the dead-letter
-- topic ends. Spans and logs are left out.
pub mod Counting
pub mod Letters
pub mod Order
pub mod Connecting
mod Examples
use data_pipeline_async.Base.{
  ℕ, zero, suc, ◌+◌, Bool, true, false, Option, none, some, List, [], ◌∷◌, ◌++◌, leb, Text, nat_key,
  pair_key, if◌then◌else◌,
}
use data_pipeline_async.Base.Dict.{Dict, lookup, insert, erase}

abbrev pub max_retries : ℕ
max_retries = 3

abbrev pub retry_max_attempts : ℕ
retry_max_attempts = 12

-- What `json.loads` makes of a message: a ValueError with its text, a dict with what `get` gives
-- for the two keys (a null is none), or another value, which has no method `get`.
pub data Decoded : Type 0 where
  undecodable : (reason : Text) → Decoded
  event : (event_type payload : Option Text) → Decoded
  not_dict : Decoded

abbrev pub Bytes : Type 0
Bytes = List ℕ

-- A tombstone has no value.
pub record Message : Type 0 where
  pub partition : ℕ
  pub offset : ℕ
  pub value : Option Bytes

pub record DeadLetter : Type 0 where
  pub source_partition : ℕ
  pub source_offset : ℕ
  pub reason : Text
  pub original : Text

pub record Event : Type 0 where
  pub event_type : Text
  pub payload : Text

-- How the work on one message ends: well, by an exception the loop handles, or by another one.
pub data Processed : Type 0 where
  done : Event → Processed
  value_error : (reason : Text) → Processed
  attribute_error : Processed

abbrev pub missing_keys : Text
missing_keys =
    b'e' ∷ b'v' ∷ b'e' ∷ b'n' ∷ b't' ∷ b' ' ∷ b'm' ∷ b'i' ∷ b's' ∷ b's' ∷ b'i' ∷ b'n' ∷ b'g' ∷ b' '
    ∷ 39 ∷ b'e' ∷ b'v' ∷ b'e' ∷ b'n' ∷ b't' ∷ b'_' ∷ b't' ∷ b'y' ∷ b'p' ∷ b'e' ∷ 39 ∷ b' ' ∷ b'o'
    ∷ b'r' ∷ b' ' ∷ 39 ∷ b'p' ∷ b'a' ∷ b'y' ∷ b'l' ∷ b'o' ∷ b'a' ∷ b'd' ∷ 39 ∷ []

abbrev pub process_message : Decoded → Processed
process_message (undecodable reason) = value_error reason
process_message (event (some t) (some p)) = done (record { event_type = t; payload = p })
process_message (event (some _) none) = value_error missing_keys
process_message (event none _) = value_error missing_keys
process_message not_dict = attribute_error

-- `retry_counts`, the events processed, the letters the broker took, and whether `consume` has left
-- its loop by an exception.
pub record Consumer : Type 0 where
  pub retry_counts : Dict (ℕ × ℕ) ℕ
  pub processed : List Event
  pub dead_letters : List DeadLetter
  pub stopped : Bool

abbrev pub new_consumer : Consumer
new_consumer = record { retry_counts = []; processed = []; dead_letters = []; stopped = false }

abbrev pub key_of : Message → ℕ × ℕ
key_of m = (m.partition, m.offset)

-- The letter holds the text that `raw_value.decode(errors="replace")` gives. A send that times out or
-- fails is logged, and the letter is lost.
abbrev pub send_to_dlq :
    (Bytes → Text) → Bool → Message → Bytes → Text → List DeadLetter → List DeadLetter
send_to_dlq decode false m raw_value reason letters = letters
send_to_dlq decode true m raw_value reason letters =
    letters
    ++ record {
      source_partition = m.partition;
      source_offset = m.offset;
      reason = reason;
      original = decode raw_value;
    }
      ∷ []

-- `retry_counts.get(msg_key, 0) + 1`
abbrev pub attempt_of : Message → Dict (ℕ × ℕ) ℕ → ℕ
attempt_of m counts = elim (lookup (key_of m) counts) [ none ↦ 1 | some n ↦ n + 1 ]

-- The end of the `try` for one message with a value, the given attempt at it.
pub settle_message : (Bytes → Text) → Bool → Message → Bytes → ℕ → Processed → Consumer → Consumer
settle_message decode sent m raw attempt (done e) c = record c {
  retry_counts = erase (key_of m) c.retry_counts;
  processed = c.processed ++ e ∷ [];
}
settle_message decode sent m raw attempt (value_error reason) c =
    if leb max_retries attempt
    then record c {
      retry_counts = erase (key_of m) c.retry_counts;
      dead_letters = send_to_dlq decode sent m raw reason c.dead_letters;
    }
    else record c { retry_counts = insert (key_of m) attempt c.retry_counts }
settle_message decode sent m raw attempt attribute_error c = record c { stopped = true }

module _ (decode : Bytes → Text) (loads : Bytes → Decoded) where
  -- Without a value `json.loads` raises a TypeError, which the loop does not handle.
  abbrev pub handle_value : Message → Bool → Option Bytes → Consumer → Consumer
  handle_value m sent none c = record c { stopped = true }
  handle_value m sent (some raw) c =
      settle_message decode sent m raw (attempt_of m c.retry_counts) (process_message (loads raw)) c

  pub handle : Message → Bool → Consumer → Consumer
  handle m sent c = handle_value m sent m.value c

  -- The messages delivered, each with how a send of its letter would end.
  pub consume_all : List (Message × Bool) → Consumer → Consumer
  consume_all [] c = c
  consume_all ((m, sent) ∷ rest) c =
      let later = consume_all rest (handle m sent c) in if c.stopped then c else later

-- Whether the connection is up in the end, and how often the loop sleeps.
pub record Connection : Type 0 where
  pub is_up : Bool
  pub sleeps : ℕ

-- The loop `for attempt in range(1, max + 1)`, from `attempt` on with `left` attempts left;
-- `starts k` tells whether attempt `k` meets no KafkaError.
pub connect_from : (ℕ → Bool) → ℕ → ℕ → ℕ → Connection
connect_from starts attempt zero sleeps = record { is_up = true; sleeps = sleeps }
connect_from starts attempt (suc left) sleeps =
    let later = connect_from starts (attempt + 1) left (sleeps + 1) in
    if starts attempt
    then record { is_up = true; sleeps = sleeps }
    else (if leb retry_max_attempts attempt
        then record { is_up = false; sleeps = sleeps }
        else later)

pub connect : (ℕ → Bool) → Connection
unfolding connect_from
connect starts = connect_from starts 1 retry_max_attempts 0
