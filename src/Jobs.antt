-- ===== src/Jobs.antt =====
-- Ingestion through the API: `IdempotencyKeyTracker` of libs/platform/retry.py, and the two ingestion
-- functions of ingestor/jobs.py over the operations of ingestor/crud.py. Wall-clock times are clock
-- ticks; `age > ttl` is written as a sum.
pub mod Tracker
pub mod Ingest
mod Examples
use data_pipeline_async.Base.{
  ℕ, suc, zero, ◌+◌, ◌/◌, ◌%◌, ◌≤◌, Bool, true, false, ◌&&◌, Option, none, some, List, [], ◌∷◌,
  ◌++◌, length, ltb, Text, text_key, if◌then◌else◌,
}
use data_pipeline_async.Base.Dict.{Dict, lookup, insert, erase}
use data_pipeline_async.Records.{Record, RecordRequest}
use data_pipeline_async.Records.Database.{Database}
use data_pipeline_async.Records.Crud.{
  Result, returned, integrity_error, missing_row, multiple_results, assertion_error, ◌>>=◌,
  create_record, create_records_batch,
}

pub record IdempotencyKeyTracker : Type 0 where
  pub ttl_seconds : ℕ
  pub seen : Dict Text ℕ

unfoldable pub is_duplicate : ℕ → Text → IdempotencyKeyTracker → IdempotencyKeyTracker × Bool
is_duplicate now key t = elim (lookup key t.seen) [
  | none ↦ (t, false)
  | some at ↦
      if ltb (at + t.ttl_seconds) now
      then (record t { seen = erase key t.seen }, false)
      else (t, true)
]

pub mark_seen : ℕ → Text → IdempotencyKeyTracker → IdempotencyKeyTracker
mark_seen now key t = record t { seen = insert key now t.seen }

abbrev pub expired_keys : ℕ → ℕ → Dict Text ℕ → List Text
expired_keys ttl now [] = []
expired_keys ttl now ((k, at) ∷ d) =
    let rest = expired_keys ttl now d in if ltb (at + ttl) now then k ∷ rest else rest

abbrev pub erase_all : List Text → Dict Text ℕ → Dict Text ℕ
erase_all [] d = d
erase_all (k ∷ ks) d = erase_all ks (erase k d)

pub cleanup_expired : ℕ → IdempotencyKeyTracker → IdempotencyKeyTracker
cleanup_expired now t = record t { seen = erase_all (expired_keys t.ttl_seconds now t.seen) t.seen }

-- `str(n)`, the digits by fuel; `n` divisions by ten are more than enough.
abbrev pub decimal_digits : ℕ → ℕ → Text
decimal_digits zero n = []
decimal_digits (suc fuel) n =
    let front = decimal_digits fuel (n / 10) in
    if ltb n 10 then (48 + n) ∷ [] else front ++ (48 + n % 10) ∷ []

-- `f"{prefix}:{n}"`
abbrev pub batch_key : Text → ℕ → Text
batch_key prefix n = prefix ++ b':' ∷ decimal_digits (n + 1) n

-- Why a batch reports no insertion.
pub data FirstError : Type 0 where
  already_processed : FirstError
  insert_failed : FirstError

-- The summary dict of a batch.
pub record Summary : Type 0 where
  pub inserted : ℕ
  pub errors : ℕ
  pub first_error : Option FirstError

module _ (d : Database) where
  abbrev pub State : Type 0
  State = IdempotencyKeyTracker × d.Store

  -- `ingest_api_single`; without a key, or with an empty one, there is no deduplication.
  abbrev create : RecordRequest → State → State × Result (Option Record)
  create request (t, s) =
      let (s', out) = create_record d request s in ((t, s'), out >>= λ r. returned (some r))

  pub ingest_api_single : RecordRequest → Option Text → ℕ → State → State × Result (Option Record)
  unfolding is_duplicate mark_seen
  ingest_api_single request none now st = create request st
  ingest_api_single request (some []) now st = create request st
  ingest_api_single request (some (c ∷ key)) now (t, s) =
      let (t', duplicate) = is_duplicate now (c ∷ key) t in
      if duplicate then ((t', s), returned none) else create request (mark_seen now (c ∷ key) t', s)

  -- `except Exception` turns every failure into a summary.
  abbrev summarise : ℕ → d.Store × Result (List Record) → d.Store × Summary
  summarise n (s, returned rs) =
      (s, record { inserted = length rs; errors = 0; first_error = none })
  summarise n (s, _) = (s, record { inserted = 0; errors = n; first_error = some insert_failed })

  abbrev store_batch : List RecordRequest → State → State × Summary
  store_batch requests (t, s) =
      let (s', out) = summarise (length requests) (create_records_batch d requests s) in
      ((t, s'), out)

  pub ingest_api_batch : List RecordRequest → Option Text → ℕ → State → State × Summary
  unfolding is_duplicate mark_seen
  ingest_api_batch requests none now st = store_batch requests st
  ingest_api_batch requests (some []) now st = store_batch requests st
  ingest_api_batch requests (some (c ∷ prefix)) now (t, s) =
      let key = batch_key (c ∷ prefix) (length requests) in
      let (t', duplicate) = is_duplicate now key t in
      if duplicate
      then ((t', s), record { inserted = 0; errors = 0; first_error = some already_processed })
      else store_batch requests (mark_seen now key t', s)
