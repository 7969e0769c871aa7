-- ===== src/Jobs/Examples.antt =====
-- Runs of the ingestion functions of ingestor/jobs.py, on a database in memory.
use data_pipeline_async.Base.{ℕ, ◌≡◌, refl, none, some, [], ◌∷◌, Text, arith}
use data_pipeline_async.Records.{RecordRequest}
use data_pipeline_async.Records.Memory.{Memory, memory}
use data_pipeline_async.Records.Memory.Tables.{IsTable}
use data_pipeline_async.Records.Crud.{returned}
use data_pipeline_async.Jobs.{
  IdempotencyKeyTracker, is_duplicate, already_processed, ingest_api_single, ingest_api_batch,
}
use data_pipeline_async.Jobs.Ingest.{single_at_most_once, same_size_batch_dropped}

abbrev key : Text
key = b'k' ∷ []

abbrev tracker : IdempotencyKeyTracker
tracker = record { ttl_seconds = 3600; seen = (key, 10) ∷ [] }

abbrev fresh : IdempotencyKeyTracker
fresh = record { ttl_seconds = 3600; seen = [] }

no_rows : IsTable [] 1
no_rows = record { ids = λ id. omega arith; keys = λ source timestamp. omega arith; bounded = tt }

abbrev empty_store : Memory
empty_store = record { table = []; next = 1; valid = no_rows }

abbrev request : ℕ → RecordRequest
request t = record { source = key; timestamp = t; document = []; tags = [] }

single_at_most_once_example :
    let (st', _) = ingest_api_single memory (request 1) (some key) 20 (fresh, empty_store) in
    ingest_api_single memory (request 2) (some key) 30 st' ≡ (st', returned none)
unfolding is_duplicate
single_at_most_once_example =
    single_at_most_once memory (request 1) (request 2) b'k' [] 20 30 (fresh, empty_store) refl
      (omega arith)

same_size_batch_dropped_example :
    let (st', _) =
      ingest_api_batch memory (request 1 ∷ request 2 ∷ []) (some key) 20 (fresh, empty_store) in
    ingest_api_batch memory (request 3 ∷ request 4 ∷ []) (some key) 30 st'
    ≡ (st', record { inserted = 0; errors = 0; first_error = some already_processed })
unfolding is_duplicate
same_size_batch_dropped_example =
    same_size_batch_dropped memory (request 1 ∷ request 2 ∷ []) (request 3 ∷ request 4 ∷ []) b'k' []
      20 30 (fresh, empty_store) refl refl (omega arith)
