-- ===== src/Jobs/Ingest.antt =====
-- Deduplication in the ingestion functions of ingestor/jobs.py.
use data_pipeline_async.Base.{
  ℕ, ◌+◌, ◌≤◌, ◌≡◌, true, false, none, some, List, ◌∷◌, length, Text, text_key, ==_refl, arith,
}
use data_pipeline_async.Base.Dict.{lookup-insert}
use data_pipeline_async.Records.{RecordRequest}
use data_pipeline_async.Records.Database.{Database}
use data_pipeline_async.Records.Crud.{returned}
use data_pipeline_async.Jobs.{
  IdempotencyKeyTracker, is_duplicate, mark_seen, batch_key, already_processed, State,
  ingest_api_single, ingest_api_batch,
}

-- The answer for a key that was marked within its time to live, and the tracker stays as it is.
duplicate_within :
    (marked now : ℕ) (key : Text) (t : IdempotencyKeyTracker)
    → now ≤ marked + t.ttl_seconds
    → is_duplicate now key (mark_seen marked key t) ≡ (mark_seen marked key t, true)
unfolding is_duplicate mark_seen
duplicate_within marked now key t h =
    ground (arith, lookup-insert key key marked t.seen, ==_refl key)

is_duplicate-ttl :
    (now : ℕ) (key : Text) (t : IdempotencyKeyTracker)
    → (is_duplicate now key t).0.ttl_seconds ≡ t.ttl_seconds
unfolding is_duplicate
is_duplicate-ttl now key t = ground arith

module _ (d : Database) where
  -- A single record with a key is created at most once: when the first call found the key new, a
  -- second call with the key within the time to live returns None and changes nothing, however the
  -- first one ended.
  pub single_at_most_once :
      (first second : RecordRequest) (c : ℕ) (key : Text) (now later : ℕ) (st : State d)
      → (is_duplicate now (c ∷ key) st.0).1 ≡ false
      → later ≤ now + st.0.ttl_seconds
      → let (st', _) = ingest_api_single d first (some (c ∷ key)) now st in
        ingest_api_single d second (some (c ∷ key)) later st' ≡ (st', returned none)
  unfolding ingest_api_single
  single_at_most_once first second c key now later (t, s) new within =
      let t' : IdempotencyKeyTracker = (is_duplicate now (c ∷ key) t).0 in
      ground (
        arith,
        new,
        duplicate_within now later (c ∷ key) t' (omega (arith, is_duplicate-ttl now (c ∷ key) t)),
      )

  -- After a batch with a prefix whose key was new, any other batch of the same size with that prefix
  -- is dropped within the time to live: it reports no insertion and no error, and changes nothing,
  -- whatever its records are and also if the first batch failed.
  pub same_size_batch_dropped :
      (first second : List RecordRequest) (c : ℕ) (prefix : Text) (now later : ℕ) (st : State d)
      → length second ≡ length first
      → (is_duplicate now (batch_key (c ∷ prefix) (length first)) st.0).1 ≡ false
      → later ≤ now + st.0.ttl_seconds
      → let (st', _) = ingest_api_batch d first (some (c ∷ prefix)) now st in
        ingest_api_batch d second (some (c ∷ prefix)) later st'
        ≡ (st', record { inserted = 0; errors = 0; first_error = some already_processed })
  unfolding ingest_api_batch
  same_size_batch_dropped first second c prefix now later (t, s) same new within =
      let key : Text = batch_key (c ∷ prefix) (length first) in
      let t' : IdempotencyKeyTracker = (is_duplicate now key t).0 in
      rw (same, new, duplicate_within now later key t' (omega (arith, is_duplicate-ttl now key t)))
