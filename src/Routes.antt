-- ===== src/Routes.antt =====
-- The v1 record routes, ingestor/routers/records.py: what a handler answers and what it leaves of
-- the database, the cache and the producer. An `HTTPException` is its status code, any other
-- exception the status 500. Requests are handled one after the other; the slowapi limit of `create`,
-- metrics and log lines are left out.
pub mod Coherent
pub mod Fresh
pub mod Stale
pub mod Listing
pub mod Secured
mod Examples
use data_pipeline_async.Base.{
  ℕ, ◌+◌, Bool, true, false, ◌&&◌, Option, none, some, List, [], ◌∷◌, map, length, ltb, leb, Text,
  if◌then◌else◌,
}
use data_pipeline_async.Records.{Record, RecordRequest}
use data_pipeline_async.Records.Database.{Database}
use data_pipeline_async.Records.Crud.{
  Result, returned, integrity_error, missing_row, multiple_results, assertion_error,
  UpdateRecordRequest, create_record, create_records_batch, create_records_batch_naive, get_record,
  mark_processed, update_record, delete_record, soft_delete_record,
}
use data_pipeline_async.Records.Listing.{get_records}
use data_pipeline_async.Cache.{
  RecordResponse, response_of, Redis, Codec, get_cached_record, set_cached_record,
  invalidate_record,
}
use data_pipeline_async.Publish.{
  record_created, SendOutcome, Producer, Publication, quiet, escaped, publish,
}

abbrev pub max_page_size : ℕ
max_page_size = 1000

abbrev pub max_batch_size : ℕ
max_batch_size = 1000

pub data Response (A : Type 0) : Type 0 where
  answer : (status : ℕ) → A → Response A
  http_error : (status : ℕ) → Response A

-- The stores that the handlers share.
pub record Service (Store Conn : Type 0) : Type 0 where
  pub store : Store
  pub client : Option Conn
  pub producer : Producer

-- An operation's value, passed on; its exceptions reach the framework.
abbrev pub respond : {A B : Type 0} → Result A → (A → Response B) → Response B
respond (returned a) f = f a
respond integrity_error f = http_error 500
respond missing_row f = http_error 500
respond multiple_results f = http_error 500
respond assertion_error f = http_error 500

-- `if record is None: raise HTTPException(404)`
abbrev pub found_or_404 : {B : Type 0} → (Record → Response B) → Option Record → Response B
found_or_404 f none = http_error 404
found_or_404 f (some r) = f r

abbrev pub record_answer : Record → Response RecordResponse
record_answer r = answer 200 (response_of r)

-- The `impl` query parameter, which its pattern bounds to two values.
pub data Impl : Type 0 where
  optimized naive : Impl

pub record BatchCreated : Type 0 where
  pub created : ℕ
  pub impl : Impl

pub record RecordList : Type 0 where
  pub records : List RecordResponse
  pub total : ℕ
  pub skip : ℕ
  pub limit : ℕ
  pub has_more : Bool

module _ (d : Database) (redis : Redis) (codec : Codec) where
  open d use {Store}
  open redis use {Conn}

  abbrev pub published : Record → Producer × Publication → Producer × Response RecordResponse
  published r (p, quiet) = (p, answer 201 (response_of r))
  published r (p, escaped) = (p, http_error 500)

  abbrev pub settle_create :
      ℕ → ℕ → SendOutcome → Result Record → Producer → Producer × Response RecordResponse
  settle_create start end o (returned r) p =
      published r (publish start end o (record_created r.id r.source) p)
  settle_create start end o integrity_error p = (p, http_error 500)
  settle_create start end o missing_row p = (p, http_error 500)
  settle_create start end o multiple_results p = (p, http_error 500)
  settle_create start end o assertion_error p = (p, http_error 500)

  -- `create_record`; the event is sent at `start` and its send ends at `end` by `o`.
  pub create_record_route :
      ℕ
      → ℕ
      → SendOutcome
      → RecordRequest
      → Service Store Conn
      → Service Store Conn × Response RecordResponse
  create_record_route start end o body v =
      let (s, r) = create_record d body v.store in
      let (p, out) = settle_create start end o r v.producer in
      (record v { store = s; producer = p }, out)

  abbrev pub impl_fn : Impl → List RecordRequest → Store → Store × Result (List Record)
  impl_fn optimized = create_records_batch d
  impl_fn naive = create_records_batch_naive d

  -- `create_records_batch`; a body of no or too many records is refused as invalid.
  pub create_records_batch_route :
      Impl → List RecordRequest → Service Store Conn → Service Store Conn × Response BatchCreated
  create_records_batch_route impl body v =
      let (s, r) = impl_fn impl body v.store in
      if leb 1 (length body) && leb (length body) max_batch_size
      then (
        record v { store = s },
        respond r (λ records. answer 201 (record { created = length records; impl = impl })),
      )
      else (v, http_error 422)

  -- `list_records`; a limit out of its bounds is refused as invalid.
  pub list_records : ℕ → ℕ → Option Text → Service Store Conn → Response RecordList
  list_records skip limit source v =
      let (records, total) = get_records d skip limit source v.store in
      if leb 1 limit && leb limit max_page_size
      then answer 200 (record {
        records = map response_of records;
        total = total;
        skip = skip;
        limit = limit;
        has_more = ltb (skip + limit) total;
      })
      else http_error 422

  -- What a cache miss leads to: the database is asked, and a record found is cached.
  abbrev pub settle_read :
      ℕ → Result (Option Record) → Service Store Conn → Service Store Conn × Response RecordResponse
  settle_read id (returned (some r)) v = (
    record v { client = set_cached_record redis codec id (response_of r) v.client },
    record_answer r,
  )
  settle_read id (returned none) v = (v, http_error 404)
  settle_read id integrity_error v = (v, http_error 500)
  settle_read id missing_row v = (v, http_error 500)
  settle_read id multiple_results v = (v, http_error 500)
  settle_read id assertion_error v = (v, http_error 500)

  abbrev pub read_through :
      ℕ → Option RecordResponse → Service Store Conn → Service Store Conn × Response RecordResponse
  read_through id (some cached) v = (v, answer 200 cached)
  read_through id none v = settle_read id (get_record d id v.store) v

  pub get_record_route : ℕ → Service Store Conn → Service Store Conn × Response RecordResponse
  get_record_route id v = read_through id (get_cached_record redis codec id v.client) v

  pub update_record_endpoint :
      ℕ → UpdateRecordRequest → Service Store Conn → Service Store Conn × Response RecordResponse
  update_record_endpoint id body v =
      let (s, r) = update_record d id body v.store in
      (record v { store = s }, respond r (found_or_404 record_answer))

  -- The cache after a handler that invalidates it once the row was found.
  abbrev pub invalidated : ℕ → Result (Option Record) → Option Conn → Option Conn
  invalidated id (returned (some _)) c = invalidate_record redis codec id c
  invalidated id (returned none) c = c
  invalidated id integrity_error c = c
  invalidated id missing_row c = c
  invalidated id multiple_results c = c
  invalidated id assertion_error c = c

  pub process_record : ℕ → ℕ → Service Store Conn → Service Store Conn × Response RecordResponse
  process_record id now v =
      let (s, r) = mark_processed d id now v.store in
      (
        record v { store = s; client = invalidated id r v.client },
        respond r (found_or_404 record_answer),
      )

  pub archive_record : ℕ → ℕ → Service Store Conn → Service Store Conn × Response RecordResponse
  archive_record id now v =
      let (s, r) = soft_delete_record d id now v.store in
      (record v { store = s }, respond r (found_or_404 record_answer))

  pub delete_record_route : ℕ → Service Store Conn → Service Store Conn × Response (Unit {0})
  delete_record_route id v =
      let (s, r) = delete_record d id v.store in
      (
        record v { store = s; client = invalidated id r v.client },
        respond r (found_or_404 (λ _. answer 204 tt)),
      )
