-- ===== src/Routes/Listing.antt =====
-- Listing and creation in ingestor/routers/records.py.
use data_pipeline_async.Base.{
  ℕ, ◌+◌, ◌-◌, ◌≤◌, min, ◌≡◌, ◌≢◌, refl, sym, ap, ◌∙◌, true, false, Bool, ◌&&◌, Option, List, map,
  length, length-take, length-drop, length-map, count-all, take, drop, ltb, leb, Text,
  if◌then◌else◌, if-true, if-split, arith,
}
use data_pipeline_async.Records.{Record, RecordRequest, by_id}
use data_pipeline_async.Records.Database.{Database}
use data_pipeline_async.Records.Crud.{
  Result, returned, integrity_error, missing_row, multiple_results, assertion_error, create_record,
  create_records_batch,
}
use data_pipeline_async.Records.Crud.Upsert.{batch_naive_same}
use data_pipeline_async.Records.Listing.{get_records, matching}
use data_pipeline_async.Cache.{response_of, Redis, Codec}
use data_pipeline_async.Circuit.{CircuitBreaker, CallResult, circuit_open_error, passed_on, call}
use data_pipeline_async.Publish.{
  Message, SendOutcome, delivered, kafka_error, other_error, outcome_of, record_created, Producer,
  Publication, quiet, settle_send, publish,
}
use data_pipeline_async.Routes.{
  Response, answer, http_error, Service, respond, Impl, optimized, naive, BatchCreated, RecordList,
  max_page_size, max_batch_size, published, settle_create, create_record_route,
  create_records_batch_route, list_records,
}

module _ (d : Database) (redis : Redis) (codec : Codec) where
  open d use {Store, order_by, order_by_counts}
  open redis use {Conn}

  -- The answer to a listing within the bounds.
  abbrev pub listed : ℕ → ℕ → Option Text → Service Store Conn → RecordList
  listed skip limit source v =
      let (records, total) = get_records d skip limit source v.store in
      record {
        records = map response_of records;
        total = total;
        skip = skip;
        limit = limit;
        has_more = ltb (skip + limit) total;
      }

  page_length :
      (skip limit : ℕ) (source : Option Text) (v : Service Store Conn)
      → length (listed skip limit source v).records
        ≡ min limit (length (matching d source v.store) - skip)
  unfolding get_records
  page_length skip limit source v = omega (
    arith,
    length-map response_of (take limit (drop skip (order_by by_id (matching d source v.store)))),
    length-take limit (drop skip (order_by by_id (matching d source v.store))),
    length-drop skip (order_by by_id (matching d source v.store)),
    order_by_counts by_id (matching d source v.store) (λ _. true),
    count-all (order_by by_id (matching d source v.store)),
    count-all (matching d source v.store),
  )

  -- A listing with a limit from 1 to 1000 is answered; its page has as many records as are left
  -- behind the skipped ones, at most the limit, its total is their number on all pages, and
  -- `has_more` tells whether the page that starts where it ends has any.
  pub has_more_tells_next_page :
      (skip limit : ℕ) (source : Option Text) (v : Service Store Conn)
      → 1 ≤ limit
      → limit ≤ max_page_size
      → let page = listed skip limit source v in
        let next = listed (skip + limit) limit source v in
        (list_records d redis codec skip limit source v ≡ answer 200 page)
        × (list_records d redis codec (skip + limit) limit source v ≡ answer 200 next)
        × (length page.records ≡ min limit (page.total - skip))
        × (page.has_more ≡ ltb 0 (length next.records))
  unfolding list_records get_records
  has_more_tells_next_page skip limit source v h h' = (
    if-true (leb 1 limit && leb limit max_page_size) _ _ (ground (arith, h, h')),
    if-true (leb 1 limit && leb limit max_page_size) _ _ (ground (arith, h, h')),
    page_length skip limit source v,
    ground (arith, page_length (skip + limit) limit source v, h),
  )

  -- The number that a batch answer reports.
  abbrev pub created_of : Response BatchCreated → Response ℕ
  created_of (answer status b) = answer status b.created
  created_of (http_error status) = http_error status

  created_of-respond :
      (impl : Impl) (out : Result (List Record))
      → created_of
          (respond out (λ records. answer 201 (record { created = length records; impl = impl })))
        ≡ respond out (λ records. answer 201 (length records))
  created_of-respond impl (returned a) = refl
  created_of-respond impl integrity_error = refl
  created_of-respond impl missing_row = refl
  created_of-respond impl multiple_results = refl
  created_of-respond impl assertion_error = refl

  -- The answer to a batch, by whether its length is accepted and what the implementation returned.
  abbrev batch_answer :
      Impl
      → Service Store Conn
      → Bool
      → Store × Result (List Record)
      → Service Store Conn × Response BatchCreated
  batch_answer impl v accepted (s, r) =
      if accepted
      then (
        record v { store = s },
        respond r (λ records. answer 201 (record { created = length records; impl = impl })),
      )
      else (v, http_error 422)

  batch_answer-same :
      (v : Service Store Conn) (accepted : Bool) (x : Store × Result (List Record))
      → ((batch_answer naive v accepted x).0 ≡ (batch_answer optimized v accepted x).0)
        × (created_of (batch_answer naive v accepted x).1
            ≡ created_of (batch_answer optimized v accepted x).1)
  batch_answer-same v true x =
      (refl, created_of-respond naive x.1 ∙ sym (created_of-respond optimized x.1))
  batch_answer-same v false x = (refl, refl)

  -- The two implementations of the batch creation answer the same status and number of records, and
  -- leave the same database.
  pub impl_same_contract :
      (body : List RecordRequest) (v : Service Store Conn)
      → ((create_records_batch_route d redis codec naive body v).0
          ≡ (create_records_batch_route d redis codec optimized body v).0)
        × (created_of (create_records_batch_route d redis codec naive body v).1
            ≡ created_of (create_records_batch_route d redis codec optimized body v).1)
  unfolding create_records_batch_route
  impl_same_contract body v =
      let accepted = leb 1 (length body) && leb (length body) max_batch_size in
      let (same_service, same_answer) =
        batch_answer-same v accepted (create_records_batch d body v.store) in
      (
        ap (λ x. (batch_answer naive v accepted x).0) (batch_naive_same d body v.store)
            ∙ same_service,
        ap (λ x. created_of (batch_answer naive v accepted x).1) (batch_naive_same d body v.store)
            ∙ same_answer,
      )

  settle_send_quiet :
      (m : Message) (o : SendOutcome) (x : CircuitBreaker × CallResult) (p : Producer)
      → o ≢ other_error
      → (settle_send m o x p).1 ≡ quiet
  settle_send_quiet m o (b, circuit_open_error) p h = refl
  settle_send_quiet m delivered (b, passed_on _) p h = refl
  settle_send_quiet m kafka_error (b, passed_on _) p h = refl
  settle_send_quiet m other_error (b, passed_on _) p h = absurd (h refl)

  publish_quiet :
      (start end : ℕ) (o : SendOutcome) (m : Message) (p : Producer)
      → o ≢ other_error
      → (publish start end o m p).1 ≡ quiet
  unfolding publish
  publish_quiet start end o m p h =
      if-split {A = Producer × Publication} (λ x. x.1 ≡ quiet) p.connected
        (λ _. settle_send_quiet m o (call start end (outcome_of o) p.breaker) p h) (λ _. refl)

  settle_create-open :
      (start end : ℕ) (o : SendOutcome) (r : Result Record) (p : Producer)
      → o ≢ other_error
      → (settle_create d redis codec start end o r p).1
        ≡ respond r (λ x. answer 201 (response_of x))
  settle_create-open start end o (returned r) p h =
      ap
        (λ q.
          (published d redis codec r
            ((publish start end o (record_created r.id r.source) p).0, q)).1)
        (publish_quiet start end o (record_created r.id r.source) p h)
  settle_create-open start end o integrity_error p h = refl
  settle_create-open start end o missing_row p h = refl
  settle_create-open start end o multiple_results p h = refl
  settle_create-open start end o assertion_error p h = refl

  -- Unless a send ends by an exception that is no KafkaError, the state of the broker, of the
  -- producer and of its breaker decides nothing about a creation: the answer is 201 with the record
  -- that the database stored, or the database's error, and the database is left as by that alone.
  pub creation_fails_open :
      (start end : ℕ) (o : SendOutcome) (body : RecordRequest) (v : Service Store Conn)
      → o ≢ other_error
      → let (w, out) = create_record_route d redis codec start end o body v in
        let (s, r) = create_record d body v.store in
        (out ≡ respond r (λ x. answer 201 (response_of x))) × (w.store ≡ s) × (w.client ≡ v.client)
  unfolding create_record_route
  creation_fails_open start end o body v h =
      (settle_create-open start end o (create_record d body v.store).1 v.producer h, refl, refl)
