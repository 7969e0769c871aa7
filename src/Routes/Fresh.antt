-- ===== src/Routes/Fresh.antt =====
-- Reads through the cache of ingestor/routers/records.py against reads of the database.
use data_pipeline_async.Base.{ℕ, ◌≡◌, inl, inr, refl, sym, ap, ◌∙◌, Option, none, some, List, Text}
use mathlib.Core.Path.{subst}
use data_pipeline_async.Records.{Record, RecordRequest}
use data_pipeline_async.Records.Database.{Database}
use data_pipeline_async.Records.Crud.{
  Result, returned, integrity_error, missing_row, multiple_results, assertion_error, get_record,
  create_record, mark_processed, delete_record,
}
use data_pipeline_async.Records.Crud.Kept.{
  create_record-Keeps, mark_processed-others, delete_record-others, mark_processed-cases,
  delete_record-cases,
}
use data_pipeline_async.Cache.{RecordResponse, cache_key, Redis, Codec, get_cached_record}
use data_pipeline_async.Publish.{SendOutcome}
use data_pipeline_async.Routes.{
  Response, answer, Service, respond, found_or_404, record_answer, Impl, create_record_route,
  create_records_batch_route, settle_read, read_through, get_record_route, invalidated,
  process_record, delete_record_route,
}
use data_pipeline_async.Routes.Coherent.{
  IsFresh, IsCoherent, IsCarriedOut, Keeps-IsCoherent, invalidate-IsCoherent,
  read_through-IsCoherent, batch-IsCoherent, hit-lem,
}

module _ (d : Database) (redis : Redis) (codec : Codec) where
  open d use {Store}
  open redis use {Conn, contents, get, delete}

  -- Requests, one after another, by handlers that insert or invalidate; and the server drops entries.
  pub data Step (v : Service Store Conn) : Service Store Conn → Type 0 where
    reads : (id : ℕ) → Step v (get_record_route d redis codec id v).0
    creates :
        (start end : ℕ) (o : SendOutcome) (body : RecordRequest)
        → Step v (create_record_route d redis codec start end o body v).0
    batches :
        (impl : Impl) (body : List RecordRequest)
        → Step v (create_records_batch_route d redis codec impl body v).0
    processes :
        (id now : ℕ)
        → IsCarriedOut d redis codec id v.client
        → Step v (process_record d redis codec id now v).0
    deletes :
        (id : ℕ)
        → IsCarriedOut d redis codec id v.client
        → Step v (delete_record_route d redis codec id v).0
    drops :
        (c c' : Conn)
        → v.client ≡ some c
        → ((k w : Text) → contents c' k ≡ some w → contents c k ≡ some w)
        → Step v (record v { client = some c' })

  pub data Reach (first : Service Store Conn) : Service Store Conn → Type 0 where
    here : Reach first first
    next : {v w : Service Store Conn} → Reach first v → Step v w → Reach first w

  Step-IsCoherent :
      {v w : Service Store Conn}
      → Step v w
      → IsCoherent d redis codec v.store v.client
      → IsCoherent d redis codec w.store w.client
  unfolding get_record_route create_record_route process_record delete_record_route
  Step-IsCoherent {v} (reads id) h =
      read_through-IsCoherent d redis codec id (get_cached_record redis codec id v.client) v h
  Step-IsCoherent {v} (creates start end o body) h =
      Keeps-IsCoherent d redis codec v.store (create_record d body v.store).0 v.client
        (create_record-Keeps d body v.store) h
  Step-IsCoherent {v} (batches impl body) h = batch-IsCoherent d redis codec impl body v h
  Step-IsCoherent {v} (processes id now done) h = elim (mark_processed-cases d id now v.store) [
    | inl e ↦
        subst (λ p. IsCoherent d redis codec p.0 (invalidated d redis codec id p.1 v.client))
          (sym e) h
    | inr (r, e) ↦
        subst
          (λ o.
            IsCoherent d redis codec (mark_processed d id now v.store).0
              (invalidated d redis codec id o v.client))
          (sym e)
          (invalidate-IsCoherent d redis codec id v.store (mark_processed d id now v.store).0
            v.client done (λ other ne. mark_processed-others d id now other v.store ne) h)
  ]
  Step-IsCoherent {v} (deletes id done) h = elim (delete_record-cases d id v.store) [
    | inl e ↦
        subst (λ p. IsCoherent d redis codec p.0 (invalidated d redis codec id p.1 v.client))
          (sym e) h
    | inr (r, e) ↦
        subst
          (λ o.
            IsCoherent d redis codec (delete_record d id v.store).0
              (invalidated d redis codec id o v.client))
          (sym e)
          (invalidate-IsCoherent d redis codec id v.store (delete_record d id v.store).0 v.client
            done (λ other ne. delete_record-others d id other v.store ne) h)
  ]
  Step-IsCoherent {v} (drops c c' e fewer) h =
      λ id json held. held_before e h id json (fewer (cache_key id) json held)
    where
      held_before :
          {client : Option Conn}
          → client ≡ some c
          → IsCoherent d redis codec v.store client
          → IsFresh d redis codec v.store c
      held_before q k = subst (IsCoherent d redis codec v.store) q k

  Reach-IsCoherent :
      {v w : Service Store Conn}
      → Reach v w
      → IsCoherent d redis codec v.store v.client
      → IsCoherent d redis codec w.store w.client
  Reach-IsCoherent here h = h
  Reach-IsCoherent (next r step) h = Step-IsCoherent step (Reach-IsCoherent r h)

  -- The answer of the database alone.
  abbrev pub from_database : Result (Option Record) → Response RecordResponse
  from_database out = respond out (found_or_404 record_answer)

  settle_read-answer :
      (id : ℕ) (out : Result (Option Record)) (v : Service Store Conn)
      → (settle_read d redis codec id out v).1 ≡ from_database out
  settle_read-answer id (returned (some r)) v = refl
  settle_read-answer id (returned none) v = refl
  settle_read-answer id integrity_error v = refl
  settle_read-answer id missing_row v = refl
  settle_read-answer id multiple_results v = refl
  settle_read-answer id assertion_error v = refl

  read_through-answer :
      (id : ℕ) (cached : Option RecordResponse) (v : Service Store Conn)
      → get_cached_record redis codec id v.client ≡ cached
      → IsCoherent d redis codec v.store v.client
      → (read_through d redis codec id cached v).1 ≡ from_database (get_record d id v.store)
  read_through-answer id (some x) v hit h =
      let (r, found, same) = hit-lem d redis codec id v.store v.client x h hit in
      ap (answer 200) same ∙ ap from_database (sym found)
  read_through-answer id none v miss h = settle_read-answer id (get_record d id v.store) v

  -- From a service whose cache is coherent, as an empty one is, by reads, creations, batches, marks
  -- and deletions whose invalidations Redis carries out, and by expiry of entries, one after the
  -- other, every read answers what the database holds then, through the cache or not.
  pub reads_are_fresh :
      (first v : Service Store Conn) (id : ℕ)
      → IsCoherent d redis codec first.store first.client
      → Reach first v
      → (get_record_route d redis codec id v).1 ≡ from_database (get_record d id v.store)
  unfolding get_record_route
  reads_are_fresh first v id h r =
      read_through-answer id (get_cached_record redis codec id v.client) v refl
        (Reach-IsCoherent r h)
