-- ===== src/Routes/Coherent.antt =====
-- A cache of ingestor/routers/records.py that holds what the database answers, and what each
-- handler keeps of that.
use data_pipeline_async.Base.{
  ℕ, ◌≡◌, ◌≢◌, inl, inr, refl, sym, ap, ◌∙◌, true, Option, none, some, List, eqb, eqb_iff,
  Bool-cases, Text, length, leb, ◌&&◌, if-split, arith,
}
use mathlib.Core.Option.{some-injective}
use data_pipeline_async.Records.{Record, RecordRequest}
use data_pipeline_async.Records.Database.{Database}
use data_pipeline_async.Records.Crud.{
  Result, returned, integrity_error, missing_row, multiple_results, assertion_error, get_record,
}
use data_pipeline_async.Records.Crud.Kept.{create_records_batch-Keeps, naive-Keeps}
use data_pipeline_async.Cache.{
  RecordResponse, response_of, cache_key, Reply, replied, failed, Redis, Codec, decoded,
  get_cached_record, set_cached_record, invalidate_record, cache_ttl_record,
}
use data_pipeline_async.Cache.Keys.{cache_key_injective}
use data_pipeline_async.Routes.{
  Response, Service, BatchCreated, max_batch_size, impl_fn, Impl, optimized, naive,
  create_records_batch_route, settle_read, read_through,
}

module _ (d : Database) (redis : Redis) (codec : Codec) where
  open d use {Store}
  open redis use {Conn, contents, get, delete}

  -- Whatever the server holds under a record's key is the JSON of what a lookup answers.
  abbrev pub IsFresh : Store → Conn → Type 0
  IsFresh s c =
      (id : ℕ) (json : Text)
      → contents c (cache_key id) ≡ some json
      → (r : Record) × (get_record d id s ≡ returned (some r))
        × (json ≡ codec.dump_json (response_of r))

  abbrev pub IsCoherent : Store → Option Conn → Type 0
  IsCoherent s none = Unit
  IsCoherent s (some c) = IsFresh s c

  -- The invalidation of a key is carried out, where there is a client.
  abbrev pub IsCarriedOut : ℕ → Option Conn → Type 0
  IsCarriedOut id none = Unit
  IsCarriedOut id (some c) = (delete (cache_key id) c).1 ≡ true

  abbrev Keeps : Store → Store → Type 0
  Keeps s s' =
      (id : ℕ) (r : Record)
      → get_record d id s ≡ returned (some r)
      → get_record d id s' ≡ returned (some r)

  pub Keeps-IsCoherent :
      (s s' : Store) (client : Option Conn)
      → Keeps s s'
      → IsCoherent s client
      → IsCoherent s' client
  Keeps-IsCoherent s s' none keeps h = tt
  Keeps-IsCoherent s s' (some c) keeps h =
      λ id json held. let (r, found, same) = h id json held in (r, keeps id r found, same)

  -- A changed record that is invalidated, the others being as before.
  pub invalidate-IsCoherent :
      (id : ℕ) (s s' : Store) (client : Option Conn)
      → IsCarriedOut id client
      → ((other : ℕ) → id ≢ other → get_record d other s' ≡ get_record d other s)
      → IsCoherent s client
      → IsCoherent s' (invalidate_record redis codec id client)
  unfolding invalidate_record
  invalidate-IsCoherent id s s' none done others h = tt
  invalidate-IsCoherent id s s' (some c) done others h = λ other json held.
      elim (Bool-cases (eqb id other)) [
        | inl same ↦ absurd (
            ground (
              arith,
              held,
              redis.delete_removes (cache_key id) c done,
              ap (λ i. contents (delete (cache_key id) c).0 (cache_key i))
                  ((eqb_iff id other).0 same),
            ))
        | inr differ ↦
            let (r, found, text) =
              h other json (redis.delete_keeps (cache_key id) c (cache_key other) json held) in
            (r, others other (λ e. ground (arith, differ, (eqb_iff id other).1 e)) ∙ found, text)
      ]

  -- A record that a lookup answers is cached.
  set-IsCoherent :
      (id : ℕ) (s : Store) (r : Record) (client : Option Conn)
      → get_record d id s ≡ returned (some r)
      → IsCoherent s client
      → IsCoherent s (set_cached_record redis codec id (response_of r) client)
  unfolding set_cached_record
  set-IsCoherent id s r none found h = tt
  set-IsCoherent id s r (some c) found h = λ other json held.
      elim (redis.setex_keeps (cache_key id) (codec.dump_json (response_of r)) cache_ttl_record c
        (cache_key other) json held) [
          | inl old ↦ h other json old
          | inr (same, text) ↦ (
            r,
            ap (λ i. get_record d i s) (sym (cache_key_injective id other same)) ∙ found,
            sym text,
          )
        ]

  settle_read-IsCoherent :
      (id : ℕ) (out : Result (Option Record)) (v : Service Store Conn)
      → get_record d id v.store ≡ out
      → IsCoherent v.store v.client
      → let w = (settle_read d redis codec id out v).0 in IsCoherent w.store w.client
  settle_read-IsCoherent id (returned (some r)) v e h = set-IsCoherent id v.store r v.client e h
  settle_read-IsCoherent id (returned none) v e h = h
  settle_read-IsCoherent id integrity_error v e h = h
  settle_read-IsCoherent id missing_row v e h = h
  settle_read-IsCoherent id multiple_results v e h = h
  settle_read-IsCoherent id assertion_error v e h = h

  pub read_through-IsCoherent :
      (id : ℕ) (cached : Option RecordResponse) (v : Service Store Conn)
      → IsCoherent v.store v.client
      → let w = (read_through d redis codec id cached v).0 in IsCoherent w.store w.client
  read_through-IsCoherent id (some x) v h = h
  read_through-IsCoherent id none v h = settle_read-IsCoherent id (get_record d id v.store) v refl h

  pub batch-IsCoherent :
      (impl : Impl) (body : List RecordRequest) (v : Service Store Conn)
      → IsCoherent v.store v.client
      → let w = (create_records_batch_route d redis codec impl body v).0 in
        IsCoherent w.store w.client
  unfolding create_records_batch_route
  batch-IsCoherent impl body v h =
      if-split {A = Service Store Conn × Response BatchCreated}
        (λ x. IsCoherent x.0.store x.0.client)
        (leb 1 (length body) && leb (length body) max_batch_size)
        (λ _.
          Keeps-IsCoherent v.store (impl_fn d redis codec impl body v.store).0 v.client
            (impl-Keeps impl) h)
        (λ _. h)
    where
      impl-Keeps : (i : Impl) → Keeps v.store (impl_fn d redis codec i body v.store).0
      impl-Keeps optimized = create_records_batch-Keeps d body v.store
      impl-Keeps naive = naive-Keeps d body v.store

  decoded-lem :
      (id : ℕ) (s : Store) (c : Conn) (x : RecordResponse) (reply : Reply (Option Text))
      → get (cache_key id) c ≡ reply
      → IsFresh s c
      → decoded redis codec reply ≡ some x
      → (r : Record) × (get_record d id s ≡ returned (some r)) × (x ≡ response_of r)
  decoded-lem id s c x failed e h hit = absurd (ground (arith, hit))
  decoded-lem id s c x (replied none) e h hit = absurd (ground (arith, hit))
  decoded-lem id s c x (replied (some json)) e h hit =
      let (r, found, same) = h id json (redis.get_reads (cache_key id) json c e) in
      (
        r,
        found,
        some-injective x (response_of r)
            (sym hit ∙ ap codec.validate_json same ∙ codec.dump_validates (response_of r)),
      )

  -- A hit is the answer of a lookup.
  pub hit-lem :
      (id : ℕ) (s : Store) (client : Option Conn) (x : RecordResponse)
      → IsCoherent s client
      → get_cached_record redis codec id client ≡ some x
      → (r : Record) × (get_record d id s ≡ returned (some r)) × (x ≡ response_of r)
  unfolding get_cached_record
  hit-lem id s none x h hit = absurd (ground (arith, hit))
  hit-lem id s (some c) x h hit = decoded-lem id s c x (get (cache_key id) c) refl h hit
