-- ===== src/RoutesV2/Upserts.antt =====
-- `upsert_record_endpoint` of ingestor/routers/records_v2.py in its two modes.
use data_pipeline_async.Base.{
  ℕ, text_beq_iff, eqb_iff, ◌≡◌, refl, ap, ◌∙◌, true, false, some, List, [], ◌∷◌, ◌++◌, arith,
}
use data_pipeline_async.Records.{Record, RecordRequest, new_record, has_key}
use data_pipeline_async.Records.Database.{Database, find, any}
use data_pipeline_async.Records.Crud.{upsert_record}
use data_pipeline_async.Records.Crud.Upsert.{upsert_creates, upsert_finds_active}
use data_pipeline_async.Cache.{response_of}
use data_pipeline_async.Routes.{Response, answer, http_error, respond}
use data_pipeline_async.RoutesV2.{
  Mode, idempotent, strict, UpsertResponse, upsert_answer, upsert_record_endpoint,
}

module _ (d : Database) where
  open d use {Store, rows}

  created_first :
      (payload : RecordRequest) (mode : Mode) (s : Store)
      → any (has_key payload.source payload.timestamp) (rows s) ≡ false
      → let (s', out) = upsert_record_endpoint d payload mode s in
        (id : ℕ) × (out
          ≡ answer 201 (record {
            stored = response_of (new_record id payload);
            created = true;
            mode = mode;
          }))
        × (rows s' ≡ rows s ++ new_record id payload ∷ [])
  unfolding upsert_record_endpoint
  created_first payload mode s free =
      let (id, out, table) = upsert_creates d payload s free in
      (id, ap (λ o. respond o (upsert_answer d mode)) out, table)

  -- What an answer to the second of two upserts is.
  abbrev pub repeated : Mode → Record → Response UpsertResponse
  repeated idempotent r =
      answer 200 (record { stored = response_of r; created = false; mode = idempotent })
  repeated strict r = http_error 409

  -- The first upsert of a key that the table lacks answers 201 and stores the record; a second one
  -- of the key, with whatever other fields, answers 200 with that record, or 409 in strict mode, and
  -- the table stays as it is.
  pub upsert_twice :
      (first second : RecordRequest) (mode mode' : Mode) (s : Store)
      → any (has_key first.source first.timestamp) (rows s) ≡ false
      → second.source ≡ first.source
      → second.timestamp ≡ first.timestamp
      → let (s', out) = upsert_record_endpoint d first mode s in
        let (s'', out') = upsert_record_endpoint d second mode' s' in
        (id : ℕ) × (out
          ≡ answer 201
              (record { stored = response_of (new_record id first); created = true; mode = mode }))
        × (rows s' ≡ rows s ++ new_record id first ∷ [])
        × (out' ≡ repeated mode' (new_record id first))
        × (rows s'' ≡ rows s')
  unfolding upsert_record_endpoint
  upsert_twice first second mode mode' s free source timestamp =
      let (id, out, table) = created_first first mode s free in
      let (again, same) =
        upsert_finds_active d second (upsert_record d first s).0 (new_record id first)
          (ap (find (has_key second.source second.timestamp)) table
            ∙ ap (λ k. find (has_key k second.timestamp) (rows s ++ new_record id first ∷ []))
                source
            ∙ ap (λ k. find (has_key first.source k) (rows s ++ new_record id first ∷ [])) timestamp
            ∙ find_stored id (rows s) free)
          refl in
      (
        id,
        out,
        table,
        ap (λ o. respond o (upsert_answer d mode')) again ∙ repeats mode' (new_record id first),
        same,
      )
    where
      has_key_same : has_key first.source first.timestamp (new_record 0 first) ≡ true
      has_key_same =
          ground
            (arith, text_beq_iff first.source first.source, eqb_iff first.timestamp first.timestamp)

      find_stored :
          (id : ℕ) (rs : List Record)
          → any (has_key first.source first.timestamp) rs ≡ false
          → find (has_key first.source first.timestamp) (rs ++ new_record id first ∷ [])
            ≡ some (new_record id first)
      find_stored id [] h = rw has_key_same refl
      find_stored id (r ∷ rs) h = ground (arith, h, find_stored id rs)

      repeats : (m : Mode) (r : Record) → upsert_answer d m (r, false) ≡ repeated m r
      repeats idempotent r = refl
      repeats strict r = refl
