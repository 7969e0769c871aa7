-- ===== src/Routes/Stale.antt =====
-- The handlers of ingestor/routers/records.py that change a record and leave its cache entry.
use data_pipeline_async.Base.{ℕ, ◌≡◌, ap, ◌∙◌, true, false, Option, none, some}
use data_pipeline_async.Records.{Record, is_active, has_id}
use data_pipeline_async.Records.Database.{Database, find, clashes}
use data_pipeline_async.Records.Crud.{
  returned, UpdateRecordRequest, update_fields, update_record, soft_delete_record,
}
use data_pipeline_async.Records.Crud.Single.{update_record_lem, soft_delete_hides}
use data_pipeline_async.Cache.{
  response_of, cache_key, replied, Redis, Codec, get_cached_record, decoded,
}
use data_pipeline_async.Routes.{
  answer, Service, respond, found_or_404, record_answer, read_through, get_record_route,
  update_record_endpoint, archive_record,
}

module _ (d : Database) (redis : Redis) (codec : Codec) where
  open d use {Store, rows}
  open redis use {Conn, get}

  -- Redis answers with the JSON of the row.
  abbrev pub IsCached : Record → Option Conn → Type 0
  IsCached r none = ⊥
  IsCached r (some c) = get (cache_key r.id) c ≡ replied (some (codec.dump_json (response_of r)))

  cached_read :
      (r : Record) (v : Service Store Conn)
      → IsCached r v.client
      → (get_record_route d redis codec r.id v).1 ≡ answer 200 (response_of r)
  unfolding get_record_route get_cached_record
  cached_read r v held = ap (λ o. (read_through d redis codec r.id o v).1) (hit v.client held)
    where
      hit :
          (client : Option Conn)
          → IsCached r client
          → get_cached_record redis codec r.id client ≡ some (response_of r)
      hit none h = absurd h
      hit (some c) h = ap (decoded redis codec) h ∙ codec.dump_validates (response_of r)

  -- While a record is cached, a successful update of it is answered with the new fields and a
  -- successful archiving with the time of deletion; a read that follows still answers, with 200, the
  -- record as it was before, though the update changed it or the archiving hid it.
  pub changes_leave_cache :
      (r : Record) (body : UpdateRecordRequest) (now : ℕ) (v : Service Store Conn)
      → find (has_id r.id) (rows v.store) ≡ some r
      → is_active r ≡ true
      → clashes (update_fields body r) (rows v.store) ≡ false
      → IsCached r v.client
      → let (updated, out) = update_record_endpoint d redis codec r.id body v in
        let (archived, out') = archive_record d redis codec r.id now v in
        (out ≡ answer 200 (response_of (update_fields body r)))
        × ((get_record_route d redis codec r.id updated).1 ≡ answer 200 (response_of r))
        × (out' ≡ answer 200 (response_of (record r { deleted_at = some now })))
        × ((get_record_route d redis codec r.id archived).1 ≡ answer 200 (response_of r))
  unfolding update_record_endpoint archive_record
  changes_leave_cache r body now v stored active free held = (
    ap (λ o. respond o (found_or_404 record_answer)) updated,
    cached_read r (record v { store = (update_record d r.id body v.store).0 }) held,
    ap (λ o. respond o (found_or_404 record_answer))
        (soft_delete_hides d now now v.store r stored active).0,
    cached_read r (record v { store = (soft_delete_record d r.id now v.store).0 }) held,
  )
    where
      updated : (update_record d r.id body v.store).1 ≡ returned (some (update_fields body r))
      updated = (rw free at (update_record_lem d body v.store r stored)).0
