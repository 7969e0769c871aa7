-- ===== src/Routes/Examples.antt =====
-- Witnesses of the record routes, on a database and a cache in memory.
use data_pipeline_async.Base.{
  Text, ◌+◌, ◌*◌, ◌||◌, text_key, ◌==◌, leb, if◌then◌else◌, ℕ, ◌-◌, min, ◌≡◌, refl, false, Option,
  none, some, [], ◌∷◌, length, ltb, arith,
}
use data_pipeline_async.Records.{Record, RecordRequest}
use data_pipeline_async.Records.Memory.{Memory, memory}
use data_pipeline_async.Records.Memory.Tables.{IsTable}
use data_pipeline_async.Records.Crud.{UpdateRecordRequest, update_fields, get_record, create_record}
use data_pipeline_async.Cache.{response_of, cache_key}
use data_pipeline_async.Cache.InMemory.{memory_redis, memory_codec}
use data_pipeline_async.Publish.{kafka_error, new_producer}
use data_pipeline_async.Routes.{
  answer, http_error, delete_record_route, Service, respond, create_record_route, list_records,
  get_record_route, update_record_endpoint, process_record, archive_record,
}
use data_pipeline_async.Auth.{writer, admin}
use data_pipeline_async.Auth.InMemory.{lower, settings}
use data_pipeline_async.Routes.Secured.{
  login_session, archive_record_secured, delete_record_secured,
}
use data_pipeline_async.Routes.Secured.Rights.{login_decides_rights}
use data_pipeline_async.Routes.Coherent.{IsCarriedOut}
use data_pipeline_async.Routes.Fresh.{
  reads, creates, processes, Reach, here, next, from_database, reads_are_fresh,
}
use data_pipeline_async.Routes.Stale.{changes_leave_cache}
use data_pipeline_async.Routes.Listing.{listed, has_more_tells_next_page, creation_fails_open}

abbrev first : Record
first = record {
  id = 1;
  source = b's' ∷ [];
  timestamp = 40;
  raw_data = [];
  tags = [];
  processed = false;
  processed_at = none;
  deleted_at = none;
}

one-IsTable : IsTable (first ∷ []) 2
one-IsTable = record {
  ids = λ id. ground arith;
  keys = λ source timestamp. ground arith;
  bounded = omega arith;
}

abbrev one : Memory
one = record { table = first ∷ []; next = 2; valid = one-IsTable }

abbrev service : Service Memory memory_redis.Conn
service = record { store = one; client = some []; producer = new_producer 10 }

abbrev request : RecordRequest
request = record { source = b't' ∷ []; timestamp = 50; document = []; tags = [] }

-- A creation, a read that fills the cache, and a mark.
abbrev marked : Service Memory memory_redis.Conn
marked =
    let created =
      (create_record_route memory memory_redis memory_codec 1 2 kafka_error request service).0 in
    let cached = (get_record_route memory memory_redis memory_codec 1 created).0 in
    (process_record memory memory_redis memory_codec 1 60 cached).0

carried_out :
    (id : ℕ) (client : Option memory_redis.Conn)
    → IsCarriedOut memory memory_redis memory_codec id client
carried_out id none = tt
carried_out id (some c) = refl

run : Reach memory memory_redis memory_codec service marked
run =
    let created =
      (create_record_route memory memory_redis memory_codec 1 2 kafka_error request service).0 in
    let cached = (get_record_route memory memory_redis memory_codec 1 created).0 in
    next (next (next here (creates 1 2 kafka_error request)) (reads 1))
      (processes 1 60 (carried_out 1 cached.client))

reads_are_fresh_example :
    (get_record_route memory memory_redis memory_codec 1 marked).1
    ≡ from_database memory memory_redis memory_codec (get_record memory 1 marked.store)
reads_are_fresh_example =
    reads_are_fresh memory memory_redis memory_codec service marked 1
      (λ id json held. absurd (ground (arith, held))) run

abbrev warm : Service Memory memory_redis.Conn
warm = record service {
  client = some ((cache_key 1, memory_codec.dump_json (response_of first)) ∷ []);
}

abbrev retag : UpdateRecordRequest
retag = record { source = none; timestamp = none; document = none; tags = some ((b'a' ∷ []) ∷ []) }

changes_leave_cache_example :
    let (updated, out) = update_record_endpoint memory memory_redis memory_codec 1 retag warm in
    let (archived, out') = archive_record memory memory_redis memory_codec 1 70 warm in
    (out ≡ answer 200 (response_of (update_fields retag first)))
    × ((get_record_route memory memory_redis memory_codec 1 updated).1
        ≡ answer 200 (response_of first))
    × (out' ≡ answer 200 (response_of (record first { deleted_at = some 70 })))
    × ((get_record_route memory memory_redis memory_codec 1 archived).1
        ≡ answer 200 (response_of first))
changes_leave_cache_example =
    changes_leave_cache memory memory_redis memory_codec first retag 70 warm refl refl refl refl

has_more_tells_next_page_example :
    let page = listed memory memory_redis memory_codec 0 1 none service in
    let next = listed memory memory_redis memory_codec 1 1 none service in
    (list_records memory memory_redis memory_codec 0 1 none service ≡ answer 200 page)
    × (list_records memory memory_redis memory_codec 1 1 none service ≡ answer 200 next)
    × (length page.records ≡ min 1 (page.total - 0))
    × (page.has_more ≡ ltb 0 (length next.records))
has_more_tells_next_page_example =
    has_more_tells_next_page memory memory_redis memory_codec 0 1 none service (omega arith)
      (omega arith)

creation_fails_open_example :
    let (w, out) =
      create_record_route memory memory_redis memory_codec 1 2 kafka_error request service in
    let (s, r) = create_record memory request one in
    (out ≡ respond r (λ x. answer 201 (response_of x)))
    × (w.store ≡ s)
    × (w.client ≡ service.client)
creation_fails_open_example =
    creation_fails_open memory memory_redis memory_codec 1 2 kafka_error request service
      (λ e. ground (arith, e))

abbrev cookie : Text
cookie = b'1' ∷ []

login_decides_rights_example :
    let (held, _) = login_session lower settings 1 100 cookie [] (b'u' ∷ []) writer [] in
    let end = 100 + settings.token_expiry_hours * (3600 * 1) in
    ((archive_record_secured lower memory memory_redis memory_codec 500 (some cookie) 1 held warm).1
      ≡ (if leb 500 end
          then (if (writer == writer) || (writer == admin)
              then archive_record memory memory_redis memory_codec 1 500 warm
              else (warm, http_error 403))
          else (warm, http_error 401)))
    × ((delete_record_secured lower memory memory_redis memory_codec 500
          (some cookie)
          1
          held
          warm).1
        ≡ (if leb 500 end
            then (if writer == admin
                then delete_record_route memory memory_redis memory_codec 1 warm
                else (warm, http_error 403))
            else (warm, http_error 401)))
login_decides_rights_example =
    login_decides_rights lower refl refl memory memory_redis memory_codec settings 1 100 500 1 b'1'
      [] [] (b'u' ∷ []) writer [] warm refl refl (λ e. ground (arith, e))
