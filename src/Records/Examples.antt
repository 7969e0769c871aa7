-- ===== src/Records/Examples.antt =====
-- The operations of ingestor/crud.py on a database in memory.
use data_pipeline_async.Base.{
  ℕ, ◌≡◌, refl, Bool, false, none, some, List, [], ◌∷◌, count_if, Text, arith,
}
use data_pipeline_async.Records.Row.{Record, RecordRequest, by_id, by_timestamp}
use data_pipeline_async.Records.Database.{IsSorted}
use data_pipeline_async.Records.Memory.{Memory, memory}
use data_pipeline_async.Records.Memory.Tables.{IsTable}
use data_pipeline_async.Records.Memory.Sorting.{sort}
use data_pipeline_async.Records.Crud.{assertion_error, UpdateRecordRequest, upsert_record}
use data_pipeline_async.Records.Crud.Upsert.{upsert_deleted_asserts}
use data_pipeline_async.Records.Listing.{matching, get_records}
use data_pipeline_async.Records.Listing.Pages.{pages, pages_cover}
use data_pipeline_async.Records.Listing.Cursor.{traverse, cursors_visit_all}

abbrev sensor : Text
sensor = b's' ∷ []

abbrev first : Record
first = record {
  id = 1;
  source = sensor;
  timestamp = 40;
  raw_data = [];
  tags = [];
  processed = false;
  processed_at = none;
  deleted_at = none;
}

abbrev second : Record
second = record first { id = 2; timestamp = 30; deleted_at = some 35 }

abbrev third : Record
third = record first { id = 3; timestamp = 20 }

three-IsTable : IsTable (first ∷ second ∷ third ∷ []) 4
three-IsTable = record {
  ids = λ id. ground arith;
  keys = λ source timestamp. ground arith;
  bounded = omega arith;
}

abbrev three : Memory
three = record { table = first ∷ second ∷ third ∷ []; next = 4; valid = three-IsTable }

abbrev retime : UpdateRecordRequest
retime = record { source = none; timestamp = some 25; document = none; tags = none }

abbrev request : ℕ → RecordRequest
request t = record { source = sensor; timestamp = t; document = []; tags = [] }

upsert_deleted_asserts_example : (upsert_record memory (request 30) three).1 ≡ assertion_error
upsert_deleted_asserts_example = upsert_deleted_asserts memory (request 30) three second refl refl

pages_cover_example : pages memory 2 0 1 none three ≡ sort by_id (first ∷ third ∷ [])
unfolding get_records
pages_cover_example = pages_cover memory 2 1 none three (omega arith)

cursors_visit_all_example :
    (found : List Record) × (traverse memory 1 none three 3 none ≡ some found)
    × ((q : Record → Bool) → count_if q found ≡ count_if q (matching memory none three))
    × IsSorted by_timestamp found
cursors_visit_all_example = cursors_visit_all memory 1 none three 3 (omega arith) (omega arith)
