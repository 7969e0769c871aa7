-- ===== src/Records/Row.antt =====
-- Rows of the records table (ingestor/models.py) and requests (ingestor/schemas.py).
use data_pipeline_async.Base.{
  ℕ, Bool, true, false, ◌&&◌, ◌||◌, Option, none, some, List, [], ◌∷◌, Text, ltb, eqb, leb,
  text_beq,
}

pub record Record : Type 0 where
  pub id : ℕ
  pub source : Text
  pub timestamp : ℕ
  pub raw_data : Text
  pub tags : List Text
  pub processed : Bool
  pub processed_at : Option ℕ
  pub deleted_at : Option ℕ

-- A validated `RecordRequest`.
pub record RecordRequest : Type 0 where
  pub source : Text
  pub timestamp : ℕ
  pub document : Text
  pub tags : List Text

-- The columns of a new row: the request's, and the defaults.
abbrev pub new_record : ℕ → RecordRequest → Record
new_record id r = record {
  id = id;
  source = r.source;
  timestamp = r.timestamp;
  raw_data = r.document;
  tags = r.tags;
  processed = false;
  processed_at = none;
  deleted_at = none;
}

-- `deleted_at IS NULL`
abbrev pub is_active : Record → Bool
is_active r = elim r.deleted_at [ none ↦ true | some _ ↦ false ]

abbrev pub has_id : ℕ → Record → Bool
has_id id r = eqb r.id id

-- The columns of the constraint `uq_records_source_timestamp`.
abbrev pub has_key : Text → ℕ → Record → Bool
has_key source timestamp r = text_beq r.source source && eqb r.timestamp timestamp

-- The orders in which the queries ask for rows.
pub data Order : Type 0 where
  by_id by_id_desc by_timestamp by_timestamp_desc : Order

-- Whether one row may stand before another.
abbrev pub before : Order → Record → Record → Bool
before by_id a b = leb a.id b.id
before by_id_desc a b = leb b.id a.id
before by_timestamp a b =
    ltb a.timestamp b.timestamp || (eqb a.timestamp b.timestamp && leb a.id b.id)
before by_timestamp_desc a b =
    ltb b.timestamp a.timestamp || (eqb a.timestamp b.timestamp && leb b.id a.id)

-- `if source: query.where(Record.source == source)`; the empty string counts as no filter.
abbrev pub source_is : Option Text → Record → Bool
source_is none r = true
source_is (some []) r = true
source_is (some (c ∷ cs)) r = text_beq r.source (c ∷ cs)
