-- ===== src/Records/Listing.antt =====
-- The queries of ingestor/crud.py that list records. WHERE is a filter of the rows, ORDER BY is the
-- database's, OFFSET and LIMIT are `drop` and `take`.
pub mod Pages
mod Counting
pub mod Cursor
use data_pipeline_async.Base.{
  ℕ, ◌+◌, ◌≤◌, Bool, true, false, ◌&&◌, ◌||◌, Option, none, some, List, [], ◌∷◌, length, take, drop,
  keep, map, ltb, leb, eqb, Text, if◌then◌else◌,
}
use data_pipeline_async.Records.Row.{
  Record, is_active, has_id, Order, by_id, by_id_desc, by_timestamp, by_timestamp_desc, source_is,
}
use data_pipeline_async.Records.Database.{Database, find}

-- A row of the tag listing: the dict with `id`, `source`, `timestamp` and `tag_count`.
pub record TagCount : Type 0 where
  pub id : ℕ
  pub source : Text
  pub timestamp : ℕ
  pub tag_count : ℕ

-- The columns of the single query.
pub record TagColumns : Type 0 where
  pub id : ℕ
  pub source : Text
  pub timestamp : ℕ
  pub tags : List Text

-- A decoded cursor: the id, and the timestamp if the cursor has one.
abbrev pub Position : Type 0
Position = ℕ × Option ℕ

-- `(timestamp > last_timestamp) | ((timestamp == last_timestamp) & (id > last_id))`; a comparison
-- with NULL is not true.
abbrev pub is_after : Option Position → Record → Bool
is_after none r = true
is_after (some (id, none)) r = false
is_after (some (id, some t)) r = ltb t r.timestamp || (eqb r.timestamp t && ltb id r.id)

abbrev pub last_of : List Record → Option Record
last_of [] = none
last_of (r ∷ []) = some r
last_of (r ∷ x ∷ rs) = last_of (x ∷ rs)

abbrev pub position_of : Record → Position
position_of r = (r.id, some r.timestamp)

module _ (d : Database) where
  open d use {Store, rows, order_by}

  -- The active rows of a source.
  abbrev pub matching : Option Text → Store → List Record
  matching source s = keep (λ r. is_active r && source_is source r) (rows s)

  unfoldable pub get_records : ℕ → ℕ → Option Text → Store → List Record × ℕ
  get_records skip limit source s =
      (take limit (drop skip (order_by by_id (matching source s))), length (matching source s))

  -- `get_records_cursor_paginated`, on the decoded cursor and with the next one before its encoding:
  -- the page, the next cursor, and `has_more`.
  pub cursor_page : Option Position → ℕ → Option Text → Store → List Record × Option Position × Bool
  cursor_page cursor limit source s =
      let found = take (limit + 1) (
        order_by by_timestamp
          (keep (λ r. is_active r && (is_after cursor r && source_is source r)) (rows s))) in
      let has_more = ltb limit (length found) in
      let records = take limit found in
      (
        records,
        (if has_more
            then (elim (last_of records) [ none ↦ none | some r ↦ some (position_of r) ])
            else none),
        has_more,
      )

  pub get_records_by_date_range : ℕ → ℕ → Option Text → Store → List Record
  get_records_by_date_range start end source s = order_by by_timestamp_desc (
      keep
        (λ r. is_active r && (leb start r.timestamp && (ltb r.timestamp end && source_is source r)))
        (rows s))

  abbrev pub newest : ℕ → Store → List Record
  newest limit s = take limit (order_by by_id_desc (keep is_active (rows s)))

  -- The loop over the fetched records; `len(tags) if tags else 0` is the length.
  abbrev pub count_each : List Record → List TagCount
  count_each [] = []
  count_each (r ∷ rs) =
      record { id = r.id; source = r.source; timestamp = r.timestamp; tag_count = length r.tags }
      ∷ count_each rs

  pub tag_counts_naive : ℕ → Store → List TagCount
  tag_counts_naive limit s = count_each (newest limit s)

  abbrev pub columns : Record → TagColumns
  columns r = record { id = r.id; source = r.source; timestamp = r.timestamp; tags = r.tags }

  abbrev pub count_columns : TagColumns → TagCount
  count_columns c = record {
    id = c.id;
    source = c.source;
    timestamp = c.timestamp;
    tag_count = length c.tags;
  }

  -- The single query of four columns, and the list comprehension on its rows.
  pub tag_counts : ℕ → Store → List TagCount
  tag_counts limit s = map count_columns (map columns (newest limit s))
