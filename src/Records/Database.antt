-- ===== src/Records/Database.antt =====
-- What ingestor/crud.py relies on of the database: SQL over one table with a primary key `id` and the
-- unique constraint on (source, timestamp) that ingestor/models.py declares.
use data_pipeline_async.Base.{
  ℕ, ◌≤◌, ◌≡◌, Bool, true, false, not, ◌&&◌, ◌||◌, Option, none, some, List, [], ◌∷◌, ◌++◌, length,
  All, keep, count_if, Text, if◌then◌else◌,
}
use data_pipeline_async.Records.Row.{
  Record, RecordRequest, new_record, has_id, has_key, Order, before,
}

-- The first row with a property.
abbrev pub find : (Record → Bool) → List Record → Option Record
find p [] = none
find p (r ∷ rows) = if p r then some r else find p rows

abbrev pub any : (Record → Bool) → List Record → Bool
any p [] = false
any p (r ∷ rows) = p r || any p rows

-- New rows violate the unique constraint: with the table, or among themselves.
abbrev pub conflicts : List RecordRequest → List Record → Bool
conflicts [] rows = false
conflicts (r ∷ requests) rows =
    any (has_key r.source r.timestamp) rows || conflicts requests (new_record 0 r ∷ rows)

abbrev pub new_records : List ℕ → List RecordRequest → List Record
new_records (id ∷ ids) (r ∷ requests) = new_record id r ∷ new_records ids requests
new_records _ _ = []

-- `UPDATE … WHERE id = r.id`
abbrev pub replace : Record → List Record → List Record
replace r [] = []
replace r (x ∷ rows) = (if has_id r.id x then r else x) ∷ replace r rows

-- Another row holds the constrained columns of `r`.
abbrev pub clashes : Record → List Record → Bool
clashes r = any (λ x. not (has_id r.id x) && has_key r.source r.timestamp x)

abbrev pub HasDistinctIds : List Record → Type 0
HasDistinctIds rows = (id : ℕ) → count_if (has_id id) rows ≤ 1

abbrev pub HasDistinctKeys : List Record → Type 0
HasDistinctKeys rows =
    (source : Text) (timestamp : ℕ) → count_if (has_key source timestamp) rows ≤ 1

abbrev pub IsSorted : Order → List Record → Type 0
IsSorted o [] = Unit
IsSorted o (r ∷ rows) = All (λ x. before o r x ≡ true) rows × IsSorted o rows

pub record Database : Type 1 where
  pub Store : Type 0
  pub rows : Store → List Record
  -- One INSERT of all the rows, in one transaction; `none` is an `IntegrityError`, rolled back.
  pub insert : List RecordRequest → Store → Store × Option (List Record)
  -- One UPDATE of a row by its id; `false` is an `IntegrityError`, rolled back.
  pub update : Record → Store → Store × Bool
  pub delete : ℕ → Store → Store
  pub order_by : Order → List Record → List Record
  -- The primary key.
  pub distinct : (s : Store) → HasDistinctIds (rows s)
  -- The unique constraint.
  pub distinct_keys : (s : Store) → HasDistinctKeys (rows s)
  -- The ids that an INSERT takes from the sequence.
  pub next_ids : List RecordRequest → Store → List ℕ
  pub insert_rejects :
      (requests : List RecordRequest) (s : Store)
      → conflicts requests (rows s) ≡ true
      → ((insert requests s).1 ≡ none) × (rows (insert requests s).0 ≡ rows s)
  pub insert_adds :
      (requests : List RecordRequest) (s : Store)
      → conflicts requests (rows s) ≡ false
      → let new = new_records (next_ids requests s) requests in
        ((insert requests s).1 ≡ some new) × (rows (insert requests s).0 ≡ rows s ++ new)
  pub one_id_each :
      (requests : List RecordRequest) (s : Store) → length (next_ids requests s) ≡ length requests
  pub update_rejects :
      (r : Record) (s : Store)
      → clashes r (rows s) ≡ true
      → ((update r s).1 ≡ false) × (rows (update r s).0 ≡ rows s)
  pub update_replaces :
      (r : Record) (s : Store)
      → clashes r (rows s) ≡ false
      → ((update r s).1 ≡ true) × (rows (update r s).0 ≡ replace r (rows s))
  pub delete_removes :
      (id : ℕ) (s : Store) → rows (delete id s) ≡ keep (λ r. not (has_id id r)) (rows s)
  -- ORDER BY neither drops nor doubles a row, and sorts.
  pub order_by_counts :
      (o : Order) (xs : List Record) (p : Record → Bool)
      → count_if p (order_by o xs) ≡ count_if p xs
  pub order_by_sorts : (o : Order) (xs : List Record) → IsSorted o (order_by o xs)
