-- ===== src/Records/Crud.antt =====
-- The operations of ingestor/crud.py on single records. An operation takes the database's store and
-- returns the new store and how it ended; `now` is what `_utcnow()` answers.
pub mod Single
pub mod Upsert
pub mod Kept
use data_pipeline_async.Base.{
  ℕ, Bool, true, false, ◌&&◌, Option, none, some, List, [], ◌∷◌, Text, keep, if◌then◌else◌,
}
use data_pipeline_async.Records.Row.{Record, RecordRequest, is_active, has_id, has_key}
use data_pipeline_async.Records.Database.{Database, find}

-- How an operation ends: by a value, or by an exception.
pub data Result (A : Type 0) : Type 0 where
  returned : A → Result A
  integrity_error : Result A  -- the unique constraint
  missing_row : Result A  -- `session.refresh` of a row that is gone
  multiple_results : Result A  -- `scalar_one_or_none` of more than one row
  assertion_error : Result A

infixl 5 ◌>>=◌
abbrev pub ◌>>=◌ : {A B : Type 0} → Result A → (A → Result B) → Result B
returned a >>= f = f a
integrity_error >>= f = integrity_error
missing_row >>= f = missing_row
multiple_results >>= f = multiple_results
assertion_error >>= f = assertion_error

-- `result.scalar_one_or_none()`
abbrev pub scalar_one_or_none : List Record → Result (Option Record)
scalar_one_or_none [] = returned none
scalar_one_or_none (r ∷ []) = returned (some r)
scalar_one_or_none _ = multiple_results

-- An `UpdateRecordRequest`: the fields that are not None.
pub record UpdateRecordRequest : Type 0 where
  pub source : Option Text
  pub timestamp : Option ℕ
  pub document : Option Text
  pub tags : Option (List Text)

abbrev pub or_else {ℓ} : {A : Type ℓ} → Option A → A → A
or_else none a = a
or_else (some b) a = b

abbrev pub update_fields : UpdateRecordRequest → Record → Record
update_fields u r = record r {
  source = or_else u.source r.source;
  timestamp = or_else u.timestamp r.timestamp;
  raw_data = or_else u.document r.raw_data;
  tags = or_else u.tags r.tags;
}

module _ (d : Database) where
  open d use {Store, rows, insert, update, delete}

  -- `session.refresh(record)`
  abbrev pub refresh : Store → Record → Result Record
  refresh s r = elim (find (has_id r.id) (rows s)) [ none ↦ missing_row | some x ↦ returned x ]

  abbrev pub refresh_all : Store → List Record → Result (List Record)
  refresh_all s [] = returned []
  refresh_all s (r ∷ rs) = do x ← refresh s r; xs ← refresh_all s rs; returned (x ∷ xs)

  -- `session.add(record)`, commit and refresh, of one new row.
  abbrev pub refresh_new : Store × Option (List Record) → Store × Result Record
  refresh_new (s, none) = (s, integrity_error)
  refresh_new (s, some []) = (s, missing_row)
  refresh_new (s, some (r ∷ _)) = (s, refresh s r)

  pub create_record : RecordRequest → Store → Store × Result Record
  create_record request s = refresh_new (insert (request ∷ []) s)

  abbrev pub inserted : Store × Option (List Record) → Store × Result (List Record)
  inserted (s, none) = (s, integrity_error)
  inserted (s, some new) = (s, returned new)

  -- One INSERT … RETURNING.
  pub create_records_batch : List RecordRequest → Store → Store × Result (List Record)
  create_records_batch [] s = (s, returned [])
  create_records_batch (r ∷ requests) s = inserted (insert (r ∷ requests) s)

  abbrev pub refresh_each : Store × Option (List Record) → Store × Result (List Record)
  refresh_each (s, none) = (s, integrity_error)
  refresh_each (s, some new) = (s, refresh_all s new)

  -- `add_all`, one commit, and a refresh for each row.
  pub create_records_batch_naive : List RecordRequest → Store → Store × Result (List Record)
  create_records_batch_naive [] s = (s, returned [])
  create_records_batch_naive (r ∷ requests) s = refresh_each (insert (r ∷ requests) s)

  pub get_record : ℕ → Store → Result (Option Record)
  get_record id s = scalar_one_or_none (keep (λ r. has_id id r && is_active r) (rows s))

  -- Commit of a changed row, and its refresh.
  abbrev pub save : Record → Store → Store × Result (Option Record)
  save r s =
      let (s', done) = update r s in
      (s', if done then (refresh s' r >>= λ x. returned (some x)) else integrity_error)

  -- `session.get(Record, record_id)`, and what is done with the row; None if there is none.
  abbrev pub with_record :
      ℕ → Store → (Record → Store × Result (Option Record)) → Store × Result (Option Record)
  with_record id s k = elim (find (has_id id) (rows s)) [ none ↦ (s, returned none) | some r ↦ k r ]

  pub mark_processed : ℕ → ℕ → Store → Store × Result (Option Record)
  mark_processed id now s = with_record id s (λ r.
      save (record r { processed = true; processed_at = some (or_else r.processed_at now) }) s)

  pub update_record : ℕ → UpdateRecordRequest → Store → Store × Result (Option Record)
  update_record id u s = with_record id s (λ r. save (update_fields u r) s)

  pub delete_record : ℕ → Store → Store × Result (Option Record)
  delete_record id s = with_record id s (λ r. (delete id s, returned (some r)))

  pub soft_delete_record : ℕ → ℕ → Store → Store × Result (Option Record)
  soft_delete_record id now s =
      with_record id s (λ r.
        if is_active r then save (record r { deleted_at = some now }) s else (s, returned none))

  -- The handler of the `IntegrityError`: the active row of the key, which is asserted to be there.
  abbrev pub existing_record : RecordRequest → Store → Result (Record × Bool)
  existing_record request s = do
    found ←
        scalar_one_or_none
          (keep (λ r. has_key request.source request.timestamp r && is_active r) (rows s))
    elim found [ none ↦ assertion_error | some r ↦ returned (r, false) ]

  abbrev pub settle_upsert :
      RecordRequest → Store × Option (List Record) → Store × Result (Record × Bool)
  settle_upsert request (s, none) = (s, existing_record request s)
  settle_upsert request (s, some []) = (s, missing_row)
  settle_upsert request (s, some (r ∷ _)) = (s, refresh s r >>= λ x. returned (x, true))

  pub upsert_record : RecordRequest → Store → Store × Result (Record × Bool)
  upsert_record request s = settle_upsert request (insert (request ∷ []) s)
