-- ===== src/Records/Crud/Upsert.antt =====
-- Insertion in ingestor/crud.py: single rows, batches in one statement and row by row, and the upsert
-- on (source, timestamp).
use mathlib.Core.List.{append_assoc}
use data_pipeline_async.Base.{
  ℕ, ◌≡◌, refl, ap, sym, ◌∙◌, inl, inr, Bool-cases, Option-cases, Bool, true, false, none, some,
  List, [], ◌∷◌, ◌++◌, length, if◌then◌else◌, arith,
}
use data_pipeline_async.Records.Row.{Record, RecordRequest, new_record, is_active, has_id, has_key}
use data_pipeline_async.Records.Database.{Database, find, any, conflicts, new_records}
use data_pipeline_async.Records.Lookup.{
  keep-find, any-find, find-append, any-none, find-last, has_key_self,
}
use data_pipeline_async.Records.Crud.{
  returned, integrity_error, assertion_error, refresh_all, create_record, create_records_batch,
  create_records_batch_naive, get_record, upsert_record, existing_record,
}
use data_pipeline_async.Records.Crud.Single.{get_record_lem}

one_id : (ids : List ℕ) → length ids ≡ 1 → (id : ℕ) × (ids ≡ id ∷ [])
one_id [] h = absurd (omega arith)
one_id (id ∷ []) h = (id, refl)
one_id (id ∷ j ∷ ids) h = absurd (omega arith)

module _ (d : Database) where
  open d use {
    Store, rows, insert, next_ids, distinct, distinct_keys, insert_rejects, insert_adds,
    one_id_each,
  }

  -- Every row that one INSERT has added is read back as it was written.
  refresh_all-added :
      (s : Store) (xs new : List Record) → rows s ≡ xs ++ new → refresh_all d s new ≡ returned new
  refresh_all-added s xs [] h = refl
  refresh_all-added s xs (r ∷ new) h =
      let found : find (has_id r.id) (rows s) ≡ some r =
        rw h (find-append xs r new (rw h at (distinct s r.id))) in
      ground (
        arith,
        found,
        refresh_all-added s (xs ++ r ∷ []) new (h ∙ sym (append_assoc xs (r ∷ []) new)),
      )

  -- The batch insertion that refreshes row by row leaves the same store and returns the same rows, or
  -- fails alike, as the one with RETURNING.
  pub batch_naive_same :
      (requests : List RecordRequest) (s : Store)
      → create_records_batch_naive d requests s ≡ create_records_batch d requests s
  unfolding create_records_batch_naive create_records_batch
  batch_naive_same [] s = refl
  batch_naive_same (r ∷ requests) s = elim (Bool-cases (conflicts (r ∷ requests) (rows s))) [
    | inl clash ↦ let (failed, _) = insert_rejects (r ∷ requests) s clash in ground (arith, failed)
    | inr free ↦
        let (done, table) = insert_adds (r ∷ requests) s free in
        let new : List Record = new_records (next_ids (r ∷ requests) s) (r ∷ requests) in
        ground (arith, done, refresh_all-added (insert (r ∷ requests) s).0 (rows s) new table)
  ]

  insert_one :
      (request : RecordRequest) (s : Store)
      → any (has_key request.source request.timestamp) (rows s) ≡ false
      → (id : ℕ) × ((insert (request ∷ []) s).1 ≡ some (new_record id request ∷ []))
        × (rows (insert (request ∷ []) s).0 ≡ rows s ++ new_record id request ∷ [])
        × (find (has_id id) (rows (insert (request ∷ []) s).0) ≡ some (new_record id request))
  insert_one request s free =
      let no_conflict : conflicts (request ∷ []) (rows s) ≡ false = rw free in
      let (done, table) = insert_adds (request ∷ []) s no_conflict in
      let (id, one) = one_id (next_ids (request ∷ []) s) (one_id_each (request ∷ []) s) in
      let new : Record = new_record id request in
      let added : rows (insert (request ∷ []) s).0 ≡ rows s ++ new ∷ [] =
        table ∙ ap (λ ids. rows s ++ new_records ids (request ∷ [])) one in
      let found : find (has_id id) (rows (insert (request ∷ []) s).0) ≡ some new =
        rw added
          (find-append (rows s) new [] (rw added at (distinct (insert (request ∷ []) s).0 id))) in
      (id, done ∙ ap (λ ids. some (new_records ids (request ∷ []))) one, added, found)

  insert_none :
      (request : RecordRequest) (s : Store)
      → any (has_key request.source request.timestamp) (rows s) ≡ true
      → ((insert (request ∷ []) s).1 ≡ none) × (rows (insert (request ∷ []) s).0 ≡ rows s)
  insert_none request s clash = insert_rejects (request ∷ []) s (rw clash)

  -- A new record is stored with the request's columns and the defaults, and a lookup by its id finds
  -- it; where the table has a row of its source and timestamp, deleted or not, nothing is stored.
  pub create_record_lem :
      (request : RecordRequest) (s : Store)
      → let (s', out) = create_record d request s in
        if any (has_key request.source request.timestamp) (rows s)
        then (out ≡ integrity_error) × (rows s' ≡ rows s)
        else (id : ℕ) × (out ≡ returned (new_record id request))
          × (rows s' ≡ rows s ++ new_record id request ∷ [])
          × (get_record d id s' ≡ returned (some (new_record id request)))
  unfolding create_record
  create_record_lem request s =
      elim (Bool-cases (any (has_key request.source request.timestamp) (rows s))) [
        | inl clash ↦
            let (failed, same) = insert_none request s clash in
            rw clash (ground (arith, failed), ground (arith, failed, same))
        | inr free ↦
            let (id, done, table, found) = insert_one request s free in
            let s' : Store = (insert (request ∷ []) s).0 in
            let read : get_record d id s' ≡ returned (some (new_record id request)) =
              get_record_lem d id s' (new_record id request) found in
            rw free (
              id,
              ground (arith, done, found),
              ground (arith, done, table),
              ground (arith, done, read),
            )
      ]

  -- Where the table has no row of the key, the upsert stores a new one and says so.
  pub upsert_creates :
      (request : RecordRequest) (s : Store)
      → any (has_key request.source request.timestamp) (rows s) ≡ false
      → let (s', out) = upsert_record d request s in
        (id : ℕ) × (out ≡ returned (new_record id request, true))
        × (rows s' ≡ rows s ++ new_record id request ∷ [])
  unfolding upsert_record
  upsert_creates request s free =
      let (id, done, table, found) = insert_one request s free in
      (id, ground (arith, done, found), ground (arith, done, table))

  upsert-conflict :
      (request : RecordRequest) (s : Store)
      → any (has_key request.source request.timestamp) (rows s) ≡ true
      → let (s', out) = upsert_record d request s in
        (rows s' ≡ rows s) × (out ≡ existing_record d request s')
  unfolding upsert_record
  upsert-conflict request s clash =
      let (failed, same) = insert_none request s clash in
      (ground (arith, failed, same), ground (arith, failed))

  upsert_existing :
      (request : RecordRequest) (s : Store) (r : Record)
      → find (has_key request.source request.timestamp) (rows s) ≡ some r
      → let (s', out) = upsert_record d request s in
        (rows s' ≡ rows s) × (out ≡ (if is_active r then returned (r, false) else assertion_error))
  upsert_existing request s r h =
      let p : Record → Bool = has_key request.source request.timestamp in
      let (same, out) = upsert-conflict request s (any-find p (rows s) r h) in
      let s' : Store = (upsert_record d request s).0 in
      let h' : find p (rows s') ≡ some r = rw same h in
      let kept =
        keep-find p is_active (rows s') r h' (distinct_keys s' request.source request.timestamp) in
      (same, out ∙ ground (arith, kept))

  -- Where the table has an active row of the key, the upsert returns that row, says that it is not
  -- new, and changes nothing.
  pub upsert_finds_active :
      (request : RecordRequest) (s : Store) (r : Record)
      → find (has_key request.source request.timestamp) (rows s) ≡ some r
      → is_active r ≡ true
      → let (s', out) = upsert_record d request s in
        (out ≡ returned (r, false)) × (rows s' ≡ rows s)
  upsert_finds_active request s r h active =
      let (same, out) = upsert_existing request s r h in (out ∙ rw active, same)

  -- Where the row of the key has been soft-deleted, at any time before and with nothing else going
  -- on, the upsert ends by an AssertionError.
  pub upsert_deleted_asserts :
      (request : RecordRequest) (s : Store) (r : Record)
      → find (has_key request.source request.timestamp) (rows s) ≡ some r
      → is_active r ≡ false
      → (upsert_record d request s).1 ≡ assertion_error
  upsert_deleted_asserts request s r h deleted = (upsert_existing request s r h).1 ∙ rw deleted

  -- What an upsert that returns a row leaves behind: the row is the active one of its key.
  upsert-IsFound :
      (request : RecordRequest) (s : Store) (r : Record) (created : Bool)
      → (upsert_record d request s).1 ≡ returned (r, created)
      → (find (has_key request.source request.timestamp) (rows (upsert_record d request s).0)
          ≡ some r)
        × (is_active r ≡ true)
  upsert-IsFound request s r created h =
      let p : Record → Bool = has_key request.source request.timestamp in
      elim (Option-cases (find p (rows s))) [
        | inl e ↦
            let (id, out, table) = upsert_creates request s (any-none p (rows s) e) in
            let same : new_record id request ≡ r = ground (arith, out) in
            rw (← same) (
              rw table (
                  find-last p (rows s) (new_record id request) e
                    (has_key_self (new_record id request))),
              refl,
            )
        | inr (x, e) ↦
            let (table, out) = upsert_existing request s x e in
            elim (Bool-cases (is_active x)) [
              | inl active ↦
                  let same : x ≡ r = ground (arith, out, active) in rw (← same) (rw table e, active)
              | inr deleted ↦ ground (arith, out, deleted)
            ]
      ]

  -- A retry is safe: when an upsert has returned a row, the same upsert again returns that row as not
  -- new, and leaves the table as the first one left it.
  pub upsert_retry :
      (request : RecordRequest) (s : Store) (r : Record) (created : Bool)
      → (upsert_record d request s).1 ≡ returned (r, created)
      → let (s', _) = upsert_record d request s in
        let (s'', again) = upsert_record d request s' in
        (again ≡ returned (r, false)) × (rows s'' ≡ rows s')
  upsert_retry request s r created h =
      let (found, active) = upsert-IsFound request s r created h in
      upsert_finds_active request (upsert_record d request s).0 r found active
