-- ===== src/Records/Crud/Kept.antt =====
-- Which lookups of ingestor/crud.py answer as before, behind each of its operations.
use data_pipeline_async.Base.{
  ℕ, ◌≡◌, ◌≢◌, refl, sym, ap, ◌∙◌, Bool, true, Option, none, some, List, [], ◌∷◌, ◌++◌, Bool-cases,
  eqb_iff, Option-cases, inl, inr, ◌⊎◌, arith,
}
use data_pipeline_async.Records.Row.{Record, RecordRequest, is_active, has_id}
use data_pipeline_async.Records.Lookup.{find-holds, find-replace_ne, find-others}
use data_pipeline_async.Records.Database.{Database, find, conflicts, new_records}
use data_pipeline_async.Records.Crud.{
  Result, returned, UpdateRecordRequest, get_record, create_record, create_records_batch,
  create_records_batch_naive, mark_processed, delete_record, refresh_new, inserted, with_record,
}
use data_pipeline_async.Records.Crud.Single.{get_record_lem, mark-IsWritten, absent_record}
use data_pipeline_async.Records.Crud.Upsert.{batch_naive_same}

find-first :
    (p : Record → Bool) (xs ys : List Record) (r : Record)
    → find p xs ≡ some r
    → find p (xs ++ ys) ≡ some r
find-first p [] ys r h = absurd (ground (arith, h))
find-first p (x ∷ xs) ys r h = ground (arith, h, find-first p xs ys r)

module _ (d : Database) where
  open d use {Store, rows, insert, delete, insert_rejects, insert_adds, next_ids, delete_removes}

  no_update : UpdateRecordRequest
  no_update = record { source = none; timestamp = none; document = none; tags = none }

  get_record-absent :
      (id : ℕ) (s : Store) → find (has_id id) (rows s) ≡ none → get_record d id s ≡ returned none
  get_record-absent id s h = (absent_record d id 0 no_update s h).4

  -- A record that a lookup returns is the row of its id, and active.
  pub get_record-found :
      (id : ℕ) (s : Store) (r : Record)
      → get_record d id s ≡ returned (some r)
      → (find (has_id id) (rows s) ≡ some r) × (is_active r ≡ true)
  get_record-found id s r h = elim (Option-cases (find (has_id id) (rows s))) [
    | inl absent ↦ absurd (ground (arith, h, get_record-absent id s absent))
    | inr (x, e) ↦ ground (arith, h, e, get_record_lem d id s x e)
  ]

  -- A lookup reads no other row than that of its id.
  pub get_record-find :
      (id : ℕ) (s s' : Store)
      → find (has_id id) (rows s') ≡ find (has_id id) (rows s)
      → get_record d id s' ≡ get_record d id s
  get_record-find id s s' e = elim (Option-cases (find (has_id id) (rows s))) [
    | inl absent ↦ get_record-absent id s' (e ∙ absent) ∙ sym (get_record-absent id s absent)
    | inr (r, h) ↦ get_record_lem d id s' r (e ∙ h) ∙ sym (get_record_lem d id s r h)
  ]

  -- Every record that a lookup returns, it returns afterwards.
  abbrev pub Keeps : Store → Store → Type 0
  Keeps s s' =
      (id : ℕ) (r : Record)
      → get_record d id s ≡ returned (some r)
      → get_record d id s' ≡ returned (some r)

  same_rows-Keeps : (s s' : Store) → rows s' ≡ rows s → Keeps s s'
  same_rows-Keeps s s' e id r h = get_record-find id s s' (ap (find (has_id id)) e) ∙ h

  more_rows-Keeps : (s s' : Store) (new : List Record) → rows s' ≡ rows s ++ new → Keeps s s'
  more_rows-Keeps s s' new e id r h =
      let (found, _) = get_record-found id s r h in
      get_record-find id s s'
        (ap (find (has_id id)) e ∙ find-first (has_id id) (rows s) new r found ∙ sym found)
      ∙ h

  insert-Keeps : (requests : List RecordRequest) (s : Store) → Keeps s (insert requests s).0
  insert-Keeps requests s = elim (Bool-cases (conflicts requests (rows s))) [
    | inl clash ↦ same_rows-Keeps s (insert requests s).0 (insert_rejects requests s clash).1
    | inr free ↦
        more_rows-Keeps s (insert requests s).0 (new_records (next_ids requests s) requests)
          (insert_adds requests s free).1
  ]

  refresh_new-store : (p : Store × Option (List Record)) → (refresh_new d p).0 ≡ p.0
  refresh_new-store (s, none) = refl
  refresh_new-store (s, some []) = refl
  refresh_new-store (s, some (r ∷ new)) = refl

  inserted-store : (p : Store × Option (List Record)) → (inserted d p).0 ≡ p.0
  inserted-store (s, none) = refl
  inserted-store (s, some new) = refl

  -- An insertion, of one or of many, leaves what lookups return.
  pub create_record-Keeps :
      (request : RecordRequest) (s : Store) → Keeps s (create_record d request s).0
  unfolding create_record
  create_record-Keeps request s id r h =
      ap (get_record d id) (refresh_new-store (insert (request ∷ []) s))
      ∙ insert-Keeps (request ∷ []) s id r h

  pub create_records_batch-Keeps :
      (requests : List RecordRequest) (s : Store) → Keeps s (create_records_batch d requests s).0
  unfolding create_records_batch
  create_records_batch-Keeps [] s id r h = h
  create_records_batch-Keeps (x ∷ requests) s id r h =
      ap (get_record d id) (inserted-store (insert (x ∷ requests) s))
      ∙ insert-Keeps (x ∷ requests) s id r h

  pub naive-Keeps :
      (requests : List RecordRequest) (s : Store)
      → Keeps s (create_records_batch_naive d requests s).0
  naive-Keeps requests s id r h =
      ap (λ x. get_record d id x.0) (batch_naive_same d requests s)
      ∙ create_records_batch-Keeps requests s id r h

  -- Marking or deleting one record leaves the lookups of the others.
  pub mark_processed-others :
      (id now other : ℕ) (s : Store)
      → id ≢ other
      → get_record d other (mark_processed d id now s).0 ≡ get_record d other s
  mark_processed-others id now other s ne = elim (Option-cases (find (has_id id) (rows s))) [
    | inl absent ↦ ap (λ p. get_record d other p.0) (absent_record d id now no_update s absent).0
    | inr (r, e) ↦ marked r ((eqb_iff r.id id).0 (find-holds (has_id id) (rows s) r e)) e
  ]
    where
      marked :
          (r : Record)
          → r.id ≡ id
          → find (has_id id) (rows s) ≡ some r
          → get_record d other (mark_processed d id now s).0 ≡ get_record d other s
      marked r same e =
          let (_, table, _) =
            mark-IsWritten d now s r (ap (λ i. find (has_id i) (rows s)) same ∙ e) in
          ap (λ i. get_record d other (mark_processed d i now s).0) (sym same)
          ∙ get_record-find other s (mark_processed d r.id now s).0 (
              ap (find (has_id other)) table
              ∙ find-replace_ne other (rows s) _ (λ q. ne (sym same ∙ q)))

  pub delete_record-others :
      (id other : ℕ) (s : Store)
      → id ≢ other
      → get_record d other (delete_record d id s).0 ≡ get_record d other s
  unfolding delete_record
  delete_record-others id other s ne = elim (Option-cases (find (has_id id) (rows s))) [
    | inl absent ↦ ap (λ p. get_record d other p.0) (absent_record d id 0 no_update s absent).2
    | inr (r, e) ↦
        ap (λ o. get_record d other (deleted o).0) e
        ∙ get_record-find other s (delete id s)
            (ap (find (has_id other)) (delete_removes id s) ∙ find-others id other (rows s) ne)
  ]
    where
      deleted : Option Record → Store × Result (Option Record)
      deleted none = (s, returned none)
      deleted (some r) = (delete id s, returned (some r))

  -- Marking and deleting return a record, or leave everything as it is and return none.
  pub mark_processed-cases :
      (id now : ℕ) (s : Store)
      → (mark_processed d id now s ≡ (s, returned none))
        ⊎ ((r : Record) × ((mark_processed d id now s).1 ≡ returned (some r)))
  mark_processed-cases id now s = elim (Option-cases (find (has_id id) (rows s))) [
    | inl absent ↦ inl (absent_record d id now no_update s absent).0
    | inr (r, e) ↦ inr (marked r ((eqb_iff r.id id).0 (find-holds (has_id id) (rows s) r e)) e)
  ]
    where
      marked :
          (r : Record)
          → r.id ≡ id
          → find (has_id id) (rows s) ≡ some r
          → (x : Record) × ((mark_processed d id now s).1 ≡ returned (some x))
      marked r same e = (
        _,
        ap (λ i. (mark_processed d i now s).1) (sym same)
            ∙ (mark-IsWritten d now s r (ap (λ i. find (has_id i) (rows s)) same ∙ e)).0,
      )

  pub delete_record-cases :
      (id : ℕ) (s : Store)
      → (delete_record d id s ≡ (s, returned none))
        ⊎ ((r : Record) × ((delete_record d id s).1 ≡ returned (some r)))
  unfolding delete_record
  delete_record-cases id s = elim (Option-cases (find (has_id id) (rows s))) [
    | inl absent ↦ inl (absent_record d id 0 no_update s absent).2
    | inr (r, e) ↦ inr (r, rw (e, with_record) refl)
  ]
