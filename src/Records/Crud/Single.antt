-- ===== src/Records/Crud/Single.antt =====
-- What the operations of ingestor/crud.py on one record do, on every branch.
use data_pipeline_async.Base.{
  ℕ, ◌≡◌, ◌≢◌, refl, ap, sym, ◌∙◌, true, false, Option, none, some, Bool-cases, inl, inr,
  if◌then◌else◌, arith,
}
use data_pipeline_async.Records.Row.{Record, is_active, has_id, has_key}
use data_pipeline_async.Records.Database.{Database, find, replace, clashes}
use data_pipeline_async.Records.Lookup.{
  keep-find, find-replace_self, find-replace_ne, replace-replace, no-clash, has_key_self,
  find-removed, find-others, keep-absent,
}
use data_pipeline_async.Records.Crud.{
  Result, returned, integrity_error, UpdateRecordRequest, update_fields, or_else, get_record, save,
  with_record, mark_processed, update_record, delete_record, soft_delete_record,
}

module _ (d : Database) where
  open d use {
    Store, rows, update, delete, distinct, distinct_keys, update_rejects, update_replaces,
    delete_removes,
  }

  -- A lookup by id answers with the row if it is active, and with None if it is deleted.
  pub get_record_lem :
      (id : ℕ) (s : Store) (r : Record)
      → find (has_id id) (rows s) ≡ some r
      → get_record d id s ≡ returned (if is_active r then some r else none)
  unfolding get_record
  get_record_lem id s r h =
      rw (keep-find (has_id id) is_active (rows s) r h (distinct s id)) (ground arith)

  -- A changed row that keeps its id and constrained columns is written.
  pub save_kept :
      (s : Store) (r r' : Record)
      → find (has_id r'.id) (rows s) ≡ some r
      → has_key r'.source r'.timestamp r ≡ true
      → (save d r' s ≡ ((update r' s).0, returned (some r')))
        × (rows (save d r' s).0 ≡ replace r' (rows s))
  save_kept s r r' h k =
      let (done, table) = update_replaces r' s (no-clash (rows s) r r' (distinct_keys s) h k) in
      let found : find (has_id r'.id) (rows (update r' s).0) ≡ some r' =
        rw table (find-replace_self r'.id (rows s) r r' h refl) in
      (ground (arith, done, found), table)

  -- The row that the table holds under its id.
  abbrev pub IsStored : Store → Record → Type 0
  IsStored s r = find (has_id r.id) (rows s) ≡ some r

  -- A write of `r'` in place of `r`, and what a lookup finds behind it.
  abbrev pub IsWritten : Store → Record → Store × Result (Option Record) → Type 0
  IsWritten s r' (s', out) =
      (out ≡ returned (some r')) × (rows s' ≡ replace r' (rows s)) × IsStored s' r'

  save-IsWritten :
      (s : Store) (r r' : Record)
      → IsStored s r
      → r'.id ≡ r.id
      → r'.source ≡ r.source
      → r'.timestamp ≡ r.timestamp
      → IsWritten s r' (save d r' s)
  save-IsWritten s r r' h i src ts =
      let h' : find (has_id r'.id) (rows s) ≡ some r = simp i h in
      let k : has_key r'.source r'.timestamp r ≡ true = simp (src, ts) (has_key_self r) in
      let (saved, table) = save_kept s r r' h' k in
      (ap (λ p. p.1) saved, table, rw table (find-replace_self r'.id (rows s) r r' h' refl))

  soft_delete-IsWritten :
      (now : ℕ) (s : Store) (r : Record)
      → IsStored s r
      → is_active r ≡ true
      → IsWritten s (record r { deleted_at = some now }) (soft_delete_record d r.id now s)
  unfolding soft_delete_record
  soft_delete-IsWritten now s r h active =
      rw (h, with_record, active)
        (save-IsWritten s r (record r { deleted_at = some now }) h refl refl refl)

  -- A deleted row is not deleted again.
  soft_delete_deleted :
      (later : ℕ) (s : Store) (r : Record)
      → IsStored s r
      → is_active r ≡ false
      → soft_delete_record d r.id later s ≡ (s, returned none)
  unfolding soft_delete_record
  soft_delete_deleted later s r h deleted = rw (h, with_record, deleted)

  -- Soft deletion of an active row stamps it and leaves the other rows; from then on a lookup by its
  -- id finds nothing, and a second soft deletion finds nothing to delete and changes nothing.
  pub soft_delete_hides :
      (now later : ℕ) (s : Store) (r : Record)
      → IsStored s r
      → is_active r ≡ true
      → let r' = record r { deleted_at = some now } in
        let (s', deleted) = soft_delete_record d r.id now s in
        (deleted ≡ returned (some r'))
        × (rows s' ≡ replace r' (rows s))
        × (get_record d r.id s' ≡ returned none)
        × (soft_delete_record d r.id later s' ≡ (s', returned none))
  soft_delete_hides now later s r h active =
      let r' : Record = record r { deleted_at = some now } in
      let (s', _) = soft_delete_record d r.id now s in
      let (out, table, found) = soft_delete-IsWritten now s r h active in
      (out, table, get_record_lem r.id s' r' found, soft_delete_deleted later s' r' found refl)

  pub mark-IsWritten :
      (now : ℕ) (s : Store) (r : Record)
      → IsStored s r
      → IsWritten s
          (record r { processed = true; processed_at = some (or_else r.processed_at now) })
          (mark_processed d r.id now s)
  unfolding mark_processed
  mark-IsWritten now s r h =
      rw (h, with_record)
        (save-IsWritten s r
          (record r { processed = true; processed_at = some (or_else r.processed_at now) }) h refl
          refl refl)

  -- Marking a row as processed keeps the time of the first mark: the second call returns the same
  -- row as the first and leaves the table as that one did.
  pub mark_processed_once :
      (first second : ℕ) (s : Store) (r : Record)
      → IsStored s r
      → let r' = record r {
        processed = true;
        processed_at = some (or_else r.processed_at first);
      } in
        let (s', marked) = mark_processed d r.id first s in
        let (s'', again) = mark_processed d r.id second s' in
        (marked ≡ returned (some r'))
        × (rows s' ≡ replace r' (rows s))
        × (again ≡ returned (some r'))
        × (rows s'' ≡ rows s')
  mark_processed_once first second s r h =
      let r' : Record = record r {
        processed = true;
        processed_at = some (or_else r.processed_at first);
      } in
      let (s', _) = mark_processed d r.id first s in
      let (out, table, found) = mark-IsWritten first s r h in
      let (out', table', _) = mark-IsWritten second s' r' found in
      (out, table, out', table' ∙ ap (replace r') table ∙ replace-replace (rows s) r' ∙ sym table)

  -- An update changes the given fields of its row and no other row, unless the new source and
  -- timestamp are those of another row: then it fails with the constraint and changes nothing.
  pub update_record_lem :
      (u : UpdateRecordRequest) (s : Store) (r : Record)
      → IsStored s r
      → let r' = update_fields u r in
        let (s', out) = update_record d r.id u s in
        if clashes r' (rows s)
        then (out ≡ integrity_error) × (rows s' ≡ rows s)
        else (out ≡ returned (some r'))
          × (find (has_id r.id) (rows s') ≡ some r')
          × ((id : ℕ) → r.id ≢ id → find (has_id id) (rows s') ≡ find (has_id id) (rows s))
  unfolding update_record
  update_record_lem u s r h =
      let r' : Record = update_fields u r in
      elim (Bool-cases (clashes r' (rows s))) [
        | inl clash ↦
            let (failed, table) = update_rejects r' s clash in
            rw (clash, h, with_record, failed) (refl, table)
        | inr free ↦
            let (done, table) = update_replaces r' s free in
            let found : find (has_id r.id) (rows (update r' s).0) ≡ some r' =
              rw table (find-replace_self r.id (rows s) r r' h refl) in
            rw (free, h, with_record, done)
              (ground (arith, found), found, λ id ne. rw table (find-replace_ne id (rows s) r' ne))
      ]

  -- A hard deletion returns the row and removes it alone; there is then none of its id.
  pub delete_record_lem :
      (s : Store) (r : Record)
      → IsStored s r
      → let (s', out) = delete_record d r.id s in
        (out ≡ returned (some r))
        × (find (has_id r.id) (rows s') ≡ none)
        × ((id : ℕ) → r.id ≢ id → find (has_id id) (rows s') ≡ find (has_id id) (rows s))
  unfolding delete_record
  delete_record_lem s r h =
      rw (h, with_record)
        (
          refl,
          rw (delete_removes r.id s) (find-removed r.id (rows s)),
          λ id ne. rw (delete_removes r.id s) (find-others r.id id (rows s) ne),
        )

  -- Of an id that the table lacks, every operation returns None and changes nothing.
  pub absent_record :
      (id now : ℕ) (u : UpdateRecordRequest) (s : Store)
      → find (has_id id) (rows s) ≡ none
      → (mark_processed d id now s ≡ (s, returned none))
        × (update_record d id u s ≡ (s, returned none))
        × (delete_record d id s ≡ (s, returned none))
        × (soft_delete_record d id now s ≡ (s, returned none))
        × (get_record d id s ≡ returned none)
  unfolding mark_processed update_record delete_record soft_delete_record get_record
  absent_record id now u s h = (
    rw (h, with_record),
    rw (h, with_record),
    rw (h, with_record),
    rw (h, with_record),
    rw (keep-absent (has_id id) is_active (rows s) h),
  )
