-- ===== src/Records/Memory.antt =====
-- A database in memory that keeps every law of `Records/Database`: the interface that the operations
-- of ingestor/crud.py are proved against can be met.
pub mod Sorting
pub mod Tables
use data_pipeline_async.Base.{
  ℕ, suc, ◌≡◌, refl, sym, ◌∙◌, Bool, true, false, not, Option, none, some, List, [], ◌∷◌, ◌++◌,
  length, keep, arith,
}
use data_pipeline_async.Records.Row.{Record, RecordRequest, has_id, Order}
use data_pipeline_async.Records.Database.{
  Database, conflicts, new_records, replace, clashes, HasDistinctIds, HasDistinctKeys,
}
use Sorting.{sort, sort_counts, sort_sorts}
use Tables.{IsTable, iota, length-iota, advance, add_all-IsTable, replace-IsTable, delete-IsTable}

pub record Memory : Type 0 where
  pub table : List Record
  pub next : ℕ
  pub valid : IsTable table next

added : List RecordRequest → Memory → List Record
added requests s = new_records (iota s.next requests) requests

unfoldable pub insert_as :
    (requests : List RecordRequest) (s : Memory) (b : Bool)
    → conflicts requests s.table ≡ b
    → Memory × Option (List Record)
unfolding added
insert_as requests s true e = (s, none)
insert_as requests s false e = (
  record {
    table = s.table ++ added requests s;
    next = advance s.next requests;
    valid = add_all-IsTable requests s.table s.next s.valid e;
  },
  some (added requests s),
)

pub insert_as-rejects :
    (requests : List RecordRequest) (s : Memory) (b : Bool) (e : conflicts requests s.table ≡ b)
    → b ≡ true
    → ((insert_as requests s b e).1 ≡ none) × ((insert_as requests s b e).0.table ≡ s.table)
unfolding insert_as
insert_as-rejects requests s true e h = (refl, refl)
insert_as-rejects requests s false e h = cc

pub insert_as-adds :
    (requests : List RecordRequest) (s : Memory) (b : Bool) (e : conflicts requests s.table ≡ b)
    → b ≡ false
    → ((insert_as requests s b e).1 ≡ some (new_records (iota s.next requests) requests))
      × ((insert_as requests s b e).0.table
          ≡ s.table ++ new_records (iota s.next requests) requests)
unfolding insert_as
insert_as-adds requests s true e h = cc
insert_as-adds requests s false e h = (refl, refl)

unfoldable pub update_as :
    (r : Record) (s : Memory) (b : Bool) → clashes r s.table ≡ b → Memory × Bool
update_as r s true e = (s, false)
update_as r s false e = (
  record s { table = replace r s.table; valid = replace-IsTable r s.table s.next s.valid e },
  true,
)

pub update_as-rejects :
    (r : Record) (s : Memory) (b : Bool) (e : clashes r s.table ≡ b)
    → b ≡ true
    → ((update_as r s b e).1 ≡ false) × ((update_as r s b e).0.table ≡ s.table)
unfolding update_as
update_as-rejects r s true e h = (refl, refl)
update_as-rejects r s false e h = cc

pub update_as-replaces :
    (r : Record) (s : Memory) (b : Bool) (e : clashes r s.table ≡ b)
    → b ≡ false
    → ((update_as r s b e).1 ≡ true) × ((update_as r s b e).0.table ≡ replace r s.table)
unfolding update_as
update_as-replaces r s true e h = cc
update_as-replaces r s false e h = (refl, refl)

abbrev pub memory : Database
memory = record {
  Store = Memory;
  rows = λ s. s.table;
  insert = λ requests s. insert_as requests s (conflicts requests s.table) refl;
  update = λ r s. update_as r s (clashes r s.table) refl;
  delete = λ id s. record s {
    table = keep (λ r. not (has_id id r)) s.table;
    valid = delete-IsTable id s.table s.next s.valid;
  };
  order_by = sort;
  distinct = λ s. s.valid.ids;
  distinct_keys = λ s. s.valid.keys;
  next_ids = λ requests s. iota s.next requests;
  insert_rejects = λ requests s h. insert_as-rejects requests s (conflicts requests s.table) refl h;
  insert_adds = λ requests s h. insert_as-adds requests s (conflicts requests s.table) refl h;
  one_id_each = λ requests s. length-iota s.next requests;
  update_rejects = λ r s h. update_as-rejects r s (clashes r s.table) refl h;
  update_replaces = λ r s h. update_as-replaces r s (clashes r s.table) refl h;
  delete_removes = λ id s. refl;
  order_by_counts = sort_counts;
  order_by_sorts = sort_sorts;
}
