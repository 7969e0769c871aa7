-- ===== src/Records/Memory/Tables.antt =====
-- Tables of distinct ids and keys, under the writes of `Records/Database`.
use mathlib.Core.List.{append_assoc, append-nil}
use data_pipeline_async.Base.{
  ℕ, suc, ◌≤◌, ◌<◌, ◌≡◌, refl, ◌∙◌, Bool, true, false, not, ◌||◌, List, [], ◌∷◌, ◌++◌, length,
  count_if, count_if-append, All, keep, Text, text_beq_iff, inl, inr, Bool-cases, arith,
}
use data_pipeline_async.Records.Row.{Record, RecordRequest, new_record, has_id, has_key}
use data_pipeline_async.Records.Database.{
  any, conflicts, new_records, replace, clashes, HasDistinctIds, HasDistinctKeys,
}
use data_pipeline_async.Records.Lookup.{count-replace}

pub record IsTable (rows : List Record) (next : ℕ) : Type 0 where
  pub ids : HasDistinctIds rows
  pub keys : HasDistinctKeys rows
  pub bounded : All (λ r. r.id < next) rows

-- The ids `next`, `next + 1`, …, one for each request, and the next id behind them.
unfoldable pub iota : ℕ → List RecordRequest → List ℕ
iota next [] = []
iota next (r ∷ requests) = next ∷ iota (suc next) requests

pub length-iota :
    (next : ℕ) (requests : List RecordRequest) → length (iota next requests) ≡ length requests
unfolding iota
length-iota next [] = refl
length-iota next (r ∷ requests) = omega (arith, length-iota (suc next) requests)

unfoldable pub advance : ℕ → List RecordRequest → ℕ
advance next [] = next
advance next (r ∷ requests) = advance (suc next) requests

fresh-count :
    (next : ℕ) (rows : List Record) → All (λ r. r.id < next) rows → count_if (has_id next) rows ≡ 0
fresh-count next [] h = refl
fresh-count next (r ∷ rows) h = ground (arith, fresh-count next rows h.1)

absent-count : (p : Record → Bool) (rows : List Record) → any p rows ≡ false → count_if p rows ≡ 0
absent-count p [] h = refl
absent-count p (r ∷ rows) h = ground (arith, absent-count p rows)

bounded-add :
    (next : ℕ) (r : Record) (rows : List Record)
    → All (λ x. x.id < next) rows
    → r.id ≡ next
    → All (λ x. x.id < suc next) (rows ++ r ∷ [])
bounded-add next r [] h e = (omega arith, tt)
bounded-add next r (x ∷ rows) h e = (omega arith, bounded-add next r rows h.1 e)

add-IsTable :
    (r : RecordRequest) (rows : List Record) (next : ℕ)
    → IsTable rows next
    → any (has_key r.source r.timestamp) rows ≡ false
    → IsTable (rows ++ new_record next r ∷ []) (suc next)
add-IsTable r rows next t free = record {
  ids = λ id. ground (
    arith,
    t.ids id,
    count_if-append (has_id id) rows (new_record next r ∷ []),
    fresh-count next rows t.bounded,
  );
  keys = λ source timestamp. ground (
    arith,
    t.keys source timestamp,
    text_beq_iff r.source source,
    count_if-append (has_key source timestamp) rows (new_record next r ∷ []),
    absent-count (has_key r.source r.timestamp) rows free,
  );
  bounded = bounded-add next (new_record next r) rows t.bounded refl;
}

any-append :
    (p : Record → Bool) (rows : List Record) (r : Record)
    → any p (rows ++ r ∷ []) ≡ (p r || any p rows)
any-append p [] r = refl
any-append p (x ∷ rows) r = ground (arith, any-append p rows r)

conflicts-same :
    (requests : List RecordRequest) (xs ys : List Record)
    → ((source : Text) (timestamp : ℕ)
        → any (has_key source timestamp) xs ≡ any (has_key source timestamp) ys)
    → conflicts requests xs ≡ conflicts requests ys
conflicts-same [] xs ys same = refl
conflicts-same (r ∷ requests) xs ys same = ground (
  arith,
  same r.source r.timestamp,
  conflicts-same requests (new_record 0 r ∷ xs) (new_record 0 r ∷ ys)
      (λ source timestamp. ground (arith, same source timestamp)),
)

pub add_all-IsTable :
    (requests : List RecordRequest) (rows : List Record) (next : ℕ)
    → IsTable rows next
    → conflicts requests rows ≡ false
    → IsTable (rows ++ new_records (iota next requests) requests) (advance next requests)
unfolding iota advance
add_all-IsTable [] rows next t free = rw append-nil t
add_all-IsTable (r ∷ requests) rows next t free =
    let alone : any (has_key r.source r.timestamp) rows ≡ false = ground arith in
    let others : conflicts requests (new_record 0 r ∷ rows) ≡ false = ground arith in
    let same : conflicts requests (rows ++ new_record next r ∷ []) ≡ false =
      conflicts-same requests (rows ++ new_record next r ∷ []) (new_record 0 r ∷ rows)
        (λ source timestamp. any-append (has_key source timestamp) rows (new_record next r))
      ∙ others in
    rw append_assoc at (
      add_all-IsTable requests (rows ++ new_record next r ∷ []) (suc next)
        (add-IsTable r rows next t alone) same)

replace-other_key :
    (r : Record) (source : Text) (timestamp : ℕ) (rows : List Record)
    → has_key source timestamp r ≡ false
    → count_if (has_key source timestamp) (replace r rows)
      ≤ count_if (has_key source timestamp) rows
replace-other_key r source timestamp [] h = omega arith
replace-other_key r source timestamp (x ∷ rows) h =
    ground (arith, replace-other_key r source timestamp rows h)

replace-own_key :
    (r : Record) (source : Text) (timestamp : ℕ) (rows : List Record)
    → has_key source timestamp r ≡ true
    → clashes r rows ≡ false
    → count_if (has_key source timestamp) (replace r rows) ≤ count_if (has_id r.id) rows
replace-own_key r source timestamp [] h free = omega arith
replace-own_key r source timestamp (x ∷ rows) h free = ground (
  arith,
  replace-own_key r source timestamp rows h,
  text_beq_iff r.source source,
  text_beq_iff x.source source,
  text_beq_iff x.source r.source,
)

replace-bounded :
    (r : Record) (next : ℕ) (rows : List Record)
    → All (λ x. x.id < next) rows
    → All (λ x. x.id < next) (replace r rows)
replace-bounded r next [] h = tt
replace-bounded r next (x ∷ rows) h = (ground arith, replace-bounded r next rows h.1)

pub replace-IsTable :
    (r : Record) (rows : List Record) (next : ℕ)
    → IsTable rows next
    → clashes r rows ≡ false
    → IsTable (replace r rows) next
replace-IsTable r rows next t free = record {
  ids = λ id. omega (arith, t.ids id, count-replace id rows r);
  keys = λ source timestamp. elim (Bool-cases (has_key source timestamp r)) [
    | inl own ↦ omega (arith, replace-own_key r source timestamp rows own free, t.ids r.id)
    | inr other ↦
        omega (arith, replace-other_key r source timestamp rows other, t.keys source timestamp)
  ];
  bounded = replace-bounded r next rows t.bounded;
}

keep-count_le :
    (p q : Record → Bool) (rows : List Record) → count_if q (keep p rows) ≤ count_if q rows
keep-count_le p q [] = omega arith
keep-count_le p q (x ∷ rows) = ground (arith, keep-count_le p q rows)

keep-bounded :
    (p : Record → Bool) (next : ℕ) (rows : List Record)
    → All (λ x. x.id < next) rows
    → All (λ x. x.id < next) (keep p rows)
keep-bounded p next [] h = tt
keep-bounded p next (x ∷ rows) h = ground (arith, keep-bounded p next rows h.1)

pub delete-IsTable :
    (id : ℕ) (rows : List Record) (next : ℕ)
    → IsTable rows next
    → IsTable (keep (λ r. not (has_id id r)) rows) next
delete-IsTable id rows next t = record {
  ids = λ j. omega (arith, t.ids j, keep-count_le (λ r. not (has_id id r)) (has_id j) rows);
  keys = λ source timestamp. omega (
    arith,
    t.keys source timestamp,
    keep-count_le (λ r. not (has_id id r)) (has_key source timestamp) rows,
  );
  bounded = keep-bounded (λ r. not (has_id id r)) next rows t.bounded;
}
