-- ===== src/Records/Listing/Pages.antt =====
-- Pages by offset and the two tag listings of ingestor/crud.py.
use data_pipeline_async.Base.{
  ℕ, zero, suc, ◌+◌, ◌*◌, ◌≤◌, ◌≡◌, refl, sym, ◌∙◌, true, Option, List, [], ◌∷◌, ◌++◌, length, take,
  drop, map, count_if, Text, arith,
}
use data_pipeline_async.Records.Row.{Record, by_id}
use data_pipeline_async.Records.Database.{Database}
use data_pipeline_async.Records.Listing.{
  matching, get_records, count_each, columns, count_columns, tag_counts, tag_counts_naive,
}

drop-nil : {A : Type 0} (n : ℕ) → drop {A = A} n [] ≡ []
drop-nil zero = refl
drop-nil (suc n) = refl

take-nil : {A : Type 0} (n : ℕ) → take {A = A} n [] ≡ []
take-nil zero = refl
take-nil (suc n) = refl

take-drop : {A : Type 0} (n k : ℕ) (xs : List A) → take k (drop n xs) ++ drop (n + k) xs ≡ drop n xs
take-drop n k [] = rw (drop-nil n, drop-nil (n + k), take-nil k)
take-drop zero zero (x ∷ xs) = refl
take-drop zero (suc k) (x ∷ xs) = ground (arith, take-drop zero k xs)
take-drop (suc n) k (x ∷ xs) =
    let e : suc n + k ≡ suc (n + k) = omega arith in rw e (take-drop n k xs)

drop-all : {A : Type 0} (n : ℕ) (xs : List A) → length xs ≤ n → drop n xs ≡ []
drop-all zero [] h = refl
drop-all zero (x ∷ xs) h = absurd (omega arith)
drop-all (suc n) [] h = refl
drop-all (suc n) (x ∷ xs) h = drop-all n xs (omega arith)

pub count_if-true : (xs : List Record) → count_if (λ _. true) xs ≡ length xs
count_if-true [] = refl
count_if-true (x ∷ xs) = omega (arith, count_if-true xs)

module _ (d : Database) where
  open d use {Store, order_by, order_by_counts}

  length-order_by : (xs : List Record) → length (order_by by_id xs) ≡ length xs
  length-order_by xs =
      sym (count_if-true (order_by by_id xs))
      ∙ order_by_counts by_id xs (λ _. true)
      ∙ count_if-true xs

  -- A client that asks for `n` pages of a size, one behind the other from `skip` on.
  pub pages : ℕ → ℕ → ℕ → Option Text → Store → List Record
  pages zero skip limit source s = []
  pages (suc n) skip limit source s =
      (get_records d skip limit source s).0 ++ pages n (skip + limit) limit source s

  pages-drop :
      (n skip limit : ℕ) (source : Option Text) (s : Store)
      → length (matching d source s) ≤ skip + n * limit
      → pages n skip limit source s ≡ drop skip (order_by by_id (matching d source s))
  unfolding pages get_records
  pages-drop zero skip limit source s h = sym (
      drop-all skip (order_by by_id (matching d source s))
        (omega (arith, length-order_by (matching d source s))))
  pages-drop (suc n) skip limit source s h =
      rw (pages-drop n (skip + limit) limit source s (omega arith))
        (take-drop skip limit (order_by by_id (matching d source s)))

  -- On a table that stays as it is, pages of one size from offset 0 on, enough for the total that is
  -- reported with each of them, make up the list of all active records of the source in the order of
  -- their ids: none is left out and none comes twice.
  pub pages_cover :
      (n limit : ℕ) (source : Option Text) (s : Store)
      → (get_records d 0 limit source s).1 ≤ n * limit
      → pages n 0 limit source s ≡ order_by by_id (matching d source s)
  unfolding get_records
  pages_cover n limit source s h = pages-drop n 0 limit source s (omega arith)

  map-columns : (rs : List Record) → count_each d rs ≡ map (count_columns d) (map (columns d) rs)
  map-columns [] = refl
  map-columns (r ∷ rs) = ground (arith, map-columns rs)

  -- The single query with counting on its rows lists the same tag counts as the loop over records.
  pub tag_counts_same : (limit : ℕ) (s : Store) → tag_counts d limit s ≡ tag_counts_naive d limit s
  unfolding tag_counts tag_counts_naive
  tag_counts_same limit s = sym (map-columns _)
