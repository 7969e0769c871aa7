-- ===== src/Records/Listing/Cursor.antt =====
-- Traversal of the records by cursor pages (ingestor/crud.py, `get_records_cursor_paginated`).
use data_pipeline_async.Base.{
  ℕ, zero, suc, ◌+◌, ◌≤◌, ◌<◌, ◌≡◌, refl, ◌∙◌, Bool, true, false, not, ◌&&◌, Option, none, some,
  List, [], ◌∷◌, ◌++◌, length, take, drop, keep, count_if, count_if-append, length-take, All, Text,
  ltb, Bool-cases, ltb→lt, inl, inr, arith,
}
use data_pipeline_async.Records.Row.{Record, is_active, source_is, by_timestamp, has_id}
use data_pipeline_async.Records.Database.{Database, IsSorted, HasDistinctIds}
use data_pipeline_async.Records.Listing.{
  Position, is_after, last_of, position_of, matching, cursor_page,
}
use data_pipeline_async.Records.Listing.Pages.{count_if-true}
use data_pipeline_async.Records.Listing.Counting.{
  All-append, All-map, All-take, All-of_count, count-and_All, count-and_none, count-keep,
  count-le_and, count-ext, count-take-drop, page-divides, take-take, take-all, last-take, last-All,
  IsSorted-append, IsSorted-take,
}

regroup :
    (a later earlier src b : Bool)
    → (later ≡ true → earlier ≡ true)
    → ((a && (later && src)) && b) ≡ ((a && (earlier && src)) && (b && later))
regroup a later earlier src b h = ground arith

module _ (d : Database) (limit : ℕ) (source : Option Text) (s : d.Store) where
  open d use {rows, order_by, order_by_counts, order_by_sorts, distinct}

  -- A client that follows the next cursors, for at most `fuel` pages; `none` if there are more.
  pub traverse : ℕ → Option Position → Option (List Record)
  traverse zero cursor = none
  traverse (suc fuel) cursor = elim (cursor_page d cursor limit source s).1 [
    | none ↦ some (cursor_page d cursor limit source s).0
    | some next ↦ elim (traverse fuel (some next)) [
      | none ↦ none
      | some rest ↦ some ((cursor_page d cursor limit source s).0 ++ rest)
    ]
  ]

  -- The rows that lie behind a cursor, and their order.
  abbrev behind : Option Position → List Record
  behind c = keep (λ r. is_active r && (is_after c r && source_is source r)) (rows s)

  abbrev sorted : Option Position → List Record
  sorted c = order_by by_timestamp (behind c)

  sorted-ids : (c : Option Position) → HasDistinctIds (sorted c)
  sorted-ids c id = omega (
    arith,
    order_by_counts by_timestamp (behind c) (has_id id),
    count-keep (λ r. is_active r && (is_after c r && source_is source r)) (has_id id) (rows s),
    count-le_and (λ r. is_active r && (is_after c r && source_is source r)) (has_id id) (rows s),
    distinct s id,
  )

  all-false :
      (p : Record → Bool) (same : (x : Record) → p x ≡ false) (xs : List Record) → count_if p xs ≡ 0
  all-false p same [] = refl
  all-false p same (x ∷ xs) = ground (arith, same x, all-false p same xs)

  sorted-after : (c : Option Position) → All (λ x. is_after c x ≡ true) (sorted c)
  sorted-after c = All-of_count (is_after c) (sorted c) (
      order_by_counts by_timestamp (behind c) (λ x. not (is_after c x))
      ∙ count-keep (λ r. is_active r && (is_after c r && source_is source r))
          (λ x. not (is_after c x)) (rows s)
      ∙ all-false (λ x. (is_active x && (is_after c x && source_is source x)) && not (is_after c x))
          (λ x. ground arith) (rows s))

  after_trans :
      (c : Option Position) (r x : Record)
      → is_after c r ≡ true
      → is_after (some (position_of r)) x ≡ true
      → is_after c x ≡ true
  after_trans none r x h k = refl
  after_trans (some (id, none)) r x h k = cc
  after_trans (some (id, some t)) r x h k = ground arith

  page-last :
      (c : Option Position)
      → length (sorted c) ≤ limit
      → cursor_page d c limit source s ≡ (sorted c, none, false)
  unfolding cursor_page
  page-last c h = ground (
    arith,
    take-take limit (sorted c),
    take-all limit (sorted c) h,
    take-all (limit + 1) (sorted c),
  )

  page-more :
      (c : Option Position) (r : Record)
      → limit < length (sorted c)
      → last_of (take limit (sorted c)) ≡ some r
      → cursor_page d c limit source s ≡ (take limit (sorted c), some (position_of r), true)
  unfolding cursor_page
  page-more c r h e =
      ground (arith, take-take limit (sorted c), length-take (limit + 1) (sorted c), e)

  same_test :
      (c : Option Position) (r x : Record) (b : Bool)
      → is_after c r ≡ true
      → ((is_active x && (is_after (some (position_of r)) x && source_is source x)) && b) ≡ (
          (is_active x && (is_after c x && source_is source x))
          && (b && is_after (some (position_of r)) x))
  same_test c r x b h =
      regroup (is_active x) (is_after (some (position_of r)) x) (is_after c x) (source_is source x)
        b (after_trans c r x h)

  -- The rows behind the last one of a page are those that the page has left.
  behind-drop :
      (c : Option Position) (r : Record) (q : Record → Bool)
      → last_of (take limit (sorted c)) ≡ some r
      → count_if q (behind (some (position_of r))) ≡ count_if q (drop limit (sorted c))
  behind-drop c r q e =
      let later : Record → Bool = is_after (some (position_of r)) in
      let p : Option Position → Record → Bool =
        λ k x. is_active x && (is_after k x && source_is source x) in
      let passed : is_after c r ≡ true =
        last-All (λ x. is_after c x ≡ true) limit (sorted c) r e (sorted-after c) in
      let (none_behind, all_behind) =
        page-divides limit (sorted c) r (order_by_sorts by_timestamp (behind c)) (sorted-ids c) e in
      omega (
        arith,
        count-keep (p (some (position_of r))) q (rows s),
        count-keep (p c) (λ x. q x && later x) (rows s),
        count-ext (λ x. p (some (position_of r)) x && q x) (λ x. p c x && (q x && later x))
            (λ x. same_test c r x (q x) passed) (rows s),
        order_by_counts by_timestamp (behind c) (λ x. q x && later x),
        count-take-drop (λ x. q x && later x) limit (sorted c),
        count-and_none later q (take limit (sorted c)) none_behind,
        count-and_All later q (drop limit (sorted c)) all_behind,
      )

  length-sorted : (c : Option Position) → length (sorted c) ≡ length (behind c)
  length-sorted c = omega (
    arith,
    order_by_counts by_timestamp (behind c) (λ _. true),
    count_if-true (sorted c),
    count_if-true (behind c),
  )

  -- What a traversal from a cursor on returns.
  abbrev IsTraversal : Option Position → List Record → Type 0
  IsTraversal c found =
      ((q : Record → Bool) → count_if q found ≡ count_if q (behind c))
      × IsSorted by_timestamp found
      × All (λ x. is_after c x ≡ true) found

  traverse-step :
      (fuel : ℕ) (c : Option Position) (r : Record) (rest : List Record)
      → limit < length (sorted c)
      → last_of (take limit (sorted c)) ≡ some r
      → traverse fuel (some (position_of r)) ≡ some rest
      → IsTraversal (some (position_of r)) rest
      → (traverse (suc fuel) c ≡ some (take limit (sorted c) ++ rest))
        × IsTraversal c (take limit (sorted c) ++ rest)
  unfolding traverse
  traverse-step fuel c r rest more e ran (counts, ordered, later) =
      let all = order_by_sorts by_timestamp (behind c) in
      let (none_behind, _) = page-divides limit (sorted c) r all (sorted-ids c) e in
      let passed : is_after c r ≡ true =
        last-All (λ x. is_after c x ≡ true) limit (sorted c) r e (sorted-after c) in
      (
        ground (arith, page-more c r more e, ran),
        (
          λ q. omega (
            arith,
            count_if-append q (take limit (sorted c)) rest,
            counts q,
            behind-drop c r q e,
            count-take-drop q limit (sorted c),
            order_by_counts by_timestamp (behind c) q,
          ),
          IsSorted-append r (take limit (sorted c)) rest (IsSorted-take limit (sorted c) all)
              ordered none_behind later,
          All-append (λ x. is_after c x ≡ true) (take limit (sorted c)) rest
              (All-take (λ x. is_after c x ≡ true) limit (sorted c) (sorted-after c))
              (All-map (λ x. is_after (some (position_of r)) x ≡ true) (λ x. is_after c x ≡ true)
                (λ x h. after_trans c r x passed h) rest later),
        ),
      )

  shorter :
      (c : Option Position) (r : Record)
      → 0 < limit
      → limit < length (sorted c)
      → last_of (take limit (sorted c)) ≡ some r
      → length (sorted (some (position_of r))) < length (sorted c)
  shorter c r pos more e = omega (
    arith,
    length-sorted (some (position_of r)),
    behind-drop c r (λ _. true) e,
    count_if-true (behind (some (position_of r))),
    count_if-true (sorted c),
    count_if-true (take limit (sorted c)),
    length-take limit (sorted c),
    count-take-drop (λ _. true) limit (sorted c),
  )

  traverse-lem :
      (fuel : ℕ) (c : Option Position)
      → 0 < limit
      → length (sorted c) < fuel
      → (found : List Record) × (traverse fuel c ≡ some found) × IsTraversal c found
  traverse-lem zero c pos h = absurd (omega arith)
  traverse-lem (suc fuel) c pos h = elim (Bool-cases (ltb limit (length (sorted c)))) [
    | inl more ↦
        let longer : limit < length (sorted c) = ltb→lt limit (length (sorted c)) more in
        let (r, e) = last-take limit (sorted c) pos (omega arith) in
        let (rest, ran, found) =
          traverse-lem fuel (some (position_of r)) pos (omega (arith, shorter c r pos longer e)) in
        let (ran', found') = traverse-step fuel c r rest longer e ran found in
        (take limit (sorted c) ++ rest, ran', found')
    | inr done ↦
        let short : length (sorted c) ≤ limit = ground arith in
        (
          sorted c,
          unfold traverse in ground (arith, page-last c short),
          (
            λ q. order_by_counts by_timestamp (behind c) q,
            order_by_sorts by_timestamp (behind c),
            sorted-after c,
          ),
        )
  ]

  -- On a table that stays as it is, a client that starts with no cursor and follows the next cursors
  -- of pages of a positive size comes to an end within one page more than there are active records of
  -- the source, and has then seen each of these exactly as often as the table holds it, in the order
  -- of timestamps and ids.
  pub cursors_visit_all :
      (fuel : ℕ)
      → 0 < limit
      → length (matching d source s) < fuel
      → (found : List Record) × (traverse fuel none ≡ some found)
        × ((q : Record → Bool) → count_if q found ≡ count_if q (matching d source s))
        × IsSorted by_timestamp found
  cursors_visit_all fuel pos h =
      let (found, ran, all) = traverse-lem fuel none pos (omega (arith, length-sorted none)) in
      (found, ran, all.0, all.1)
