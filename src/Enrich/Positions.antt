-- ===== src/Enrich/Positions.antt =====
-- The coroutines of `enrich_records_concurrent` in ingestor/crud.py, and their results, by position.
use data_pipeline_async.Base.{
  ℕ, zero, suc, ◌≡◌, refl, Option, none, some, List, [], ◌∷◌, map, nat_key, arith,
}
use mathlib.Core.Path.{subst}
use mathlib.Core.Option.{some-injective}
use data_pipeline_async.Base.Dict.{Dict}
use data_pipeline_async.Records.{Record}
use data_pipeline_async.Enrich.{
  EnrichedRecord, Stage, waiting, fetching, finished, Task, gathered, result_of, prepend, Part,
  enrich_one, run_part,
}

-- The coroutine at a position.
abbrev pub task_at : ℕ → List Task → Option Task
task_at n [] = none
task_at zero (t ∷ ts) = some t
task_at (suc n) (t ∷ ts) = task_at n ts

-- One result for each id, in their order, each with a property of its position.
abbrev pub AreResults : (ℕ → ℕ → EnrichedRecord → Type 0) → List ℕ → List EnrichedRecord → Type 0
AreResults P [] [] = Unit
AreResults P [] (r ∷ rs) = ⊥
AreResults P (id ∷ ids) [] = ⊥
AreResults P (id ∷ ids) (r ∷ rs) = P 0 id r × AreResults (λ n. P (suc n)) ids rs

-- Every coroutine has a property of its position.
abbrev pub AllAt : (ℕ → Task → Type 0) → List Task → Type 0
AllAt P [] = Unit
AllAt P (t ∷ ts) = P 0 t × AllAt (λ n. P (suc n)) ts

pub AllAt-map :
    (P Q : ℕ → Task → Type 0) (ts : List Task)
    → ((n : ℕ) (t : Task) → P n t → Q n t)
    → AllAt P ts
    → AllAt Q ts
AllAt-map P Q [] f h = tt
AllAt-map P Q (t ∷ ts) f h =
    (f 0 t h.0, AllAt-map (λ n. P (suc n)) (λ n. Q (suc n)) ts (λ n. f (suc n)) h.1)

module _ (known : Dict ℕ Record) where
  pub run_part-AllAt :
      (P Q : ℕ → Task → Type 0) (part : Part) (n permits : ℕ) (ts : List Task)
      → ((m : ℕ) (t : Task) → P m t → Q m t)
      → ((t : Task)
          → task_at n ts ≡ some t
          → P n t
          → Q n (record t { stage = (enrich_one known part t.record_id permits t.stage).1 }))
      → AllAt P ts
      → AllAt Q (run_part known part n permits ts).1
  run_part-AllAt P Q part n permits [] others own h = tt
  run_part-AllAt P Q part zero permits (t ∷ ts) others own h =
      (own t refl h.0, AllAt-map (λ m. P (suc m)) (λ m. Q (suc m)) ts (λ m. others (suc m)) h.1)
  run_part-AllAt P Q part (suc n) permits (t ∷ ts) others own h = (
    others 0 t h.0,
    run_part-AllAt (λ m. P (suc m)) (λ m. Q (suc m)) part n permits ts (λ m. others (suc m)) own
        h.1,
  )

pub new-AllAt :
    (P : ℕ → Task → Type 0) (ids : List ℕ)
    → ((n id : ℕ) → P n (record { record_id = id; stage = waiting }))
    → AllAt P (map (λ id. record { record_id = id; stage = waiting }) ids)
new-AllAt P [] h = tt
new-AllAt P (id ∷ ids) h = (h 0 id, new-AllAt (λ n. P (suc n)) ids (λ n. h (suc n)))

-- The property of a coroutine that has its result.
abbrev pub Ended : (ℕ → ℕ → EnrichedRecord → Type 0) → ℕ → ℕ → Stage → Type 0
Ended P n id waiting = Unit
Ended P n id (fetching r post) = Unit
Ended P n id (finished result) = P n id result

prepend-AreResults :
    (P : ℕ → ℕ → EnrichedRecord → Type 0) (id : ℕ) (ids : List ℕ) (stage : Stage)
    (rest : Option (List EnrichedRecord)) (results : List EnrichedRecord)
    → Ended P 0 id stage
    → ((rs : List EnrichedRecord) → rest ≡ some rs → AreResults (λ n. P (suc n)) ids rs)
    → prepend (result_of stage) rest ≡ some results
    → AreResults P (id ∷ ids) results
prepend-AreResults P id ids waiting rest results h tail e = absurd (ground (arith, e))
prepend-AreResults P id ids (fetching r post) rest results h tail e = absurd (ground (arith, e))
prepend-AreResults P id ids (finished r) none results h tail e = absurd (ground (arith, e))
prepend-AreResults P id ids (finished r) (some rs) results h tail e =
    subst (AreResults P (id ∷ ids)) (some-injective (r ∷ rs) results e) (h, tail rs refl)

pub gathered-AreResults :
    (P : ℕ → ℕ → EnrichedRecord → Type 0) (ts : List Task) (results : List EnrichedRecord)
    → AllAt (λ n t. Ended P n t.record_id t.stage) ts
    → gathered ts ≡ some results
    → AreResults P (map (λ t. t.record_id) ts) results
gathered-AreResults P [] results h e = subst (AreResults P []) (some-injective [] results e) tt
gathered-AreResults P (t ∷ ts) results h e =
    prepend-AreResults P t.record_id (map (λ x. x.record_id) ts) t.stage (gathered ts) results h.0
      (λ rs held. gathered-AreResults (λ n. P (suc n)) ts rs h.1 held) e
