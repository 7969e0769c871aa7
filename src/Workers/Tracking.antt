-- ===== src/Workers/Tracking.antt =====
-- The bounded status history of `BackgroundWorkerPool` (ingestor/core/background_workers.py).
use data_pipeline_async.Base.{
  ℕ, ◌≤◌, ◌≡◌, refl, Bool, true, false, ◌||◌, List, [], ◌∷◌, ◌++◌, length, ltb, eqb, eqb_iff,
  nat_key, inl, inr, Bool-cases, arith,
}
use data_pipeline_async.Base.Dict.{
  Dict, insert, erase, contains, lookup-insert, lookup-erase, length-erase_present,
}
use data_pipeline_async.Workers.{TaskStatus, trim}

abbrev pub listed : ℕ → List ℕ → Bool
listed k [] = false
listed k (j ∷ js) = eqb j k || listed k js

abbrev pub IsDistinct : List ℕ → Type 0
IsDistinct [] = Unit
IsDistinct (j ∷ js) = (listed j js ≡ false) × IsDistinct js

-- The dict has the statuses of the listed tasks, and no others.
abbrev pub IsTracked : List ℕ → Dict ℕ TaskStatus → Type 0
IsTracked order statuses = (id : ℕ) → contains id statuses ≡ listed id order

erase-IsTracked :
    (oldest : ℕ) (order : List ℕ) (statuses : Dict ℕ TaskStatus)
    → IsDistinct (oldest ∷ order)
    → IsTracked (oldest ∷ order) statuses
    → IsTracked order (erase oldest statuses)
erase-IsTracked oldest order statuses d t id =
    ground (arith, t id, lookup-erase oldest id statuses, eqb_iff oldest id)

-- The status of the oldest task is there to be erased.
erased-few :
    (oldest : ℕ) (order : List ℕ) (statuses : Dict ℕ TaskStatus)
    → IsTracked (oldest ∷ order) statuses
    → length statuses ≤ length (oldest ∷ order)
    → length (erase oldest statuses) ≤ length order
erased-few oldest order statuses t few =
    let present : contains oldest statuses ≡ true =
      ground (arith, t oldest, eqb_iff oldest oldest) in
    omega (arith, few, length-erase_present oldest statuses present)

-- What `trim` leaves: a list within the bound, of distinct tasks, and just their statuses, one for
-- each.
pub record IsTrimmed (most : ℕ) (r : List ℕ × Dict ℕ TaskStatus) : Type 0 where
  pub short : length r.0 ≤ most
  pub distinct : IsDistinct r.0
  pub tracked : IsTracked r.0 r.1
  pub no_more : length r.1 ≤ length r.0

pub trim-IsTrimmed :
    (most : ℕ) (order : List ℕ) (statuses : Dict ℕ TaskStatus)
    → IsDistinct order
    → IsTracked order statuses
    → length statuses ≤ length order
    → IsTrimmed most (trim most order statuses)
unfolding trim
trim-IsTrimmed most [] statuses d t few = record {
  short = omega arith;
  distinct = tt;
  tracked = t;
  no_more = few;
}
trim-IsTrimmed most (oldest ∷ order) statuses d t few =
    elim (Bool-cases (ltb most (length (oldest ∷ order)))) [
      | inl long ↦ rw long (
          trim-IsTrimmed most order (erase oldest statuses) d.1
            (erase-IsTracked oldest order statuses d t) (erased-few oldest order statuses t few))
      | inr short ↦
          rw short (record { short = ground arith; distinct = d; tracked = t; no_more = few })
    ]

-- The latest tasks stay, if they are within the bound.
pub trim_keeps_latest :
    (most : ℕ) (before latest : List ℕ) (statuses : Dict ℕ TaskStatus)
    → length latest ≤ most
    → (kept : List ℕ) × ((trim most (before ++ latest) statuses).0 ≡ kept ++ latest)
unfolding trim
trim_keeps_latest most [] [] statuses h = ([], refl)
trim_keeps_latest most [] (x ∷ xs) statuses h = ([], ground arith)
trim_keeps_latest most (oldest ∷ before) latest statuses h =
    elim (Bool-cases (ltb most (length (oldest ∷ (before ++ latest))))) [
      | inl long ↦
          let (kept, e) = trim_keeps_latest most before latest (erase oldest statuses) h in
          (kept, rw long e)
      | inr short ↦ (oldest ∷ before, rw short)
    ]

-- Lemmas on the list of ids, and on the dict a status is written to.
pub listed-append : (k : ℕ) (js ks : List ℕ) → listed k (js ++ ks) ≡ (listed k js || listed k ks)
listed-append k [] ks = refl
listed-append k (j ∷ js) ks = ground (arith, listed-append k js ks)

pub snoc-IsDistinct :
    (js : List ℕ) (k : ℕ) → IsDistinct js → listed k js ≡ false → IsDistinct (js ++ k ∷ [])
snoc-IsDistinct [] k d fresh = (refl, tt)
snoc-IsDistinct (j ∷ js) k d fresh = (
  ground (arith, d.0, fresh, listed-append j js (k ∷ []), eqb_iff j k, eqb_iff k j),
  snoc-IsDistinct js k d.1 (ground (arith, fresh)),
)

pub snoc-IsTracked :
    (order : List ℕ) (statuses : Dict ℕ TaskStatus) (k : ℕ) (st : TaskStatus)
    → IsTracked order statuses
    → IsTracked (order ++ k ∷ []) (insert k st statuses)
snoc-IsTracked order statuses k st t id =
    ground (arith, t id, lookup-insert k id st statuses, listed-append id order (k ∷ []))

-- A write to the status of a tracked task.
pub rewrite-IsTracked :
    (order : List ℕ) (statuses : Dict ℕ TaskStatus) (k : ℕ) (st : TaskStatus)
    → IsTracked order statuses
    → contains k statuses ≡ true
    → IsTracked order (insert k st statuses)
rewrite-IsTracked order statuses k st t present id =
    ground (arith, t id, t k, present, lookup-insert k id st statuses, eqb_iff k id)
