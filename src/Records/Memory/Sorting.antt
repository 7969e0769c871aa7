-- ===== src/Records/Memory/Sorting.antt =====
-- Insertion sort as an ORDER BY of `Records/Database`.
use data_pipeline_async.Base.{
  ◌≡◌, refl, Bool, true, false, List, [], ◌∷◌, count_if, All, if◌then◌else◌, inl, inr, Bool-cases,
  arith,
}
use data_pipeline_async.Records.Row.{
  Record, Order, by_id, by_id_desc, by_timestamp, by_timestamp_desc, before,
}
use data_pipeline_async.Records.Database.{IsSorted}

place : Order → Record → List Record → List Record
place o x [] = x ∷ []
place o x (y ∷ ys) = if before o x y then x ∷ y ∷ ys else y ∷ place o x ys

unfoldable pub sort : Order → List Record → List Record
unfolding place
sort o [] = []
sort o (x ∷ xs) = place o x (sort o xs)

place-counts :
    (o : Order) (x : Record) (ys : List Record) (p : Record → Bool)
    → count_if p (place o x ys) ≡ count_if p (x ∷ ys)
unfolding place
place-counts o x [] p = refl
place-counts o x (y ∷ ys) p = ground (arith, place-counts o x ys p)

pub sort_counts :
    (o : Order) (xs : List Record) (p : Record → Bool) → count_if p (sort o xs) ≡ count_if p xs
unfolding sort
sort_counts o [] p = refl
sort_counts o (x ∷ xs) p = omega (arith, place-counts o x (sort o xs) p, sort_counts o xs p)

before_total : (o : Order) (x y : Record) → before o x y ≡ false → before o y x ≡ true
before_total by_id x y h = ground arith
before_total by_id_desc x y h = ground arith
before_total by_timestamp x y h = ground arith
before_total by_timestamp_desc x y h = ground arith

before_trans :
    (o : Order) (x y z : Record) → before o x y ≡ true → before o y z ≡ true → before o x z ≡ true
before_trans by_id x y z h k = ground arith
before_trans by_id_desc x y z h k = ground arith
before_trans by_timestamp x y z h k = ground arith
before_trans by_timestamp_desc x y z h k = ground arith

All-trans :
    (o : Order) (x y : Record) (zs : List Record)
    → before o x y ≡ true
    → All (λ z. before o y z ≡ true) zs
    → All (λ z. before o x z ≡ true) zs
All-trans o x y [] h k = tt
All-trans o x y (z ∷ zs) h k = (before_trans o x y z h k.0, All-trans o x y zs h k.1)

place-All :
    (o : Order) (w x : Record) (ys : List Record)
    → before o w x ≡ true
    → All (λ z. before o w z ≡ true) ys
    → All (λ z. before o w z ≡ true) (place o x ys)
unfolding place
place-All o w x [] h k = (h, tt)
place-All o w x (y ∷ ys) h k = elim (Bool-cases (before o x y)) [
  | inl e ↦ rw e (h, k)
  | inr e ↦ rw e (k.0, place-All o w x ys h k.1)
]

place-sorts :
    (o : Order) (x : Record) (ys : List Record) → IsSorted o ys → IsSorted o (place o x ys)
unfolding place
place-sorts o x [] s = (tt, tt)
place-sorts o x (y ∷ ys) s = elim (Bool-cases (before o x y)) [
  | inl e ↦ rw e ((e, All-trans o x y ys e s.0), s)
  | inr e ↦ rw e (place-All o y x ys (before_total o x y e) s.0, place-sorts o x ys s.1)
]

pub sort_sorts : (o : Order) (xs : List Record) → IsSorted o (sort o xs)
unfolding sort
sort_sorts o [] = tt
sort_sorts o (x ∷ xs) = place-sorts o x (sort o xs) (sort_sorts o xs)
