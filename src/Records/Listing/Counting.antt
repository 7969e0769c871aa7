-- ===== src/Records/Listing/Counting.antt =====
-- Counting and splitting lists of rows, for the cursor pages of ingestor/crud.py.
use data_pipeline_async.Base.{
  ℕ, zero, suc, ◌+◌, ◌≤◌, ◌<◌, ◌≡◌, ◌≢◌, refl, Bool, true, false, not, ◌&&◌, some, List, [], ◌∷◌,
  ◌++◌, length, take, drop, keep, count_if, All, arith,
}
use data_pipeline_async.Records.Row.{Record, has_id, before, by_timestamp}
use data_pipeline_async.Records.Database.{IsSorted, HasDistinctIds}
use data_pipeline_async.Records.Listing.{is_after, last_of, position_of}

pub All-append {ℓ} :
    {A : Type 0} (P : A → Type ℓ) (xs ys : List A) → All P xs → All P ys → All P (xs ++ ys)
All-append P [] ys h k = k
All-append P (x ∷ xs) ys h k = (h.0, All-append P xs ys h.1 k)

pub All-map {ℓ κ} :
    {A : Type 0} (P : A → Type ℓ) (Q : A → Type κ) (f : (x : A) → P x → Q x) (xs : List A)
    → All P xs
    → All Q xs
All-map P Q f [] h = tt
All-map P Q f (x ∷ xs) h = (f x h.0, All-map P Q f xs h.1)

pub All-take {ℓ} :
    {A : Type 0} (P : A → Type ℓ) (n : ℕ) (xs : List A) → All P xs → All P (take n xs)
All-take P zero xs h = tt
All-take P (suc n) [] h = tt
All-take P (suc n) (x ∷ xs) h = (h.0, All-take P n xs h.1)

-- No element fails the test.
pub All-of_count :
    (p : Record → Bool) (xs : List Record)
    → count_if (λ x. not (p x)) xs ≡ 0
    → All (λ x. p x ≡ true) xs
All-of_count p [] h = tt
All-of_count p (x ∷ xs) h = (ground arith, All-of_count p xs (ground arith))

pub count-and_All :
    (p q : Record → Bool) (xs : List Record)
    → All (λ x. p x ≡ true) xs
    → count_if (λ x. q x && p x) xs ≡ count_if q xs
count-and_All p q [] h = refl
count-and_All p q (x ∷ xs) h = ground (arith, count-and_All p q xs h.1)

pub count-and_none :
    (p q : Record → Bool) (xs : List Record)
    → All (λ x. p x ≡ false) xs
    → count_if (λ x. q x && p x) xs ≡ 0
count-and_none p q [] h = refl
count-and_none p q (x ∷ xs) h = ground (arith, count-and_none p q xs h.1)

pub count-keep :
    (p q : Record → Bool) (xs : List Record)
    → count_if q (keep p xs) ≡ count_if (λ x. p x && q x) xs
count-keep p q [] = refl
count-keep p q (x ∷ xs) = ground (arith, count-keep p q xs)

pub count-le_and :
    (p q : Record → Bool) (xs : List Record) → count_if (λ x. p x && q x) xs ≤ count_if q xs
count-le_and p q [] = omega arith
count-le_and p q (x ∷ xs) = ground (arith, count-le_and p q xs)

pub count-ext :
    (p q : Record → Bool) (same : (x : Record) → p x ≡ q x) (xs : List Record)
    → count_if p xs ≡ count_if q xs
count-ext p q same [] = refl
count-ext p q same (x ∷ xs) = ground (arith, same x, count-ext p q same xs)

pub count-take-drop :
    (p : Record → Bool) (n : ℕ) (xs : List Record)
    → count_if p (take n xs) + count_if p (drop n xs) ≡ count_if p xs
count-take-drop p zero xs = omega arith
count-take-drop p (suc n) [] = omega arith
count-take-drop p (suc n) (x ∷ xs) = omega (arith, count-take-drop p n xs)

pub last-All {ℓ} :
    (P : Record → Type ℓ) (n : ℕ) (xs : List Record) (r : Record)
    → last_of (take n xs) ≡ some r
    → All P xs
    → P r
last-All P zero xs r e h = cc
last-All P (suc n) [] r e h = cc
last-All P (suc zero) (x ∷ xs) r e h = let same : x ≡ r = cc in rw (← same) h.0
last-All P (suc (suc n)) (x ∷ []) r e h = let same : x ≡ r = cc in rw (← same) h.0
last-All P (suc (suc n)) (x ∷ y ∷ xs) r e h = last-All P (suc n) (y ∷ xs) r e h.1

other-ids : (id : ℕ) (xs : List Record) → count_if (has_id id) xs ≡ 0 → All (λ x. x.id ≢ id) xs
other-ids id [] h = tt
other-ids id (x ∷ xs) h = (ground arith, other-ids id xs (ground arith))

-- A row that may stand behind another, of another id, lies behind its position.
behind :
    (x y : Record)
    → before by_timestamp x y ≡ true
    → y.id ≢ x.id
    → is_after (some (position_of x)) y ≡ true
behind x y h ne = ground arith

All-behind :
    (x : Record) (ys : List Record)
    → All (λ y. before by_timestamp x y ≡ true) ys
    → All (λ y. y.id ≢ x.id) ys
    → All (λ y. is_after (some (position_of x)) y ≡ true) ys
All-behind x [] h ne = tt
All-behind x (y ∷ ys) h ne = (behind x y h.0 ne.0, All-behind x ys h.1 ne.1)

-- The last row of a page divides the sorted rows: none of the page lies behind its position, and all
-- of the rest do.
pub page-divides :
    (n : ℕ) (xs : List Record) (r : Record)
    → IsSorted by_timestamp xs
    → HasDistinctIds xs
    → last_of (take n xs) ≡ some r
    → All (λ x. is_after (some (position_of r)) x ≡ false) (take n xs)
      × All (λ x. is_after (some (position_of r)) x ≡ true) (drop n xs)
page-divides zero xs r s d e = cc
page-divides (suc n) [] r s d e = cc
page-divides (suc zero) (x ∷ xs) r s d e =
    let same : x ≡ r = cc in
    rw (← same)
      ((ground arith, tt), All-behind x xs s.0 (other-ids x.id xs (ground (arith, d x.id))))
page-divides (suc (suc n)) (x ∷ []) r s d e =
    let same : x ≡ r = cc in rw (← same) ((ground arith, tt), tt)
page-divides (suc (suc n)) (x ∷ y ∷ xs) r s d e =
    let (not_behind, rest) = page-divides (suc n) (y ∷ xs) r s.1 (λ id. omega (arith, d id)) e in
    let ahead : before by_timestamp x r ≡ true =
      last-All (λ z. before by_timestamp x z ≡ true) (suc n) (y ∷ xs) r e s.0 in
    ((ground arith, not_behind), rest)

pub take-take : (n : ℕ) (xs : List Record) → take n (take (n + 1) xs) ≡ take n xs
take-take n xs = let e : n + 1 ≡ suc n = omega arith in rw e (go n xs)
  where
    go : (n : ℕ) (xs : List Record) → take n (take (suc n) xs) ≡ take n xs
    go zero xs = refl
    go (suc n) [] = refl
    go (suc n) (x ∷ xs) = ground (arith, go n xs)

pub take-all : (n : ℕ) (xs : List Record) → length xs ≤ n → take n xs ≡ xs
take-all zero [] h = refl
take-all zero (x ∷ xs) h = absurd (omega arith)
take-all (suc n) [] h = refl
take-all (suc n) (x ∷ xs) h = ground (arith, take-all n xs)

pub last-take :
    (n : ℕ) (xs : List Record)
    → 0 < n
    → 0 < length xs
    → (r : Record) × (last_of (take n xs) ≡ some r)
last-take zero xs h k = absurd (omega arith)
last-take (suc n) [] h k = absurd (omega arith)
last-take (suc zero) (x ∷ xs) h k = (x, refl)
last-take (suc (suc n)) (x ∷ []) h k = (x, refl)
last-take (suc (suc n)) (x ∷ y ∷ xs) h k = last-take (suc n) (y ∷ xs) (omega arith) (omega arith)

-- Rows that do not lie behind a position, before rows that do.
pub IsSorted-append :
    (r : Record) (xs ys : List Record)
    → IsSorted by_timestamp xs
    → IsSorted by_timestamp ys
    → All (λ x. is_after (some (position_of r)) x ≡ false) xs
    → All (λ y. is_after (some (position_of r)) y ≡ true) ys
    → IsSorted by_timestamp (xs ++ ys)
IsSorted-append r [] ys s t a b = t
IsSorted-append r (x ∷ xs) ys s t a b = (
  All-append (λ y. before by_timestamp x y ≡ true) xs ys s.0
      (All-map (λ y. is_after (some (position_of r)) y ≡ true) (λ y. before by_timestamp x y ≡ true)
        (λ y h. in_order x y a.0 h) ys b),
  IsSorted-append r xs ys s.1 t a.1 b,
)
  where
    in_order :
        (x y : Record)
        → is_after (some (position_of r)) x ≡ false
        → is_after (some (position_of r)) y ≡ true
        → before by_timestamp x y ≡ true
    in_order x y h k = ground arith

pub IsSorted-take :
    (n : ℕ) (xs : List Record) → IsSorted by_timestamp xs → IsSorted by_timestamp (take n xs)
IsSorted-take zero xs s = tt
IsSorted-take (suc n) [] s = tt
IsSorted-take (suc n) (x ∷ xs) s =
    (All-take (λ y. before by_timestamp x y ≡ true) n xs s.0, IsSorted-take n xs s.1)
