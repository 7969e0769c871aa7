-- ===== src/Records/Lookup.antt =====
-- Lookups in lists of rows of which at most one has a property (Records/Database).
use data_pipeline_async.Base.{
  ℕ, ◌≤◌, ◌≡◌, ◌≢◌, refl, Bool, true, false, not, ◌&&◌, none, some, List, [], ◌∷◌, ◌++◌, count_if,
  keep, if◌then◌else◌, eqb_iff, text_beq_iff, arith, Bool-cases, inl, inr, count_if-append,
}
use data_pipeline_async.Records.Row.{Record, has_id, has_key}
use data_pipeline_async.Records.Database.{find, any, replace, clashes, HasDistinctKeys}

pub find-holds :
    (p : Record → Bool) (rows : List Record) (r : Record) → find p rows ≡ some r → p r ≡ true
find-holds p [] r h = cc
find-holds p (x ∷ rows) r h = ground (arith, find-holds p rows r)

pub find-count :
    (p : Record → Bool) (rows : List Record) (r : Record)
    → find p rows ≡ some r
    → 1 ≤ count_if p rows
find-count p [] r h = cc
find-count p (x ∷ rows) r h = ground (arith, find-count p rows r)

pub any-count : (p : Record → Bool) (rows : List Record) → any p rows ≡ true → 1 ≤ count_if p rows
any-count p [] h = cc
any-count p (x ∷ rows) h = ground (arith, any-count p rows)

pub any-find :
    (p : Record → Bool) (rows : List Record) (r : Record) → find p rows ≡ some r → any p rows ≡ true
any-find p [] r h = cc
any-find p (x ∷ rows) r h = ground (arith, any-find p rows r)

pub find-none : (p : Record → Bool) (rows : List Record) → any p rows ≡ false → find p rows ≡ none
find-none p [] h = refl
find-none p (x ∷ rows) h = ground (arith, find-none p rows)

keep-none :
    (p q : Record → Bool) (rows : List Record)
    → count_if p rows ≤ 0
    → keep (λ x. p x && q x) rows ≡ []
keep-none p q [] c = refl
keep-none p q (x ∷ rows) c = ground (arith, keep-none p q rows)

-- Of the one row with the property, a filter keeps it or nothing.
pub keep-find :
    (p q : Record → Bool) (rows : List Record) (r : Record)
    → find p rows ≡ some r
    → count_if p rows ≤ 1
    → keep (λ x. p x && q x) rows ≡ (if q r then r ∷ [] else [])
keep-find p q [] r h c = cc
keep-find p q (x ∷ rows) r h c = ground (arith, keep-find p q rows r, keep-none p q rows)

-- The row of an id, behind an UPDATE of it and of another.
pub find-replace_self :
    (id : ℕ) (rows : List Record) (r r' : Record)
    → find (has_id id) rows ≡ some r
    → r'.id ≡ id
    → find (has_id id) (replace r' rows) ≡ some r'
find-replace_self id [] r r' h e = cc
find-replace_self id (x ∷ rows) r r' h e = ground (arith, find-replace_self id rows r r')

pub find-replace_ne :
    (id : ℕ) (rows : List Record) (r : Record)
    → r.id ≢ id
    → find (has_id id) (replace r rows) ≡ find (has_id id) rows
find-replace_ne id [] r e = refl
find-replace_ne id (x ∷ rows) r e = ground (arith, find-replace_ne id rows r e)

pub count-replace :
    (id : ℕ) (rows : List Record) (r : Record)
    → count_if (has_id id) (replace r rows) ≡ count_if (has_id id) rows
count-replace id [] r = refl
count-replace id (x ∷ rows) r = ground (arith, count-replace id rows r)

pub replace-replace :
    (rows : List Record) (r : Record) → replace r (replace r rows) ≡ replace r rows
replace-replace [] r = refl
replace-replace (x ∷ rows) r = ground (arith, replace-replace rows r)

any-and :
    (p q : Record → Bool) (rows : List Record)
    → any (λ x. p x && q x) rows ≡ true
    → 1 ≤ count_if q rows
any-and p q [] h = cc
any-and p q (x ∷ rows) h = ground (arith, any-and p q rows)

find-count_of :
    (p q : Record → Bool) (rows : List Record) (r : Record)
    → find p rows ≡ some r
    → q r ≡ true
    → 1 ≤ count_if q rows
find-count_of p q [] r h k = cc
find-count_of p q (x ∷ rows) r h k = ground (arith, find-count_of p q rows r)

-- A row that keeps its constrained columns clashes with no other.
clash-count :
    (p q : Record → Bool) (rows : List Record) (r : Record)
    → find p rows ≡ some r
    → q r ≡ true
    → any (λ x. not (p x) && q x) rows ≡ true
    → 2 ≤ count_if q rows
clash-count p q [] r h k c = cc
clash-count p q (x ∷ rows) r h k c =
    ground
      (arith, clash-count p q rows r, any-and (λ y. not (p y)) q rows, find-count_of p q rows r)

pub no-clash :
    (rows : List Record) (r r' : Record)
    → HasDistinctKeys rows
    → find (has_id r'.id) rows ≡ some r
    → has_key r'.source r'.timestamp r ≡ true
    → clashes r' rows ≡ false
no-clash rows r r' d h k = elim (Bool-cases (clashes r' rows)) [
  | inl clash ↦ absurd (
      omega (
        arith,
        d r'.source r'.timestamp,
        clash-count (has_id r'.id) (has_key r'.source r'.timestamp) rows r h k clash,
      ))
  | inr free ↦ free
]

pub has_key_self : (r : Record) → has_key r.source r.timestamp r ≡ true
has_key_self r = ground (arith, text_beq_iff r.source r.source, eqb_iff r.timestamp r.timestamp)

-- A row at the end of a table of distinct ids is found by its id.
pub find-append :
    (xs : List Record) (r : Record) (ys : List Record)
    → count_if (has_id r.id) (xs ++ r ∷ ys) ≤ 1
    → find (has_id r.id) (xs ++ r ∷ ys) ≡ some r
find-append [] r ys d = ground arith
find-append (x ∷ xs) r ys d =
    ground (arith, find-append xs r ys, count_if-append (has_id r.id) xs (r ∷ ys))

pub find-removed :
    (id : ℕ) (rows : List Record) → find (has_id id) (keep (λ r. not (has_id id r)) rows) ≡ none
find-removed id [] = refl
find-removed id (x ∷ rows) = ground (arith, find-removed id rows)

pub find-others :
    (id other : ℕ) (rows : List Record)
    → id ≢ other
    → find (has_id other) (keep (λ r. not (has_id id r)) rows) ≡ find (has_id other) rows
find-others id other [] ne = refl
find-others id other (x ∷ rows) ne = ground (arith, find-others id other rows ne)

pub keep-absent :
    (p q : Record → Bool) (rows : List Record)
    → find p rows ≡ none
    → keep (λ x. p x && q x) rows ≡ []
keep-absent p q [] h = refl
keep-absent p q (x ∷ rows) h = ground (arith, keep-absent p q rows)

pub any-none : (p : Record → Bool) (rows : List Record) → find p rows ≡ none → any p rows ≡ false
any-none p [] h = refl
any-none p (x ∷ rows) h = ground (arith, any-none p rows)

pub find-last :
    (p : Record → Bool) (rows : List Record) (r : Record)
    → find p rows ≡ none
    → p r ≡ true
    → find p (rows ++ r ∷ []) ≡ some r
find-last p [] r h k = rw k
find-last p (x ∷ rows) r h k = ground (arith, find-last p rows r)
