-- ===== src/Events/Rows.antt =====
-- The rows of `ProcessedEvent` (ingestor/storage/events.py) by id and by key, as rows are added and
-- replaced.
use data_pipeline_async.Base.{
  ℕ, ◌≤◌, ◌≡◌, refl, sym, ap, ◌∙◌, inl, inr, Bool, true, false, some, List, [], ◌∷◌, ◌++◌, keep,
  count_if, count_if-append, eqb, eqb_iff, Text, text_key, text_beq_iff, ◌==◌, ==_refl, Bool-cases,
  arith,
}
use mathlib.Core.Option.{some-injective}
use data_pipeline_async.Events.{
  NewEvent, ProcessedEvent, new_event, event_has_id, event_has_key, find_event, any_event,
  replace_event,
}
use data_pipeline_async.Events.Marks.{find-replace, find-replace_other, find-absent}

-- The primary key.
abbrev pub HasDistinctIds : List ProcessedEvent → Type 0
HasDistinctIds events = (id : ℕ) → count_if (event_has_id id) events ≤ 1

count-absent :
    (p : ProcessedEvent → Bool) (events : List ProcessedEvent)
    → any_event p events ≡ false
    → count_if p events ≡ 0
count-absent p [] h = refl
count-absent p (e ∷ events) h = ground (arith, h, count-absent p events)

keep-none :
    (p : ProcessedEvent → Bool) (events : List ProcessedEvent)
    → count_if p events ≡ 0
    → keep p events ≡ []
keep-none p [] h = refl
keep-none p (e ∷ events) h = ground (arith, h, keep-none p events)

find-append :
    (p : ProcessedEvent → Bool) (events more : List ProcessedEvent) (row : ProcessedEvent)
    → find_event p events ≡ some row
    → find_event p (events ++ more) ≡ some row
find-append p [] more row h = absurd (ground (arith, h))
find-append p (e ∷ events) more row h = ground (arith, h, find-append p events more row)

find-counted :
    (p q : ProcessedEvent → Bool) (events : List ProcessedEvent) (row : ProcessedEvent)
    → find_event p events ≡ some row
    → q row ≡ true
    → 1 ≤ count_if q events
find-counted p q [] row h k = absurd (ground (arith, h))
find-counted p q (e ∷ events) row h k = elim (Bool-cases (p e)) [
  | inl hit ↦
      let same : e ≡ row = some-injective e row (sym (rw hit refl) ∙ h) in
      ground (arith, ap q same ∙ k)
  | inr miss ↦
      let later : find_event p events ≡ some row = sym (rw miss refl) ∙ h in
      ground (arith, find-counted p q events row later k)
]

-- A row that a lookup by id finds, if it is the only one with its key, is what the key selects.
pub keep-found :
    (p q : ProcessedEvent → Bool) (events : List ProcessedEvent) (row : ProcessedEvent)
    → find_event p events ≡ some row
    → q row ≡ true
    → count_if q events ≤ 1
    → keep q events ≡ row ∷ []
keep-found p q [] row h k few = absurd (ground (arith, h))
keep-found p q (e ∷ events) row h k few = elim (Bool-cases (p e)) [
  | inl hit ↦
      let same : e ≡ row = some-injective e row (sym (rw hit refl) ∙ h) in
      let this : q e ≡ true = ap q same ∙ k in
      rw (this, keep-none q events (ground (arith, this, few))) (ap (λ x. x ∷ []) same)
  | inr miss ↦
      let later : find_event p events ≡ some row = sym (rw miss refl) ∙ h in
      let more = find-counted p q events row later k in
      let skipped : q e ≡ false = ground (arith, few, more) in
      rw skipped (keep-found p q events row later k (ground (arith, few)))
]

replace-none :
    (x : ProcessedEvent) (events : List ProcessedEvent)
    → count_if (event_has_id x.id) events ≡ 0
    → replace_event x events ≡ events
replace-none x [] h = refl
replace-none x (e ∷ events) h = ground (arith, h, replace-none x events)

count-replace_id :
    (x : ProcessedEvent) (id : ℕ) (events : List ProcessedEvent)
    → count_if (event_has_id id) (replace_event x events) ≡ count_if (event_has_id id) events
count-replace_id x id [] = refl
count-replace_id x id (e ∷ events) =
    ground
      (arith, count-replace_id x id events, eqb_iff e.id x.id, eqb_iff e.id id, eqb_iff x.id id)

-- A new version of a row with the same event leaves the number of rows with a key.
count-replace_key :
    (x y : ProcessedEvent) (key : Text) (events : List ProcessedEvent)
    → find_event (event_has_id x.id) events ≡ some y
    → x.event ≡ y.event
    → count_if (event_has_id x.id) events ≤ 1
    → count_if (event_has_key key) (replace_event x events) ≡ count_if (event_has_key key) events
count-replace_key x y key [] h same few = absurd (ground (arith, h))
count-replace_key x y key (e ∷ events) h same few = elim (Bool-cases (event_has_id x.id e)) [
  | inl hit ↦
      let found : e ≡ y = some-injective e y (sym (rw hit refl) ∙ h) in
      let alike : event_has_key key x ≡ event_has_key key e =
        ap (λ n. n.idempotency_key == key) (same ∙ ap (λ r. r.event) (sym found)) in
      rw (hit, replace-none x events (ground (arith, hit, few)), alike) refl
  | inr miss ↦
      let later : find_event (event_has_id x.id) events ≡ some y = sym (rw miss refl) ∙ h in
      rw (miss, count-replace_key x y key events later same (ground (arith, miss, few))) refl
]

-- The row of an event: the one with its id, and the only one with its key.
pub record Holds (id : ℕ) (e : NewEvent) (events : List ProcessedEvent) : Type 0 where
  pub row : ProcessedEvent
  pub found : find_event (event_has_id id) events ≡ some row
  pub same : row.event ≡ e
  pub distinct : HasDistinctIds events
  pub single : count_if (event_has_key e.idempotency_key) events ≤ 1

Holds-counted :
    (id : ℕ) (e : NewEvent) (events : List ProcessedEvent)
    → Holds id e events
    → 1 ≤ count_if (event_has_key e.idempotency_key) events
Holds-counted id e events h =
    find-counted (event_has_id id) (event_has_key e.idempotency_key) events h.row h.found
      (ap (λ n. n.idempotency_key == e.idempotency_key) h.same ∙ ==_refl e.idempotency_key)

append-distinct :
    (x : ProcessedEvent) (events : List ProcessedEvent)
    → any_event (event_has_id x.id) events ≡ false
    → HasDistinctIds events
    → HasDistinctIds (events ++ x ∷ [])
append-distinct x events fresh distinct j = elim (Bool-cases (eqb x.id j)) [
  | inl own ↦
      let none_there : count_if (event_has_id j) events ≡ 0 =
        ap (λ i. count_if (event_has_id i) events) (sym ((eqb_iff x.id j).0 own))
        ∙ count-absent (event_has_id x.id) events fresh in
      ground (arith, count_if-append (event_has_id j) events (x ∷ []), none_there)
  | inr other ↦ ground (arith, count_if-append (event_has_id j) events (x ∷ []), distinct j, other)
]

pub append-Holds :
    (id : ℕ) (e : NewEvent) (x : ProcessedEvent) (events : List ProcessedEvent)
    → any_event (event_has_id x.id) events ≡ false
    → any_event (event_has_key x.event.idempotency_key) events ≡ false
    → Holds id e events
    → Holds id e (events ++ x ∷ [])
append-Holds id e x events fresh new h = record {
  row = h.row;
  found = find-append (event_has_id id) events (x ∷ []) h.row h.found;
  same = h.same;
  distinct = append-distinct x events fresh h.distinct;
  single = elim (Bool-cases (event_has_key e.idempotency_key x)) [
    | inl clash ↦
        let none_there : count_if (event_has_key e.idempotency_key) events ≡ 0 =
          ap (λ k. count_if (event_has_key k) events)
            (sym ((text_beq_iff x.event.idempotency_key e.idempotency_key).0 clash))
          ∙ count-absent (event_has_key x.event.idempotency_key) events new in
        absurd (omega (arith, none_there, Holds-counted id e events h))
    | inr other ↦
        ground (
          arith,
          count_if-append (event_has_key e.idempotency_key) events (x ∷ []),
          h.single,
          other,
        )
  ];
}

pub replace-Holds :
    (id : ℕ) (e : NewEvent) (x y : ProcessedEvent) (events : List ProcessedEvent)
    → find_event (event_has_id x.id) events ≡ some y
    → x.event ≡ y.event
    → Holds id e events
    → Holds id e (replace_event x events)
replace-Holds id e x y events found kept h =
    let distinct : HasDistinctIds (replace_event x events) =
      λ j. omega (arith, count-replace_id x j events, h.distinct j) in
    let single : count_if (event_has_key e.idempotency_key) (replace_event x events) ≤ 1 = omega (
      arith,
      count-replace_key x y e.idempotency_key events found kept (h.distinct x.id),
      h.single,
    ) in
    elim (Bool-cases (eqb x.id id)) [
      | inl own ↦
          let here : x.id ≡ id = (eqb_iff x.id id).0 own in
          let old : y ≡ h.row =
            some-injective y h.row
              (sym found ∙ ap (λ i. find_event (event_has_id i) events) here ∙ h.found) in
          record {
            row = x;
            found =
                ap (λ i. find_event (event_has_id i) (replace_event x events)) (sym here)
                ∙ find-replace x y events found;
            same = kept ∙ ap (λ r. r.event) old ∙ h.same;
            distinct = distinct;
            single = single;
          }
      | inr other ↦ record {
        row = h.row;
        found = find-replace_other x id events other ∙ h.found;
        same = h.same;
        distinct = distinct;
        single = single;
      }
    ]

pub find-any :
    (p q : ProcessedEvent → Bool) (events : List ProcessedEvent) (row : ProcessedEvent)
    → find_event p events ≡ some row
    → q row ≡ true
    → any_event q events ≡ true
find-any p q events row h k = elim (Bool-cases (any_event q events)) [
  | inl there ↦ there
  | inr absent ↦
      absurd (omega (arith, count-absent q events absent, find-counted p q events row h k))
]

pub new-Holds :
    (id : ℕ) (e : NewEvent) (events : List ProcessedEvent)
    → any_event (event_has_id id) events ≡ false
    → any_event (event_has_key e.idempotency_key) events ≡ false
    → HasDistinctIds events
    → Holds id e (events ++ new_event id e ∷ [])
new-Holds id e events fresh new distinct = record {
  row = new_event id e;
  found = find-absent (event_has_id id) events (new_event id e) fresh ((eqb_iff id id).1 refl);
  same = refl;
  distinct = append-distinct (new_event id e) events fresh distinct;
  single = ground (
    arith,
    count_if-append (event_has_key e.idempotency_key) events (new_event id e ∷ []),
    count-absent (event_has_key e.idempotency_key) events new,
  );
}
