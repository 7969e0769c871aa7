-- ===== src/Requests/Checked.antt =====
-- What the validators of ingestor/schemas.py guarantee to the code behind them.
use mathlib.Core.Option.{some-injective}
use data_pipeline_async.Base.{
  ℕ, ◌≤◌, ◌≡◌, refl, sym, ap, ◌∙◌, Bool, true, false, ◌&&◌, Option, none, some, List, [], ◌∷◌, map,
  length, ltb, leb, Text, if◌then◌else◌, if-true, if-false, arith,
}
use data_pipeline_async.Records.{RecordRequest}
use data_pipeline_async.Records.Crud.{UpdateRecordRequest}
use data_pipeline_async.Requests.{
  Datetime, Given, datetime, RawRequest, RawUpdate, normalize_timestamp, parsed, is_forbidden,
  source_min_length, source_max_length, tags_max_count, validate_timestamp, checked_timestamp,
  timestamp_or_now, validate_source, validate_tags, validate_request, validate_update, optional,
  ◌>>=◌,
}

-- A request as it is passed on: its own fields, given again.
abbrev pub raw_of : RecordRequest → RawRequest
raw_of r = record {
  source = r.source;
  timestamp = some (datetime (record { clock = r.timestamp; tzinfo = none }));
  document = r.document;
  tags = r.tags;
}

-- A do block that has a result had one in each step.
bind-some :
    {A B : Type 0} (o : Option A) (f : A → Option B) (b : B)
    → (o >>= f) ≡ some b
    → (a : A) × (o ≡ some a) × (f a ≡ some b)
bind-some none f b e = absurd (ground (arith, e))
bind-some (some a) f b e = (a, refl, e)

checked_timestamp-le :
    (now t : ℕ) (d : Option Datetime) → checked_timestamp now d ≡ some t → t ≤ now
checked_timestamp-le now t none e = absurd (ground (arith, e))
checked_timestamp-le now t (some d) e = ground (arith, e)

then-some :
    {A : Type 0} (b : Bool) (o : Option A) (v : A)
    → (if b then o else none) ≡ some v
    → (b ≡ true) × (o ≡ some v)
then-some true o v e = (refl, e)
then-some false o v e = absurd (ground (arith, e))

else-some :
    {A : Type 0} (b : Bool) (x v : A)
    → (if b then none else some x) ≡ some v
    → (b ≡ false) × (x ≡ v)
else-some true x v e = absurd (ground (arith, e))
else-some false x v e = (refl, some-injective x v e)

length-map : (f : Text → Text) (ts : List Text) → length (map f ts) ≡ length ts
length-map f [] = refl
length-map f (t ∷ ts) = omega (arith, length-map f ts)

map_idempotent :
    (f : Text → Text) (ts : List Text) → ((t : Text) → f (f t) ≡ f t) → map f (map f ts) ≡ map f ts
map_idempotent f [] h = refl
map_idempotent f (t ∷ ts) h = ground (arith, h t, map_idempotent f ts h)

module _ (lower : Text → Text) where
  validate_source-some :
      (s v : Text)
      → validate_source lower s ≡ some v
      → (s ≡ v)
        × (is_forbidden (lower s) ≡ false)
        × (source_min_length ≤ length s)
        × (length s ≤ source_max_length)
  validate_source-some s v e =
      let (bounds, e1) =
        then-some (leb source_min_length (length s) && leb (length s) source_max_length) _ v e in
      let (free, same) = else-some (is_forbidden (lower s)) s v e1 in
      (same, free, ground (arith, bounds), ground (arith, bounds))

  validate_tags-some :
      (tags v : List Text)
      → validate_tags lower tags ≡ some v
      → (v ≡ map lower tags) × (length tags ≤ tags_max_count)
  validate_tags-some tags v e =
      let (bound, e1) = then-some (leb (length tags) tags_max_count) _ v e in
      (sym (some-injective _ v e1), ground (arith, bound))

  validate_tags-again :
      (tags v : List Text)
      → ((t : Text) → lower (lower t) ≡ lower t)
      → validate_tags lower tags ≡ some v
      → validate_tags lower v ≡ some v
  validate_tags-again tags v h e =
      let (same, bound) = validate_tags-some tags v e in
      let fits : leb (length v) tags_max_count ≡ true =
        ground (arith, bound, ap length same, length-map lower tags) in
      if-true (leb (length v) tags_max_count) _ _ fits
      ∙ ap (λ ts. some (map lower ts)) same
      ∙ ap some (map_idempotent lower tags h ∙ sym same)

module _ (lower : Text → Text) (parse : Text → Option Datetime) where
  timestamp_or_now-le :
      (now t : ℕ) (given : Option Given) → timestamp_or_now parse now given ≡ some t → t ≤ now
  timestamp_or_now-le now t none e = ground (arith, e)
  timestamp_or_now-le now t (some given) e =
      checked_timestamp-le now t (parsed parse (normalize_timestamp given)) e

  -- The fields of an accepted request are the validated ones.
  abbrev Accepts : ℕ → RawRequest → RecordRequest → Type 0
  Accepts now raw r =
      (validate_source lower raw.source ≡ some r.source)
      × (timestamp_or_now parse now raw.timestamp ≡ some r.timestamp)
      × (validate_tags lower raw.tags ≡ some r.tags)
      × (raw.document ≡ r.document)

  validate_request-Accepts :
      (now : ℕ) (raw : RawRequest) (r : RecordRequest)
      → validate_request lower parse now raw ≡ some r
      → Accepts now raw r
  unfolding validate_request
  validate_request-Accepts now raw r e =
      let (source, checked_source, e1) = bind-some (validate_source lower raw.source) _ r e in
      let (timestamp, checked_time, e2) =
        bind-some (timestamp_or_now parse now raw.timestamp) _ r e1 in
      let (tags, checked_tags, e3) = bind-some (validate_tags lower raw.tags) _ r e2 in
      let same = some-injective _ r e3 in
      (
        checked_source ∙ ap (λ x. some x.source) same,
        checked_time ∙ ap (λ x. some x.timestamp) same,
        checked_tags ∙ ap (λ x. some x.tags) same,
        ap (λ x. x.document) same,
      )

  in_steps :
      (source : Option Text) (timestamp : Option ℕ) (tags : Option (List Text)) (r : RecordRequest)
      → source ≡ some r.source
      → timestamp ≡ some r.timestamp
      → tags ≡ some r.tags
      → (source >>= λ s. timestamp >>= λ t. tags >>= λ ts.
          some (record { source = s; timestamp = t; document = r.document; tags = ts }))
        ≡ some r
  in_steps source timestamp tags r es et eg = rw (es, et, eg) refl

  -- An accepted request has the source and document that were given, the source of 1 to 255 code
  -- points and, lowered, no reserved address, a timestamp that is not in the future, and the lowered
  -- tags, at most ten of them.
  pub accepted_request :
      (now : ℕ) (raw : RawRequest) (r : RecordRequest)
      → validate_request lower parse now raw ≡ some r
      → (r.source ≡ raw.source)
        × (is_forbidden (lower r.source) ≡ false)
        × (source_min_length ≤ length r.source)
        × (length r.source ≤ source_max_length)
        × (r.timestamp ≤ now)
        × (r.tags ≡ map lower raw.tags)
        × (length r.tags ≤ tags_max_count)
        × (r.document ≡ raw.document)
  accepted_request now raw r e =
      let (source, time, tags, document) = validate_request-Accepts now raw r e in
      let (same, free, least, most) = validate_source-some lower raw.source r.source source in
      let (lowered, few) = validate_tags-some lower raw.tags r.tags tags in
      (
        sym same,
        ap (λ s. is_forbidden (lower s)) (sym same) ∙ free,
        omega (arith, ap length same, least),
        omega (arith, ap length same, most),
        timestamp_or_now-le now r.timestamp raw.timestamp time,
        lowered,
        omega (arith, ap length lowered, length-map lower raw.tags, few),
        sym document,
      )

  -- If lowering twice is lowering once, an accepted request passes the validators again, unchanged,
  -- then and at any later time.
  pub accepted_again :
      (now later : ℕ) (raw : RawRequest) (r : RecordRequest)
      → ((t : Text) → lower (lower t) ≡ lower t)
      → now ≤ later
      → validate_request lower parse now raw ≡ some r
      → validate_request lower parse later (raw_of r) ≡ some r
  unfolding validate_request
  accepted_again now later raw r h order e =
      let (source, time, tags, document) = validate_request-Accepts now raw r e in
      let same = (validate_source-some lower raw.source r.source source).0 in
      let past = timestamp_or_now-le now r.timestamp raw.timestamp time in
      in_steps (validate_source lower r.source) (timestamp_or_now parse later (raw_of r).timestamp)
        (validate_tags lower r.tags) r (ap (validate_source lower) (sym same) ∙ source)
        (if-false (ltb later r.timestamp) _ _ (ground (arith, past, order)))
        (validate_tags-again lower raw.tags r.tags h tags)

  -- A partial update passes just when each field it has passes, and a field it has not stays absent.
  pub update_checks_fields :
      (now : ℕ) (raw : RawUpdate) (u : UpdateRecordRequest)
      → validate_update lower parse now raw ≡ some u
      → (optional (validate_source lower) raw.source ≡ some u.source)
        × (optional (validate_timestamp parse now) raw.timestamp ≡ some u.timestamp)
        × (optional (validate_tags lower) raw.tags ≡ some u.tags)
        × (raw.document ≡ u.document)
  unfolding validate_update
  update_checks_fields now raw u e =
      let (source, checked_source, e1) =
        bind-some (optional (validate_source lower) raw.source) _ u e in
      let (timestamp, checked_time, e2) =
        bind-some (optional (validate_timestamp parse now) raw.timestamp) _ u e1 in
      let (tags, checked_tags, e3) = bind-some (optional (validate_tags lower) raw.tags) _ u e2 in
      let same = some-injective _ u e3 in
      (
        checked_source ∙ ap (λ x. some x.source) same,
        checked_time ∙ ap (λ x. some x.timestamp) same,
        checked_tags ∙ ap (λ x. some x.tags) same,
        ap (λ x. x.document) same,
      )
