-- ===== src/Auth/Bearer.antt =====
-- The bearer token of ingestor/auth.py.
use data_pipeline_async.Base.{
  ℕ, ◌≡◌, ◌↔◌, refl, sym, ap, ◌∙◌, some, ◌∷◌, [], ◌++◌, Text, text_key, text_beq_iff, ◌==◌, ==_refl,
  if-true, Bool-cases, inl, inr, arith,
}
use data_pipeline_async.Base.Strings.{partition, Lacks, partition-joined, partition_splits}
use data_pipeline_async.Auth.{
  Settings, admitted, refused, bearer, check_token, check_authorization, verify_bearer_token,
}

admitted_value : {A : Type 0} {x y : A} → admitted x ≡ admitted y → x ≡ y
admitted_value {x = x} e = ap (λ v. elim v [ admitted z ↦ z | refused _ ↦ x ]) e

module _ (lower : Text → Text) where
  -- The token behind a scheme that reads bearer.
  abbrev pub Bears : Text → Text → Type 0
  Bears token header =
      (scheme : Text) × (header ≡ scheme ++ b' ' ∷ token)
      × Lacks b' ' scheme
      × (lower scheme ≡ bearer)

  check_token-admits :
      (token x : Text) (p : Text × Text)
      → check_token lower token p ≡ admitted x
      → (lower p.0 ≡ bearer) × (p.1 ≡ token) × (x ≡ token)
  check_token-admits token x (scheme, credentials) e = elim (Bool-cases (lower scheme == bearer)) [
    | inr wrong ↦ absurd (ground (arith, rw wrong at e))
    | inl right ↦ elim (Bool-cases (credentials == token)) [
      | inr wrong ↦ absurd (ground (arith, rw (right, wrong) at e))
      | inl same ↦
          let value = (text_beq_iff credentials token).0 same in
          (
            (text_beq_iff (lower scheme) bearer).0 right,
            value,
            sym (admitted_value (rw (right, same) at e)) ∙ value,
          )
    ]
  ]

  check_authorization-joined :
      (token s u : Text)
      → check_authorization lower token (some (s ++ b' ' ∷ u))
        ≡ check_token lower token (partition b' ' (s ++ b' ' ∷ u))
  check_authorization-joined token [] u = refl
  check_authorization-joined token (c ∷ s) u = refl

  -- Where a token is configured, a header is admitted exactly if it is a word that reads bearer in
  -- lower case, a space and that token; what is passed on is the token.
  pub bearer_admits_exactly :
      (settings : Settings) (c : ℕ) (rest header x : Text)
      → settings.api_v1_bearer_token ≡ some (c ∷ rest)
      → (verify_bearer_token lower settings (some header) ≡ admitted x)
        ↔ (Bears (c ∷ rest) header × (x ≡ c ∷ rest))
  unfolding verify_bearer_token
  bearer_admits_exactly settings c rest header x set = rw set (admits header, joined header)
    where
      admits :
          (h : Text)
          → check_authorization lower (c ∷ rest) (some h) ≡ admitted x
          → Bears (c ∷ rest) h × (x ≡ c ∷ rest)
      admits [] e = absurd (ground (arith, e))
      admits (d ∷ h) e =
          let (scheme, credentials, value) =
            check_token-admits (c ∷ rest) x (partition b' ' (d ∷ h)) e in
          let (whole, lacks) = partition_splits b' ' c (d ∷ h) rest credentials in
          (((partition b' ' (d ∷ h)).0, whole, lacks, scheme), value)

      joined :
          (h : Text)
          → Bears (c ∷ rest) h × (x ≡ c ∷ rest)
          → check_authorization lower (c ∷ rest) (some h) ≡ admitted x
      joined h ((scheme, whole, lacks, right), value) =
          ap (λ s. check_authorization lower (c ∷ rest) (some s)) whole
          ∙ check_authorization-joined (c ∷ rest) scheme (c ∷ rest)
          ∙ ap (check_token lower (c ∷ rest)) (partition-joined b' ' scheme (c ∷ rest) lacks)
          ∙ if-true (lower scheme == bearer) _ _ ((text_beq_iff (lower scheme) bearer).1 right)
          ∙ if-true ((c ∷ rest) == (c ∷ rest)) _ _ (==_refl (c ∷ rest))
          ∙ ap admitted (sym value)
