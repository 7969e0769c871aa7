-- ===== src/RoutesV2/Tokens.antt =====
-- The tokens that ingestor/routers/records_v2.py issues, and the route that they open.
use data_pipeline_async.Base.{
  ℕ, ◌+◌, ◌*◌, ◌/◌, ◌≤◌, ◌<◌, ◌≡◌, refl, sym, ap, ◌∙◌, Bool, true, ◌||◌, some, [], ◌∷◌, ◌++◌, map,
  ltb, Text, text_key, text_beq_iff, ◌==◌, ==_refl, if◌then◌else◌, if-true, if-false, Bool-cases,
  inl, inr, arith,
}
use data_pipeline_async.Base.Dict.{lookup}
use data_pipeline_async.Base.Strings.{partition, Lacks, partition-joined}
use data_pipeline_async.Records.{RecordRequest}
use data_pipeline_async.Records.Database.{Database}
use data_pipeline_async.Records.Crud.{create_record}
use data_pipeline_async.Cache.{RecordResponse}
use data_pipeline_async.Auth.{
  iterable, text, Claims, Settings, Verdict, admitted, refused, Jwt, bearer, writer, admin,
  scope_key, roles_key, role_key, write_scope, extract_roles, shares, or_scope, normalize_roles,
  guarded, verdict_of, token_claims, read_token, create_jwt_token, verify_jwt_token, jwt_role_guard,
}
use data_pipeline_async.Routes.{Response, http_error, respond}
use data_pipeline_async.RoutesV2.{created_answer, issue_jwt_token, create_record_jwt}

first_suffices : (a b c : Bool) → a ≡ true → ((a || b) || c) ≡ true
first_suffices a b c h = rw h refl

module _ (lower : Text → Text) {second : ℕ} (jwt : Jwt second) (settings : Settings) where
  abbrev writer_claims : ℕ → Text → Claims
  writer_claims i user =
      token_claims lower jwt settings i user
        ((scope_key, text write_scope) ∷ (roles_key, iterable (writer ∷ [])) ∷ [])

  -- When an issued token expires: the whole second of the time that it names.
  abbrev pub expiry : ℕ → ℕ
  expiry i = ((i + settings.jwt_expiry_minutes * (60 * second)) / second) * second

  -- A header that bears a token is read as what the token decodes to.
  verify-borne :
      (now : ℕ) (scheme token : Text)
      → lower scheme ≡ bearer
      → Lacks b' ' scheme
      → verify_jwt_token lower jwt settings now (some (scheme ++ b' ' ∷ token))
        ≡ verdict_of lower jwt settings (jwt.decode now token settings.jwt_secret)
  unfolding verify_jwt_token
  verify-borne now scheme token right lacks =
      read scheme
      ∙ ap (read_token lower jwt settings now) (partition-joined b' ' scheme token lacks)
      ∙ if-true (lower scheme == bearer) _ _ ((text_beq_iff (lower scheme) bearer).1 right)
    where
      read :
          (s : Text)
          → verify_jwt_token lower jwt settings now (some (s ++ b' ' ∷ token))
            ≡ read_token lower jwt settings now (partition b' ' (s ++ b' ' ∷ token))
      read [] = refl
      read (c ∷ s) = refl

  -- The claims of a writer pass the guard.
  writer_passes :
      (claims : Claims)
      → lookup roles_key claims ≡ some (iterable (writer ∷ []))
      → guarded lower (writer ∷ admin ∷ []) (admitted claims) ≡ admitted claims
  unfolding extract_roles
  writer_passes claims roles =
      if-true (shares (map lower (writer ∷ admin ∷ [])) (extract_roles lower claims)) _ _ (
        ap
          (λ o. shares (map lower (writer ∷ admin ∷ [])) (
            or_scope lower (lookup scope_key claims)
              (normalize_roles lower o ++ normalize_roles lower (lookup role_key claims))))
          roles
        ∙ first_suffices (lower writer == lower writer) _ _ (==_refl (lower writer)))

  guard-valid :
      (i now : ℕ) (user scheme : Text)
      → lower scheme ≡ bearer
      → Lacks b' ' scheme
      → i ≤ now
      → now < expiry i
      → (claims : Claims) × (jwt_role_guard lower jwt settings
            (writer ∷ admin ∷ [])
            now
            (some (scheme ++ b' ' ∷ issue_jwt_token lower jwt settings i user))
          ≡ admitted claims)
  unfolding jwt_role_guard issue_jwt_token create_jwt_token
  guard-valid i now user scheme right lacks le valid =
      let (p, decoded, kept) =
        jwt.decode_valid (writer_claims i user) settings.jwt_secret user i
          (i + settings.jwt_expiry_minutes * (60 * second)) now (refl, refl, refl, refl, refl, refl)
          le valid in
      (
        p,
        ap (guarded lower (writer ∷ admin ∷ [])) (
              verify-borne now scheme (jwt.encode (writer_claims i user) settings.jwt_secret) right
                lacks
              ∙ ap (verdict_of lower jwt settings) decoded)
            ∙ writer_passes p (kept roles_key (writer ∷ []) refl),
      )

  guard-expired :
      (i now : ℕ) (user scheme : Text)
      → lower scheme ≡ bearer
      → Lacks b' ' scheme
      → i ≤ now
      → expiry i ≤ now
      → jwt_role_guard lower jwt settings
          (writer ∷ admin ∷ [])
          now
          (some (scheme ++ b' ' ∷ issue_jwt_token lower jwt settings i user))
        ≡ refused 401
  unfolding jwt_role_guard issue_jwt_token create_jwt_token
  guard-expired i now user scheme right lacks le expired =
      ap (guarded lower (writer ∷ admin ∷ [])) (
        verify-borne now scheme (jwt.encode (writer_claims i user) settings.jwt_secret) right lacks
        ∙ ap (verdict_of lower jwt settings) (
            jwt.decode_expired (writer_claims i user) settings.jwt_secret user i
              (i + settings.jwt_expiry_minutes * (60 * second)) now
              (refl, refl, refl, refl, refl, refl) le expired))

  -- A token that was issued to anyone, sent behind a word that reads bearer, creates records as the
  -- database does until the whole second in which its minutes end; from then on every request with it
  -- answers 401 and leaves the database as it is.
  pub issued_token_lifetime :
      (d : Database) (i now : ℕ) (user scheme : Text) (body : RecordRequest) (s : d.Store)
      → lower scheme ≡ bearer
      → Lacks b' ' scheme
      → i ≤ now
      → let header = scheme ++ b' ' ∷ issue_jwt_token lower jwt settings i user in
        let (s', out) = create_record d body s in
        create_record_jwt lower jwt settings d now (some header) body s
        ≡ (if ltb now (expiry i) then (s', respond out (created_answer d)) else (s, http_error 401))
  unfolding create_record_jwt
  issued_token_lifetime d i now user scheme body s right lacks le =
      elim (Bool-cases (ltb now (expiry i))) [
        | inl valid ↦
            let (claims, passed) =
              guard-valid i now user scheme right lacks le (ground (arith, valid)) in
            ap settled passed ∙ sym (if-true (ltb now (expiry i)) _ _ valid)
        | inr over ↦
            ap settled (guard-expired i now user scheme right lacks le (ground (arith, over)))
            ∙ sym (if-false (ltb now (expiry i)) _ _ over)
      ]
    where
      settled : Verdict Claims → d.Store × Response RecordResponse
      settled verdict =
          let (s', out) = create_record d body s in
          elim verdict [
            | admitted _ ↦ (s', respond out (created_answer d))
            | refused status ↦ (s, http_error status)
          ]
