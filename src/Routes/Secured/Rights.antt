-- ===== src/Routes/Secured/Rights.antt =====
-- What a login opens in ingestor/routers/records.py.
use data_pipeline_async.Base.{
  ℕ, ◌+◌, ◌*◌, ◌≡◌, ◌≢◌, refl, ap, ◌∙◌, Bool, true, false, ◌||◌, none, some, List, [], ◌∷◌, map,
  leb, Text, text_key, ◌==◌, if◌then◌else◌, arith,
}
use data_pipeline_async.Base.Strings.{strip}
use data_pipeline_async.Base.Dict.{erase}
use data_pipeline_async.Records.Database.{Database}
use data_pipeline_async.Cache.{Redis, Codec}
use data_pipeline_async.Auth.{
  create_session, verify_session, viewer, role_of, or_scope, Claims, Verdict, admitted, refused,
  shares, guarded, Sessions, Settings, writer, admin, extract_roles, new_session, text, role_key,
  session_role_guard,
}
use data_pipeline_async.Auth.Lifetime.{session_lifetime}
use data_pipeline_async.Routes.{Response, http_error, Service, archive_record, delete_record_route}
use data_pipeline_async.Routes.Secured.{
  login_session, archive_record_secured, delete_record_secured, normalized_role, behind,
}

-- The verdict of a look at the sessions.
abbrev verdict_in : Sessions × Verdict Claims → Verdict Claims
verdict_in (_, verdict) = verdict

module _ (lower : Text → Text) (lower_writer : lower writer ≡ writer)
    (lower_admin : lower admin ≡ admin) (d : Database) (redis : Redis) (codec : Codec) where
  open d use {Store}
  open redis use {Conn}

  roles-new_session :
      (settings : Settings) (second now : ℕ) (created user role : Text)
      → strip role ≡ role
      → lower role ≡ role
      → role ≢ []
      → extract_roles lower (
          new_session settings second now created user
            ((role_key, text (normalized_role lower role)) ∷ []))
        ≡ role ∷ []
  unfolding extract_roles
  roles-new_session settings second now created user role trim low ne =
      ap (λ r. or_scope lower none (role_of lower r)) normal ∙ ap (or_scope lower none) role_of-same
    where
      as_role : (t : Text) → t ≢ [] → elim t [ [] ↦ [] | c ∷ s ↦ lower (c ∷ s) ∷ [] ] ≡ lower t ∷ []
      as_role [] h = absurd (h refl)
      as_role (c ∷ s) h = refl

      as_normal : (t : Text) → t ≢ [] → elim t [ [] ↦ viewer | c ∷ s ↦ lower (c ∷ s) ] ≡ lower t
      as_normal [] h = absurd (h refl)
      as_normal (c ∷ s) h = refl

      role_of-same : role_of lower role ≡ role ∷ []
      role_of-same =
          ap (λ t. elim t [ [] ↦ [] | c ∷ s ↦ lower (c ∷ s) ∷ [] ]) trim
          ∙ as_role role ne
          ∙ ap (λ t. t ∷ []) low

      normal : normalized_role lower role ≡ role
      normal =
          ap (λ t. elim t [ [] ↦ viewer | c ∷ s ↦ lower (c ∷ s) ]) trim ∙ as_normal role ne ∙ low

  -- What a route behind a guard does with a verdict on one session that holds one role.
  guarded-split :
      {B : Type 0} (required : List Text) (session : Claims) (role : Text)
      (now_valid allowed : Bool) (held gone : Sessions)
      (handler : Service Store Conn → Service Store Conn × Response B) (v : Service Store Conn)
      → extract_roles lower session ≡ role ∷ []
      → shares (map lower required) (role ∷ []) ≡ allowed
      → behind
          (guarded lower required
            (verdict_in (if now_valid then (held, admitted session) else (gone, refused 401))))
          (λ _. handler v)
          v
        ≡ (if now_valid
            then (if allowed then handler v else (v, http_error 403))
            else (v, http_error 401))
  guarded-split required session role true true held gone handler v roles shared =
      rw (roles, shared) refl
  guarded-split required session role true false held gone handler v roles shared =
      rw (roles, shared) refl
  guarded-split required session role false allowed held gone handler v roles shared = refl

  -- Whoever logs in with a role, written in lower case and without blanks around it, holds it until
  -- the configured hours are over: the session then archives exactly if the role is writer or admin,
  -- and deletes exactly if it is admin; with another role both answer 403, and after the hours 401,
  -- with the records as before.
  pub login_decides_rights :
      (settings : Settings) (second now later record_id : ℕ) (c : ℕ) (id created user role : Text)
      (sessions : Sessions) (v : Service Store Conn)
      → strip role ≡ role
      → lower role ≡ role
      → role ≢ []
      → let (held, _) =
          login_session lower settings second now (c ∷ id) created user role sessions in
        let end = now + settings.token_expiry_hours * (3600 * second) in
        ((archive_record_secured lower d redis codec later (some (c ∷ id)) record_id held v).1 ≡ (
          if leb later end
          then (if (role == writer) || (role == admin)
              then archive_record d redis codec record_id later v
              else (v, http_error 403))
          else (v, http_error 401)))
        × ((delete_record_secured lower d redis codec later (some (c ∷ id)) record_id held v).1 ≡ (
            if leb later end
            then (if role == admin
                then delete_record_route d redis codec record_id v
                else (v, http_error 403))
            else (v, http_error 401)))
  unfolding login_session session_role_guard archive_record_secured delete_record_secured
  login_decides_rights settings second now later record_id c id created user role sessions v trim
        low ne =
      (
        opened (writer ∷ admin ∷ []) ((role == writer) || (role == admin))
            (rw (lower_writer, lower_admin) (ground arith))
            (λ w. archive_record d redis codec record_id later w),
        opened (admin ∷ []) (role == admin) (rw lower_admin (ground arith))
            (λ w. delete_record_route d redis codec record_id w),
      )
    where
      session : Claims
      session =
          new_session settings second now created user
            ((role_key, text (normalized_role lower role)) ∷ [])

      held : Sessions
      held =
          create_session settings second now (c ∷ id) created user
            ((role_key, text (normalized_role lower role)) ∷ []) sessions

      end : ℕ
      end = now + settings.token_expiry_hours * (3600 * second)

      opened :
          {B : Type 0} (required : List Text) (allowed : Bool)
          → shares (map lower required) (role ∷ []) ≡ allowed
          → (handler : Service Store Conn → Service Store Conn × Response B)
          → behind
              (guarded lower required (verdict_in (verify_session later (some (c ∷ id)) held)))
              (λ _. handler v)
              v
            ≡ (if leb later end
                then (if allowed then handler v else (v, http_error 403))
                else (v, http_error 401))
      opened required allowed shared handler =
          ap (λ x. behind (guarded lower required (verdict_in x)) (λ _. handler v) v)
            (session_lifetime settings second now later later c id created user [] _ sessions refl
              (λ e. ground (arith, e))).0
          ∙ guarded-split required session role (leb later end) allowed held (erase (c ∷ id) held)
              handler v (roles-new_session settings second now created user role trim low ne) shared
