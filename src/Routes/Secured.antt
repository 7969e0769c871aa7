-- ===== src/Routes/Secured.antt =====
-- The routes of ingestor/routers/records.py that need a session or the bearer token. A dependency
-- that refuses ends the request before the handler and before the body is judged.
pub mod Rights
use data_pipeline_async.Base.{ℕ, Bool, Option, none, some, List, [], ◌∷◌, Text}
use data_pipeline_async.Base.Strings.{strip}
use data_pipeline_async.Records.{RecordRequest}
use data_pipeline_async.Records.Database.{Database}
use data_pipeline_async.Records.Crud.{Result, get_record}
use data_pipeline_async.Cache.{RecordResponse, Redis, Codec}
use data_pipeline_async.Auth.{
  text, Claims, Sessions, Settings, Verdict, admitted, refused, role_key, writer, admin,
  default_role, verify_session, create_session, session_role_guard, verify_bearer_token,
}
use data_pipeline_async.Routes.{
  Response, answer, http_error, Service, respond, found_or_404, record_answer, BatchCreated,
  optimized, create_records_batch_route, archive_record, delete_record_route,
}

-- A handler behind a dependency.
abbrev pub behind : {A S B : Type 0} → Verdict A → (A → S × Response B) → S → S × Response B
behind (admitted a) handler s = handler a
behind (refused status) handler s = (s, http_error status)

module _ (lower : Text → Text) where
  abbrev pub normalized_role : Text → Text
  normalized_role role = elim (strip role) [ [] ↦ default_role | c ∷ s ↦ lower (c ∷ s) ]

  -- `login_session`, at `now`, with the text of a new UUID and of the clock.
  pub login_session :
      Settings → ℕ → ℕ → Text → Text → Text → Text → Sessions → Sessions × Response Text
  login_session settings second now session_id created user role store = (
    create_session settings second now session_id created user
        ((role_key, text (normalized_role role)) ∷ []) store,
    answer 200 session_id,
  )

  module _ (d : Database) (redis : Redis) (codec : Codec) where
    open d use {Store}
    open redis use {Conn}

    -- The session is checked, then the database is asked without the cache.
    pub get_record_secured :
        ℕ
        → Option Text
        → ℕ
        → Sessions
        → Service Store Conn
        → Sessions × (Service Store Conn × Response RecordResponse)
    get_record_secured now cookie id sessions v =
        let (sessions', verdict) = verify_session now cookie sessions in
        (
          sessions',
          behind verdict (λ _. (v, respond (get_record d id v.store) (found_or_404 record_answer)))
              v,
        )

    pub archive_record_secured :
        ℕ
        → Option Text
        → ℕ
        → Sessions
        → Service Store Conn
        → Sessions × (Service Store Conn × Response RecordResponse)
    archive_record_secured now cookie id sessions v =
        let (sessions', verdict) =
          session_role_guard lower (writer ∷ admin ∷ []) now cookie sessions in
        (sessions', behind verdict (λ _. archive_record d redis codec id now v) v)

    pub delete_record_secured :
        ℕ
        → Option Text
        → ℕ
        → Sessions
        → Service Store Conn
        → Sessions × (Service Store Conn × Response (Unit {0}))
    delete_record_secured now cookie id sessions v =
        let (sessions', verdict) = session_role_guard lower (admin ∷ []) now cookie sessions in
        (sessions', behind verdict (λ _. delete_record_route d redis codec id v) v)

    pub create_records_batch_protected :
        Settings
        → Option Text
        → List RecordRequest
        → Service Store Conn
        → Service Store Conn × Response BatchCreated
    create_records_batch_protected settings header body v =
        behind (verify_bearer_token lower settings header)
          (λ _. create_records_batch_route d redis codec optimized body v) v
