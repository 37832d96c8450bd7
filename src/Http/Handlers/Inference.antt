-- ===== src/Http/Handlers/Inference.antt =====
-- internal/infrastructure/http/handler/llm/handler.go, without `GetMonitoring`.
use masterfabric_backend.Exec.{pure, lift, ◌>>=◌, ◌>>◌}
use masterfabric_backend.World.{Env, Act}
use masterfabric_backend.Llm.Models.{list_models}
use masterfabric_backend.Llm.Sessions.{create_session, get_session, list_events}
use masterfabric_backend.Llm.Recording.{record_event, record_score}
use masterfabric_backend.Http.Pagination.{parse}
use masterfabric_backend.Http.Request.{
  Request, Context, Web, decode_and_validate, user_id_from_ctx, session_id_from_url,
}
use masterfabric_backend.Http.Reply.{Body, Reply, json, created}

module _ {env : Env} (web : Web env) where
  unfoldable pub list_models_handler : Act env Reply
  list_models_handler = pure (json 200 (Body.models list_models))

  unfoldable pub create_session_handler : Context → Request → Act env Reply
  create_session_handler c r = do
    user_id ← lift (user_id_from_ctx c)
    req ← lift (decode_and_validate (web.session_body r.body))
    resp ← create_session env user_id req.model_id req.model_hash
    pure (created (Body.llm_session resp))

  unfoldable pub get_session_handler : Context → Request → Act env Reply
  get_session_handler c r = do
    user_id ← lift (user_id_from_ctx c)
    session_id ← lift (session_id_from_url web r)
    resp ← get_session env user_id session_id
    pure (json 200 (Body.llm_session resp))

  unfoldable pub record_event_handler : Context → Request → Act env Reply
  record_event_handler c r = do
    user_id ← lift (user_id_from_ctx c)
    session_id ← lift (session_id_from_url web r)
    req ← lift (decode_and_validate (web.event_body r.body))
    resp ← record_event env user_id session_id req
    pure (created (Body.event resp))

  unfoldable pub list_events_handler : Context → Request → Act env Reply
  list_events_handler c r = do
    user_id ← lift (user_id_from_ctx c)
    session_id ← lift (session_id_from_url web r)
    let p = parse r.page r.limit 20
    resp ← list_events env user_id session_id p.page p.limit
    pure (json 200 (Body.events resp))

  unfoldable pub record_score_handler : Context → Request → Act env Reply
  record_score_handler c r = do
    user_id ← lift (user_id_from_ctx c)
    session_id ← lift (session_id_from_url web r)
    req ← lift (decode_and_validate (web.score_body r.body))
    record_score env user_id session_id req
    pure (created (Body.status_text "recorded"))
