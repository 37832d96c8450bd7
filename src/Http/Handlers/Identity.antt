-- ===== src/Http/Handlers/Identity.antt =====
-- auth_handler.go and me_handler.go of internal/infrastructure/http/handler/iam.
use masterfabric_backend.Exec.{pure, lift, ◌>>=◌, ◌>>◌}
use masterfabric_backend.World.{Env, Act}
use masterfabric_backend.Iam.Register.{register}
use masterfabric_backend.Iam.Login.{login}
use masterfabric_backend.Iam.Refresh.{refresh}
use masterfabric_backend.Iam.Logout.{logout}
use masterfabric_backend.Iam.Account.{me, update_me, change_password, list_sessions}
use masterfabric_backend.Http.Request.{Request, Context, Web, decode_and_validate, user_id_from_ctx}
use masterfabric_backend.Http.Reply.{Body, Reply, json, created, no_content}

module _ {env : Env} (web : Web env) where
  unfoldable pub register_handler : Request → Act env Reply
  register_handler r = do
    req ← lift (decode_and_validate (web.register_body r.body))
    resp ← register env req
    pure (created (Body.registered resp))

  unfoldable pub login_handler : Request → Act env Reply
  login_handler r = do
    req ← lift (decode_and_validate (web.login_body r.body))
    resp ← login env req
    pure (json 200 (Body.logged_in resp))

  unfoldable pub refresh_handler : Request → Act env Reply
  refresh_handler r = do
    req ← lift (decode_and_validate (web.token_body r.body))
    resp ← refresh env req.refresh_token
    pure (json 200 (Body.refreshed resp))

  unfoldable pub logout_handler : Request → Act env Reply
  logout_handler r = do
    req ← lift (decode_and_validate (web.token_body r.body))
    logout env req.refresh_token
    pure no_content

  unfoldable pub sessions_handler : Context → Act env Reply
  sessions_handler c = do
    user_id ← lift (user_id_from_ctx c)
    resp ← list_sessions env user_id
    pure (json 200 (Body.login_sessions resp))

  unfoldable pub me_handler : Context → Act env Reply
  me_handler c = do
    user_id ← lift (user_id_from_ctx c)
    resp ← me env user_id
    pure (json 200 (Body.profile resp))

  unfoldable pub update_me_handler : Context → Request → Act env Reply
  update_me_handler c r = do
    user_id ← lift (user_id_from_ctx c)
    req ← lift (decode_and_validate (web.update_me_body r.body))
    resp ← update_me env user_id req.email
    pure (json 200 (Body.profile resp))

  unfoldable pub change_password_handler : Context → Request → Act env Reply
  change_password_handler c r = do
    user_id ← lift (user_id_from_ctx c)
    req ← lift (decode_and_validate (web.change_password_body r.body))
    change_password env user_id req
    pure no_content
