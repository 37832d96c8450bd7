-- ===== src/Http/Handlers/Config.antt =====
-- handler/config/config_handler.go and handler/cmn/health_handler.go of
-- internal/infrastructure/http.
use masterfabric_backend.Prelude.{
  Bool, not, ◌&&◌, ◌||◌, String, ◌==◌, string_eq, take, if◌then◌else◌,
}
use masterfabric_backend.Prelude.Integers.{is_positive}
use masterfabric_backend.Errors.{domain, plain, bad_request}
use masterfabric_backend.Exec.{Result, ok, err, attempt, pure, lift, ◌>>=◌}
use masterfabric_backend.World.{Env, Act, query}
use masterfabric_backend.Config.Model.{AppConfig}
use masterfabric_backend.Config.Store.{get_config, update_config}
use masterfabric_backend.Http.Request.{Request, Web, decode_and_validate}
use masterfabric_backend.Http.Reply.{Body, Reply, json}

-- The guard on the limits.
unfoldable pub check_limits : AppConfig → Result AppConfig
check_limits req =
    if not (is_positive req.limits.max_prompt_chars) || not (is_positive req.limits.rate_per_min)
    then err (domain bad_request "limits.maxPromptChars and limits.ratePerMin must be positive")
    else ok req

-- What the error of a ping says of a service.
unfoldable pub health_text : Result (Unit {0}) → String
health_text (ok u) = "healthy"
health_text (err e) = "unhealthy"

unfoldable pub ready_text : String → String → String
ready_text postgres redis =
    if postgres == "healthy" && redis == "healthy" then "ready" else "unready"

module _ {env : Env} (web : Web env) where
  unfoldable pub get_config_handler : Act env Reply
  get_config_handler = do cfg ← get_config env; pure (json 200 (Body.config cfg))

  -- The decoder reads 4096 bytes at most.
  unfoldable pub update_config_handler : Request → Act env Reply
  update_config_handler r = do
    req ← lift (decode_and_validate (web.config_body (take 4096 r.body)))
    checked ← lift (check_limits req)
    cfg ← update_config env checked
    pure (json 200 (Body.config cfg))

  unfoldable pub live_handler : Act env Reply
  live_handler = pure (json 200 (Body.status_text "alive"))

  -- A service that is not configured, or whose ping fails, is unhealthy.
  unfoldable pub ping : Bool → Act env String
  ping configured = do
    answer ←
        attempt (
          if configured then query env (λ n w. (ok tt, w)) else lift (err (plain "not configured")))
    pure (health_text answer)

  unfoldable pub ready_handler : Act env Reply
  ready_handler = do
    postgres ← ping web.has_postgres
    redis ← ping env.has_redis
    pure (json 200 (Body.readiness (ready_text postgres redis) postgres redis))
