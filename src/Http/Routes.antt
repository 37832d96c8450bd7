-- ===== src/Http/Routes.antt =====
-- The routes of `New` in internal/infrastructure/http/router/router.go without /metrics, and
-- without /llm/monitoring, which is in Monitoring.Endpoint: what each asks of a request before its handler, in the order of the source,
-- and the reply. Matching a request to its route is the chi library's.
pub mod Passive
pub mod Refinement
pub mod Guards
pub mod Entitlement
pub mod Sequence
use masterfabric_backend.Prelude.{ℕ, String, Option, none, some}
use masterfabric_backend.Prelude.Text.{Text, codes}
use masterfabric_backend.Errors.{Error, domain, unauthorized, forbidden}
use masterfabric_backend.Exec.{Result, ok, err, Exec, pure, lift, ◌>>=◌, ◌>>◌}
use masterfabric_backend.World.{Env, World, Act, AccessClaims, call}
use masterfabric_backend.Permissions.Resolver as Resolver
use masterfabric_backend.Permissions.Resolver.{require_permission}
use masterfabric_backend.Http.Authentication as Authentication
use masterfabric_backend.Http.Authentication.{authenticate}
use masterfabric_backend.Http.RateLimit.{rate_limit}
use masterfabric_backend.Http.RateKeys.{
  login_rate_key, register_rate_key, refresh_rate_key, event_rate_key,
}
use masterfabric_backend.Http.Request.{Request, Context, Web, no_context, no_user_id}
use masterfabric_backend.Http.Reply.{Reply, settled}
use masterfabric_backend.Http.Handlers.Identity.{
  register_handler, login_handler, refresh_handler, logout_handler, sessions_handler, me_handler,
  update_me_handler, change_password_handler,
}
use masterfabric_backend.Http.Handlers.Inference.{
  list_models_handler, create_session_handler, get_session_handler, record_event_handler,
  list_events_handler, record_score_handler,
}
use masterfabric_backend.Http.Handlers.Config.{
  get_config_handler, update_config_handler, live_handler, ready_handler,
}

pub data Route : Type 0 where
  live ready : Route
  get_config update_config : Route
  register login refresh logout change_password : Route
  me update_me sessions : Route
  list_models create_session get_session record_event list_events record_score : Route

-- `Auth`: the claims, or its three errors.
unfoldable pub claims_of : Authentication.Answer AccessClaims → Result AccessClaims
claims_of Authentication.missing_header = err (domain unauthorized "missing authorization header")
claims_of Authentication.invalid_header = err (domain unauthorized "invalid authorization header")
claims_of Authentication.invalid_token = err (domain unauthorized "invalid or expired token")
claims_of (Authentication.authenticated claims) = ok claims

-- The context with which `Auth` calls the next handler.
abbrev pub context_of : AccessClaims → Context
context_of claims = record { user_id = some claims.user_id; roles = some claims.roles }

-- `RequirePermission`. The resolver reads its cache and never fails.
unfoldable pub permitted : Resolver.Verdict → Result (Unit {0})
permitted Resolver.pass = ok tt
permitted Resolver.unauthorized = err no_user_id
permitted Resolver.forbidden = err (domain forbidden "insufficient permissions")

-- `if refused`.
unfoldable pub unless : Option Error → Result (Unit {0})
unless none = ok tt
unless (some e) = err e

-- `time.Minute` in milliseconds.
abbrev pub minute : ℕ
minute = 60000

-- What stands before the handler of a route.
pub data Guard : Type 0 where
  open_to_all authenticated : Guard
  allowed_to : String → Guard

unfoldable pub guard : Route → Guard
guard Route.live = Guard.open_to_all
guard Route.ready = Guard.open_to_all
guard Route.get_config = Guard.open_to_all
guard Route.register = Guard.open_to_all
guard Route.login = Guard.open_to_all
guard Route.refresh = Guard.open_to_all
guard Route.update_config = Guard.allowed_to "config:write"
guard _ = Guard.authenticated

module _ {env : Env} (web : Web env) where
  unfoldable pub auth : Request → Act env Context
  auth r = do
    answer ← call env (λ n. authenticate web.equal_fold (web.parse_access n) r.authorization)
    claims ← lift (claims_of answer)
    pure (context_of claims)

  unfoldable pub admit : Guard → Request → Act env Context
  admit Guard.open_to_all r = pure no_context
  admit Guard.authenticated r = auth r
  admit (Guard.allowed_to want) r = do
    c ← auth r
    lift (permitted (require_permission web.permissions (codes want) c.roles))
    pure c

  -- `RateLimit` with a key and the request that the key function leaves.
  unfoldable pub limited : Text × Request → ℕ → Act env Request
  limited (key, r) limit = do
    refusal ← rate_limit env key limit minute
    lift (unless refusal)
    pure r

  unfoldable pub limit_rate : Route → Request → Act env Request
  limit_rate Route.register r = limited (register_rate_key web r) 3
  limit_rate Route.login r = limited (login_rate_key web r) 5
  limit_rate Route.refresh r = limited (refresh_rate_key web r) 10
  limit_rate Route.record_event r = limited (event_rate_key web r) 30
  limit_rate _ r = pure r

  unfoldable pub handle : Route → Context → Request → Act env Reply
  handle Route.live c r = live_handler web
  handle Route.ready c r = ready_handler web
  handle Route.get_config c r = get_config_handler web
  handle Route.update_config c r = update_config_handler web r
  handle Route.register c r = register_handler web r
  handle Route.login c r = login_handler web r
  handle Route.refresh c r = refresh_handler web r
  handle Route.logout c r = logout_handler web r
  handle Route.change_password c r = change_password_handler web c r
  handle Route.me c r = me_handler web c
  handle Route.update_me c r = update_me_handler web c r
  handle Route.sessions c r = sessions_handler web c
  handle Route.list_models c r = list_models_handler web
  handle Route.create_session c r = create_session_handler web c r
  handle Route.get_session c r = get_session_handler web c r
  handle Route.record_event c r = record_event_handler web c r
  handle Route.list_events c r = list_events_handler web c r
  handle Route.record_score c r = record_score_handler web c r

  unfoldable pub route : Route → Request → Act env Reply
  route at r = do c ← admit (guard at) r; left ← limit_rate at r; handle at c left

  -- A request on a route: the reply that is sent, and what is left behind.
  unfoldable pub serve : Route → Request → World env → Reply × World env
  serve at r w = let (result, u) = route at r w in (settled result, u)
