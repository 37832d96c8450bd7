-- ===== src/Http/Routes/Passive.antt =====
-- The guards and the limits of a route leave the tables alone.
use masterfabric_backend.Prelude.{ℕ, Bool, refl, none, [], ◌==◌, nat_eq, list_eq}
use masterfabric_backend.Prelude.Text.{Text}
use masterfabric_backend.Exec.{ok}
use masterfabric_backend.World.{Env, query}
use masterfabric_backend.World.Passive.{
  IsPassive, passive_rules, pure-IsPassive, if-IsPassive, bind-IsPassive, query-IsPassive,
}
use masterfabric_backend.Http.RateLimit.{allow, rate_limit, scripted}
use masterfabric_backend.Http.Request.{Request, Web}
use masterfabric_backend.Http.Handlers.Config.{ping}
use masterfabric_backend.Http.Routes.{Route, Guard, auth, admit, limited, limit_rate}

module _ {env : Env} (web : Web env) where
  answering-IsPassive : IsPassive env {A = Unit {0}} (query env (λ n w. (ok tt, w)))
  answering-IsPassive = query-IsPassive _ (λ n w. refl)

  pub ping-IsPassive : (configured : Bool) → IsPassive env (ping web configured)
  unfolding ping
  ping-IsPassive configured = search (passive_rules, answering-IsPassive)

  scripted-IsPassive :
      (key : Text) (limit window sent : ℕ)
      → IsPassive env (query env (scripted env key limit window sent))
  unfolding scripted
  scripted-IsPassive key limit window sent = query-IsPassive _ (λ n w. refl)

  rate_limit-IsPassive :
      (key : Text) (limit window : ℕ) → IsPassive env (rate_limit env key limit window)
  unfolding rate_limit allow scripted
  rate_limit-IsPassive key limit window = if-IsPassive (key == []) (pure-IsPassive none) (
      bind-IsPassive _ _
        (if-IsPassive env.has_redis (search (passive_rules, scripted-IsPassive)) (pure-IsPassive _))
        (λ answer. pure-IsPassive _))

  auth-IsPassive : (r : Request) → IsPassive env (auth web r)
  unfolding auth
  auth-IsPassive r = search passive_rules

  pub admit-IsPassive : (g : Guard) (r : Request) → IsPassive env (admit web g r)
  unfolding admit
  admit-IsPassive Guard.open_to_all r = search passive_rules
  admit-IsPassive Guard.authenticated r = auth-IsPassive r
  admit-IsPassive (Guard.allowed_to want) r = search (passive_rules, auth-IsPassive)

  limited-IsPassive : (k : Text × Request) (limit : ℕ) → IsPassive env (limited web k limit)
  unfolding limited
  limited-IsPassive k limit = search (passive_rules, rate_limit-IsPassive)

  pub limit_rate-IsPassive : (at : Route) (r : Request) → IsPassive env (limit_rate web at r)
  unfolding limit_rate
  limit_rate-IsPassive Route.register r = limited-IsPassive _ _
  limit_rate-IsPassive Route.login r = limited-IsPassive _ _
  limit_rate-IsPassive Route.refresh r = limited-IsPassive _ _
  limit_rate-IsPassive Route.record_event r = limited-IsPassive _ _
  limit_rate-IsPassive _ r = search passive_rules
