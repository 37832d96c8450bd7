-- ===== src/Monitoring/Endpoint.antt =====
-- The route /llm/monitoring: its guards in internal/infrastructure/http/router/router.go,
-- `GetMonitoring` of internal/infrastructure/http/handler/llm/handler.go, the use case with `ToDTO`
-- of internal/application/llm/usecase/get_monitoring.go, and the cached repository of
-- cmd/server/main.go, over the world and the cache. A map of the answer is an association list.
use masterfabric_backend.Prelude.{ℕ, ◌*◌, Bool, String, Option, List, [], ◌∷◌}
use masterfabric_backend.Prelude.Text.{Text}
use masterfabric_backend.Exec.{Exec, pure, ◌>>=◌, ◌>>◌}
use masterfabric_backend.World.{Env, World, Act, call}
use masterfabric_backend.Http.Request.{Request, Web}
use masterfabric_backend.Http.Routes.{Guard, admit}
use masterfabric_backend.Monitoring as Monitoring
use masterfabric_backend.Monitoring.{MonitoringFilter, Cache, asked_filter}
use masterfabric_backend.Monitoring.Report as Report
use masterfabric_backend.Monitoring.Report.{MonitoringReport, MonitoringByModel}

pub record MonitoringResponse (F : Type 0) : Type 0 where
  pub from : ℕ
  pub to : ℕ
  pub totals : List (String × ℕ)
  pub latency : List (String × ℕ)
  pub tokens : List (String × ℕ)
  pub scores : List (String × F)
  pub by_model : List (MonitoringByModel F)

-- `ToDTO`; a row of `ByModel` keeps its four values.
unfoldable pub to_dto : {F : Type 0} → MonitoringReport F → MonitoringResponse F
to_dto r = record {
  from = r.from;
  to = r.to;
  totals =
      ("sessions", r.totals.sessions)
      ∷ ("events", r.totals.events)
      ∷ ("scoredEvents", r.totals.scored_events)
      ∷ ("errors", r.totals.errors)
      ∷ [];
  latency =
      ("p50Ms", r.latency.p50_ms) ∷ ("p95Ms", r.latency.p95_ms) ∷ ("maxMs", r.latency.max_ms) ∷ [];
  tokens = ("inTotal", r.tokens.in_total) ∷ ("outTotal", r.tokens.out_total) ∷ [];
  scores =
      ("avgCorrectness", r.scores.avg_correctness)
      ∷ ("avgComposite", r.scores.avg_composite)
      ∷ ("safetyFlagRate", r.scores.safety_flag_rate)
      ∷ ("userAcceptRate", r.scores.user_accept_rate)
      ∷ [];
  by_model = r.by_model;
}

-- The values "from", "to" and "modelId" of the request's query.
pub record MonitoringQuery : Type 0 where
  pub from : Text
  pub to : Text
  pub model_id : Text

-- Five minutes.
abbrev pub cache_ttl : ℕ
cache_ttl = 300 * 1000000000

-- `Marshal` and `Unmarshal` of a report, `Marshal` of a filter, and `time.Parse`, are parameters.
module _ {env : Env} (web : Web env) (percentile : ℕ → List ℕ → Option ℕ)
    (average : List env.Float → env.Float) (rate : List Bool → env.Float)
    (marshal_filter : MonitoringFilter → Option Text)
    (encode : MonitoringReport env.Float → Option Text)
    (decode : Text → Option (MonitoringReport env.Float)) (parse_time : Text → Option ℕ) where
  -- What acts on the world leaves the cache.
  unfoldable pub on_world : {A : Type 0} → Act env A → Exec (World env × Cache) A
  on_world m (w, cache) = let (r, u) = m w in (r, (u, cache))

  -- The use case on the cached repository, which reads the clock for itself.
  unfoldable pub get_monitoring :
      MonitoringFilter → Exec (World env × Cache) (MonitoringReport env.Float)
  get_monitoring filter = do
    now ← on_world (call env env.now)
    Monitoring.get_report (Report.get_report env percentile average rate) env.sha256 marshal_filter
        encode decode cache_ttl filter now

  unfoldable pub get_monitoring_handler :
      MonitoringQuery → Exec (World env × Cache) (MonitoringResponse env.Float)
  get_monitoring_handler q = do
    now ← on_world (call env env.now)
    report ← get_monitoring (asked_filter parse_time q.from q.to q.model_id now)
    pure (to_dto report)

  -- The route: a token, then a role that may read, then the handler.
  unfoldable pub monitoring_route :
      Request → MonitoringQuery → Exec (World env × Cache) (MonitoringResponse env.Float)
  monitoring_route r q = do
    on_world (admit web (Guard.allowed_to "llm:read") r)
    get_monitoring_handler q
