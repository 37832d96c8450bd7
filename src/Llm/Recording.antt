-- ===== src/Llm/Recording.antt =====
-- internal/application/llm/usecase/{record_event,record_score}.go.
pub mod Laws
use masterfabric_backend.Prelude.{ℕ, Bool, [], ◌∷◌, ◌++◌, if◌then◌else◌, ◌==◌, nat_eq, list_eq}
use masterfabric_backend.Prelude.Text.{Text}
use masterfabric_backend.Errors.{domain, domain_by, not_found}
use masterfabric_backend.Exec.{ok, map_err, pure, raise, ◌>>=◌, ◌>>◌}
use masterfabric_backend.World.{Env, Act, call, publish, Payload}
use masterfabric_backend.Llm.Model.{
  Session, InferenceEvent, DecisionScore, Metric, events_total, tokens_total, score_sum,
}
use masterfabric_backend.Llm.Store.{create_event, find_event_by_id, create_score}
use masterfabric_backend.Llm.Sessions.{EventDto, event_dto, owned_session}

pub record RecordEventRequest : Type 0 where
  pub prompt : Text
  pub completion : Text
  pub tokens_in : ℕ
  pub tokens_out : ℕ
  pub latency_ms : ℕ
  pub error : Text

pub record RecordScoreRequest (F : Type 0) : Type 0 where
  pub event_id : ℕ
  pub correctness : F
  pub latency_score : F
  pub safety_flag : Bool
  pub cost_score : F
  pub user_signal : Text
  pub composite : F

module _ (env : Env) where
  -- `telemetry.….Inc()` and `.Add(…)`.
  unfoldable pub count : Metric env.Float → Act env (Unit {0})
  count m w = (ok tt, record w { metrics = w.metrics ++ m ∷ [] })

  unfoldable pub count_event : Text → RecordEventRequest → Act env (Unit {0})
  unfolding count
  count_event model req = do
    count (events_total model (if req.error == [] then "ok" else "error"))
    count (tokens_total model "in" req.tokens_in)
    count (tokens_total model "out" req.tokens_out)

  unfoldable pub record_event : ℕ → ℕ → RecordEventRequest → Act env EventDto
  record_event user_id session_id req = do
    session ← owned_session env user_id session_id
    now ← call env env.now
    id ← call env env.fresh
    saved ← create_event env (record {
      id = id;
      session_id = session_id;
      user_id = user_id;
      prompt = req.prompt;
      completion = req.completion;
      tokens_in = req.tokens_in;
      tokens_out = req.tokens_out;
      latency_ms = req.latency_ms;
      error = req.error;
      created_at = now;
    })
    count_event session.model_id req
    publish env "llm.event.recorded" "masterfabric.llm" "llm.application.record_event" (
        ("event_id", Payload.uuid saved.id)
        ∷ ("session_id", Payload.uuid session_id)
        ∷ ("user_id", Payload.uuid user_id)
        ∷ ("model_id", Payload.text session.model_id)
        ∷ ("latency_ms", Payload.number req.latency_ms)
        ∷ ("tokens_in", Payload.number req.tokens_in)
        ∷ ("tokens_out", Payload.number req.tokens_out)
        ∷ [])
    pure (event_dto saved)

  -- Step 2: the event, if it belongs to the session.
  unfoldable pub event_in_session : ℕ → ℕ → Act env InferenceEvent
  event_in_session session_id event_id = do
    ev ← map_err (domain_by not_found "event not found") (find_event_by_id env event_id)
    if ev.session_id == session_id
        then pure ev
        else raise (domain not_found "event not found in this session")

  -- Step 3: the flag wins over what the client sent.
  unfoldable pub enforced_composite : RecordScoreRequest env.Float → env.Float
  enforced_composite req = if req.safety_flag then env.zero_float else req.composite

  -- The row of the score.
  unfoldable pub score_row : ℕ → RecordScoreRequest env.Float → ℕ → DecisionScore env.Float
  score_row id req now = record {
    id = id;
    event_id = req.event_id;
    correctness = req.correctness;
    latency_score = req.latency_score;
    safety_flag = req.safety_flag;
    cost_score = req.cost_score;
    user_signal = req.user_signal;
    composite = enforced_composite req;
    created_at = now;
  }

  -- Steps 5 and 6: the counter and the event.
  unfoldable pub announce_score :
      Session → ℕ → ℕ → RecordScoreRequest env.Float → Act env (Unit {0})
  announce_score session session_id id req = do
    count (score_sum session.model_id (enforced_composite req))
    publish env "llm.score.recorded" "masterfabric.llm" "llm.application.record_score" (
        ("score_id", Payload.uuid id)
        ∷ ("event_id", Payload.uuid req.event_id)
        ∷ ("session_id", Payload.uuid session_id)
        ∷ ("composite", Payload.float (enforced_composite req))
        ∷ ("safety_flag", Payload.flag req.safety_flag)
        ∷ ("user_signal", Payload.text req.user_signal)
        ∷ [])
    pure tt

  unfoldable pub record_score : ℕ → ℕ → RecordScoreRequest env.Float → Act env (Unit {0})
  record_score user_id session_id req = do
    session ← owned_session env user_id session_id
    event_in_session session_id req.event_id
    id ← call env env.fresh
    now ← call env env.now
    create_score env (score_row id req now)
    announce_score session session_id id req
