-- ===== src/Llm/Model.antt =====
-- The rows of the inference tables: internal/domain/llm/model/session.go. The counters are the
-- validated ones, at least zero; a score's floating point type is a parameter.
use masterfabric_backend.Prelude.{ℕ, Bool, String, Option, List}
use masterfabric_backend.Prelude.Text.{Text}

pub record Session : Type 0 where
  pub id : ℕ
  pub user_id : ℕ
  pub model_id : Text
  pub model_hash : Text
  pub created_at : ℕ
  pub ended_at : Option ℕ

pub record InferenceEvent : Type 0 where
  pub id : ℕ
  pub session_id : ℕ
  pub user_id : ℕ
  pub prompt : Text
  pub completion : Text
  pub tokens_in : ℕ
  pub tokens_out : ℕ
  pub latency_ms : ℕ
  pub error : Text
  pub created_at : ℕ

pub record DecisionScore (F : Type 0) : Type 0 where
  pub id : ℕ
  pub event_id : ℕ
  pub correctness : F
  pub latency_score : F
  pub safety_flag : Bool
  pub cost_score : F
  pub user_signal : Text
  pub composite : F
  pub created_at : ℕ

pub record Tables (F : Type 0) : Type 0 where
  pub sessions : List Session
  pub events : List InferenceEvent
  pub scores : List (DecisionScore F)

-- The counters of internal/shared/telemetry/prometheus.go that the use cases increase.
pub data Metric (F : Type 0) : Type 0 where
  events_total : Text → String → Metric F
  tokens_total : Text → String → ℕ → Metric F
  score_sum : Text → F → Metric F
