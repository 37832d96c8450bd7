-- ===== src/Service/WellFormed/Rows.antt =====
-- The constraints of the tables (internal/infrastructure/postgres/migrations) as an invariant.
use masterfabric_backend.Prelude.{
  ℕ, ◌≡◌, ◌≤◌, true, List, any, All, nat_eq, list_eq, pair_eq, string_eq,
}
use masterfabric_backend.Table.Unique.{UniqueBy}
use masterfabric_backend.World.{Env}
use masterfabric_backend.Iam.Model as IamModel
use masterfabric_backend.Iam.Model.{User, RefreshToken, RoleRow}
use masterfabric_backend.Llm.Model as LlmModel
use masterfabric_backend.Llm.Model.{Session, InferenceEvent, DecisionScore}
use masterfabric_backend.Iam.Users.{with_id}
use masterfabric_backend.Iam.RoleStore.{role_has_id}
use masterfabric_backend.Llm.Store.{session_with_id, event_with_id, max_int32}

abbrev pub HasUser : List User → ℕ → Type 0
HasUser users id = any (with_id id) users ≡ true

-- The counters of an event fit in 32 bits, its session and its user exist.
pub record IsSound (users : List User) (sessions : List Session) (e : InferenceEvent) : Type 0 where
  pub tokens_in : e.tokens_in ≤ max_int32
  pub tokens_out : e.tokens_out ≤ max_int32
  pub latency : e.latency_ms ≤ max_int32
  pub session : any (session_with_id e.session_id) sessions ≡ true
  pub user : HasUser users e.user_id

pub record WellFormed (env : Env) (iam : IamModel.Tables) (llm : LlmModel.Tables env.Float)
    : Type 0 where
  pub user_ids : UniqueBy (λ (u : User). u.id) iam.users
  pub emails : UniqueBy (λ (u : User). u.email) iam.users
  pub token_ids : UniqueBy (λ (t : RefreshToken). t.id) iam.tokens
  pub token_users : All (λ t. HasUser iam.users t.user_id) iam.tokens
  pub assignments :
      All
        (λ (p : ℕ × ℕ). HasUser iam.users p.0 × (any (role_has_id p.1) iam.roles ≡ true))
        iam.user_roles
  pub assigned_once : UniqueBy (λ (p : ℕ × ℕ). p) iam.user_roles
  pub role_ids : UniqueBy (λ (r : RoleRow). r.id) iam.roles
  pub role_names : UniqueBy (λ (r : RoleRow). r.name) iam.roles
  pub session_ids : UniqueBy (λ (s : Session). s.id) llm.sessions
  pub session_users : All (λ s. HasUser iam.users s.user_id) llm.sessions
  pub event_ids : UniqueBy (λ (e : InferenceEvent). e.id) llm.events
  pub events : All (IsSound iam.users llm.sessions) llm.events
  pub score_ids : UniqueBy (λ (s : DecisionScore env.Float). s.id) llm.scores
  pub one_score : UniqueBy (λ (s : DecisionScore env.Float). s.event_id) llm.scores
  pub score_events : All (λ s. any (event_with_id s.event_id) llm.events ≡ true) llm.scores
