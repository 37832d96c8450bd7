-- ===== src/Llm/Sessions.antt =====
-- internal/application/llm/usecase/{create_session,get_session,list_events}.go.
pub mod Laws
use masterfabric_backend.Prelude.{
  ℕ, ◌-◌, ◌*◌, Option, none, List, [], ◌∷◌, if◌then◌else◌, ◌==◌, nat_eq, list_eq,
}
use masterfabric_backend.Prelude.Text.{Text, codes}
use masterfabric_backend.Errors.{Error, domain, forbidden}
use masterfabric_backend.Exec.{pure, raise, ◌>>=◌, ◌>>◌}
use masterfabric_backend.World.{Env, Act, call, publish, Payload}
use masterfabric_backend.Iam.Email.{trim_space}
use masterfabric_backend.Llm.Model.{Session, InferenceEvent}
use masterfabric_backend.Llm.Store.{create_session_row, find_session_by_id, list_events_by_session}

pub record SessionDto : Type 0 where
  pub id : ℕ
  pub model_id : Text
  pub model_hash : Text
  pub created_at : ℕ
  pub ended_at : Option ℕ

pub record EventDto : Type 0 where
  pub id : ℕ
  pub prompt : Text
  pub completion : Text
  pub tokens_in : ℕ
  pub tokens_out : ℕ
  pub latency_ms : ℕ
  pub error : Text
  pub created_at : ℕ

pub record ListEventsResponse : Type 0 where
  pub events : List EventDto
  pub page : ℕ
  pub limit : ℕ
  pub total : ℕ

abbrev pub not_owner : Error
not_owner = domain forbidden "not owner of session"

abbrev default_model : Text
default_model = codes "gemma-2-2b-it-q4f32_1-MLC"

unfoldable pub session_dto : Session → SessionDto
session_dto s = record {
  id = s.id;
  model_id = s.model_id;
  model_hash = s.model_hash;
  created_at = s.created_at;
  ended_at = s.ended_at;
}

unfoldable pub event_dto : InferenceEvent → EventDto
event_dto e = record {
  id = e.id;
  prompt = e.prompt;
  completion = e.completion;
  tokens_in = e.tokens_in;
  tokens_out = e.tokens_out;
  latency_ms = e.latency_ms;
  error = e.error;
  created_at = e.created_at;
}

unfoldable pub event_dtos : List InferenceEvent → List EventDto
event_dtos [] = []
event_dtos (e ∷ events) = event_dto e ∷ event_dtos events

-- The model that a request names, or the default where that is blank.
unfoldable pub chosen_model : Text → Text
chosen_model requested =
    let model = trim_space requested in if model == [] then default_model else model

module _ (env : Env) where
  unfoldable pub create_session : ℕ → Text → Text → Act env SessionDto
  unfolding chosen_model
  create_session user_id model_id model_hash = do
    now ← call env env.now
    id ← call env env.fresh
    saved ← create_session_row env (record {
      id = id;
      user_id = user_id;
      model_id = chosen_model model_id;
      model_hash = trim_space model_hash;
      created_at = now;
      ended_at = none;
    })
    publish env "llm.session.created" "masterfabric.llm" "llm.application.create_session" (
        ("session_id", Payload.uuid saved.id)
        ∷ ("user_id", Payload.uuid saved.user_id)
        ∷ ("model_id", Payload.text saved.model_id)
        ∷ [])
    pure (session_dto saved)

  -- The session with the id, if it belongs to the user: how every use case below begins.
  unfoldable pub owned_session : ℕ → ℕ → Act env Session
  owned_session user_id session_id = do
    session ← find_session_by_id env session_id
    if session.user_id == user_id then pure session else raise not_owner

  unfoldable pub get_session : ℕ → ℕ → Act env SessionDto
  get_session user_id session_id = do
    session ← owned_session user_id session_id
    pure (session_dto session)

  -- `page` is at least 1, as `pagination.Parse` leaves it.
  unfoldable pub list_events : ℕ → ℕ → ℕ → ℕ → Act env ListEventsResponse
  list_events user_id session_id page limit = do
    owned_session user_id session_id
    found ← list_events_by_session env session_id limit ((page - 1) * limit)
    pure (record { events = event_dtos found.0; page = page; limit = limit; total = found.1 })
