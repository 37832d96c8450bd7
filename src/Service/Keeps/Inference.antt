-- ===== src/Service/Keeps/Inference.antt =====
-- The use cases on sessions, events, scores and the configuration keep what the writing
-- statements keep.
use masterfabric_backend.Reads.{read_rules, roles_query-Keeps}
use masterfabric_backend.Prelude.{ℕ}
use masterfabric_backend.Prelude.Text.{Text}
use masterfabric_backend.World.{Env}
use masterfabric_backend.World.Keeps.{Property, Keeps, keeps_rules}
use masterfabric_backend.Config.Model.{AppConfig}
use masterfabric_backend.Config.Store.{find_config, get_config, update_config}
use masterfabric_backend.Llm.Sessions.{owned_session, create_session, get_session, list_events}
use masterfabric_backend.Llm.Recording.Laws.{count-Keeps, announce_score-Keeps}
use masterfabric_backend.Llm.Recording.{
  RecordEventRequest, RecordScoreRequest, count_event, record_event, event_in_session, record_score,
}
use masterfabric_backend.Service.Writes.{
  KeptByWrites, create_session_row-Keeps, create_event-Keeps, create_score-Keeps,
  upsert_config-Keeps,
}

module _ {env : Env} {P : Property env} (K : KeptByWrites env P) where
  pub owned_session-Keeps :
      (user_id session_id : ℕ) → Keeps env P (owned_session env user_id session_id)
  unfolding owned_session
  owned_session-Keeps user_id session_id = search read_rules

  pub create_session-Keeps :
      (user_id : ℕ) (model hash : Text) → Keeps env P (create_session env user_id model hash)
  unfolding create_session
  create_session-Keeps user_id model hash = search (read_rules, create_session_row-Keeps) depth 8

  pub get_session-Keeps : (user_id id : ℕ) → Keeps env P (get_session env user_id id)
  unfolding get_session
  get_session-Keeps user_id id = search (keeps_rules, owned_session-Keeps)

  pub list_events-Keeps :
      (user_id id page limit : ℕ) → Keeps env P (list_events env user_id id page limit)
  unfolding list_events
  list_events-Keeps user_id id page limit = search (read_rules, owned_session-Keeps)

  pub count_event-Keeps :
      (model : Text) (req : RecordEventRequest) → Keeps env P (count_event env model req)
  unfolding count_event
  count_event-Keeps model req = search (keeps_rules, count-Keeps)

  pub record_event-Keeps :
      (user_id id : ℕ) (req : RecordEventRequest) → Keeps env P (record_event env user_id id req)
  unfolding record_event
  record_event-Keeps user_id id req =
      search (read_rules, owned_session-Keeps, create_event-Keeps, count_event-Keeps) depth 12

  pub event_in_session-Keeps :
      (session_id event_id : ℕ) → Keeps env P (event_in_session env session_id event_id)
  unfolding event_in_session
  event_in_session-Keeps session_id event_id = search read_rules

  pub record_score-Keeps :
      (user_id id : ℕ) (req : RecordScoreRequest env.Float)
      → Keeps env P (record_score env user_id id req)
  unfolding record_score
  record_score-Keeps user_id id req =
      search
        (
          read_rules, owned_session-Keeps, event_in_session-Keeps, create_score-Keeps,
          announce_score-Keeps,
        )
        depth 14

  pub find_config-Keeps : Keeps env P (find_config env)
  unfolding find_config
  find_config-Keeps = search (keeps_rules, roles_query-Keeps)

  pub get_config-Keeps : Keeps env P (get_config env)
  unfolding get_config
  get_config-Keeps = find_config-Keeps

  pub update_config-Keeps : (cfg : AppConfig) → Keeps env P (update_config env cfg)
  unfolding update_config
  update_config-Keeps cfg = search (keeps_rules, upsert_config-Keeps, find_config-Keeps)
