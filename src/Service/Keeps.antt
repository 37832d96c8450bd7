-- ===== src/Service/Keeps.antt =====
-- A property of the tables that every writing statement keeps is kept by every run of the
-- service.
pub mod Identity
pub mod Inference
use masterfabric_backend.Reads.{read_rules, roles_query-Keeps}
use masterfabric_backend.Prelude.{ℕ, Bool, List, [], ◌∷◌}
use masterfabric_backend.Prelude.Text.{Text}
use masterfabric_backend.Errors.{Error}
use masterfabric_backend.Exec.{Result, ok, err, attempt, pure, map_err, ◌>>◌}
use masterfabric_backend.World.{Env, World, Act, query}
use masterfabric_backend.World.Keeps.{
  Property, Keeps, keeps_rules, Keeps-query, Keeps-map_err, Keeps-bind, Keeps-attempt, Keeps-pure,
}
use masterfabric_backend.Permissions.{Role}
use masterfabric_backend.Iam.Model.{User, RefreshToken}
use masterfabric_backend.Llm.Model.{Session, InferenceEvent, DecisionScore}
use masterfabric_backend.Iam.Users.{
  insert_user, create_user, set_email, update_email, set_password, update_password,
}
use masterfabric_backend.Iam.RoleStore.{insert_user_role, assign_to_user}
use masterfabric_backend.Iam.Tokens.{
  insert_token, create_token, revoke_where, revoke_token, revoke_all_for_user,
}
use masterfabric_backend.Iam.Register.{RegisterRequest, register, assign_found, assign_default_role}
use masterfabric_backend.Iam.Login.{LoginRequest, login, issue_refresh}
use masterfabric_backend.Iam.Refresh.{
  lookup_token, check_live, live_token, reissue, rotate, refresh,
}
use masterfabric_backend.Iam.Logout.{logout_found, logout}
use masterfabric_backend.Iam.Account.{
  ChangePasswordRequest, me, update_me, check_passwords, change_password, list_sessions,
}
use masterfabric_backend.Config.Model.{AppConfig}
use masterfabric_backend.Config.Store.{find_config, upsert_config, get_config, update_config}
use masterfabric_backend.Llm.Store.{
  insert_session, create_session_row, insert_event, create_event, insert_score, create_score,
}
use masterfabric_backend.Llm.Sessions.{owned_session, create_session, get_session, list_events}
use masterfabric_backend.Llm.Recording.Laws.{count-Keeps, announce_score-Keeps}
use masterfabric_backend.Llm.Recording.{
  RecordEventRequest, RecordScoreRequest, count_event, record_event, event_in_session, record_score,
}
use masterfabric_backend.Service.{
  Operation, registering, logging_in, refreshing, logging_out, reading_me, listing_sessions,
  updating_me, changing_password, creating_session, getting_session, listing_events,
  recording_event, recording_score, reading_config, updating_config, perform, run,
}
use masterfabric_backend.Service.Writes.{
  KeptByWrites, create_user-Keeps, update_email-Keeps, set_password-Keeps, update_password-Keeps,
  assign_to_user-Keeps, create_token-Keeps, revoke_where-Keeps, revoke_token-Keeps,
  revoke_all_for_user-Keeps, create_session_row-Keeps, create_event-Keeps, create_score-Keeps,
  upsert_config-Keeps,
}
use masterfabric_backend.Service.Keeps.Identity.{
  assign_found-Keeps, assign_default_role-Keeps, register-Keeps, issue_refresh-Keeps, login-Keeps,
  lookup_token-Keeps, check_live-Keeps, live_token-Keeps, reissue-Keeps, rotate-Keeps,
  refresh-Keeps, logout_found-Keeps, logout-Keeps, me-Keeps, update_me-Keeps, check_passwords-Keeps,
  change_password-Keeps, list_sessions-Keeps,
}
use masterfabric_backend.Service.Keeps.Inference.{
  owned_session-Keeps, create_session-Keeps, get_session-Keeps, list_events-Keeps,
  count_event-Keeps, record_event-Keeps, event_in_session-Keeps, record_score-Keeps,
  find_config-Keeps, get_config-Keeps, update_config-Keeps,
}

module _ {env : Env} {P : Property env} (K : KeptByWrites env P) where
  ignore-Keeps : {A : Type 0} {m : Act env A} → Keeps env P m → Keeps env P (do attempt m; pure tt)
  ignore-Keeps k = Keeps-bind _ _ (Keeps-attempt k) (λ _. Keeps-pure tt)

  pub perform-Keeps : (op : Operation env) → Keeps env P (perform env op)
  unfolding perform
  perform-Keeps (registering req) = ignore-Keeps (register-Keeps K req)
  perform-Keeps (logging_in req) = ignore-Keeps (login-Keeps K req)
  perform-Keeps (refreshing token) = ignore-Keeps (refresh-Keeps K token)
  perform-Keeps (logging_out token) = ignore-Keeps (logout-Keeps K token)
  perform-Keeps (reading_me user_id) = ignore-Keeps (me-Keeps K user_id)
  perform-Keeps (listing_sessions user_id) = ignore-Keeps (list_sessions-Keeps K user_id)
  perform-Keeps (updating_me user_id email) = ignore-Keeps (update_me-Keeps K user_id email)
  perform-Keeps (changing_password user_id req) = ignore-Keeps (change_password-Keeps K user_id req)
  perform-Keeps (creating_session user_id model hash) =
      ignore-Keeps (create_session-Keeps K user_id model hash)
  perform-Keeps (getting_session user_id id) = ignore-Keeps (get_session-Keeps K user_id id)
  perform-Keeps (listing_events user_id id page limit) =
      ignore-Keeps (list_events-Keeps K user_id id page limit)
  perform-Keeps (recording_event user_id id req) =
      ignore-Keeps (record_event-Keeps K user_id id req)
  perform-Keeps (recording_score user_id id req) =
      ignore-Keeps (record_score-Keeps K user_id id req)
  perform-Keeps reading_config = ignore-Keeps (get_config-Keeps K)
  perform-Keeps (updating_config cfg) = ignore-Keeps (update_config-Keeps K cfg)

  -- What every writing statement keeps holds after any operations, failing ones included.
  pub run-Keeps :
      (ops : List (Operation env)) (w : World env)
      → P w.iam w.llm
      → P (run env ops w).iam (run env ops w).llm
  unfolding run
  run-Keeps [] w h = h
  run-Keeps (op ∷ ops) w h = run-Keeps ops (perform env op w).1 ((perform-Keeps op).at w h)
