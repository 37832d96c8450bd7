-- ===== src/Service.antt =====
-- The service as its clients drive it: the use cases that cmd/server/main.go wires to the
-- routes, run one after another in any order. A request's outcome goes to its client; what the
-- next request meets is the world that the last one left, also where it failed.
pub mod Writes
pub mod TokenRows
pub mod Keeps
pub mod Race
pub mod WellFormed
pub mod SingleUse
pub mod SignedOut
use masterfabric_backend.Prelude.{ℕ, List, [], ◌∷◌}
use masterfabric_backend.Prelude.Text.{Text}
use masterfabric_backend.Exec.{Result, Exec, attempt, pure, ◌>>=◌, ◌>>◌}
use masterfabric_backend.World.{Env, World, Act}
use masterfabric_backend.Iam.Register.{RegisterRequest, register}
use masterfabric_backend.Iam.Login.{LoginRequest, login}
use masterfabric_backend.Iam.Refresh.{refresh}
use masterfabric_backend.Iam.Logout.{logout}
use masterfabric_backend.Iam.Account.{
  ChangePasswordRequest, me, update_me, change_password, list_sessions,
}
use masterfabric_backend.Config.Model.{AppConfig}
use masterfabric_backend.Config.Store.{get_config, update_config}
use masterfabric_backend.Llm.Sessions.{create_session, get_session, list_events}
use masterfabric_backend.Llm.Recording.{
  RecordEventRequest, RecordScoreRequest, record_event, record_score,
}

-- A request, decoded and validated, with the authenticated user where the route has one.
pub data Operation (env : Env) : Type 0 where
  registering : RegisterRequest → Operation env
  logging_in : LoginRequest → Operation env
  refreshing logging_out : Text → Operation env
  reading_me listing_sessions : ℕ → Operation env
  updating_me : ℕ → Text → Operation env
  changing_password : ℕ → ChangePasswordRequest → Operation env
  creating_session : ℕ → Text → Text → Operation env
  getting_session : ℕ → ℕ → Operation env
  listing_events : ℕ → ℕ → ℕ → ℕ → Operation env
  recording_event : ℕ → ℕ → RecordEventRequest → Operation env
  recording_score : ℕ → ℕ → RecordScoreRequest env.Float → Operation env
  reading_config : Operation env
  updating_config : AppConfig → Operation env

module _ (env : Env) where
  abbrev ignore : {A : Type 0} → Act env A → Act env (Unit {0})
  ignore m = do attempt m; pure tt

  unfoldable pub perform : Operation env → Act env (Unit {0})
  perform (registering req) = ignore (register env req)
  perform (logging_in req) = ignore (login env req)
  perform (refreshing token) = ignore (refresh env token)
  perform (logging_out token) = ignore (logout env token)
  perform (reading_me user_id) = ignore (me env user_id)
  perform (listing_sessions user_id) = ignore (list_sessions env user_id)
  perform (updating_me user_id email) = ignore (update_me env user_id email)
  perform (changing_password user_id req) = ignore (change_password env user_id req)
  perform (creating_session user_id model hash) = ignore (create_session env user_id model hash)
  perform (getting_session user_id id) = ignore (get_session env user_id id)
  perform (listing_events user_id id page limit) = ignore (list_events env user_id id page limit)
  perform (recording_event user_id id req) = ignore (record_event env user_id id req)
  perform (recording_score user_id id req) = ignore (record_score env user_id id req)
  perform reading_config = ignore (get_config env)
  perform (updating_config cfg) = ignore (update_config env cfg)

  unfoldable pub run : List (Operation env) → World env → World env
  run [] w = w
  run (op ∷ ops) w = run ops (perform op w).1
