-- ===== src/Service/Writes.antt =====
-- What it takes for a property of the tables to be kept by every statement that writes.
use masterfabric_backend.Prelude.{ℕ, Bool}
use masterfabric_backend.Prelude.Text.{Text}
use masterfabric_backend.Errors.{Error}
use masterfabric_backend.Exec.{map_err}
use masterfabric_backend.World.{Env, World, query}
use masterfabric_backend.World.Keeps.{Property, Keeps, keeps_rules, Keeps-query, Keeps-map_err}
use masterfabric_backend.Iam.Model.{RefreshToken}
use masterfabric_backend.Llm.Model.{Session, InferenceEvent, DecisionScore}
use masterfabric_backend.Iam.Users.{
  insert_user, create_user, set_email, update_email, set_password, update_password,
}
use masterfabric_backend.Iam.RoleStore.{insert_user_role, assign_to_user}
use masterfabric_backend.Iam.Tokens.{
  insert_token, create_token, revoke_where, revoke_token, revoke_all_for_user,
}
use masterfabric_backend.Config.Model.{AppConfig}
use masterfabric_backend.Config.Store.{upsert_config}
use masterfabric_backend.Llm.Store.{
  insert_session, create_session_row, insert_event, create_event, insert_score, create_score,
}

-- One law for each writing statement.
pub record KeptByWrites (env : Env) (P : Property env) : Type 0 where
  pub insert_user_law :
      (email hash : Text) (n : ℕ) (w : World env)
      → P w.iam w.llm
      → P (insert_user env email hash n w).1.iam (insert_user env email hash n w).1.llm
  pub set_email_law :
      (id : ℕ) (email : Text) (n : ℕ) (w : World env)
      → P w.iam w.llm
      → P (set_email env id email n w).1.iam (set_email env id email n w).1.llm
  pub set_password_law :
      (id : ℕ) (hash : Text) (n : ℕ) (w : World env)
      → P w.iam w.llm
      → P (set_password env id hash n w).1.iam (set_password env id hash n w).1.llm
  pub insert_user_role_law :
      (user_id role_id n : ℕ) (w : World env)
      → P w.iam w.llm
      → P
          (insert_user_role env user_id role_id n w).1.iam
          (insert_user_role env user_id role_id n w).1.llm
  pub insert_token_law :
      (t : RefreshToken) (n : ℕ) (w : World env)
      → P w.iam w.llm
      → P (insert_token env t n w).1.iam (insert_token env t n w).1.llm
  pub revoke_where_law :
      (p : RefreshToken → Bool) (n : ℕ) (w : World env)
      → P w.iam w.llm
      → P (revoke_where env p n w).1.iam (revoke_where env p n w).1.llm
  pub insert_session_law :
      (s : Session) (n : ℕ) (w : World env)
      → P w.iam w.llm
      → P (insert_session env s n w).1.iam (insert_session env s n w).1.llm
  pub insert_event_law :
      (e : InferenceEvent) (n : ℕ) (w : World env)
      → P w.iam w.llm
      → P (insert_event env e n w).1.iam (insert_event env e n w).1.llm
  pub insert_score_law :
      (s : DecisionScore env.Float) (n : ℕ) (w : World env)
      → P w.iam w.llm
      → P (insert_score env s n w).1.iam (insert_score env s n w).1.llm

module _ {env : Env} {P : Property env} (K : KeptByWrites env P) where
  pub create_user-Keeps : (email hash : Text) → Keeps env P (create_user env email hash)
  unfolding create_user
  create_user-Keeps email hash = Keeps-map_err _ (Keeps-query _ (K.insert_user_law email hash))

  pub update_email-Keeps : (id : ℕ) (email : Text) → Keeps env P (update_email env id email)
  unfolding update_email
  update_email-Keeps id email = Keeps-map_err _ (Keeps-query _ (K.set_email_law id email))

  pub set_password-Keeps :
      (g : Error → Error) (id : ℕ) (hash : Text)
      → Keeps env P (map_err g (query env (set_password env id hash)))
  set_password-Keeps g id hash = Keeps-map_err g (Keeps-query _ (K.set_password_law id hash))

  pub update_password-Keeps : (id : ℕ) (hash : Text) → Keeps env P (update_password env id hash)
  unfolding update_password
  update_password-Keeps id hash = search (keeps_rules, set_password-Keeps)

  pub assign_to_user-Keeps :
      (user_id role_id : ℕ) → Keeps env P (assign_to_user env user_id role_id)
  unfolding assign_to_user
  assign_to_user-Keeps user_id role_id =
      Keeps-map_err _ (Keeps-query _ (K.insert_user_role_law user_id role_id))

  pub create_token-Keeps : (t : RefreshToken) → Keeps env P (create_token env t)
  unfolding create_token
  create_token-Keeps t = Keeps-map_err _ (Keeps-query _ (K.insert_token_law t))

  pub revoke_where-Keeps :
      (g : Error → Error) (p : RefreshToken → Bool)
      → Keeps env P (map_err g (query env (revoke_where env p)))
  revoke_where-Keeps g p = Keeps-map_err g (Keeps-query _ (K.revoke_where_law p))

  pub revoke_token-Keeps : (id : ℕ) → Keeps env P (revoke_token env id)
  unfolding revoke_token
  revoke_token-Keeps id = search (keeps_rules, revoke_where-Keeps)

  pub revoke_all_for_user-Keeps : (user_id : ℕ) → Keeps env P (revoke_all_for_user env user_id)
  unfolding revoke_all_for_user
  revoke_all_for_user-Keeps user_id = search (keeps_rules, revoke_where-Keeps)

  pub create_session_row-Keeps : (s : Session) → Keeps env P (create_session_row env s)
  unfolding create_session_row
  create_session_row-Keeps s = Keeps-query _ (K.insert_session_law s)

  pub create_event-Keeps : (e : InferenceEvent) → Keeps env P (create_event env e)
  unfolding create_event
  create_event-Keeps e = Keeps-map_err _ (Keeps-query _ (K.insert_event_law e))

  pub create_score-Keeps : (s : DecisionScore env.Float) → Keeps env P (create_score env s)
  unfolding create_score
  create_score-Keeps s = Keeps-map_err _ (Keeps-query _ (K.insert_score_law s))

  pub upsert_config-Keeps : (cfg : AppConfig) → Keeps env P (upsert_config env cfg)
  unfolding upsert_config
  upsert_config-Keeps cfg = Keeps-map_err _ (Keeps-query _ (λ n w h. h))
