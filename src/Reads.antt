-- ===== src/Reads.antt =====
-- Reading statements, Redis, randomness and signing keep every property of the tables.
use masterfabric_backend.Prelude.{ℕ, ◌≡◌, refl, sym, ap, ◌∙◌, String, List}
use masterfabric_backend.Prelude.Text.{Text}
use masterfabric_backend.Errors.{Error}
use masterfabric_backend.Exec.{Result, ok, map_err}
use masterfabric_backend.World.{Env, World, Act, query}
use masterfabric_backend.World.Keeps.{
  Property, Keeps, keeps_rules, Keeps-query, Keeps-map_err, Keeps-publish,
}
use masterfabric_backend.Iam.Model.{Tables}
use masterfabric_backend.Iam.Users.{find_user_by_email, find_user_by_id}
use masterfabric_backend.Iam.RoleStore.{find_role_by_name, find_roles_by_user_id}
use masterfabric_backend.Iam.Tokens.{find_token_by_hash, list_tokens_by_user}
use masterfabric_backend.Iam.Blacklist.{blacklist_revoke, blacklist_is_revoked}
use masterfabric_backend.Iam.Access.{generate_opaque_token, generate_access}
use masterfabric_backend.Iam.Register.{hash_password}
use masterfabric_backend.Iam.Refresh.{check_blacklist}
use masterfabric_backend.Llm.Store.{find_session_by_id, find_event_by_id, list_events_by_session}

module _ {env : Env} {P : Property env} where
  pub find_user_by_email-Keeps : (email : Text) → Keeps env P (find_user_by_email env email)
  unfolding find_user_by_email
  find_user_by_email-Keeps email = Keeps-map_err _ (Keeps-query _ (λ n w h. h))

  pub find_user_by_id-Keeps : (id : ℕ) → Keeps env P (find_user_by_id env id)
  unfolding find_user_by_id
  find_user_by_id-Keeps id = Keeps-map_err _ (Keeps-query _ (λ n w h. h))

  pub find_role_by_name-Keeps : (name : String) → Keeps env P (find_role_by_name env name)
  unfolding find_role_by_name
  find_role_by_name-Keeps name = Keeps-map_err _ (Keeps-query _ (λ n w h. h))

  pub roles_query-Keeps :
      {A : Type 0} (f : ℕ → World env → Result A) (g : Error → Error)
      → Keeps env P (map_err g (query env (λ n w. (f n w, w))))
  roles_query-Keeps f g = Keeps-map_err g (Keeps-query _ (λ n w h. h))

  pub find_roles_by_user_id-Keeps : (user_id : ℕ) → Keeps env P (find_roles_by_user_id env user_id)
  unfolding find_roles_by_user_id
  find_roles_by_user_id-Keeps user_id = search (keeps_rules, roles_query-Keeps)

  pub find_token_by_hash-Keeps : (hash : Text) → Keeps env P (find_token_by_hash env hash)
  unfolding find_token_by_hash
  find_token_by_hash-Keeps hash = Keeps-map_err _ (Keeps-query _ (λ n w h. h))

  pub list_tokens_by_user-Keeps : (user_id : ℕ) → Keeps env P (list_tokens_by_user env user_id)
  unfolding list_tokens_by_user
  list_tokens_by_user-Keeps user_id = Keeps-map_err _ (Keeps-query _ (λ n w h. h))

  pub redis_write-Keeps :
      (f : ℕ → World env → env.Redis) (g : Error → Error)
      → Keeps env P (map_err g (query env (λ n w. (ok tt, record w { redis = f n w }))))
  redis_write-Keeps f g = Keeps-map_err g (Keeps-query _ (λ n w h. h))

  pub blacklist_revoke-Keeps : (hash : Text) (ttl : ℕ) → Keeps env P (blacklist_revoke env hash ttl)
  unfolding blacklist_revoke
  blacklist_revoke-Keeps hash ttl = search (keeps_rules, redis_write-Keeps)

  pub blacklist_is_revoked-Keeps : (hash : Text) → Keeps env P (blacklist_is_revoked env hash)
  unfolding blacklist_is_revoked
  blacklist_is_revoked-Keeps hash = search (keeps_rules, roles_query-Keeps)

  pub generate_opaque_token-Keeps : Keeps env P (generate_opaque_token env)
  unfolding generate_opaque_token
  generate_opaque_token-Keeps = search keeps_rules

  pub generate_access-Keeps :
      (user_id : ℕ) (roles : List String) → Keeps env P (generate_access env user_id roles)
  unfolding generate_access
  generate_access-Keeps user_id roles = search keeps_rules

  pub hash_password-Keeps : (password : Text) → Keeps env P (hash_password env password)
  unfolding hash_password
  hash_password-Keeps password = search keeps_rules

  pub find_session_by_id-Keeps : (id : ℕ) → Keeps env P (find_session_by_id env id)
  unfolding find_session_by_id
  find_session_by_id-Keeps id = Keeps-map_err _ (Keeps-query _ (λ n w h. h))

  pub find_event_by_id-Keeps : (id : ℕ) → Keeps env P (find_event_by_id env id)
  unfolding find_event_by_id
  find_event_by_id-Keeps id = Keeps-map_err _ (Keeps-query _ (λ n w h. h))

  pub list_events_by_session-Keeps :
      (session_id limit offset : ℕ)
      → Keeps env P (list_events_by_session env session_id limit offset)
  unfolding list_events_by_session
  list_events_by_session-Keeps session_id limit offset =
      Keeps-map_err _ (Keeps-query _ (λ n w h. h))

  pub check_blacklist-Keeps : (hash : Text) → Keeps env P (check_blacklist env hash)
  unfolding check_blacklist
  check_blacklist-Keeps hash = search (keeps_rules, blacklist_is_revoked-Keeps)

pub ruleset read_rules = (
  check_blacklist-Keeps, keeps_rules, Keeps-publish, find_user_by_email-Keeps,
  find_user_by_id-Keeps, find_role_by_name-Keeps, find_roles_by_user_id-Keeps,
  find_token_by_hash-Keeps, list_tokens_by_user-Keeps, blacklist_revoke-Keeps,
  blacklist_is_revoked-Keeps, generate_opaque_token-Keeps, generate_access-Keeps,
  hash_password-Keeps, find_session_by_id-Keeps, find_event_by_id-Keeps,
  list_events_by_session-Keeps,
)

-- What a property-keeping action leaves alone.
pub Keeps-frame :
    {env : Env} {A : Type 0} (m : Act env A) (w : World env)
    → Keeps env (λ iam llm. (iam ≡ w.iam) × (llm ≡ w.llm)) m
    → ((m w).1.iam ≡ w.iam) × ((m w).1.llm ≡ w.llm)
Keeps-frame m w k = k.at w (refl, refl)

pub Keeps-tokens :
    {env : Env} {A : Type 0} (m : Act env A) (w u : World env) {r : Result A}
    → m w ≡ (r, u)
    → ((m w).1.iam ≡ w.iam) × ((m w).1.llm ≡ w.llm)
    → u.iam.tokens ≡ w.iam.tokens
Keeps-tokens {env} {A} m w u e f =
    ap (λ (p : Result A × World env). p.1.iam.tokens) (sym e) ∙ ap (λ (x : Tables). x.tokens) f.0

pub Keeps-iam :
    {env : Env} {A : Type 0} (m : Act env A) (w u : World env) {r : Result A}
    → m w ≡ (r, u)
    → ((m w).1.iam ≡ w.iam) × ((m w).1.llm ≡ w.llm)
    → u.iam ≡ w.iam
Keeps-iam {env} {A} m w u e f = ap (λ (p : Result A × World env). p.1.iam) (sym e) ∙ f.0

pub Keeps-llm :
    {env : Env} {A : Type 0} (m : Act env A) (w u : World env) {r : Result A}
    → m w ≡ (r, u)
    → ((m w).1.iam ≡ w.iam) × ((m w).1.llm ≡ w.llm)
    → u.llm ≡ w.llm
Keeps-llm {env} {A} m w u e f = ap (λ (p : Result A × World env). p.1.llm) (sym e) ∙ f.1
