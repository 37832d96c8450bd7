-- ===== src/Service/WellFormed/Tokens.antt =====
-- The statements on refresh tokens keep the tables well-formed.
use masterfabric_backend.Prelude.{
  ℕ, refl, inl, inr, Bool, List, Bool-cases, any, All, All-append, nat_eq, list_eq,
}
use masterfabric_backend.Table.Laws.{All-update}
use masterfabric_backend.Table.Unique.{UniqueBy, UniqueBy-snoc, UniqueBy-update}
use masterfabric_backend.World.{Env, World}
use masterfabric_backend.Iam.Model as IamModel
use masterfabric_backend.Iam.Model.{User, RefreshToken}
use masterfabric_backend.Llm.Model as LlmModel
use masterfabric_backend.Llm.Model.{Session, InferenceEvent, DecisionScore}
use masterfabric_backend.Iam.Users.{with_id}
use masterfabric_backend.Iam.Tokens.{with_token_id, is_live, revoke_at, insert_token, revoke_where}
use masterfabric_backend.Service.WellFormed.Rows.{HasUser, WellFormed}

module _ {env : Env} where
  -- Other tokens, whose ids are distinct and whose users exist.
  tokens_kept :
      (iam : IamModel.Tables) (llm : LlmModel.Tables env.Float) (tokens : List RefreshToken)
      → UniqueBy (λ (t : RefreshToken). t.id) tokens
      → All (λ t. HasUser iam.users t.user_id) tokens
      → WellFormed env iam llm
      → WellFormed env (record iam { tokens = tokens }) llm
  tokens_kept iam llm tokens ids users h = record {
    user_ids = h.user_ids;
    emails = h.emails;
    token_ids = ids;
    token_users = users;
    assignments = h.assignments;
    assigned_once = h.assigned_once;
    role_ids = h.role_ids;
    role_names = h.role_names;
    session_ids = h.session_ids;
    session_users = h.session_users;
    event_ids = h.event_ids;
    events = h.events;
    score_ids = h.score_ids;
    one_score = h.one_score;
    score_events = h.score_events;
  }

  pub WellFormed-insert_token :
      (t : RefreshToken) (n : ℕ) (w : World env)
      → WellFormed env w.iam w.llm
      → WellFormed env (insert_token env t n w).1.iam (insert_token env t n w).1.llm
  unfolding insert_token
  WellFormed-insert_token t n w h = elim (Bool-cases (any (with_token_id t.id) w.iam.tokens)) [
    | inl e ↦ rw e h
    | inr e ↦ elim (Bool-cases (any (with_id t.user_id) w.iam.users)) [
      | inr f ↦ rw e (rw f h)
      | inl f ↦ rw e (
          rw f (
            tokens_kept w.iam w.llm _
              (UniqueBy-snoc (λ (s : RefreshToken). s.id) w.iam.tokens _ h.token_ids e)
              (All-append _ w.iam.tokens _ h.token_users (f, tt)) h))
    ]
  ]

  pub WellFormed-revoke_where :
      (p : RefreshToken → Bool) (n : ℕ) (w : World env)
      → WellFormed env w.iam w.llm
      → WellFormed env (revoke_where env p n w).1.iam (revoke_where env p n w).1.llm
  unfolding revoke_where
  WellFormed-revoke_where p n w h =
      tokens_kept w.iam w.llm _
        (UniqueBy-update (λ (t : RefreshToken). t.id) (is_live p) (revoke_at (env.now n))
          w.iam.tokens (λ a. refl) h.token_ids)
        (All-update _ (is_live p) (revoke_at (env.now n)) w.iam.tokens (λ a u. u) h.token_users) h
