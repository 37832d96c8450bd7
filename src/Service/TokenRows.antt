-- ===== src/Service/TokenRows.antt =====
-- A property of the refresh tokens alone is kept by the service if the two statements that
-- write them keep it.
use mathlib.Core.Path.{subst}
use masterfabric_backend.Prelude.{ℕ, ◌≡◌, sym, Bool, List, arith, nat_eq}
use masterfabric_backend.Prelude.Text.{Text}
use masterfabric_backend.World.{Env, World}
use masterfabric_backend.World.Keeps.{Property}
use masterfabric_backend.Iam.Model.{RefreshToken}
use masterfabric_backend.Iam.Users.{insert_user, set_email, set_password}
use masterfabric_backend.Iam.RoleStore.{insert_user_role}
use masterfabric_backend.Iam.Tokens.{insert_token, revoke_where}
use masterfabric_backend.Llm.Model.{Session, InferenceEvent, DecisionScore}
use masterfabric_backend.Llm.Store.{insert_session, insert_event, insert_score}
use masterfabric_backend.Service.Writes.{KeptByWrites}

module _ {env : Env} where
  tokens-insert_user :
      (email hash : Text) (n : ℕ) (w : World env)
      → (insert_user env email hash n w).1.iam.tokens ≡ w.iam.tokens
  unfolding insert_user
  tokens-insert_user email hash n w = ground arith

  tokens-set_email :
      (id : ℕ) (email : Text) (n : ℕ) (w : World env)
      → (set_email env id email n w).1.iam.tokens ≡ w.iam.tokens
  unfolding set_email
  tokens-set_email id email n w = ground arith

  tokens-insert_user_role :
      (u r n : ℕ) (w : World env) → (insert_user_role env u r n w).1.iam.tokens ≡ w.iam.tokens
  unfolding insert_user_role
  tokens-insert_user_role u r n w = ground arith

  tokens-insert_session :
      (s : Session) (n : ℕ) (w : World env) → (insert_session env s n w).1.iam.tokens ≡ w.iam.tokens
  unfolding insert_session
  tokens-insert_session s n w = ground arith

  tokens-insert_event :
      (e : InferenceEvent) (n : ℕ) (w : World env)
      → (insert_event env e n w).1.iam.tokens ≡ w.iam.tokens
  unfolding insert_event
  tokens-insert_event e n w = ground arith

  tokens-insert_score :
      (s : DecisionScore env.Float) (n : ℕ) (w : World env)
      → (insert_score env s n w).1.iam.tokens ≡ w.iam.tokens
  unfolding insert_score
  tokens-insert_score s n w = ground arith

-- The property of the tables that looks at the refresh tokens.
abbrev pub OfTokens : (env : Env) → (List RefreshToken → Type 0) → Property env
OfTokens env Q iam llm = Q iam.tokens

pub KeptByWrites-tokens :
    (env : Env) (Q : List RefreshToken → Type 0)
    → ((t : RefreshToken) (n : ℕ) (w : World env)
        → Q w.iam.tokens
        → Q (insert_token env t n w).1.iam.tokens)
    → ((p : RefreshToken → Bool) (n : ℕ) (w : World env)
        → Q w.iam.tokens
        → Q (revoke_where env p n w).1.iam.tokens)
    → KeptByWrites env (OfTokens env Q)
unfolding set_password
KeptByWrites-tokens env Q inserted revoked = record {
  insert_user_law = λ email h n w q. subst Q (sym (tokens-insert_user email h n w)) q;
  set_email_law = λ id email n w q. subst Q (sym (tokens-set_email id email n w)) q;
  set_password_law = λ id h n w q. q;
  insert_user_role_law = λ u r n w q. subst Q (sym (tokens-insert_user_role u r n w)) q;
  insert_token_law = inserted;
  revoke_where_law = revoked;
  insert_session_law = λ s n w q. subst Q (sym (tokens-insert_session s n w)) q;
  insert_event_law = λ e n w q. subst Q (sym (tokens-insert_event e n w)) q;
  insert_score_law = λ s n w q. subst Q (sym (tokens-insert_score s n w)) q;
}
