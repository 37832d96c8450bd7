-- ===== src/Service/SignedOut.antt =====
-- What ends a session for good: a logout, and a change of password.
use mathlib.Core.Path.{subst}
use masterfabric_backend.Prelude.{
  ℕ, suc, ◌≡◌, refl, sym, ap, ◌∙◌, ◌≢◌, Bool, true, some, List, arith, if◌then◌else◌, ==-refl,
  nat_eq,
}
use masterfabric_backend.Prelude.Text.{Text}
use masterfabric_backend.Exec.{Result, ok, pure, raise, attempt, map_err, ◌>>=◌, ◌>>◌}
use masterfabric_backend.Exec.Inversion.{>>=-ok, attempt-ok}
use masterfabric_backend.Table.{find, update}
use masterfabric_backend.Table.Laws.{find-update}
use masterfabric_backend.World.{Env, World, Act, Fault, advance, call}
use masterfabric_backend.World.Keeps.{Keeps}
use masterfabric_backend.World.Inversion.{query-healthy}
use masterfabric_backend.Reads.{read_rules}
use masterfabric_backend.Iam.Model.{RefreshToken, is_revoked, remaining_lifetime}
use masterfabric_backend.Iam.Tokens.{
  with_hash, with_token_id, of_user, is_live, revoke_at, revoke_where, revoke_token,
  find_token_by_hash,
}
use masterfabric_backend.Iam.Access.{hash_token}
use masterfabric_backend.Iam.Blacklist.{blacklist_revoke}
use masterfabric_backend.Iam.Logout.{logout_found, logout}
use masterfabric_backend.Iam.Refresh.{RefreshResponse, refresh}
use masterfabric_backend.Iam.Account.{ChangePasswordRequest, change_password}
use masterfabric_backend.Iam.Account.Laws.{change_password-IsPasswordChange}
use masterfabric_backend.Service.{Operation, run}
use masterfabric_backend.Service.SingleUse.{IsDead, dead_for_good}

revoked_anyway :
    (p : RefreshToken → Bool) (at : ℕ) (t : RefreshToken)
    → p t ≡ true
    → is_revoked (if is_live p t then revoke_at at t else t) ≡ true
unfolding is_live is_revoked
revoked_anyway p at t hit = ground arith

-- A revocation of the rows that pass a test, among them the row of the hash, leaves that dead.
revoked_IsDead :
    (env : Env) (hash : Text) (p : RefreshToken → Bool) (at : ℕ) (t : RefreshToken)
    (w u : World env)
    → find (with_hash hash) w.iam.tokens ≡ some t
    → p t ≡ true
    → u.iam.tokens ≡ update (is_live p) (revoke_at at) w.iam.tokens
    → IsDead env hash u.iam u.llm
revoked_IsDead env hash p at t w u found hit written = (
  if is_live p t then revoke_at at t else t,
  ap (find (with_hash hash)) written
      ∙ find-update (with_hash hash) (is_live p) (revoke_at at) w.iam.tokens (λ t. refl) found,
  revoked_anyway p at t hit,
)

module _ {env : Env} where
  find_token_by_hash-healthy :
      (hash : Text) (t : RefreshToken) (w : World env)
      → env.fault w.step ≡ Fault.healthy
      → find (with_hash hash) w.iam.tokens ≡ some t
      → find_token_by_hash env hash w ≡ (ok t, advance env w)
  unfolding find_token_by_hash map_err
  find_token_by_hash-healthy hash t w up found = rw (query-healthy _ w up) (rw found refl)

  tokens-revoke_token :
      (id : ℕ) (w : World env)
      → env.fault w.step ≡ Fault.healthy
      → (revoke_token env id w).1.iam.tokens
        ≡ update (is_live (with_token_id id)) (revoke_at (env.now w.step)) w.iam.tokens
  unfolding revoke_token revoke_where map_err ◌>>=◌ pure raise
  tokens-revoke_token id w up = rw (query-healthy _ w up) (ground arith)

-- What a logout does after the revocation of the row.
abbrev blacklist_rest : (env : Env) → Text → RefreshToken → Act env (Unit {0})
blacklist_rest env hash stored = do
  now ← call env env.now
  attempt (blacklist_revoke env hash (remaining_lifetime stored now))
  pure tt

module _ (env : Env) where
  blacklist_rest-IsDead :
      (hash key : Text) (stored : RefreshToken)
      → Keeps env (IsDead env key) (blacklist_rest env hash stored)
  blacklist_rest-IsDead hash key stored = search read_rules

  logout-rest :
      (token : Text) (t : RefreshToken) (w : World env)
      → env.fault w.step ≡ Fault.healthy
      → find (with_hash (hash_token env token)) w.iam.tokens ≡ some t
      → logout env token w
        ≡ blacklist_rest env (hash_token env token) t (revoke_token env t.id (advance env w)).1
  unfolding logout logout_found
  logout-rest token t w up found =
      >>=-ok (attempt (find_token_by_hash env (hash_token env token))) _ (
        attempt-ok (find_token_by_hash env (hash_token env token))
          (find_token_by_hash-healthy (hash_token env token) t w up found))
      ∙ >>=-ok (attempt (revoke_token env t.id)) _ (attempt-ok (revoke_token env t.id) refl)

  -- A logout that finds the row of its token, with both of its statements answered, ends the
  -- token: no later refresh with it returns, whatever is done in between.
  pub logout_ends_session :
      (token : Text) (t : RefreshToken) (w v x : World env) (resp : RefreshResponse)
      (ops : List (Operation env))
      → env.fault w.step ≡ Fault.healthy
      → env.fault (suc w.step) ≡ Fault.healthy
      → find (with_hash (hash_token env token)) w.iam.tokens ≡ some t
      → run env ops (logout env token w).1 ≡ v
      → refresh env token v ≢ (ok resp, x)
  logout_ends_session token t w v x resp ops up up' found ran =
      let hash = hash_token env token in
      let revoked =
        revoked_IsDead env hash (with_token_id t.id) (env.now (suc w.step)) t (advance env w)
          (revoke_token env t.id (advance env w)).1 found (==-refl t.id)
          (tokens-revoke_token t.id (advance env w) up') in
      let left =
        (blacklist_rest-IsDead hash hash t).at (revoke_token env t.id (advance env w)).1 revoked in
      dead_for_good env token (logout env token w).1 v x resp ops
        (subst (λ (o : Result (Unit {0}) × World env). IsDead env hash o.1.iam o.1.llm)
          (sym (logout-rest token t w up found)) left)
        ran

  -- A change of password that returns ends every session of the user: no later refresh returns
  -- with a token whose row was the user's before the change, whatever is done in between.
  pub change_password_ends_sessions :
      (token : Text) (t : RefreshToken) (user_id : ℕ) (req : ChangePasswordRequest)
      (w u v x : World env) (resp : RefreshResponse) (ops : List (Operation env))
      → change_password env user_id req w ≡ (ok tt, u)
      → find (with_hash (hash_token env token)) w.iam.tokens ≡ some t
      → of_user user_id t ≡ true
      → run env ops u ≡ v
      → refresh env token v ≢ (ok resp, x)
  change_password_ends_sessions token t user_id req w u v x resp ops h found owner ran =
      let c = change_password-IsPasswordChange env user_id req w u h in
      dead_for_good env token u v x resp ops
        (revoked_IsDead env (hash_token env token) (of_user user_id) c.at t w u found owner
          c.revoked)
        ran
