-- ===== src/Service/Race.antt =====
-- Requests that refresh one token at the same time: internal/application/iam/usecase/refresh.go
-- cut where other requests can come in between. A stage is what a request still has to do; a
-- move sends one statement at most.
pub mod Sequential
pub mod Rows
pub mod Moves
pub mod Winner
use masterfabric_backend.Prelude.{ℕ, List, ◌==◌, nat_eq, if◌then◌else◌}
use masterfabric_backend.Prelude.Text.{Text}
use masterfabric_backend.Errors.{Error}
use masterfabric_backend.Exec.{Result, ok, err, Exec, attempt, pure, ◌>>=◌, ◌>>◌}
use masterfabric_backend.World.{Env, World, Act, call}
use masterfabric_backend.Permissions.{Role}
use masterfabric_backend.Iam.Model.{RefreshToken, remaining_lifetime}
use masterfabric_backend.Iam.RoleStore.{find_roles_by_user_id}
use masterfabric_backend.Iam.Tokens.{revoke_token}
use masterfabric_backend.Iam.Blacklist.{blacklist_revoke}
use masterfabric_backend.Iam.Refresh.{
  RefreshResponse, check_blacklist, lookup_token, check_live, complete,
}
use masterfabric_backend.Service.{Operation, perform}

pub data Stage : Type 0 where
  checking looking : Stage
  judging : RefreshToken → Stage
  rotating : RefreshToken → ℕ → Stage
  revoking blacklisting completing : RefreshToken → ℕ → List Role → Stage
  done : RefreshResponse → Stage
  failed : Error → Stage

-- The stage after an action that may return an error.
unfoldable pub settle : Result Stage → Stage
settle (ok stage) = stage
settle (err e) = failed e

module _ (env : Env) (hash : Text) where
  unfoldable pub stage_action : Stage → Act env Stage
  stage_action checking = do check_blacklist env hash; pure looking
  stage_action looking = do stored ← lookup_token env hash; pure (judging stored)
  stage_action (judging stored) = do
    live ← (do now ← call env env.now; check_live env hash stored now)
    pure (rotating live.0 live.1)
  stage_action (rotating stored now) = do
    roles ← find_roles_by_user_id env stored.user_id
    pure (revoking stored now roles)
  stage_action (revoking stored now roles) = do
    revoke_token env stored.id
    pure (blacklisting stored now roles)
  stage_action (blacklisting stored now roles) = do
    attempt (blacklist_revoke env hash (remaining_lifetime stored now))
    pure (completing stored now roles)
  stage_action (completing stored now roles) = do
    resp ← complete env stored now roles
    pure (done resp)
  stage_action (done resp) = pure (done resp)
  stage_action (failed e) = pure (failed e)

  unfoldable pub move : Stage → World env → Stage × World env
  move stage w = let (result, u) = stage_action stage w in (settle result, u)

  -- Requests, by number, over one world.
  pub record System : Type 0 where
    pub world : World env
    pub threads : ℕ → Stage

  abbrev pub with_thread : (ℕ → Stage) → ℕ → Stage → ℕ → Stage
  with_thread threads i stage j = if j == i then stage else threads j

  -- One of them moves, or any other operation of the service runs.
  pub data Step (s : System) : System → Type 0 where
    moves :
        (i : ℕ)
        → Step s (record {
          world = (move (s.threads i) s.world).1;
          threads = with_thread s.threads i (move (s.threads i) s.world).0;
        })
    serves :
        (op : Operation env)
        → Step s (record { world = (perform env op s.world).1; threads = s.threads })

  -- From a world in which every request is at its beginning.
  pub data Reach (w : World env) : System → Type 0 where
    start : Reach w (record { world = w; threads = λ i. checking })
    later : {s t : System} → Reach w s → Step s t → Reach w t
