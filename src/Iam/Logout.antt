-- ===== src/Iam/Logout.antt =====
-- internal/application/iam/usecase/logout.go.
use masterfabric_backend.Prelude.{if◌then◌else◌}
use masterfabric_backend.Prelude.Text.{Text}
use masterfabric_backend.Errors.{is_not_found}
use masterfabric_backend.Exec.{Result, ok, err, attempt, pure, raise, ◌>>=◌, ◌>>◌}
use masterfabric_backend.World.{Env, Act, call}
use masterfabric_backend.Iam.Model.{RefreshToken, remaining_lifetime}
use masterfabric_backend.Iam.Tokens.{find_token_by_hash, revoke_token}
use masterfabric_backend.Iam.Blacklist.{blacklist_revoke}
use masterfabric_backend.Iam.Access.{hash_token}

module _ (env : Env) where
  -- What follows the look-up; the errors of both revocations are ignored.
  unfoldable pub logout_found : Text → Result RefreshToken → Act env (Unit {0})
  logout_found hash (err e) = if is_not_found e then pure tt else raise e
  logout_found hash (ok stored) = do
    attempt (revoke_token env stored.id)
    now ← call env env.now
    attempt (blacklist_revoke env hash (remaining_lifetime stored now))
    pure tt

  unfoldable pub logout : Text → Act env (Unit {0})
  unfolding logout_found
  logout token = do
    found ← attempt (find_token_by_hash env (hash_token env token))
    logout_found (hash_token env token) found
