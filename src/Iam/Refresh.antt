-- ===== src/Iam/Refresh.antt =====
-- internal/application/iam/usecase/refresh.go.
pub mod Laws
use masterfabric_backend.Prelude.{
  ℕ, ◌+◌, Bool, true, false, String, Option, none, some, List, [], ◌∷◌, if◌then◌else◌,
}
use masterfabric_backend.Prelude.Text.{Text}
use masterfabric_backend.Errors.{Error, domain, domain_by, unauthorized, internal, is_not_found}
use masterfabric_backend.Exec.{
  Result, ok, err, Exec, attempt, map_err, pure, raise, lift, ◌>>=◌, ◌>>◌,
}
use masterfabric_backend.World.{Env, World, Act, call}
use masterfabric_backend.Permissions.{Role}
use masterfabric_backend.Iam.Model.{RefreshToken, is_revoked, is_expired, remaining_lifetime}
use masterfabric_backend.Iam.RoleStore.{find_roles_by_user_id}
use masterfabric_backend.Iam.Tokens.{find_token_by_hash, revoke_token, create_token}
use masterfabric_backend.Iam.Blacklist.{blacklist_revoke, blacklist_is_revoked}
use masterfabric_backend.Iam.Access.{
  hash_token, generate_opaque_token, generate_access, refresh_row,
}
use masterfabric_backend.Iam.Login.{role_names}

pub record RefreshResponse : Type 0 where
  pub access_token : Text
  pub refresh_token : Text
  pub expires_in : ℕ

unfoldable pub found_token : Result RefreshToken → Result RefreshToken
found_token (ok t) = ok t
found_token (err e) =
    if is_not_found e then err (domain unauthorized "invalid refresh token") else err e

module _ (env : Env) where
  -- Step 1: the blacklist, which fails closed.
  unfoldable pub check_blacklist : Text → Act env (Unit {0})
  check_blacklist hash = do
    revoked ← map_err (domain_by internal "check blacklist") (blacklist_is_revoked env hash)
    if revoked then raise (domain unauthorized "refresh token revoked") else pure tt

  -- Step 2: the row of the token, live at the returned instant.
  unfoldable pub lookup_token : Text → Act env RefreshToken
  lookup_token hash = do found ← attempt (find_token_by_hash env hash); lift (found_token found)

  unfoldable pub check_live : Text → RefreshToken → ℕ → Act env (RefreshToken × ℕ)
  check_live hash stored now =
      if is_expired stored now
      then raise (domain unauthorized "refresh token expired")
      else (if is_revoked stored
          then (do
            attempt (blacklist_revoke env hash (remaining_lifetime stored now))
            raise (domain unauthorized "refresh token revoked"))
          else pure (stored, now))

  unfoldable pub live_token : Text → Act env (RefreshToken × ℕ)
  live_token hash = do
    stored ← lookup_token hash
    now ← call env env.now
    check_live hash stored now

  -- The new row and the new access token.
  unfoldable pub complete : RefreshToken → ℕ → List Role → Act env RefreshResponse
  complete stored now roles = do
    raw ← map_err (domain_by internal "generate refresh token") (generate_opaque_token env)
    id ← call env env.fresh
    create_token env (refresh_row env id stored.user_id raw now)
    access ←
        map_err (domain_by internal "generate access token")
          (generate_access env stored.user_id (role_names roles))
    pure (record { access_token = access.0; refresh_token = raw; expires_in = access.1 })

  -- What follows the revocation of the old row: the blacklist, whose error is ignored, and that.
  unfoldable pub reissue : Text → RefreshToken → ℕ → List Role → Act env RefreshResponse
  reissue hash stored now roles = do
    attempt (blacklist_revoke env hash (remaining_lifetime stored now))
    complete stored now roles

  -- Steps 3 to 5: roles, rotation, a new access token.
  unfoldable pub rotate : Text → RefreshToken → ℕ → Act env RefreshResponse
  rotate hash stored now = do
    roles ← find_roles_by_user_id env stored.user_id
    revoke_token env stored.id
    reissue hash stored now roles

  unfoldable pub refresh : Text → Act env RefreshResponse
  refresh token = do
    check_blacklist (hash_token env token)
    live ← live_token (hash_token env token)
    rotate (hash_token env token) live.0 live.1
