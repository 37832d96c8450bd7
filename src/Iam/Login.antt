-- ===== src/Iam/Login.antt =====
-- internal/application/iam/usecase/login.go. The repository returns a user or an error, never
-- neither, so the test `user == nil` has no case here.
pub mod Laws
pub mod Liveness
use masterfabric_backend.Prelude.{
  ℕ, ◌+◌, Bool, true, false, String, Option, none, some, List, [], ◌∷◌, if◌then◌else◌,
}
use masterfabric_backend.Prelude.Text.{Text}
use masterfabric_backend.Errors.{Error, domain, domain_by, unauthorized, internal, is_not_found}
use masterfabric_backend.Exec.{
  Result, ok, err, Exec, attempt, map_err, pure, raise, lift, ◌>>=◌, ◌>>◌,
}
use masterfabric_backend.World.{Env, World, Act, call, publish, Payload}
use masterfabric_backend.Permissions.{Role}
use masterfabric_backend.Iam.Model.{User, RefreshToken}
use masterfabric_backend.Iam.Email.{normalize_email}
use masterfabric_backend.Iam.Users.{find_user_by_email}
use masterfabric_backend.Iam.RoleStore.{find_roles_by_user_id}
use masterfabric_backend.Iam.Tokens.{create_token}
use masterfabric_backend.Iam.Access.{
  hash_token, generate_opaque_token, generate_access, refresh_row,
}

pub record LoginRequest : Type 0 where
  pub email : Text
  pub password : Text

pub record UserDto : Type 0 where
  pub id : ℕ
  pub email : Text
  pub roles : List String

pub record LoginResponse : Type 0 where
  pub access_token : Text
  pub refresh_token : Text
  pub expires_in : ℕ
  pub user : UserDto

abbrev pub invalid_credentials : Error
invalid_credentials = domain unauthorized "invalid credentials"

-- What becomes of the outcome of `FindByEmail`.
unfoldable pub found_user : Result User → Result User
found_user (ok user) = ok user
found_user (err e) = if is_not_found e then err invalid_credentials else err e

-- The loop that collects `roleNames`.
unfoldable pub role_names : List Role → List String
role_names [] = []
role_names (r ∷ roles) = r.name ∷ role_names roles

module _ (env : Env) where
  -- A new refresh token for the user: its row, and the text that only the client keeps.
  unfoldable pub issue_refresh : ℕ → Act env Text
  issue_refresh user_id = do
    raw ← map_err (domain_by internal "generate refresh token") (generate_opaque_token env)
    now ← call env env.now
    id ← call env env.fresh
    create_token env (refresh_row env id user_id raw now)
    pure raw

  unfoldable pub login : LoginRequest → Act env LoginResponse
  login req = do
    found ← attempt (find_user_by_email env (normalize_email env.lower_wide req.email))
    user ← lift (found_user found)
    if env.bcrypt_matches user.password_hash req.password
        then pure tt
        else raise invalid_credentials
    roles ← find_roles_by_user_id env user.id
    access ←
        map_err (domain_by internal "generate access token")
          (generate_access env user.id (role_names roles))
    raw ← issue_refresh user.id
    publish env "user.logged_in" "masterfabric.iam" "iam.application.login"
        (("user_id", Payload.uuid user.id) ∷ [])
    pure (record {
      access_token = access.0;
      refresh_token = raw;
      expires_in = access.1;
      user = record { id = user.id; email = user.email; roles = role_names roles };
    })
