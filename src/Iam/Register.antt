-- ===== src/Iam/Register.antt =====
-- internal/application/iam/usecase/register.go.
pub mod Laws
use masterfabric_backend.Prelude.{
  ℕ, Bool, true, false, String, Option, none, some, List, [], ◌∷◌, if◌then◌else◌, not,
}
use masterfabric_backend.Prelude.Text.{Text}
use masterfabric_backend.Errors.{Error, domain, domain_by, plain, conflict, internal, is_not_found}
use masterfabric_backend.Exec.{
  Result, ok, err, Exec, attempt, map_err, pure, raise, lift, ◌>>=◌, ◌>>◌,
}
use masterfabric_backend.World.{Env, World, Act, call, publish, Payload}
use masterfabric_backend.Permissions.{Role}
use masterfabric_backend.Iam.Model.{User}
use masterfabric_backend.Iam.Email.{normalize_email}
use masterfabric_backend.Iam.Users.{find_user_by_email, create_user}
use masterfabric_backend.Iam.RoleStore.{find_role_by_name, assign_to_user}
use masterfabric_backend.Iam.Access.{or_error}

pub record RegisterRequest : Type 0 where
  pub email : Text
  pub password : Text

pub record RegisterResponse : Type 0 where
  pub user_id : ℕ
  pub email : Text

-- The two tests on what `FindByEmail` returns: a user is a conflict, and of the errors only
-- "not found" lets the registration go on.
unfoldable pub check_existing : Result User → Result (Unit {0})
check_existing (ok existing) = err (domain conflict "email already registered")
check_existing (err e) = if is_not_found e then ok tt else err e

module _ (env : Env) where
  -- `if role, err := …; err == nil { _ = AssignToUser(…) }`.
  unfoldable pub assign_found : ℕ → Result Role → Act env (Unit {0})
  assign_found user_id (ok role) = do attempt (assign_to_user env user_id role.id); pure tt
  assign_found user_id (err e) = pure tt

  unfoldable pub assign_default_role : ℕ → Act env (Unit {0})
  unfolding assign_found
  assign_default_role user_id = do
    found ← attempt (find_role_by_name env "user")
    assign_found user_id found

  unfoldable pub hash_password : Text → Act env Text
  hash_password password = do
    hash ← call env (λ n. env.bcrypt_hash n password)
    lift (or_error (domain_by internal "hash password" (plain "bcrypt")) hash)

  unfoldable pub register : RegisterRequest → Act env RegisterResponse
  register req = do
    let email = normalize_email env.lower_wide req.email
    existing ← attempt (find_user_by_email env email)
    lift (check_existing existing)
    hash ← hash_password req.password
    user ← create_user env email hash
    assign_default_role user.id
    publish env "user.registered" "masterfabric.iam" "iam.application.register"
        (("user_id", Payload.uuid user.id) ∷ ("email", Payload.text user.email) ∷ [])
    pure (record { user_id = user.id; email = user.email })
