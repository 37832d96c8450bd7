-- ===== src/Iam/Account.antt =====
-- internal/application/iam/usecase/{me,update_me,change_password,list_sessions}.go.
pub mod Laws
use masterfabric_backend.Prelude.{
  ℕ, Bool, true, false, String, Option, none, some, List, [], ◌∷◌, if◌then◌else◌, ◌==◌, list_eq,
  nat_eq,
}
use masterfabric_backend.Prelude.Text.{Text}
use masterfabric_backend.Errors.{Error, domain, domain_by, unauthorized, bad_request}
use masterfabric_backend.Exec.{Result, ok, err, Exec, pure, raise, ◌>>=◌, ◌>>◌}
use masterfabric_backend.World.{Env, World, Act}
use masterfabric_backend.Iam.Model.{User, RefreshToken}
use masterfabric_backend.Iam.Email.{normalize_email}
use masterfabric_backend.Iam.Users.{find_user_by_id, update_email, update_password}
use masterfabric_backend.Iam.RoleStore.{find_roles_by_user_id}
use masterfabric_backend.Iam.Tokens.{revoke_all_for_user, list_tokens_by_user}
use masterfabric_backend.Iam.Register.{hash_password}
use masterfabric_backend.Iam.Login.{role_names}

pub record MeResponse : Type 0 where
  pub id : ℕ
  pub email : Text
  pub roles : List String
  pub created_at : ℕ

pub record ChangePasswordRequest : Type 0 where
  pub current_password : Text
  pub new_password : Text

pub record SessionDto : Type 0 where
  pub id : ℕ
  pub created_at : ℕ
  pub last_seen_at : ℕ
  pub revoked_at : Option ℕ

-- The loop of `ListSessionsUseCase.Execute`.
unfoldable pub session_dtos : List RefreshToken → List SessionDto
session_dtos [] = []
session_dtos (t ∷ tokens) =
    record {
      id = t.id;
      created_at = t.created_at;
      last_seen_at = t.last_seen_at;
      revoked_at = t.revoked_at;
    }
    ∷ session_dtos tokens

module _ (env : Env) where
  unfoldable pub me : ℕ → Act env MeResponse
  me user_id = do
    user ← find_user_by_id env user_id
    roles ← find_roles_by_user_id env user_id
    pure (record {
      id = user.id;
      email = user.email;
      roles = role_names roles;
      created_at = user.created_at;
    })

  unfoldable pub update_me : ℕ → Text → Act env MeResponse
  update_me user_id new_email = do
    user ← update_email env user_id (normalize_email env.lower_wide new_email)
    roles ← find_roles_by_user_id env user_id
    pure (record {
      id = user.id;
      email = user.email;
      roles = role_names roles;
      created_at = user.created_at;
    })

  -- The checks on the two passwords.
  unfoldable pub check_passwords : User → ChangePasswordRequest → Act env (Unit {0})
  check_passwords user req =
      if env.bcrypt_matches user.password_hash req.current_password
      then (if req.current_password == req.new_password
          then raise (domain bad_request "new password must be different from current")
          else pure tt)
      else raise (domain unauthorized "current password is incorrect")

  unfoldable pub change_password : ℕ → ChangePasswordRequest → Act env (Unit {0})
  change_password user_id req = do
    user ← find_user_by_id env user_id
    check_passwords user req
    hash ← hash_password env req.new_password
    update_password env user_id hash
    revoke_all_for_user env user_id

  unfoldable pub list_sessions : ℕ → Act env (List SessionDto)
  unfolding session_dtos
  list_sessions user_id = do tokens ← list_tokens_by_user env user_id; pure (session_dtos tokens)
