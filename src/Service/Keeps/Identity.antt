-- ===== src/Service/Keeps/Identity.antt =====
-- The use cases on users and tokens keep what the writing statements keep.
use masterfabric_backend.Reads.{read_rules}
use masterfabric_backend.Prelude.{ℕ, List}
use masterfabric_backend.Prelude.Text.{Text}
use masterfabric_backend.Exec.{Result, ok, err}
use masterfabric_backend.World.{Env}
use masterfabric_backend.World.Keeps.{Property, Keeps, keeps_rules}
use masterfabric_backend.Permissions.{Role}
use masterfabric_backend.Iam.Model.{User, RefreshToken}
use masterfabric_backend.Iam.Register.{RegisterRequest, register, assign_found, assign_default_role}
use masterfabric_backend.Iam.Login.{LoginRequest, login, issue_refresh}
use masterfabric_backend.Iam.Refresh.{
  lookup_token, check_live, live_token, complete, reissue, rotate, refresh,
}
use masterfabric_backend.Iam.Logout.{logout_found, logout}
use masterfabric_backend.Iam.Account.{
  ChangePasswordRequest, me, update_me, check_passwords, change_password, list_sessions,
}
use masterfabric_backend.Service.Writes.{
  KeptByWrites, create_user-Keeps, update_email-Keeps, update_password-Keeps, assign_to_user-Keeps,
  create_token-Keeps, revoke_token-Keeps, revoke_all_for_user-Keeps,
}

module _ {env : Env} {P : Property env} (K : KeptByWrites env P) where
  pub assign_found-Keeps :
      (user_id : ℕ) (found : Result Role) → Keeps env P (assign_found env user_id found)
  unfolding assign_found
  assign_found-Keeps user_id (ok role) = search (keeps_rules, assign_to_user-Keeps)
  assign_found-Keeps user_id (err e) = search keeps_rules

  pub assign_default_role-Keeps : (user_id : ℕ) → Keeps env P (assign_default_role env user_id)
  unfolding assign_default_role
  assign_default_role-Keeps user_id = search (read_rules, assign_found-Keeps)

  pub register-Keeps : (req : RegisterRequest) → Keeps env P (register env req)
  unfolding register
  register-Keeps req = search (read_rules, create_user-Keeps, assign_default_role-Keeps) depth 12

  pub issue_refresh-Keeps : (user_id : ℕ) → Keeps env P (issue_refresh env user_id)
  unfolding issue_refresh
  issue_refresh-Keeps user_id = search (read_rules, create_token-Keeps) depth 12

  pub login-Keeps : (req : LoginRequest) → Keeps env P (login env req)
  unfolding login
  login-Keeps req = search (read_rules, issue_refresh-Keeps) depth 12

  pub lookup_token-Keeps : (hash : Text) → Keeps env P (lookup_token env hash)
  unfolding lookup_token
  lookup_token-Keeps hash = search read_rules

  pub check_live-Keeps :
      (hash : Text) (stored : RefreshToken) (now : ℕ) → Keeps env P (check_live env hash stored now)
  unfolding check_live
  check_live-Keeps hash stored now = search read_rules depth 8

  pub live_token-Keeps : (hash : Text) → Keeps env P (live_token env hash)
  unfolding live_token
  live_token-Keeps hash = search (read_rules, lookup_token-Keeps, check_live-Keeps)

  pub complete-Keeps :
      (stored : RefreshToken) (now : ℕ) (roles : List Role)
      → Keeps env P (complete env stored now roles)
  unfolding complete
  complete-Keeps stored now roles = search (read_rules, create_token-Keeps) depth 14

  pub reissue-Keeps :
      (hash : Text) (stored : RefreshToken) (now : ℕ) (roles : List Role)
      → Keeps env P (reissue env hash stored now roles)
  unfolding reissue
  reissue-Keeps hash stored now roles = search (read_rules, complete-Keeps)

  pub rotate-Keeps :
      (hash : Text) (stored : RefreshToken) (now : ℕ) → Keeps env P (rotate env hash stored now)
  unfolding rotate
  rotate-Keeps hash stored now = search (read_rules, revoke_token-Keeps, reissue-Keeps)

  pub refresh-Keeps : (token : Text) → Keeps env P (refresh env token)
  unfolding refresh
  refresh-Keeps token = search (read_rules, live_token-Keeps, rotate-Keeps)

  pub logout_found-Keeps :
      (hash : Text) (found : Result RefreshToken) → Keeps env P (logout_found env hash found)
  unfolding logout_found
  logout_found-Keeps hash (ok stored) = search (read_rules, revoke_token-Keeps) depth 8
  logout_found-Keeps hash (err e) = search keeps_rules

  pub logout-Keeps : (token : Text) → Keeps env P (logout env token)
  unfolding logout
  logout-Keeps token = search (read_rules, logout_found-Keeps)

  pub me-Keeps : (user_id : ℕ) → Keeps env P (me env user_id)
  unfolding me
  me-Keeps user_id = search read_rules

  pub update_me-Keeps : (user_id : ℕ) (email : Text) → Keeps env P (update_me env user_id email)
  unfolding update_me
  update_me-Keeps user_id email = search (read_rules, update_email-Keeps)

  pub check_passwords-Keeps :
      (user : User) (req : ChangePasswordRequest) → Keeps env P (check_passwords env user req)
  unfolding check_passwords
  check_passwords-Keeps user req = search keeps_rules

  pub change_password-Keeps :
      (user_id : ℕ) (req : ChangePasswordRequest) → Keeps env P (change_password env user_id req)
  unfolding change_password
  change_password-Keeps user_id req =
      search (read_rules, check_passwords-Keeps, update_password-Keeps, revoke_all_for_user-Keeps)
        depth 8

  pub list_sessions-Keeps : (user_id : ℕ) → Keeps env P (list_sessions env user_id)
  unfolding list_sessions
  list_sessions-Keeps user_id = search read_rules
