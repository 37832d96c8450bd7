-- ===== src/Tests/Identity.antt =====
-- The theorems on registration, login, rotation and change of password, applied to concrete data.
use masterfabric_backend.Prelude.{
  ℕ, ◌+◌, ◌≡◌, refl, false, leb, ◌&&◌, none, [], ◌∷◌, ◌==◌, nat_eq, list_eq, if◌then◌else◌, arith,
}
use masterfabric_backend.Prelude.Text.{codes}
use masterfabric_backend.Errors.{domain_by, plain, internal}
use masterfabric_backend.Exec.{ok, err}
use masterfabric_backend.Table.{find}
use masterfabric_backend.World.{advance}
use masterfabric_backend.Iam.Model.{User}
use masterfabric_backend.Iam.Email.{normalize_email}
use masterfabric_backend.Iam.Register.{RegisterRequest, register}
use masterfabric_backend.Iam.Login.{LoginRequest, LoginResponse, login}
use masterfabric_backend.Iam.Refresh.{refresh}
use masterfabric_backend.Iam.Account.{change_password}
use masterfabric_backend.Iam.Email.Laws.{IsNormal, is_capital, normalize_email-IsNormal}
use masterfabric_backend.Iam.Login.Laws.{
  IsLogin, IsRefused, unknown, login-IsLogin, login_refusals_alike,
}
use masterfabric_backend.Iam.Login.{invalid_credentials}
use masterfabric_backend.Iam.Refresh.Laws.{IsRotation, refresh-IsRotation}
use masterfabric_backend.Iam.Register.{RegisterResponse}
use masterfabric_backend.Iam.Register.Laws.{
  IsRegistered, register-IsRegistered, register_long_password,
}
use masterfabric_backend.Iam.Account.Laws.{IsPasswordChange, change_password-IsPasswordChange}
use masterfabric_backend.Tests.{
  ann_change, ann_login, bob, change_run, lab, program, refresh_run, refreshed, start,
}

abbrev ann_session : LoginResponse
ann_session = record {
  access_token = codes "jwt";
  refresh_token = codes "04";
  expires_in = 900;
  user = record { id = 1; email = codes "ann@x.io"; roles = "user" ∷ [] };
}

login_run : login lab ann_login start ≡ (ok ann_session, (login lab ann_login start).1)
unfolding program
login_run = refl

abbrev bob_registered : RegisterResponse
bob_registered = record { user_id = 102; email = codes "bob@x.io" }

register_run : register lab bob start ≡ (ok bob_registered, (register lab bob start).1)
unfolding program
register_run = refl

refresh-IsRotation_example :
    IsRotation lab
      (codes "ab")
      start.iam.tokens
      (refresh lab (codes "ab") start).1.iam.tokens
      refreshed
refresh-IsRotation_example =
    refresh-IsRotation lab (codes "ab") start (refresh lab (codes "ab") start).1 refreshed
      refresh_run

login-IsLogin_example :
    IsLogin lab ann_login start.iam (login lab ann_login start).1.iam ann_session
login-IsLogin_example =
    login-IsLogin lab ann_login start (login lab ann_login start).1 ann_session login_run

abbrev stranger : LoginRequest
stranger = record { email = codes "eve@x.io"; password = codes "secret" }

no_stranger : IsRefused lab stranger start.iam.users
unfolding program
no_stranger = unknown refl

login_refusals_alike_example :
    login lab stranger start ≡ (err invalid_credentials, advance lab start)
login_refusals_alike_example = login_refusals_alike lab stranger start refl no_stranger

register-IsRegistered_example :
    IsRegistered lab bob start.iam.users (register lab bob start).1.iam.users bob_registered
register-IsRegistered_example =
    register-IsRegistered lab bob start (register lab bob start).1 bob_registered register_run

abbrev long_request : RegisterRequest
long_request = record {
  email = codes "bob@x.io";
  password = codes "0123456789012345678901234567890123456789012345678901234567890123456789abcdef";
}

long_request_free :
    find
      (λ (u : User). u.email == normalize_email lab.lower_wide long_request.email)
      start.iam.users
    ≡ none
unfolding program
long_request_free = refl

register_long_password_example :
    ((register lab long_request start).0
      ≡ err (domain_by internal "hash password" (plain "bcrypt")))
    × ((register lab long_request start).1.iam ≡ start.iam)
register_long_password_example =
    register_long_password lab long_request start (λ n password h. ground arith) refl
      long_request_free (omega arith)

change_password-IsPasswordChange_example :
    IsPasswordChange lab 1 ann_change start.iam (change_password lab 1 ann_change start).1.iam
change_password-IsPasswordChange_example =
    change_password-IsPasswordChange lab 1 ann_change start
      (change_password lab 1 ann_change start).1 change_run

abbrev ascii_lower : ℕ → ℕ
ascii_lower c = if leb b'A' c && leb c b'Z' then c + 32 else c

ascii_lower-small : (c : ℕ) → is_capital (ascii_lower c) ≡ false
ascii_lower-small c = ground arith

normalize_email-IsNormal_example :
    IsNormal ascii_lower (codes " Ann@X.io ") (normalize_email ascii_lower (codes " Ann@X.io "))
normalize_email-IsNormal_example =
    normalize_email-IsNormal ascii_lower ascii_lower-small (codes " Ann@X.io ")
