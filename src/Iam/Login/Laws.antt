-- ===== src/Iam/Login/Laws.antt =====
-- What a login checks, and that its refusals look alike.
use mathlib.Core.Path.{ap₂}
use masterfabric_backend.Prelude.{
  ℕ, ◌≡◌, sym, ap, ◌∙◌, true, false, none, some, List, [], ◌∷◌, ◌++◌, arith,
}
use masterfabric_backend.Prelude.Text.{Text}
use masterfabric_backend.Errors.{is_not_found, is_no_rows}
use masterfabric_backend.Exec.{Result, ok, err, attempt, map_err, lift, raise, ◌>>=◌}
use masterfabric_backend.Exec.Inversion.{
  >>=-eq-ok, map_err-eq-ok, attempt-eq-ok, lift-eq-ok, pure-eq-ok, guard-eq-ok,
}
use masterfabric_backend.Table.{find}
use masterfabric_backend.World.{Env, World, publish, Fault, advance}
use masterfabric_backend.World.Inversion.{call-eq-ok, query-healthy}
use masterfabric_backend.Iam.Model.{User, RefreshToken, Tables}
use masterfabric_backend.Iam.Email.{normalize_email}
use masterfabric_backend.Iam.Users.{with_email, find_user_by_email}
use masterfabric_backend.Iam.Users.Laws.{find_user_by_email-eq-ok}
use masterfabric_backend.Iam.RoleStore.{find_roles_by_user_id}
use masterfabric_backend.Iam.Tokens.Laws.{create_token-eq-ok}
use masterfabric_backend.Iam.Access.{generate_opaque_token, generate_access, refresh_row}
use masterfabric_backend.World.Keeps.{Keeps-publish}
use masterfabric_backend.Reads.{
  Keeps-frame, Keeps-tokens, generate_opaque_token-Keeps, find_roles_by_user_id-Keeps,
  generate_access-Keeps,
}
use masterfabric_backend.Iam.Login.{
  LoginRequest, LoginResponse, invalid_credentials, found_user, issue_refresh, role_names, login,
}

-- What a login that returned has found and done to the tokens.
pub record IsLogin (env : Env) (req : LoginRequest) (before after : Tables) (resp : LoginResponse)
    : Type 0 where
  pub user : User
  pub id : ℕ
  pub now : ℕ
  pub found : find (with_email (normalize_email env.lower_wide req.email)) before.users ≡ some user
  pub verified : env.bcrypt_matches user.password_hash req.password ≡ true
  pub issued :
      after.tokens ≡ before.tokens ++ refresh_row env id user.id resp.refresh_token now ∷ []
  pub named : resp.user.id ≡ user.id

found_user-eq-ok : (r : Result User) {user : User} → found_user r ≡ ok user → r ≡ ok user
unfolding found_user
found_user-eq-ok r h = ground arith

abbrev tokens_in : {env : Env} → World env → List RefreshToken
tokens_in w = w.iam.tokens

module _ {env : Env} where
  issue_refresh-eq-ok :
      (user_id : ℕ) (w u : World env) (raw : Text)
      → issue_refresh env user_id w ≡ (ok raw, u)
      → (id : ℕ) × (now : ℕ) × (u.iam.tokens
          ≡ w.iam.tokens ++ refresh_row env id user_id raw now ∷ [])
  unfolding issue_refresh
  issue_refresh-eq-ok user_id w u raw h =
      let (text, w1, drawn, rest1) = >>=-eq-ok _ _ w h in
      let (now, w2, timed, rest2) = >>=-eq-ok _ _ w1 rest1 in
      let (id, w3, named, rest3) = >>=-eq-ok _ _ w2 rest2 in
      let (_, w4, created, last) = >>=-eq-ok _ _ w3 rest3 in
      let (same, stay) = pure-eq-ok _ w4 last in
      (
        id,
        now,
        sym (ap (λ (x : World env). x.iam.tokens) stay)
            ∙ (create_token-eq-ok _ w3 w4 created).0
            ∙ ap₂
                (λ (ts : List RefreshToken) (x : Text). ts ++ refresh_row env id user_id x now ∷ [])
                (sym (ap (λ (x : World env). x.iam.tokens) (call-eq-ok env.fresh w2 named).1)
                  ∙ sym (ap (λ (x : World env). x.iam.tokens) (call-eq-ok env.now w1 timed).1)
                  ∙ Keeps-tokens (generate_opaque_token env) w w1 (map_err-eq-ok _ _ w drawn)
                      (Keeps-frame (generate_opaque_token env) w generate_opaque_token-Keeps))
                same,
      )

-- A login that returns has found the user by the normalised email, has had bcrypt accept the
-- password against the stored hash, and has appended one refresh token for that user, under the
-- hash of the token that it returns; no other token changes.
pub login-IsLogin :
    (env : Env) (req : LoginRequest) (w u : World env) (resp : LoginResponse)
    → login env req w ≡ (ok resp, u)
    → IsLogin env req w.iam u.iam resp
unfolding login
login-IsLogin env req w u resp h =
    let (r, w1, asked, rest1) = >>=-eq-ok _ _ w h in
    let (user, w2, lifted, rest2) = >>=-eq-ok _ _ w1 rest1 in
    let (_, w3, tested, rest3) = >>=-eq-ok _ _ w2 rest2 in
    let (roles, w4, read, rest4) = >>=-eq-ok _ _ w3 rest3 in
    let (access, w5, signed, rest5) = >>=-eq-ok _ _ w4 rest4 in
    let (raw, w6, issued, rest6) = >>=-eq-ok _ _ w5 rest5 in
    let (_, w7, told, last) = >>=-eq-ok _ _ w6 rest6 in
    let (same, stay) = pure-eq-ok _ w7 last in
    let (hit, same1) = lift-eq-ok _ w1 lifted in
    let (verified, _, same2) = guard-eq-ok _ tt _ w2 tested in
    let (found, moved) =
      find_user_by_email-eq-ok (normalize_email env.lower_wide req.email) w
        (attempt-eq-ok _ w asked ∙ ap (λ (x : Result User). (x, w1)) (found_user-eq-ok r hit)) in
    let (id, now, appended) = issue_refresh-eq-ok user.id w5 w6 raw issued in
    let before : w5.iam.tokens ≡ w.iam.tokens =
      Keeps-tokens (generate_access env user.id (role_names roles)) w4 w5
        (map_err-eq-ok _ _ w4 signed)
        (Keeps-frame (generate_access env user.id (role_names roles)) w4
          (generate_access-Keeps user.id (role_names roles)))
      ∙ Keeps-tokens (find_roles_by_user_id env user.id) w3 w4 read
          (Keeps-frame (find_roles_by_user_id env user.id) w3 (find_roles_by_user_id-Keeps user.id))
      ∙ sym (ap (tokens_in {env = env}) same2)
      ∙ sym (ap (tokens_in {env = env}) same1)
      ∙ sym (ap (tokens_in {env = env}) moved) in
    record {
      user = user;
      id = id;
      now = now;
      found = found;
      verified = verified;
      issued =
          sym (ap (tokens_in {env = env}) stay)
          ∙ Keeps-tokens (publish env _ _ _ _) w6 w7 told
              (Keeps-frame (publish env _ _ _ _) w6 (Keeps-publish _ _ _ _))
          ∙ appended
          ∙ ap₂ (λ (ts : List RefreshToken) (x : Text). ts ++ refresh_row env id user.id x now ∷ [])
              before (ap (λ (x : LoginResponse). x.refresh_token) same);
      named = sym (ap (λ (x : LoginResponse). x.user.id) same);
    }

-- No user has the email, or the password does not match the one who has it.
pub data IsRefused (env : Env) (req : LoginRequest) (users : List User) : Type 0 where
  unknown :
      find (with_email (normalize_email env.lower_wide req.email)) users ≡ none
      → IsRefused env req users
  mismatch :
      (user : User)
      → find (with_email (normalize_email env.lower_wide req.email)) users ≡ some user
      → env.bcrypt_matches user.password_hash req.password ≡ false
      → IsRefused env req users

-- Where the look-up is answered, an unknown email and a wrong password have the same outcome:
-- the same error, and a world changed by nothing but the one call.
pub login_refusals_alike :
    (env : Env) (req : LoginRequest) (w : World env)
    → env.fault w.step ≡ Fault.healthy
    → IsRefused env req w.iam.users
    → login env req w ≡ (err invalid_credentials, advance env w)
unfolding login find_user_by_email attempt map_err lift found_user ◌>>=◌ raise is_not_found
    is_no_rows
login_refusals_alike env req w up (unknown e) = rw (query-healthy _ w up) (rw e)
login_refusals_alike env req w up (mismatch user e m) = rw (query-healthy _ w up) (rw e (rw m))
