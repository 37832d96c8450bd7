-- ===== src/Iam/Login/Liveness.antt =====
-- Where nothing fails, a login with the right password returns.
use mathlib.Core.Path.{subst}
use masterfabric_backend.Prelude.{
  ℕ, ◌≡◌, refl, sym, ap, ◌∙◌, true, false, String, none, some, List, [], ◌∷◌, ◌++◌, ◌/◌, ◌+◌, any,
  if◌then◌else◌,
}
use masterfabric_backend.Prelude.Text.{Text}
use masterfabric_backend.Errors.{Error}
use masterfabric_backend.Exec.{Result, ok, pure, raise, lift, map_err, ◌>>=◌}
use masterfabric_backend.Exec.Inversion.{>>=-ok, map_err-ok, attempt-ok}
use masterfabric_backend.Table.{find, select}
use masterfabric_backend.World.{
  Env, World, Act, Fault, AccessClaims, Payload, advance, call, query, publish, append_event,
}
use masterfabric_backend.World.Inversion.{query-healthy}
use masterfabric_backend.Permissions.{Role}
use masterfabric_backend.Iam.Model.{User, RoleRow, RefreshToken, Tables}
use masterfabric_backend.Iam.Email.{normalize_email}
use masterfabric_backend.Iam.Users.{with_id, with_email, or_no_rows, find_user_by_email}
use masterfabric_backend.Iam.RoleStore.{scan_roles, is_assigned, find_roles_by_user_id}
use masterfabric_backend.Iam.Tokens.{set_tokens, with_token_id, insert_token, create_token}
use masterfabric_backend.Iam.Access.{
  hex, nanoseconds, generate_opaque_token, generate_access, refresh_row,
}
use masterfabric_backend.Iam.Login.{
  LoginRequest, LoginResponse, found_user, invalid_credentials, role_names, issue_refresh, login,
}

-- Nothing fails: every statement is answered, there is randomness, and claims can be signed.
pub record IsWorking (env : Env) : Type 0 where
  pub healthy : (n : ℕ) → env.fault n ≡ Fault.healthy
  pub entropy : (n : ℕ) → (bytes : List ℕ) × (env.random n ≡ some bytes)
  pub signing : (claims : AccessClaims) → (token : Text) × (env.sign claims ≡ some token)

-- The user may log in: the row of the email, whose password it is, its roles, and no token with
-- an id that is still to be made.
pub record MayLogIn (env : Env) (req : LoginRequest) (iam : Tables) : Type 0 where
  pub user : User
  pub found : find (with_email (normalize_email env.lower_wide req.email)) iam.users ≡ some user
  pub matching : env.bcrypt_matches user.password_hash req.password ≡ true
  pub roles : List Role
  pub scanned :
      scan_roles (select (λ (r : RoleRow). is_assigned user.id r.id iam.user_roles) iam.roles)
      ≡ ok roles
  pub known : any (with_id user.id) iam.users ≡ true
  pub fresh_ids : (n : ℕ) → any (with_token_id (env.fresh n)) iam.tokens ≡ false

-- An action returns a value that is `a`, and leaves the identity tables as they are.
record Returns {env : Env} {A : Type 0} (a : A) (m : Act env A) (w : World env) : Type 0 where
  after : World env
  returned : m w ≡ (ok a, after)
  same : after.iam ≡ w.iam

module _ {env : Env} (k : IsWorking env) where
  read-Returns :
      {A : Type 0} (f : World env → Result A) (g : Error → Error) (w : World env) (a : A)
      → f (advance env w) ≡ ok a
      → Returns a (map_err g (query env (λ n v. (f v, v)))) w
  read-Returns f g w a h = record {
    after = advance env w;
    returned = map_err-ok g _ (
        query-healthy (λ n v. (f v, v)) w (k.healthy w.step)
        ∙ ap (λ (r : Result _). (r, advance env w)) h);
    same = refl;
  }

  roles-Returns :
      (id : ℕ) (roles : List Role) (w : World env)
      → scan_roles (select (λ (r : RoleRow). is_assigned id r.id w.iam.user_roles) w.iam.roles)
        ≡ ok roles
      → Returns roles (find_roles_by_user_id env id) w
  unfolding find_roles_by_user_id lift
  roles-Returns id roles w h =
      let read =
        read-Returns
          (λ v. ok (select (λ (r : RoleRow). is_assigned id r.id v.iam.user_roles) v.iam.roles)) _ w
          _ refl in
      record {
        after = read.after;
        returned = >>=-ok _ _ read.returned ∙ ap (λ (r : Result (List Role)). (r, read.after)) h;
        same = read.same;
      }

  access-Returns :
      (id : ℕ) (names : List String) (w : World env)
      → (access : Text × ℕ) × Returns access (generate_access env id names) w
  unfolding generate_access ◌>>=◌ call lift pure
  access-Returns id names w =
      let (token, signed) = k.signing (record {
        user_id = id;
        roles = names;
        issued_at = env.now w.step;
        expires_at = env.now w.step + env.access_ttl;
        not_before = env.now w.step;
        issuer = "masterfabric_backend";
        subject = id;
        id = env.fresh (advance env w).step;
      }) in
      (
        (token, env.access_ttl / nanoseconds),
        record { after = advance env (advance env w); returned = rw signed refl; same = refl },
      )

  opaque-Returns : (w : World env) → (raw : Text) × Returns raw (generate_opaque_token env) w
  unfolding generate_opaque_token ◌>>=◌ call lift pure
  opaque-Returns w =
      let (bytes, random) = k.entropy w.step in
      (hex bytes, record { after = advance env w; returned = rw random refl; same = refl })

  -- The row is written, and the action returns.
  row_made :
      (t : RefreshToken) (w : World env)
      → any (with_token_id t.id) w.iam.tokens ≡ false
      → any (with_id t.user_id) w.iam.users ≡ true
      → (u : World env) × (create_token env t w ≡ (ok tt, u))
  unfolding create_token insert_token
  row_made t w fresh known = (
    set_tokens env (advance env w) (w.iam.tokens ++ record t { revoked_at = none } ∷ []),
    map_err-ok _ _
        (query-healthy (insert_token env t) w (k.healthy w.step) ∙ rw fresh (rw known refl)),
  )

  issued :
      (id : ℕ) (w : World env)
      → ((n : ℕ) → any (with_token_id (env.fresh n)) w.iam.tokens ≡ false)
      → any (with_id id) w.iam.users ≡ true
      → (raw : Text) × (u : World env) × (issue_refresh env id w ≡ (ok raw, u))
  unfolding issue_refresh call pure
  issued id w fresh known =
      let (raw, opaque) = opaque-Returns w in
      let v = opaque.after in
      let v2 = advance env (advance env v) in
      let tokens : (n : ℕ) → any (with_token_id (env.fresh n)) v2.iam.tokens ≡ false = λ n.
        ap (λ (x : Tables). any (with_token_id (env.fresh n)) x.tokens) opaque.same ∙ fresh n in
      let users : any (with_id id) v2.iam.users ≡ true =
        ap (λ (x : Tables). any (with_id id) x.users) opaque.same ∙ known in
      let (u, made) =
        row_made (refresh_row env (env.fresh (advance env v).step) id raw (env.now v.step)) v2
          (tokens (advance env v).step) users in
      (
        raw,
        u,
        >>=-ok _ _ (map_err-ok _ _ opaque.returned)
            ∙ >>=-ok (call env env.now) _ refl
            ∙ >>=-ok (call env env.fresh) _ refl
            ∙ >>=-ok _ _ made,
      )

  event_sent :
      (kind topic source : String) (payload : List (String × Payload env.Float)) (w : World env)
      → (u : World env) × (publish env kind topic source payload w ≡ (ok tt, u))
  unfolding publish call append_event ◌>>=◌
  event_sent kind topic source payload w = (_, refl)

  -- Where every statement is answered and randomness and signing succeed, a login returns for a
  -- user whose password it has and whose roles can be read, if no token has an id that is still
  -- to be made; whatever the clock and the events before it are.
  pub login_returns :
      (req : LoginRequest) (w : World env)
      → MayLogIn env req w.iam
      → (resp : LoginResponse) × (u : World env) × (login env req w ≡ (ok resp, u))
  unfolding login find_user_by_email found_user lift pure
  login_returns req w may =
      let found =
        read-Returns
          (λ v.
            or_no_rows (find (with_email (normalize_email env.lower_wide req.email)) v.iam.users))
          _ w may.user (ap or_no_rows may.found) in
      let w1 = found.after in
      let roles = roles-Returns may.user.id may.roles w1 (
        subst
          (λ (x : Tables).
            scan_roles (select (λ (r : RoleRow). is_assigned may.user.id r.id x.user_roles) x.roles)
            ≡ ok may.roles)
          (sym found.same) may.scanned) in
      let (access, signed) = access-Returns may.user.id (role_names may.roles) roles.after in
      let w3 = signed.after in
      let same : w3.iam ≡ w.iam = signed.same ∙ roles.same ∙ found.same in
      let (raw, u, made) =
        issued may.user.id w3
          (λ n.
            ap (λ (x : Tables). any (with_token_id (env.fresh n)) x.tokens) same ∙ may.fresh_ids n)
          (ap (λ (x : Tables). any (with_id may.user.id) x.users) same ∙ may.known) in
      let (v, sent) =
        event_sent "user.logged_in" "masterfabric.iam" "iam.application.login"
          (("user_id", Payload.uuid may.user.id) ∷ []) u in
      (
        _,
        v,
        >>=-ok _ _ (attempt-ok _ found.returned)
            ∙ >>=-ok (lift (ok may.user)) _ refl
            ∙ >>=-ok
                (if env.bcrypt_matches may.user.password_hash req.password
                  then pure tt
                  else raise invalid_credentials)
                _ (rw may.matching refl)
            ∙ >>=-ok _ _ roles.returned
            ∙ >>=-ok _ _ (map_err-ok _ _ signed.returned)
            ∙ >>=-ok _ _ made
            ∙ >>=-ok _ _ sent,
      )
