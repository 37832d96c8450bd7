-- ===== src/Iam/Register/Laws.antt =====
-- What a registration writes, and the passwords that it cannot hash.
use masterfabric_backend.Prelude.{
  ℕ, ◌<◌, ◌≡◌, refl, sym, ap, ◌∙◌, false, Option, none, some, List, [], ◌∷◌, ◌++◌, any, length,
  arith,
}
use masterfabric_backend.Prelude.Text.{Text}
use masterfabric_backend.Errors.{Error, domain_by, plain, internal, is_not_found, is_no_rows}
use masterfabric_backend.Exec.{Result, ok, err, attempt, map_err, lift, ◌>>=◌}
use masterfabric_backend.Exec.Inversion.{>>=-eq-ok, attempt-eq-ok, lift-eq-ok, pure-eq-ok}
use masterfabric_backend.Table.{find}
use masterfabric_backend.World.{Env, World, Fault, call, publish}
use masterfabric_backend.World.Keeps.{Keeps, Keeps-query, Keeps-map_err, Keeps-publish, Property}
use masterfabric_backend.World.Inversion.{call-eq-ok, query-healthy}
use masterfabric_backend.Permissions.{Role}
use masterfabric_backend.Iam.Model.{User, Tables}
use masterfabric_backend.Iam.Email.{normalize_email}
use masterfabric_backend.Iam.Users.{with_email, find_user_by_email}
use masterfabric_backend.Iam.Users.Laws.{create_user-eq-ok}
use masterfabric_backend.Iam.RoleStore.{insert_user_role, assign_to_user}
use masterfabric_backend.Iam.Access.{or_error}
use masterfabric_backend.Reads.{
  Keeps-frame, Keeps-iam, read_rules, hash_password-Keeps, find_user_by_email-Keeps,
}
use masterfabric_backend.Iam.Register.{
  RegisterRequest, RegisterResponse, check_existing, assign_found, assign_default_role,
  hash_password, register,
}

-- What a registration that returned has found and written.
pub record IsRegistered (env : Env) (req : RegisterRequest) (before after : List User)
    (resp : RegisterResponse) : Type 0 where
  pub user : User
  pub salt : ℕ
  pub free : any (with_email (normalize_email env.lower_wide req.email)) before ≡ false
  pub email : user.email ≡ normalize_email env.lower_wide req.email
  pub hashed : env.bcrypt_hash salt req.password ≡ some user.password_hash
  pub added : after ≡ before ++ user ∷ []
  pub answered : (resp.user_id ≡ user.id) × (resp.email ≡ user.email)

or_error-eq-ok : {A : Type 0} (e : Error) (o : Option A) {a : A} → or_error e o ≡ ok a → o ≡ some a
or_error-eq-ok e none h = cc
or_error-eq-ok e (some b) h = cc

abbrev users_of : Tables → List User
users_of iam = iam.users

abbrev SameUsers : (env : Env) → List User → Property env
SameUsers env users iam llm = iam.users ≡ users

module _ {env : Env} where
  pub hash_password-eq-ok :
      (password : Text) (w u : World env) (hash : Text)
      → hash_password env password w ≡ (ok hash, u)
      → (n : ℕ) × (env.bcrypt_hash n password ≡ some hash)
  unfolding hash_password
  hash_password-eq-ok password w u hash h =
      let (o, w1, called, lifted) = >>=-eq-ok _ _ w h in
      let (e, _) = lift-eq-ok _ w1 lifted in
      (w.step, (call-eq-ok _ w called).0 ∙ or_error-eq-ok _ o e)

  users-insert_user_role :
      (i r n : ℕ) (w : World env) → (insert_user_role env i r n w).1.iam.users ≡ w.iam.users
  unfolding insert_user_role
  users-insert_user_role i r n w = ground arith

  assign_to_user-SameUsers :
      (users : List User) (i r : ℕ) → Keeps env (SameUsers env users) (assign_to_user env i r)
  unfolding assign_to_user
  assign_to_user-SameUsers users i r =
      Keeps-map_err _ (Keeps-query _ (λ n w h. users-insert_user_role i r n w ∙ h))

  assign_found-SameUsers :
      (users : List User) (i : ℕ) (found : Result Role)
      → Keeps env (SameUsers env users) (assign_found env i found)
  unfolding assign_found
  assign_found-SameUsers users i (ok role) = search (read_rules, assign_to_user-SameUsers)
  assign_found-SameUsers users i (err e) = search read_rules

  assign_default_role-SameUsers :
      (users : List User) (i : ℕ) → Keeps env (SameUsers env users) (assign_default_role env i)
  unfolding assign_default_role
  assign_default_role-SameUsers users i = search (read_rules, assign_found-SameUsers)

-- A registration that returns found the normalised email free and has appended one user with
-- that email and with a bcrypt hash of the password, whom the response names; no other user
-- changes.
pub register-IsRegistered :
    (env : Env) (req : RegisterRequest) (w u : World env) (resp : RegisterResponse)
    → register env req w ≡ (ok resp, u)
    → IsRegistered env req w.iam.users u.iam.users resp
unfolding register
register-IsRegistered env req w u resp h =
    let (r, w1, asked, rest1) = >>=-eq-ok _ _ w h in
    let (_, w2, lifted, rest2) = >>=-eq-ok _ _ w1 rest1 in
    let (hash, w3, hashed, rest3) = >>=-eq-ok _ _ w2 rest2 in
    let (user, w4, created, rest4) = >>=-eq-ok _ _ w3 rest3 in
    let (_, w5, assigned, rest5) = >>=-eq-ok _ _ w4 rest4 in
    let (_, w6, told, last) = >>=-eq-ok _ _ w5 rest5 in
    let (same, stay) = pure-eq-ok _ w6 last in
    let (salt, salted) = hash_password-eq-ok req.password w2 w3 hash hashed in
    let email = normalize_email env.lower_wide req.email in
    let (free, added, with_the_email, with_the_hash) =
      create_user-eq-ok email hash w3 w4 user created in
    let before : w3.iam.users ≡ w.iam.users =
      ap users_of (
        Keeps-iam (hash_password env req.password) w2 w3 hashed
          (Keeps-frame (hash_password env req.password) w2 (hash_password-Keeps req.password)))
      ∙ sym (ap (λ (x : World env). x.iam.users) (lift-eq-ok _ w1 lifted).1)
      ∙ ap users_of (
          Keeps-iam (find_user_by_email env email) w w1 (attempt-eq-ok _ w asked)
            (Keeps-frame (find_user_by_email env email) w (find_user_by_email-Keeps email))) in
    let assigned_same : w5.iam.users ≡ w4.iam.users =
      ap (λ (p : Result (Unit {0}) × World env). p.1.iam.users) (sym assigned)
      ∙ (assign_default_role-SameUsers w4.iam.users user.id).at w4 refl in
    record {
      user = user;
      salt = salt;
      free = ap (any (with_email email)) (sym before) ∙ free;
      email = with_the_email;
      hashed = salted ∙ ap some (sym with_the_hash);
      added =
          sym (ap (λ (x : World env). x.iam.users) stay)
          ∙ ap users_of (
              Keeps-iam (publish env _ _ _ _) w5 w6 told
                (Keeps-frame (publish env _ _ _ _) w5 (Keeps-publish _ _ _ _)))
          ∙ assigned_same
          ∙ added
          ∙ ap (λ (us : List User). us ++ user ∷ []) before;
      answered = (
        sym (ap (λ (x : RegisterResponse). x.user_id) same),
        sym (ap (λ (x : RegisterResponse). x.email) same),
      );
    }

-- The documented limit of `bcrypt.GenerateFromPassword`: it refuses a password of more than 72
-- bytes. A text has at least as many bytes as runes.
abbrev pub RefusesLong : Env → Type 0
RefusesLong env =
    (n : ℕ) (password : Text) → 72 < length password → env.bcrypt_hash n password ≡ none

-- Where bcrypt refuses more than 72 bytes and the look-up is answered, a registration with a
-- free email and a password of more than 72 runes ends in an internal error, and changes no
-- identity table.
pub register_long_password :
    (env : Env) (req : RegisterRequest) (w : World env)
    → RefusesLong env
    → env.fault w.step ≡ Fault.healthy
    → find (with_email (normalize_email env.lower_wide req.email)) w.iam.users ≡ none
    → 72 < length req.password
    → ((register env req w).0 ≡ err (domain_by internal "hash password" (plain "bcrypt")))
      × ((register env req w).1.iam ≡ w.iam)
unfolding register find_user_by_email attempt map_err lift check_existing ◌>>=◌ is_not_found
    is_no_rows hash_password call
register_long_password env req w long up free many =
    rw (query-healthy _ w up) (rw free (rw (long _ req.password many) (refl, refl)))
