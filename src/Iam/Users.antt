-- ===== src/Iam/Users.antt =====
-- internal/infrastructure/postgres/iam/user_repository.go, with the constraints of the table
-- `users`: the id is its key and the email is unique.
pub mod Laws
use masterfabric_backend.Prelude.{
  ℕ, Bool, not, ◌&&◌, ◌||◌, String, Option, none, some, List, [], ◌∷◌, ◌++◌, any, ◌==◌, nat_eq,
  list_eq, string_eq, if◌then◌else◌, false,
}
use masterfabric_backend.Prelude.Text.{Text}
use masterfabric_backend.Errors.{
  Error, domain, domain_by, wrap, plain, no_rows, pg_error, not_found, conflict, internal,
  is_no_rows, is_unique_violation,
}
use masterfabric_backend.Exec.{Result, ok, err, Exec, map_err, pure, raise, ◌>>=◌}
use masterfabric_backend.Table.{find, update}
use masterfabric_backend.World.{Env, World, Act, query}
use masterfabric_backend.Iam.Model.{User, Tables}

abbrev pub or_no_rows : {A : Type 0} → Option A → Result A
or_no_rows none = err no_rows
or_no_rows (some a) = ok a

abbrev pub with_email : Text → User → Bool
with_email email u = u.email == email

abbrev not_same : ℕ → User → Bool
not_same id u = not (u.id == id)

abbrev pub with_id : ℕ → User → Bool
with_id id u = u.id == id

-- Another row has the email.
abbrev pub taken : ℕ → Text → List User → Bool
taken id email users = any (λ u. not_same id u && u.email == email) users

abbrev create_error : Error → Error
create_error e =
    if is_unique_violation e
    then domain_by conflict "email already registered" e
    else domain_by internal "create user" (wrap "insert user" e)

abbrev find_error : String → Error → Error
find_error message e =
    if is_no_rows e
    then domain_by not_found "user not found" e
    else domain_by internal message (wrap "query user" e)

abbrev update_error : Error → Error
update_error e =
    if is_unique_violation e
    then domain_by conflict "email already registered" e
    else (if is_no_rows e
        then domain_by not_found "user not found" e
        else domain_by internal "update user email" (wrap "update users" e))

module _ (env : Env) where
  abbrev set_users : World env → List User → World env
  set_users w users = record w { iam = record w.iam { users = users } }

  -- `INSERT INTO users (email, password_hash) … RETURNING …`; id and created_at are defaults.
  unfoldable pub insert_user : Text → Text → ℕ → World env → Result User × World env
  insert_user email hash n w =
      let u : User = record {
        id = env.fresh n;
        email = email;
        password_hash = hash;
        created_at = env.now n;
      } in
      if any (with_email email) w.iam.users || any (with_id u.id) w.iam.users
      then (err (pg_error "23505"), w)
      else (ok u, set_users w (w.iam.users ++ u ∷ []))

  unfoldable pub create_user : Text → Text → Act env User
  unfolding insert_user
  create_user email hash = map_err create_error (query env (insert_user email hash))

  unfoldable pub find_user_by_email : Text → Act env User
  find_user_by_email email =
      map_err (find_error "find user by email")
        (query env (λ n w. (or_no_rows (find (with_email email) w.iam.users), w)))

  unfoldable pub find_user_by_id : ℕ → Act env User
  find_user_by_id id =
      map_err (find_error "find user by id")
        (query env (λ n w. (or_no_rows (find (with_id id) w.iam.users), w)))

  -- `UPDATE users SET email = $2 WHERE id = $1 RETURNING …`.
  unfoldable pub set_email : ℕ → Text → ℕ → World env → Result User × World env
  set_email id email n w = elim (find (with_id id) w.iam.users) [
    | none ↦ (err no_rows, w)
    | some u ↦ if taken id email w.iam.users then (err (pg_error "23505"), w) else (
      ok (record u { email = email }),
      set_users w (update (with_id id) (λ v. record v { email = email }) w.iam.users),
    )
  ]

  unfoldable pub update_email : ℕ → Text → Act env User
  unfolding set_email
  update_email id email = map_err update_error (query env (set_email id email))

  -- `UPDATE users SET password_hash = $2 WHERE id = $1`, and the number of rows that it changed.
  unfoldable pub set_password : ℕ → Text → ℕ → World env → Result Bool × World env
  set_password id hash n w = (
    ok (any (with_id id) w.iam.users),
    set_users w (update (with_id id) (λ v. record v { password_hash = hash }) w.iam.users),
  )

  unfoldable pub update_password : ℕ → Text → Act env (Unit {0})
  unfolding set_password
  update_password id hash = do
    changed ←
        map_err (λ e. domain_by internal "update user password" (wrap "update users" e))
          (query env (set_password id hash))
    if changed then pure tt else raise (domain not_found "user not found")
