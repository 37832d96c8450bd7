-- ===== src/Iam/RoleStore.antt =====
-- internal/infrastructure/postgres/iam/role_repository.go, with the constraints of `roles` and
-- `user_roles`: the pair of ids is the key of `user_roles`, and both ids are foreign keys.
use masterfabric_backend.Prelude.{
  ℕ, Bool, false, ◌&&◌, ◌||◌, not, String, Option, none, some, List, [], ◌∷◌, ◌++◌, any, ◌==◌,
  nat_eq, string_eq, if◌then◌else◌,
}
use masterfabric_backend.Errors.{
  Error, domain_by, wrap, plain, no_rows, pg_error, not_found, internal, is_no_rows,
}
use masterfabric_backend.Exec.{Result, ok, err, map_err, lift, ◌>>=◌}
use masterfabric_backend.Table.{find, select}
use masterfabric_backend.World.{Env, World, Act, query}
use masterfabric_backend.Permissions.{Role}
use masterfabric_backend.Iam.Model.{RoleRow}
use masterfabric_backend.Iam.Users.{with_id}

-- `scanRole`.
unfoldable pub scan_role : RoleRow → Result Role
scan_role row = elim row.permissions [
  | none ↦ err (wrap "unmarshal permissions" (plain "json"))
  | some perms ↦ ok (record { id = row.id; name = row.name; permissions = perms })
]

unfoldable pub scan_role? : Option RoleRow → Result Role
unfolding scan_role
scan_role? none = err no_rows
scan_role? (some row) = scan_role row

abbrev cons_role : Role → Result (List Role) → Result (List Role)
cons_role r (ok roles) = ok (r ∷ roles)
cons_role r (err e) = err e

abbrev with_role : Result Role → Result (List Role) → Result (List Role)
with_role (ok r) rest = cons_role r rest
with_role (err e) rest = err (domain_by internal "scan role" e)

-- The loop of `FindByUserID` over the rows.
unfoldable pub scan_roles : List RoleRow → Result (List Role)
unfolding scan_role
scan_roles [] = ok []
scan_roles (row ∷ rows) = with_role (scan_role row) (scan_roles rows)

abbrev role_error : Error → Error
role_error e =
    if is_no_rows e
    then domain_by not_found "role not found" e
    else domain_by internal "find role by name" (wrap "query role" e)

unfoldable pub is_assigned : ℕ → ℕ → List (ℕ × ℕ) → Bool
is_assigned user_id role_id [] = false
is_assigned user_id role_id ((u, r) ∷ pairs) =
    (u == user_id && r == role_id) || is_assigned user_id role_id pairs

abbrev pub role_has_id : ℕ → RoleRow → Bool
role_has_id id r = r.id == id

module _ (env : Env) where
  unfoldable pub find_role_by_name : String → Act env Role
  unfolding scan_role?
  find_role_by_name name =
      map_err role_error
        (query env (λ n w. (scan_role? (find (λ r. r.name == name) w.iam.roles), w)))

  -- The join yields a role once for each pair of `user_roles`, and the pair is its key.
  unfoldable pub find_roles_by_user_id : ℕ → Act env (List Role)
  unfolding scan_roles is_assigned
  find_roles_by_user_id user_id = do
    rows ←
        map_err (λ e. domain_by internal "find roles by user" (wrap "query roles" e))
          (query env
            (λ n w. (ok (select (λ r. is_assigned user_id r.id w.iam.user_roles) w.iam.roles), w)))
    lift (scan_roles rows)

  -- `INSERT INTO user_roles … ON CONFLICT (user_id, role_id) DO NOTHING`.
  unfoldable pub insert_user_role : ℕ → ℕ → ℕ → World env → Result (Unit {0}) × World env
  unfolding is_assigned
  insert_user_role user_id role_id n w =
      if not (any (with_id user_id) w.iam.users && any (role_has_id role_id) w.iam.roles)
      then (err (pg_error "23503"), w)
      else (if is_assigned user_id role_id w.iam.user_roles then (ok tt, w) else (
        ok tt,
        record w {
          iam = record w.iam { user_roles = w.iam.user_roles ++ (user_id, role_id) ∷ [] };
        },
      ))

  unfoldable pub assign_to_user : ℕ → ℕ → Act env (Unit {0})
  unfolding insert_user_role
  assign_to_user user_id role_id =
      map_err (λ e. domain_by internal "assign role to user" (wrap "insert user_roles" e))
        (query env (insert_user_role user_id role_id))
