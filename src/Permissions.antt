-- ===== src/Permissions.antt =====
-- Permission matching: internal/shared/middleware/rbac.go (`matchPermission`, `isPrefixWildcard`,
-- `RequirePermission`), in RoleModel the same test on roles of internal/domain/iam/model/role.go,
-- and the cached resolver of internal/infrastructure/postgres/iam/permission_resolver.go.
-- A permission is the list of its bytes.
pub mod Wildcard
pub mod RoleModel
pub mod Roles
pub mod Resolver
use masterfabric_backend.Prelude.{
  ℕ, ◌-◌, Bool, true, false, not, ◌&&◌, ◌||◌, List, [], ◌∷◌, String, Option, none, some, length,
  get_or, take, ltb, leb, ◌==◌, nat_eq, list_eq, string_eq, if◌then◌else◌,
}
use masterfabric_backend.Prelude.Text.{Text, codes}

-- `isPrefixWildcard`: "org:*" against "org:read".
pub is_prefix_wildcard : Text → Text → Bool
is_prefix_wildcard pattern want =
    let n = length pattern in
    if ltb n 2 || not (get_or pattern (n - 1) 0 == b'*')
    then false
    else (let prefix = take (n - 1) pattern in
        if length prefix == 0 || prefix == codes ":"
        then false
        else leb (length prefix) (length want) && take (length prefix) want == prefix)

-- The loop of `matchPermission`.
pub match_permission : List Text → Text → Bool
match_permission [] want = false
match_permission (g ∷ granted) want =
    if g == codes "*" || g == want
    then true
    else (if is_prefix_wildcard g want then true else match_permission granted want)

pub record Role : Type 0 where
  pub id : ℕ
  pub name : String
  pub permissions : List Text
