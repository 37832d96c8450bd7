-- ===== src/Permissions/RoleModel.antt =====
-- The test on roles: internal/domain/iam/model/role.go, with its own `isPrefixWildcard`, which
-- the middleware's file repeats.
use masterfabric_backend.Prelude.{
  ◌-◌, Bool, true, false, not, ◌&&◌, ◌||◌, List, [], ◌∷◌, length, get_or, take, ltb, leb, ◌==◌,
  nat_eq, list_eq, if◌then◌else◌,
}
use masterfabric_backend.Prelude.Text.{Text, codes}
use masterfabric_backend.Permissions.{Role}

-- `isPrefixWildcard` of role.go.
unfoldable pub is_prefix_wildcard : Text → Text → Bool
is_prefix_wildcard pattern want =
    let n = length pattern in
    if ltb n 2 || not (get_or pattern (n - 1) 0 == b'*')
    then false
    else (let prefix = take (n - 1) pattern in
        if length prefix == 0 || prefix == codes ":"
        then false
        else leb (length prefix) (length want) && take (length prefix) want == prefix)

-- The loop of `Role.HasPermission`.
unfoldable pub has_permission_in : List Text → Text → Bool
has_permission_in [] want = false
has_permission_in (s ∷ permissions) want =
    let rest = has_permission_in permissions want in
    if s == codes "*"
    then true
    else (if s == want then true else (if is_prefix_wildcard s want then true else rest))

unfoldable pub has_permission : Role → Text → Bool
has_permission r want = has_permission_in r.permissions want

unfoldable pub permissions_match : List Role → Text → Bool
permissions_match [] want = false
permissions_match (r ∷ roles) want =
    if has_permission r want then true else permissions_match roles want
