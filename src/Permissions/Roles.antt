-- ===== src/Permissions/Roles.antt =====
-- The two copies of the permission test, rbac.go's and role.go's, compared.
use mathlib.Core.Path.{ap₂}
use masterfabric_backend.Prelude.{
  ◌≡◌, refl, sym, ◌∙◌, ◌||◌, List, [], ◌∷◌, ◌++◌, any-append, arith, list_eq, nat_eq,
}
use masterfabric_backend.Prelude.Text.{Text}
use masterfabric_backend.Permissions.{Role, match_permission, is_prefix_wildcard}
use masterfabric_backend.Permissions.RoleModel as RoleModel
use masterfabric_backend.Permissions.RoleModel.{
  has_permission_in, has_permission, permissions_match,
}
use masterfabric_backend.Permissions.Wildcard.{covers, match_permission-any}

-- All the permissions of the roles, in order.
abbrev pub permissions_of : List Role → List Text
permissions_of [] = []
permissions_of (r ∷ roles) = r.permissions ++ permissions_of roles

pub match_permission-append :
    (xs ys : List Text) (want : Text)
    → match_permission (xs ++ ys) want ≡ (match_permission xs want || match_permission ys want)
match_permission-append xs ys want =
    match_permission-any (xs ++ ys) want
    ∙ any-append (λ g. covers g want) xs ys
    ∙ ap₂ ◌||◌ (sym (match_permission-any xs want)) (sym (match_permission-any ys want))

-- role.go's `isPrefixWildcard` is rbac.go's.
wildcards_agree :
    (pattern want : Text)
    → RoleModel.is_prefix_wildcard pattern want ≡ is_prefix_wildcard pattern want
unfolding RoleModel.is_prefix_wildcard is_prefix_wildcard
wildcards_agree pattern want = refl

has_permission_in-match :
    (permissions : List Text) (want : Text)
    → has_permission_in permissions want ≡ match_permission permissions want
unfolding has_permission_in match_permission
has_permission_in-match [] want = refl
has_permission_in-match (s ∷ permissions) want =
    ground (arith, wildcards_agree s want, has_permission_in-match permissions want)

has_permission-match :
    (r : Role) (want : Text) → has_permission r want ≡ match_permission r.permissions want
unfolding has_permission
has_permission-match r want = has_permission_in-match r.permissions want

-- `PermissionsMatch` on roles, with role.go's own `isPrefixWildcard`, answers as `matchPermission`
-- of rbac.go does on the permissions of all of them.
pub permissions_match-match_permission :
    (roles : List Role) (want : Text)
    → permissions_match roles want ≡ match_permission (permissions_of roles) want
unfolding permissions_match match_permission
permissions_match-match_permission [] want = refl
permissions_match-match_permission (r ∷ roles) want = ground (
  arith,
  has_permission-match r want,
  match_permission-append r.permissions (permissions_of roles) want,
  permissions_match-match_permission roles want,
)
