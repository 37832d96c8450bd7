-- ===== src/Tests/Permissions.antt =====
-- The theorems on permissions and responses to errors, applied to concrete data.
use masterfabric_backend.Prelude.{
  ◌≡◌, true, any, String, some, List, [], ◌∷◌, ◌==◌, nat_eq, list_eq, arith, Memᴰ, ◌↔◌,
}
use masterfabric_backend.Prelude.Text.{Text, codes}
use masterfabric_backend.Errors.{Error, domain_by, plain}
use masterfabric_backend.Permissions.{Role}
use masterfabric_backend.Permissions.{match_permission, is_prefix_wildcard}
use masterfabric_backend.Permissions.RoleModel.{permissions_match}
use masterfabric_backend.Permissions.Wildcard.{
  MatchesStem, Covers, is_prefix_wildcard_iff, match_permission_iff, match_permission-unstarred,
}
use masterfabric_backend.Permissions.Roles.{permissions_of, permissions_match-match_permission}
use masterfabric_backend.Permissions.Resolver.{
  Cache, pass, permissions_for_roles, permissions_named, is_seen, require_permission,
}
use masterfabric_backend.Permissions.Resolver.Laws.{
  Distinct, IsGranted, permissions_for_roles_lem, require_permission_iff,
}
use masterfabric_backend.Errors.{Code, not_found, wrap}
use masterfabric_backend.Response.{map_status, code_text, error_response}
use masterfabric_backend.Response.Laws.{Outermost, error_response_discloses}

abbrev granted : List Text
granted = codes "org:*" ∷ codes "user:read" ∷ []

match_permission_iff_example :
    (match_permission granted (codes "org:write") ≡ true)
    ↔ ((g : Text) × Memᴰ g granted × Covers g (codes "org:write"))
match_permission_iff_example = match_permission_iff granted (codes "org:write")

is_prefix_wildcard_iff_example :
    (is_prefix_wildcard (codes "org:*") (codes "org:write") ≡ true)
    ↔ MatchesStem (codes "org:*") (codes "org:write")
is_prefix_wildcard_iff_example = is_prefix_wildcard_iff (codes "org:*") (codes "org:write")

match_permission-unstarred_example :
    match_permission (codes "*:read" ∷ []) (codes "user:read")
    ≡ (codes "*:read" == codes "user:read")
match_permission-unstarred_example =
    match_permission-unstarred (codes "*:rea") b'd' (codes "user:read") (omega arith)

abbrev roles : List Role
roles = record { id = 3; name = "user"; permissions = granted } ∷ []

permissions_match-match_permission_example :
    permissions_match roles (codes "org:write")
    ≡ match_permission (permissions_of roles) (codes "org:write")
permissions_match-match_permission_example =
    permissions_match-match_permission roles (codes "org:write")

abbrev cache : Cache
cache = ("user", granted) ∷ ("guest", codes "user:read" ∷ []) ∷ []

permissions_for_roles_lem_example :
    Distinct (permissions_for_roles cache ("guest" ∷ "user" ∷ []))
    × ((q : Text)
        → is_seen (permissions_for_roles cache ("guest" ∷ "user" ∷ [])) q
          ≡ any (λ rn. is_seen (permissions_named cache rn) q) ("guest" ∷ "user" ∷ []))
permissions_for_roles_lem_example = permissions_for_roles_lem cache ("guest" ∷ "user" ∷ [])

require_permission_iff_example :
    (require_permission cache (codes "org:write") (some ("user" ∷ [])) ≡ pass)
    ↔ IsGranted cache (codes "org:write") ("user" ∷ [])
require_permission_iff_example = require_permission_iff cache (codes "org:write") ("user" ∷ [])

abbrev nested : Error
nested = wrap "load" (domain_by not_found "user not found" (plain "no rows"))

error_response_discloses_example :
    ((c : Code) (m : String)
      → Outermost nested c m
      → error_response nested ≡ record { status = map_status c; code = code_text c; message = m })
    × (((c : Code) (m : String) → Outermost nested c m → ⊥)
        → error_response nested
          ≡ record { status = 500; code = "INTERNAL"; message = "an internal error occurred" })
error_response_discloses_example = error_response_discloses nested
