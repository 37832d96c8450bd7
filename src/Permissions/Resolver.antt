-- ===== src/Permissions/Resolver.antt =====
-- The permission resolver of internal/infrastructure/postgres/iam/permission_resolver.go and the
-- guard `RequirePermission` of internal/shared/middleware/rbac.go over it.
-- A Go map is an association list with the newest entry first. The read-write lock is not
-- modelled: `Refresh` builds its map aside and replaces the cache in one step.
pub mod Laws
use masterfabric_backend.Prelude.{
  ℕ, ◌≡◌, refl, ◌↔◌, ◌⊎◌, inl, inr, Bool, true, false, ◌||◌, List, [], ◌∷◌, ◌++◌, Memᴰ, String,
  Option, none, some, any, any-append, arith, ◌==◌, list_eq, nat_eq, string_eq, if◌then◌else◌,
  Bool-cases, length,
}
use masterfabric_backend.Prelude.Text.{Text, codes}
use masterfabric_backend.Permissions.{match_permission}
use masterfabric_backend.Permissions.Wildcard.{covers, match_permission-any}

abbrev pub Cache : Type 0
Cache = List (String × List Text)

-- `cache[rn]`: nil, an empty list, for a name that is not there.
pub permissions_named : Cache → String → List Text
permissions_named [] rn = []
permissions_named ((name, perms) ∷ cache) rn =
    if name == rn then perms else permissions_named cache rn

-- The test `seen[p]`.
pub is_seen : List Text → Text → Bool
is_seen [] p = false
is_seen (q ∷ seen) p = q == p || is_seen seen p

-- The inner loop of `PermissionsForRoles`, over `seen` and `out`.
add_permissions : List Text × List Text → List Text → List Text × List Text
add_permissions (seen, out) [] = (seen, out)
add_permissions (seen, out) (p ∷ ps) =
    add_permissions (if is_seen seen p then (seen, out) else (p ∷ seen, out ++ p ∷ [])) ps

-- Its outer loop.
add_roles : Cache → List Text × List Text → List String → List Text × List Text
add_roles cache acc [] = acc
add_roles cache acc (rn ∷ names) =
    add_roles cache (add_permissions acc (permissions_named cache rn)) names

pub permissions_for_roles : Cache → List String → List Text
unfolding add_roles
permissions_for_roles cache names = (add_roles cache ([], []) names).1

-- One row of `SELECT name, permissions FROM roles`: the JSON text is decoded by the standard
-- library, `none` where it is no list of texts.
abbrev pub RoleRow : Type 0
RoleRow = String × Option (List Text)

-- The loop of `Refresh` over the rows: `none` where a row does not decode.
load_rows : Cache → List RoleRow → Option Cache
load_rows tmp [] = some tmp
load_rows tmp ((name, none) ∷ rows) = none
load_rows tmp ((name, some perms) ∷ rows) = load_rows ((name, perms) ∷ tmp) rows

-- `Refresh`: the new cache, or the old one beside an error. The rows are `none` where the query
-- fails.
pub refresh_cache : Option (List RoleRow) → Cache → Bool × Cache
unfolding load_rows
refresh_cache none cache = (false, cache)
refresh_cache (some rows) cache = elim (load_rows [] rows) [
  | none ↦ (false, cache)
  | some tmp ↦ (true, tmp)
]

-- What `RequirePermission` does with a request.
pub data Verdict : Type 0 where
  pass unauthorized forbidden : Verdict

-- `RequirePermission`; the roles are `none` where the request has none in its context.
pub require_permission : Cache → Text → Option (List String) → Verdict
require_permission cache want none = unauthorized
require_permission cache want (some roles) =
    let perms = permissions_for_roles cache roles in
    if length perms == 0
    then forbidden
    else (if match_permission perms want then pass else forbidden)
