-- ===== src/Http/Routes/Entitlement.antt =====
-- Who may ask for which route, read off internal/infrastructure/http/router/router.go as a table
-- of its own, and what becomes of the others.
use mathlib.Core.Path.{subst}
use masterfabric_backend.Prelude.{ℕ, ◌≡◌, ◌≢◌, refl, String}
use masterfabric_backend.Prelude.Text.{codes}
use masterfabric_backend.World.{Env, World, AccessClaims}
use masterfabric_backend.Permissions.Resolver.Laws.{IsGranted}
use masterfabric_backend.Http.Authentication.{IsBearer}
use masterfabric_backend.Http.Request.{Request, Context, Web}
use masterfabric_backend.Http.Routes.{Route, Guard, guard, serve}
use masterfabric_backend.Http.Routes.Guards.{
  IsAdmitted, free, signed_in, granted, IsTurnedAway, guarded-IsTurnedAway,
}

-- The routes that anyone may ask for.
pub data IsPublic : Route → Type 0 where
  probing_life : IsPublic Route.live
  probing_readiness : IsPublic Route.ready
  reading_config : IsPublic Route.get_config
  registering : IsPublic Route.register
  logging_in : IsPublic Route.login
  refreshing : IsPublic Route.refresh

module _ {env : Env} (web : Web env) where
  -- Who may ask for a route at the n-th call: anyone for a public one, else the bearer of a token
  -- that verifies; to write the configuration, one with a role that holds config:write.
  pub data IsEntitled (r : Request) (n : ℕ) (at : Route) : Type 0 where
    to_public : IsPublic at → IsEntitled r n at
    with_token :
        (claims : AccessClaims)
        → IsBearer web.equal_fold (web.parse_access n) r.authorization claims
        → at ≢ Route.update_config
        → IsEntitled r n at
    with_permission :
        (claims : AccessClaims)
        → IsBearer web.equal_fold (web.parse_access n) r.authorization claims
        → IsGranted web.permissions (codes "config:write") claims.roles
        → IsEntitled r n at

  module _ (r : Request) (n : ℕ) where
    IsBearer-of :
        {g : Guard} {c : Context}
        → IsAdmitted web r n g c
        → g ≡ Guard.authenticated
        → (claims : AccessClaims) × IsBearer web.equal_fold
            (web.parse_access n)
            r.authorization
            claims
    IsBearer-of free e = cc e
    IsBearer-of (signed_in claims b) e = (claims, b)
    IsBearer-of (granted want claims b g) e = (claims, b)

    IsGranted-of :
        (wanted : String) {g : Guard} {c : Context}
        → IsAdmitted web r n g c
        → g ≡ Guard.allowed_to wanted
        → (claims : AccessClaims) × IsBearer web.equal_fold
            (web.parse_access n)
            r.authorization
            claims
          × IsGranted web.permissions (codes wanted) claims.roles
    IsGranted-of wanted free e = cc e
    IsGranted-of wanted (signed_in claims b) e = cc e
    IsGranted-of wanted (granted want claims b g) e = (
      claims,
      b,
      subst (λ (t : String). IsGranted web.permissions (codes t) claims.roles) (cc e) g,
    )

    private-IsEntitled :
        (at : Route) {c : Context}
        → guard at ≡ Guard.authenticated
        → at ≢ Route.update_config
        → IsAdmitted web r n (guard at) c
        → IsEntitled r n at
    private-IsEntitled at e other h = let (claims, b) = IsBearer-of h e in with_token claims b other

    admitted-IsEntitled :
        (at : Route) {c : Context} → IsAdmitted web r n (guard at) c → IsEntitled r n at
    unfolding guard
    admitted-IsEntitled Route.live h = to_public probing_life
    admitted-IsEntitled Route.ready h = to_public probing_readiness
    admitted-IsEntitled Route.get_config h = to_public reading_config
    admitted-IsEntitled Route.register h = to_public registering
    admitted-IsEntitled Route.login h = to_public logging_in
    admitted-IsEntitled Route.refresh h = to_public refreshing
    admitted-IsEntitled Route.update_config h =
        let (claims, b, g) = IsGranted-of "config:write" h refl in with_permission claims b g
    admitted-IsEntitled at h = private-IsEntitled at refl (λ e. cc e) h

  -- A request by one who may not ask for its route is answered 401 or 403 and changes nothing: on
  -- every `Route` but the six public ones, without a bearer token that verifies; on the route that
  -- writes the configuration, also without a role that holds a permission covering config:write.
  pub serve-IsTurnedAway :
      (at : Route) (r : Request) (w : World env)
      → (IsEntitled r w.step at → ⊥)
      → IsTurnedAway w (serve web at r w)
  serve-IsTurnedAway at r w nobody =
      guarded-IsTurnedAway web r w at (λ c h. nobody (admitted-IsEntitled r w.step at h))
