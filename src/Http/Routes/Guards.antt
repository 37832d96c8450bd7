-- ===== src/Http/Routes/Guards.antt =====
-- Who comes past the guards of a route.
use masterfabric_backend.Prelude.{ℕ, ◌≡◌, refl, ◌∙◌, ap, ◌⊎◌, inl, inr, String, some}
use masterfabric_backend.Prelude.Text.{codes}
use masterfabric_backend.Errors.{Error, domain, unauthorized, as_domain}
use masterfabric_backend.Exec.Inversion.{>>=-err, >>=-ok}
use masterfabric_backend.Exec.{Result, ok, err, continue, pure, lift, ◌>>=◌}
use masterfabric_backend.Response.{error_response, map_status}
use masterfabric_backend.World.{Env, World, AccessClaims, call, advance}
use masterfabric_backend.Permissions.Resolver as Resolver
use masterfabric_backend.Permissions.Resolver.{Verdict, require_permission}
use masterfabric_backend.Permissions.Resolver.Laws.{IsGranted, require_permission_iff}
use masterfabric_backend.Http.Authentication as Authentication
use masterfabric_backend.Http.Authentication.{Answer, IsBearer, authenticate, authenticate_iff}
use masterfabric_backend.Http.Request.{Request, Context, Web, no_context}
use masterfabric_backend.Http.Reply.{Reply, settled, error_reply}
use masterfabric_backend.Http.Routes.{
  Route, Guard, guard, claims_of, context_of, permitted, auth, admit, route, serve,
}

module _ {env : Env} (web : Web env) where
  -- Who is admitted at the n-th call, and with which context.
  pub data IsAdmitted (r : Request) (n : ℕ) : Guard → Context → Type 0 where
    free : IsAdmitted r n Guard.open_to_all no_context
    signed_in :
        (claims : AccessClaims)
        → IsBearer web.equal_fold (web.parse_access n) r.authorization claims
        → IsAdmitted r n Guard.authenticated (context_of claims)
    granted :
        (want : String) (claims : AccessClaims)
        → IsBearer web.equal_fold (web.parse_access n) r.authorization claims
        → IsGranted web.permissions (codes want) claims.roles
        → IsAdmitted r n (Guard.allowed_to want) (context_of claims)

-- The reply of a refusal: 401 or 403.
abbrev pub IsDenied : ℕ → Type 0
IsDenied status = (status ≡ 401) ⊎ (status ≡ 403)

-- A request that is turned away: the reply says so, and only the clock's calls are counted.
pub record IsTurnedAway {env : Env} (w : World env) (answer : Reply × World env) : Type 0 where
  pub denied : IsDenied answer.0.status
  pub unchanged : answer.1 ≡ advance env w

claims-cases :
    (a : Answer AccessClaims)
    → ((claims : AccessClaims) × (a ≡ Authentication.authenticated claims))
      ⊎ ((message : String) × (claims_of a ≡ err (domain unauthorized message)))
unfolding claims_of
claims-cases Authentication.missing_header = inr (_, refl)
claims-cases Authentication.invalid_header = inr (_, refl)
claims-cases Authentication.invalid_token = inr (_, refl)
claims-cases (Authentication.authenticated claims) = inl (claims, refl)

unauthorized-IsDenied :
    (message : String) → IsDenied (error_reply (domain unauthorized message)).status
unfolding error_reply error_response as_domain map_status
unauthorized-IsDenied message = inl refl

permitted-cases :
    (v : Verdict)
    → (v ≡ Resolver.pass) ⊎ ((e : Error) × (permitted v ≡ err e) × IsDenied (error_reply e).status)
unfolding permitted error_reply error_response as_domain map_status
permitted-cases Resolver.pass = inl refl
permitted-cases Resolver.unauthorized = inr (_, refl, inl refl)
permitted-cases Resolver.forbidden = inr (_, refl, inr refl)

module _ {env : Env} (web : Web env) (r : Request) (w : World env) where
  abbrev answer : Answer AccessClaims
  answer = authenticate web.equal_fold (web.parse_access w.step) r.authorization

  auth-claims :
      (claims : AccessClaims)
      → answer ≡ Authentication.authenticated claims
      → auth web r w ≡ (ok (context_of claims), advance env w)
  unfolding auth ◌>>=◌ call lift pure claims_of
  auth-claims claims h =
      ap
        (λ (a : Answer AccessClaims).
          continue (claims_of a) (λ c. pure (context_of c)) (advance env w))
        h

  auth-refused : (e : Error) → claims_of answer ≡ err e → auth web r w ≡ (err e, advance env w)
  unfolding auth ◌>>=◌ call lift pure
  auth-refused e h =
      ap (λ (x : Result AccessClaims). continue x (λ c. pure (context_of c)) (advance env w)) h

  -- The outcome of a guard: a context that it admits, or a refusal.
  pub data Outcome (g : Guard) : Type 0 where
    passes : (c : Context) → IsAdmitted web r w.step g c → Outcome g
    refuses :
        (e : Error)
        → IsDenied (error_reply e).status
        → admit web g r w ≡ (err e, advance env w)
        → Outcome g

  answer-IsBearer :
      (claims : AccessClaims)
      → answer ≡ Authentication.authenticated claims
      → IsBearer web.equal_fold (web.parse_access w.step) r.authorization claims
  answer-IsBearer claims h =
      (authenticate_iff web.equal_fold (web.parse_access w.step) r.authorization claims).0 h

  admit-Outcome : (g : Guard) → Outcome g
  unfolding admit ◌>>=◌ lift pure
  admit-Outcome Guard.open_to_all = passes no_context free
  admit-Outcome Guard.authenticated = elim (claims-cases answer) [
    | inl (claims, h) ↦ passes _ (signed_in claims (answer-IsBearer claims h))
    | inr (message, h) ↦ refuses _ (unauthorized-IsDenied message) (auth-refused _ h)
  ]
  admit-Outcome (Guard.allowed_to want) = elim (claims-cases answer) [
    | inr (message, h) ↦
        refuses _ (unauthorized-IsDenied message) (>>=-err (auth web r) _ (auth-refused _ h))
    | inl (claims, h) ↦
        elim (permitted-cases
          (require_permission web.permissions (codes want) (some claims.roles))) [
            | inl h' ↦ passes _ (
                granted want claims (answer-IsBearer claims h)
                  ((require_permission_iff web.permissions (codes want) claims.roles).0 h'))
            | inr (e, h', denied) ↦ refuses e denied (
                >>=-ok (auth web r) _ (auth-claims claims h)
                ∙ ap
                    (λ (x : Result (Unit {0})).
                      continue x (λ u. pure (context_of claims)) (advance env w))
                    h')
          ]
  ]

  turned_away :
      (at : Route)
      → Outcome (guard at)
      → ((c : Context) → IsAdmitted web r w.step (guard at) c → ⊥)
      → IsTurnedAway w (serve web at r w)
  unfolding serve route settled
  turned_away at (passes c h) nobody = absurd (nobody c h)
  turned_away at (refuses e denied h) nobody =
      let refused : route web at r w ≡ (err e, advance env w) =
        >>=-err (admit web (guard at) r) _ h in
      record {
        denied = rw refused denied;
        unchanged = ap (λ (x : Result Reply × World env). x.1) refused;
      }

  -- A request that the guard of its route does not admit.
  pub guarded-IsTurnedAway :
      (at : Route)
      → ((c : Context) → IsAdmitted web r w.step (guard at) c → ⊥)
      → IsTurnedAway w (serve web at r w)
  guarded-IsTurnedAway at nobody = turned_away at (admit-Outcome (guard at)) nobody
