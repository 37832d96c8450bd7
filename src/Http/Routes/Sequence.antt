-- ===== src/Http/Routes/Sequence.antt =====
-- A request served on a route, as one operation of the service.
use masterfabric_backend.Prelude.{◌≡◌, refl, ◌∙◌, ◌⊎◌, inl, inr, Option, none}
use masterfabric_backend.Exec.{Result, ok, err, continue, ◌>>=◌}
use masterfabric_backend.World.{Env, World, Act}
use masterfabric_backend.World.Passive.{rows, IsPassive}
use masterfabric_backend.Service.{Operation}
use masterfabric_backend.Http.Request.{Request, Context, Web}
use masterfabric_backend.Http.Reply.{Reply}
use masterfabric_backend.Http.Routes.{Route, guard, route, serve}
use masterfabric_backend.Http.Routes.Refinement.{asked, applied, handle-asked}
use masterfabric_backend.Http.Routes.Passive.{admit-IsPassive, limit_rate-IsPassive}

module _ {env : Env} (web : Web env) where
  -- An operation that a request on the route may ask for once its guards have passed, or none.
  abbrev pub IsAsked : Route → Option (Operation env) → Type 0
  IsAsked at o = (o ≡ none) ⊎ ((c : Context) × (left : Request) × (o ≡ asked web at c left))

  -- One operation, or none, on the rows of `w`, that leaves those of `u`.
  pub record IsStep (at : Route) (w u : World env) : Type 0 where
    pub operation : Option (Operation env)
    pub is_asked : IsAsked at operation
    pub start : World env
    pub same : rows start ≡ rows w
    pub applied_rows : rows u ≡ rows (applied operation start)

  idle-IsStep : (at : Route) (w u : World env) → rows u ≡ rows w → IsStep at w u
  idle-IsStep at w u e = record {
    operation = none;
    is_asked = inl refl;
    start = w;
    same = refl;
    applied_rows = e;
  }

  from-IsStep : (at : Route) (v w u : World env) → rows v ≡ rows w → IsStep at v u → IsStep at w u
  from-IsStep at v w u e s = record {
    operation = s.operation;
    is_asked = s.is_asked;
    start = s.start;
    same = s.same ∙ e;
    applied_rows = s.applied_rows;
  }

  continue-IsStep :
      {A : Type 0} (at : Route) (r : Result A) (f : A → Act env Reply) (w v : World env)
      → rows v ≡ rows w
      → ((a : A) → IsStep at v (f a v).1)
      → IsStep at w (continue r f v).1
  continue-IsStep at (ok a) f w v e k = from-IsStep at v w _ e (k a)
  continue-IsStep at (err x) f w v e k = idle-IsStep at w v e

  bind-IsStep :
      {A : Type 0} (at : Route) (m : Act env A) (f : A → Act env Reply)
      → IsPassive env m
      → ((a : A) (w : World env) → IsStep at w (f a w).1)
      → (w : World env) → IsStep at w ((m >>= f) w).1
  unfolding ◌>>=◌
  bind-IsStep at m f p k w = continue-IsStep at (m w).0 f w (m w).1 (p.at w) (λ a. k a (m w).1)

  -- A request does to the rows of the tables what one operation of the service does that its
  -- route offers, or nothing; whatever its body, its headers and the faults are.
  pub serve-IsStep : (at : Route) (r : Request) (w : World env) → IsStep at w (serve web at r w).1
  unfolding serve route
  serve-IsStep at r w =
      bind-IsStep at _ _ (admit-IsPassive web (guard at) r)
        (λ c. bind-IsStep at _ _ (limit_rate-IsPassive web at r) (λ left u. record {
          operation = asked web at c left;
          is_asked = inr (c, left, refl);
          start = u;
          same = refl;
          applied_rows = (handle-asked web at c left).at u;
        }))
        w
