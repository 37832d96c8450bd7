-- ===== src/Http/Cors.antt =====
-- internal/shared/middleware/cors.go. `strings.EqualFold` is a parameter.
use mathlib.Core.Option.{some-injective}
use masterfabric_backend.Prelude.{
  ◌≡◌, refl, sym, ◌∙◌, ◌≢◌, inl, inr, Bool, true, false, not, ◌&&◌, ◌||◌, String, Option, none,
  some, List, [], ◌∷◌, ap, Bool-cases, ◌==◌, string_eq, if◌then◌else◌, arith,
}

-- The headers that depend on the origin; the lists of methods and headers are constants.
pub record Grant : Type 0 where
  pub allow_origin : String
  pub vary : Bool
  pub credentials : Bool

-- What the middleware does with a request: the grant that it writes, and whether it answers 204
-- itself instead of calling the next handler.
pub record Outcome : Type 0 where
  pub grant : Option Grant
  pub answered : Bool

-- The loop that sets `allowAll`.
unfoldable pub has_star : List String → Bool
has_star [] = false
has_star (o ∷ origins) = o == "*" || has_star origins

unfoldable pub allow_all : List String → Bool
unfolding has_star
allow_all [] = true
allow_all (o ∷ origins) = has_star (o ∷ origins)

module _ (equal_fold : String → String → Bool) where
  unfoldable pub origin_allowed : String → List String → Bool
  origin_allowed origin [] = false
  origin_allowed origin (a ∷ allowed) = equal_fold a origin || origin_allowed origin allowed

  unfoldable pub cors : List String → String → String → Outcome
  unfolding origin_allowed allow_all
  cors allowed origin method = record {
    grant =
        if not (origin == "") && (allow_all allowed || origin_allowed origin allowed)
        then some (
            if allow_all allowed
            then record { allow_origin = "*"; vary = false; credentials = not (allow_all allowed) }
            else record {
              allow_origin = origin;
              vary = true;
              credentials = not (allow_all allowed);
            })
        else none;
    answered = method == "OPTIONS";
  }

none-ne-some : {g : Grant} → none ≡ some g → ⊥
none-ne-some h = cc h

module _ (equal_fold : String → String → Bool) where
  has_star-allowed : (allowed : List String) → allow_all allowed ≡ false → has_star allowed ≡ false
  unfolding allow_all has_star
  has_star-allowed [] h = cc
  has_star-allowed (o ∷ allowed) h = h

  star_not_allowed :
      (allowed : List String)
      → ((a : String) → equal_fold a "*" ≡ true → (a == "*") ≡ true)
      → has_star allowed ≡ false
      → origin_allowed equal_fold "*" allowed ≡ false
  unfolding origin_allowed has_star
  star_not_allowed [] fold h = refl
  star_not_allowed (a ∷ allowed) fold h = ground (arith, fold a, star_not_allowed allowed fold)

  -- An answer that allows credentials names the very origin of the request, which equals an
  -- entry of the list under case folding, and is not "*", where folding makes only "*" equal to
  -- "*".
  pub credentials_named :
      (allowed : List String) (origin method : String) (g : Grant)
      → ((a : String) → equal_fold a "*" ≡ true → (a == "*") ≡ true)
      → (cors equal_fold allowed origin method).grant ≡ some g
      → g.credentials ≡ true
      → (g.allow_origin ≡ origin)
        × (origin_allowed equal_fold origin allowed ≡ true)
        × (g.allow_origin ≢ "*")
  unfolding cors
  credentials_named allowed origin method g fold h on =
      elim (Bool-cases
        (not (origin == "") && (allow_all allowed || origin_allowed equal_fold origin allowed))) [
          | inr e ↦ absurd (none-ne-some (rw e at h))
          | inl e ↦ elim (Bool-cases (allow_all allowed)) [
            | inl f ↦
                let same = some-injective _ g (rw f at (rw e at h)) in
                cc (ap (λ (x : Grant). x.credentials) same, on)
            | inr f ↦
                let same = some-injective _ g (rw f at (rw e at h)) in
                let named : g.allow_origin ≡ origin =
                  sym (ap (λ (x : Grant). x.allow_origin) same) in
                let listed : origin_allowed equal_fold origin allowed ≡ true =
                  ground (arith, e, f) in
                (
                  named,
                  listed,
                  λ star.
                      let refused = star_not_allowed allowed fold (has_star-allowed allowed f) in
                      cc (listed, refused, sym named ∙ star),
                )
          ]
        ]
