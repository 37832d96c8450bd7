-- ===== src/Bus/Laws.antt =====
-- What `Publish` answers, in whatever order the handlers return.
use masterfabric_backend.Prelude.{ℕ, ◌≡◌, some, List, [], ◌∷◌, ◌++◌, All, string_eq}
use masterfabric_backend.Exec.{Result, ok}
use masterfabric_backend.World.{Event}
use masterfabric_backend.Bus.{Bus, Goroutine}

-- All went well; or the answer is an error, and those before it went well.
pub data IsFirst (errs : List (Result (Unit {0}))) (r : Result (Unit {0})) : Type 0 where
  none_failed : r ≡ ok tt → All (λ q. q ≡ ok tt) errs → IsFirst errs r
  failed :
      (front back : List (Result (Unit {0})))
      → errs ≡ front ++ r ∷ back
      → All (λ q. q ≡ ok tt) front
      → (r ≡ ok tt → ⊥)
      → IsFirst errs r

module _ {F Handler : Type 0} (handled : Handler → Event F → ℕ → Result (Unit {0})) where
  -- Each handler has returned, in a place of its own.
  abbrev pub Returned : Event F → List Handler → List (Result (Unit {0})) → Type 0
  Returned event [] [] = Unit
  Returned event [] (r ∷ errs) = ⊥
  Returned event (h ∷ hs) [] = ⊥
  Returned event (h ∷ hs) (r ∷ errs) = ((n : ℕ) × (handled h event n ≡ r)) × Returned event hs errs

  -- All the handlers have returned, and the answer is the first error in their order, or none.
  pub record IsPublished (hs : List Handler) (event : Event F) (r : Result (Unit {0}))
      : Type 0 where
    pub errs : List (Result (Unit {0}))
    pub returned : Returned event hs errs
    pub first : IsFirst errs r

  -- A goroutine for the handler, which may have returned.
  record IsFor (event : Event F) (h : Handler) (g : Goroutine Handler) : Type 0 where
    same : g.handler ≡ h
    own : (r : Result (Unit {0})) → g.outcome ≡ some r → (n : ℕ) × (handled h event n ≡ r)

  abbrev AreFor : Event F → List Handler → List (Goroutine Handler) → Type 0
  AreFor event [] [] = Unit
  AreFor event [] (g ∷ gs) = ⊥
  AreFor event (h ∷ hs) [] = ⊥
  AreFor event (h ∷ hs) (g ∷ gs) = IsFor event h g × AreFor event hs gs
