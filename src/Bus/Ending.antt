-- ===== src/Bus/Ending.antt =====
-- `Publish` comes to an end once every goroutine has.
use masterfabric_backend.Prelude.{
  ℕ, zero, suc, ◌<◌, ◌≤◌, ◌≡◌, refl, sym, ap, ◌∙◌, inl, inr, Bool, true, false, Bool-cases,
  Option-cases, Option, none, some, List, [], ◌∷◌, Memᴰ, length, ltb, arith,
}
use masterfabric_backend.Exec.{Result}
use masterfabric_backend.World.{Event}
use masterfabric_backend.Bus.{
  Bus, Goroutine, handlers_of, first_error, started, end_one, end_all, wait, publish,
}

abbrev has_outcome : Option (Result (Unit {0})) → Bool
has_outcome none = false
has_outcome (some r) = true

module _ {F Handler : Type 0} (handled : Handler → Event F → ℕ → Result (Unit {0})) where
  -- No goroutine at a place is still running.
  abbrev is_over : ℕ → List (Goroutine Handler) → Bool
  is_over idx [] = true
  is_over zero (g ∷ gs) = has_outcome g.outcome
  is_over (suc idx) (g ∷ gs) = is_over idx gs

  is_over-beyond :
      (idx : ℕ) (gs : List (Goroutine Handler)) → length gs ≤ idx → is_over idx gs ≡ true
  is_over-beyond idx [] h = refl
  is_over-beyond zero (g ∷ gs) h = absurd (omega arith)
  is_over-beyond (suc idx) (g ∷ gs) h = is_over-beyond idx gs (omega arith)

  module _ (event : Event F) where
    end_one-over :
        (n idx : ℕ) (gs : List (Goroutine Handler))
        → is_over idx (end_one handled event n idx gs) ≡ true
    unfolding end_one
    end_one-over n idx [] = refl
    end_one-over n zero (g ∷ gs) = refl
    end_one-over n (suc idx) (g ∷ gs) = end_one-over n idx gs

    end_one-keep :
        (n idx at : ℕ) (gs : List (Goroutine Handler))
        → is_over at gs ≡ true
        → is_over at (end_one handled event n idx gs) ≡ true
    unfolding end_one
    end_one-keep n idx at [] h = refl
    end_one-keep n zero zero (g ∷ gs) h = refl
    end_one-keep n zero (suc at) (g ∷ gs) h = h
    end_one-keep n (suc idx) zero (g ∷ gs) h = h
    end_one-keep n (suc idx) (suc at) (g ∷ gs) h = end_one-keep n idx at gs h

    end_all-keep :
        (n at : ℕ) (schedule : List ℕ) (gs : List (Goroutine Handler))
        → is_over at gs ≡ true
        → is_over at (end_all handled event n schedule gs) ≡ true
    unfolding end_all
    end_all-keep n at [] gs h = h
    end_all-keep n at (idx ∷ schedule) gs h =
        end_all-keep (suc n) at schedule (end_one handled event n idx gs)
          (end_one-keep n idx at gs h)

    end_all-over :
        (n at : ℕ) (schedule : List ℕ) (gs : List (Goroutine Handler))
        → Memᴰ at schedule
        → is_over at (end_all handled event n schedule gs) ≡ true
    unfolding end_all
    end_all-over n at [] gs m = elim m [ ]
    end_all-over n at (idx ∷ schedule) gs (Memᴰ.head e) =
        end_all-keep (suc n) at schedule (end_one handled event n idx gs)
          (ap (λ (k : ℕ). is_over at (end_one handled event n k gs)) (sym e) ∙ end_one-over n at gs)
    end_all-over n at (idx ∷ schedule) gs (Memᴰ.tail m) =
        end_all-over (suc n) at schedule (end_one handled event n idx gs) m

    length-end_one :
        (n idx : ℕ) (gs : List (Goroutine Handler))
        → length (end_one handled event n idx gs) ≡ length gs
    unfolding end_one
    length-end_one n idx [] = refl
    length-end_one n zero (g ∷ gs) = refl
    length-end_one n (suc idx) (g ∷ gs) = ap suc (length-end_one n idx gs)

    length-end_all :
        (n : ℕ) (schedule : List ℕ) (gs : List (Goroutine Handler))
        → length (end_all handled event n schedule gs) ≡ length gs
    unfolding end_all
    length-end_all n [] gs = refl
    length-end_all n (idx ∷ schedule) gs =
        length-end_all (suc n) schedule (end_one handled event n idx gs) ∙ length-end_one n idx gs

  length-started : (hs : List Handler) → length (started handled hs) ≡ length hs
  unfolding started
  length-started [] = refl
  length-started (h ∷ hs) = ap suc (length-started hs)

  wait_returns :
      (gs : List (Goroutine Handler))
      → ((idx : ℕ) → is_over idx gs ≡ true)
      → (errs : List (Result (Unit {0}))) × (wait handled gs ≡ some errs)
  unfolding wait
  wait_returns [] over = ([], refl)
  wait_returns (g ∷ gs) over =
      let (errs, w) = wait_returns gs (λ idx. over (suc idx)) in
      elim (Option-cases g.outcome) [
        | inl running ↦ cc (over 0, ap has_outcome running)
        | inr (r, done) ↦ (r ∷ errs, rw (done, wait) (rw w refl))
      ]

  all_over :
      (event : Event F) (hs : List Handler) (schedule : List ℕ)
      → ((idx : ℕ) → idx < length hs → Memᴰ idx schedule)
      → (idx : ℕ) → is_over idx (end_all handled event 0 schedule (started handled hs)) ≡ true
  all_over event hs schedule each idx = elim (Bool-cases (ltb idx (length hs))) [
    | inl inside ↦ end_all-over event 0 idx schedule (started handled hs) (each idx (ground arith))
    | inr outside ↦
        is_over-beyond idx (end_all handled event 0 schedule (started handled hs))
          (ground (arith, length-end_all event 0 schedule (started handled hs), length-started hs))
  ]

  -- A publication returns, whatever the order in which the handlers do, once each of the topic's
  -- handlers has returned.
  pub publish_returns :
      (bus : Bus handled) (event : Event F) (schedule : List ℕ)
      → ((idx : ℕ) → idx < length (handlers_of handled bus event.topic) → Memᴰ idx schedule)
      → (r : Result (Unit {0})) × (publish handled bus event schedule ≡ some r)
  unfolding publish
  publish_returns bus event schedule each =
      let hs = handlers_of handled bus event.topic in
      let (errs, w) =
        wait_returns (end_all handled event 0 schedule (started handled hs))
          (all_over event hs schedule each) in
      (first_error errs, rw (publish, w) refl)
